-- ===== src/Ps/Register/Masters.antt =====
-- service/ps/ps_register.cc: one master that answers is enough.
use sim_search.Prelude.{ℕ, suc, ◌*◌, ◌<◌, ◌≡◌, refl, Bool, true, List, length, Str, ◌==◌, arith}
use sim_search.Common.Messages.{RegisterRequest, RegisterResponse}
use sim_search.External.Http.{Http, Conversion}
use sim_search.Ps.Register.{registered, launch_rounds, api_register}
use sim_search.Utils.BrpcHttp.{ask, http_post}
use sim_search.Utils.BrpcHttp.Answers.{AnswersAt, http_post-answers, http_post-holds}

zero_code : {n : ℕ} → n ≡ 0 → (n == 0) ≡ true
zero_code h = ground arith

module _ {W : Type 0} (http : Http W) (json : Conversion RegisterRequest RegisterResponse)
    (master_urls : List Str) (req : RegisterRequest) where
  -- No master refuses the request: a response that it gives has the code 0.
  abbrev pub NoneRefuses : Type 0
  NoneRefuses =
      (i : ℕ) (resp : RegisterResponse) (w : W)
      → (ask http json api_register master_urls i req resp w).0 ≡ true
      → (ask http json api_register master_urls i req resp w).1.code ≡ 0

  -- If a master answers the request whenever it is asked, and no master refuses it, the first round of
  -- the registration gives a key, for a server with a space and for one without.
  pub launch_rounds-registered :
      (has_space : Bool) (rounds i : ℕ) (w : W)
      → i < length master_urls
      → AnswersAt http json api_register master_urls req i
      → NoneRefuses
      → (key : Str) × ((launch_rounds http json master_urls (suc rounds) has_space req w).0
          ≡ registered key)
  unfolding launch_rounds
  launch_rounds-registered has_space rounds i w k answers accepts =
      let max_retry = length master_urls * 2 in
      let done =
        http_post-answers http json api_register master_urls req json.empty max_retry i w k
          (omega arith) answers in
      let accepted : ((http_post http json api_register master_urls req json.empty max_retry
              w).1.code
            == 0)
          ≡ true =
        zero_code (
          http_post-holds http json api_register master_urls req (λ resp. resp.code ≡ 0) accepts
            json.empty max_retry w done) in
      (
        (http_post http json api_register master_urls req json.empty max_retry w).1.register_key,
        rw (launch_rounds, done, accepted) refl,
      )
