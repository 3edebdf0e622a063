-- ===== src/Utils/BrpcHttp.antt =====
-- utils/brpc_http.h, HttpPost: a request to one of several servers. The list has a server at least; with
-- none the source draws a number out of an empty range.
pub mod Answers
use sim_search.Prelude.{
  ℕ, zero, suc, ◌+◌, ◌-◌, ◌%◌, Bool, true, false, List, [], ◌∷◌, Option, none, some, length, get_or,
  Str,
}
use sim_search.External.Http.{Http, Conversion}

-- A body that does not convert is sent empty.
abbrev pub body_of : Option Str → Str
body_of none = []
body_of (some text) = text

module _ {W : Type 0} (http : Http W) {Req Resp : Type 0} (json : Conversion Req Resp) (path : Str)
    (ip_port_list : List Str) where
  -- One request to a server, and whether it gave a response.
  unfoldable pub ask : ℕ → Req → Resp → W → Bool × Resp × W
  ask addr_idx req resp w =
      let ip_port = get_or ip_port_list addr_idx [] in
      let (w1, made) = http.channel_init ip_port [] w in
      elim made [
        | false ↦ (false, resp, w1)
        | true ↦
            let (w2, answer) = http.post ip_port path (body_of (json.print req)) w1 in
            elim answer [
              | none ↦ (false, resp, w2)
              | some resp_str ↦
                  let (resp', parsed) = json.parse resp_str resp in (parsed, resp', w2)
            ]
      ]

  unfoldable pub post_rounds : ℕ → ℕ → Req → Resp → W → Bool × Resp × W
  unfolding ask
  post_rounds zero addr_idx req resp w = (false, resp, w)
  post_rounds (suc rounds) addr_idx req resp w =
      let (done, resp', w') = ask addr_idx req resp w in
      elim done [
        | true ↦ (true, resp', w')
        | false ↦ post_rounds rounds ((addr_idx + 1) % length ip_port_list) req resp' w'
      ]

  -- Whether it returns 0, and the response.
  unfoldable pub http_post : Req → Resp → ℕ → W → Bool × Resp × W
  unfolding post_rounds
  http_post req resp max_retry w =
      let (w', addr_idx) = http.random 0 (length ip_port_list - 1) w in
      post_rounds max_retry addr_idx req resp w'
