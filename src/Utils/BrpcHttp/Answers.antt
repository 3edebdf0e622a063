-- ===== src/Utils/BrpcHttp/Answers.antt =====
-- utils/brpc_http.h, HttpPost: with as many rounds as servers, each server is asked.
use sim_search.Prelude.{
  true-false, ℕ, zero, suc, ◌+◌, ◌-◌, ◌%◌, ◌≤◌, ◌<◌, ◌≡◌, ◌≢◌, ◌⊎◌, refl, sym, ap, ◌∙◌, true, false,
  List, Bool-cases, inl, inr, ==_iff, ◌==◌, length, Str, arith,
}
use sim_search.External.Http.{Http, Conversion}
use sim_search.Clients.RoundRobin.{steps_to, next-lt, steps_to-ne, steps_to-next}
use sim_search.Utils.BrpcHttp.{ask, post_rounds, http_post}

differs : (a b : ℕ) → (a == b) ≡ false → a ≢ b
differs a b h = ground arith

module _ {W : Type 0} (http : Http W) {Req Resp : Type 0} (json : Conversion Req Resp) (path : Str)
    (ip_port_list : List Str) (req : Req) where
  -- The server at a position answers this request, whenever it is asked.
  abbrev pub AnswersAt : ℕ → Type 0
  AnswersAt i = (resp : Resp) (w : W) → (ask http json path ip_port_list i req resp w).0 ≡ true

  refused :
      (i q : ℕ) (resp : Resp) (w : W)
      → (ask http json path ip_port_list q req resp w).0 ≡ false
      → AnswersAt i
      → q ≢ i
  refused i q resp w e answers = λ same. true-false (
      sym (answers resp w)
      ∙ ap (λ k. (ask http json path ip_port_list k req resp w).0) (sym same)
      ∙ e)

  -- The position is the next one that is asked, or is reached in the rounds after.
  abbrev IsAhead : ℕ → ℕ → ℕ → Type 0
  IsAhead rounds q i = (q ≡ i) ⊎ (steps_to (length ip_port_list) q i < rounds)

  later :
      (rounds q i : ℕ)
      → q < length ip_port_list
      → i < length ip_port_list
      → q ≢ i
      → IsAhead (suc rounds) q i
      → (0 < rounds) × IsAhead rounds ((q + 1) % length ip_port_list) i
  later rounds q i h k ne (inl same) = absurd (ne same)
  later rounds q i h k ne (inr near) =
      let n = length ip_port_list in
      let next = (q + 1) % n in
      let left : 0 < rounds = ground (arith, near, h, k) in
      elim (Bool-cases (next == i)) [
        | inl e ↦ (left, inl ((==_iff next i).0 e))
        | inr e ↦ (left, inr (omega (arith, steps_to-next n q i h k (differs next i e), near)))
      ]

  post_rounds-answers :
      (rounds q i : ℕ) (resp : Resp) (w : W)
      → q < length ip_port_list
      → i < length ip_port_list
      → 0 < rounds
      → IsAhead rounds q i
      → AnswersAt i
      → (post_rounds http json path ip_port_list rounds q req resp w).0 ≡ true
  unfolding post_rounds
  post_rounds-answers zero q i resp w h k some_round ahead answers =
      absurd (omega (arith, some_round))
  post_rounds-answers (suc rounds) q i resp w h k some_round ahead answers =
      let n = length ip_port_list in
      let next = (q + 1) % n in
      let (done, resp', w') = ask http json path ip_port_list q req resp w in
      elim (Bool-cases done) [
        | inl e ↦ rw (e, post_rounds) refl
        | inr e ↦
            let ne = refused i q resp w e answers in
            let (left, still) = later rounds q i h k ne ahead in
            rw (e, post_rounds)
              (post_rounds-answers rounds next i resp' w' (next-lt n q h) k left still answers)
      ]

  -- With as many rounds as servers at least, if a server answers the request whenever it is asked,
  -- `HttpPost` succeeds, whatever the other servers do and wherever it begins.
  pub http_post-answers :
      (resp : Resp) (max_retry i : ℕ) (w : W)
      → i < length ip_port_list
      → length ip_port_list ≤ max_retry
      → AnswersAt i
      → (http_post http json path ip_port_list req resp max_retry w).0 ≡ true
  unfolding http_post
  http_post-answers resp max_retry i w k enough answers =
      let n = length ip_port_list in
      let (w', q) = http.random 0 (n - 1) w in
      let (low, high) = http.random_bounds 0 (n - 1) w (omega arith) in
      let q_lt : q < n = omega (arith, high, k) in
      let ahead : IsAhead max_retry q i = elim (Bool-cases (q == i)) [
        | inl e ↦ inl ((==_iff q i).0 e)
        | inr e ↦ inr (omega (arith, steps_to-ne n q i q_lt k (differs q i e), enough))
      ] in
      post_rounds-answers max_retry q i resp w' q_lt k (omega (arith, k, enough)) ahead answers

  -- What holds of every response that a server gives holds of that of a post that succeeds.
  post_rounds-holds :
      (P : Resp → Type 0)
      → ((i : ℕ) (resp : Resp) (w : W)
          → (ask http json path ip_port_list i req resp w).0 ≡ true
          → P (ask http json path ip_port_list i req resp w).1)
      → (rounds q : ℕ) (resp : Resp) (w : W)
      → (post_rounds http json path ip_port_list rounds q req resp w).0 ≡ true
      → P (post_rounds http json path ip_port_list rounds q req resp w).1
  unfolding post_rounds
  post_rounds-holds P holds zero q resp w h = absurd (true-false (sym h))
  post_rounds-holds P holds (suc rounds) q resp w h =
      let n = length ip_port_list in
      let (done, resp', w') = ask http json path ip_port_list q req resp w in
      elim (Bool-cases done) [
        | inl e ↦ rw (e, post_rounds) (holds q resp w e)
        | inr e ↦
            rw (e, post_rounds)
              (post_rounds-holds P holds rounds ((q + 1) % n) resp' w' (rw (e, post_rounds) at h))
      ]

  pub http_post-holds :
      (P : Resp → Type 0)
      → ((i : ℕ) (resp : Resp) (w : W)
          → (ask http json path ip_port_list i req resp w).0 ≡ true
          → P (ask http json path ip_port_list i req resp w).1)
      → (resp : Resp) (max_retry : ℕ) (w : W)
      → (http_post http json path ip_port_list req resp max_retry w).0 ≡ true
      → P (http_post http json path ip_port_list req resp max_retry w).1
  unfolding http_post
  http_post-holds P holds resp max_retry w h =
      let (w', q) = http.random 0 (length ip_port_list - 1) w in
      post_rounds-holds P holds max_retry q resp w' h
