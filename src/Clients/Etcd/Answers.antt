-- ===== src/Clients/Etcd/Answers.antt =====
-- clients/etcd_client.cc, EtcdOp: an operation reaches every node of etcd, if it must.
use sim_search.Prelude.{
  true-false, ℕ, zero, suc, ◌+◌, ◌%◌, ◌≤◌, ◌<◌, ◌≡◌, ◌≢◌, refl, sym, ap, ◌∙◌, true, false, List,
  none, some, Bool-cases, inl, inr, length, Str, arith,
}
use sim_search.External.Http.{Http, Conversion}
use sim_search.Clients.RoundRobin.{steps_to, next-lt, steps_to-ne, steps_to-next}
use sim_search.Clients.Etcd.{EtcdOps, op_path, get_channel, ask, op_rounds, etcd_op}

module _ {W : Type 0} (http : Http W) {Req Resp : Type 0} (json : Conversion Req Resp) where
  -- The node at a position answers this request, whenever it is asked.
  abbrev pub AnswersAt : Str → List Str → Req → ℕ → Type 0
  AnswersAt path chans request i =
      (response : Resp) (w : W) → (ask http json path chans i request response w).0 ≡ true

  module _ (path : Str) (chans : List Str) (request : Req) (i : ℕ) where
    refused :
        (q : ℕ) (response : Resp) (w : W)
        → (ask http json path chans q request response w).0 ≡ false
        → AnswersAt path chans request i
        → q ≢ i
    refused q response w e answers = λ same.
        let yes = answers response w in
        true-false
          (sym yes ∙ ap (λ k. (ask http json path chans k request response w).0) (sym same) ∙ e)

    op_rounds-after :
        (rounds p : ℕ) (response : Resp) (w : W)
        → p < length chans
        → i < length chans
        → steps_to (length chans) p i ≤ rounds
        → AnswersAt path chans request i
        → (op_rounds http json path chans rounds (some p) request response w).0 ≡ true
    unfolding op_rounds get_channel
    op_rounds-after zero p response w h k enough answers = absurd (ground arith)
    op_rounds-after (suc rounds) p response w h k enough answers =
        let q = (p + 1) % length chans in
        let (done, response', w2) = ask http json path chans q request response w in
        elim (Bool-cases done) [
          | inl e ↦ rw (e, op_rounds) refl
          | inr e ↦
              let nearer = steps_to-next (length chans) p i h k (refused q response w e answers) in
              rw (e, op_rounds)
                (op_rounds-after rounds q response' w2 (next-lt (length chans) p h) k
                  (omega (arith, nearer, enough)) answers)
        ]

    get_channel-lt :
        (w : W) → 0 < length chans → (get_channel http none (length chans) w).1 < length chans
    unfolding get_channel
    get_channel-lt w h =
        let (low, high) = http.random_bounds 1 (length chans) w (omega (arith, h)) in
        omega (arith, low, high)

    op_rounds-first :
        (rounds : ℕ) (response : Resp) (w : W)
        → i < length chans
        → length chans ≤ rounds
        → AnswersAt path chans request i
        → (op_rounds http json path chans rounds none request response w).0 ≡ true
    unfolding op_rounds
    op_rounds-first zero response w k enough answers = absurd (omega (arith, k))
    op_rounds-first (suc rounds) response w k enough answers =
        let (w1, q) = get_channel http none (length chans) w in
        let (done, response', w2) = ask http json path chans q request response w1 in
        let q_lt : q < length chans = get_channel-lt w (omega (arith, k)) in
        elim (Bool-cases done) [
          | inl e ↦ rw (e, op_rounds) refl
          | inr e ↦
              rw (e, op_rounds)
                (op_rounds-after rounds q response' w2 q_lt k
                  (omega (
                    arith,
                    steps_to-ne (length chans) q i q_lt k (refused q response w1 e answers),
                    enough,
                  ))
                  answers)
        ]

  -- If a node of etcd answers a request whenever it is asked, an operation with the request succeeds,
  -- whatever the other nodes do and wherever the operation begins.
  pub etcd_op-answers :
      (chans : List Str) (op : EtcdOps) (request : Req) (response : Resp) (i : ℕ) (w : W)
      → i < length chans
      → AnswersAt (op_path op) chans request i
      → (etcd_op http json chans op request response w).0 ≡ true
  unfolding etcd_op
  etcd_op-answers chans op request response i w k answers =
      op_rounds-first (op_path op) chans request i (length chans) response w k (omega arith) answers
