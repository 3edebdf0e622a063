-- ===== src/Raft/Block/Replicas.antt =====
-- raft_store/raft_store.cc: the replicas of a group apply one log to their engines alike, whether they
-- have the closure of an entry or parse its bytes.
use sim_search.Prelude.{
  ◌^◌, ◌<◌, ◌≡◌, ◌⊎◌, refl, sym, ap, ◌∙◌, subst, true, false, List, [], ◌∷◌, Option, none, some,
  Bool-cases, inl, inr, if◌then◌else◌, is_empty, length, All, Str, map,
}
use sim_search.Prelude.Int.{is_negative}
use sim_search.Common.Messages.{Space, Document, BlockRequest, BlockResponse}
use sim_search.External.Braft.{Braft}
use sim_search.External.Codec.{Codec}
use sim_search.External.Gamma.{Gamma}
use sim_search.Raft.Block.{Block, BlockClosure, Task, write}
use sim_search.Raft.Block.Log.{frame, parse_log, parse_log-frame}
use sim_search.Raft.Block.Apply.{Entry, Halt, finished, rolled_back, data_of, apply_data, apply_all}

none-some : {A B : Type 0} {x : A} → none ≡ some x → B
none-some h = cc

abbrev task_or : Task → Option Task → Task
task_or t none = t
task_or t (some u) = u

module _ (requests : Codec BlockRequest) where
  -- The log of a task is made from its request, of less than 2^32 bytes, and its data.
  abbrev pub IsFramed : Task → Type 0
  IsFramed t =
      (text : Str) × (requests.print t.done.request ≡ some text)
      × (length text < 2 ^ 32)
      × (t.log ≡ frame text t.done.data_text)

  -- A replica has the log of the task, and the closure if it is the one that wrote it.
  abbrev pub IsDelivery : Task → Entry → Type 0
  IsDelivery t e = (e.log ≡ t.log) × ((e.done ≡ none) ⊎ (e.done ≡ some t.done))

  abbrev pub AreDeliveries : List Task → List Entry → Type 0
  AreDeliveries [] [] = Unit
  AreDeliveries [] (e ∷ entries) = ⊥
  AreDeliveries (t ∷ tasks) [] = ⊥
  AreDeliveries (t ∷ tasks) (e ∷ entries) = IsDelivery t e × AreDeliveries tasks entries

  data_of-done :
      (e : Entry) (c : BlockClosure) → e.done ≡ some c → data_of requests e ≡ some c.data_text
  unfolding data_of
  data_of-done e c h = rw (h, data_of) refl

  data_of-parsed :
      (e : Entry) (request : BlockRequest) (data_text : Str)
      → e.done ≡ none
      → parse_log requests e.log ≡ some (request, data_text)
      → data_of requests e ≡ some data_text
  unfolding data_of
  data_of-parsed e request data_text h p = rw (h, p, data_of) refl

  data_of-IsDelivery :
      (t : Task) (e : Entry)
      → IsFramed t
      → IsDelivery t e
      → data_of requests e ≡ some t.done.data_text
  data_of-IsDelivery t e (text, printed, short, framed) (same, inr h) = data_of-done e t.done h
  data_of-IsDelivery t e (text, printed, short, framed) (same, inl h) =
      data_of-parsed e t.done.request t.done.data_text h (
        ap (parse_log requests) (same ∙ framed)
        ∙ parse_log-frame requests t.done.request text t.done.data_text printed short)

  write-IsFramed :
      {W : Type 0} (braft : Braft W) (b : Block) (request : BlockRequest) (response : BlockResponse)
      (data_text text : Str) (w : W) (t : Task)
      → requests.print request ≡ some text
      → length text < 2 ^ 32
      → (write braft requests.print b request response data_text w).1 ≡ some t
      → IsFramed t
  unfolding write
  write-IsFramed braft b request response data_text text w t printed short h =
      elim (Bool-cases (is_negative b.leader_term)) [
        | inl p ↦ none-some (rw (p, write) at h)
        | inr p ↦
            let made : Task = record {
              log = frame text data_text;
              expected_term = if b.check_term then some b.leader_term else none;
              done = record { request = request; response = response; data_text = data_text };
            } in
            let same : made ≡ t = ap (task_or made) (rw (p, printed, write) at h) in
            subst (λ u. IsFramed u) same (text, printed, short, refl)
      ]

  -- A task that some block handed to its group, for a request of less than 2^32 bytes.
  abbrev pub IsWritten : {W : Type 0} → Braft W → Task → Type 0
  IsWritten {W} braft t =
      (b : Block) × (request : BlockRequest) × (response : BlockResponse) × (data_text : Str)
      × (text : Str) × (w : W) × (requests.print request ≡ some text)
      × (length text < 2 ^ 32)
      × ((write braft requests.print b request response data_text w).1 ≡ some t)

  All-IsFramed :
      {W : Type 0} (braft : Braft W) (tasks : List Task)
      → All (IsWritten braft) tasks
      → All IsFramed tasks
  All-IsFramed braft [] h = tt
  All-IsFramed braft (t ∷ tasks)
        ((b, request, response, data_text, text, w, printed, short, h), hs) =
      (
        write-IsFramed braft b request response data_text text w t printed short h,
        All-IsFramed braft tasks hs,
      )

module _ {W : Type 0} (gamma : Gamma W) (docs : Codec Document) (space : Space) where
  -- The documents one after the other, up to the first that the engine does not take.
  unfoldable pub replay : List Str → W → W × Halt
  replay [] w = (w, finished)
  replay (data_buf ∷ datas) w =
      let (w', msg) = apply_data gamma docs space data_buf w in
      elim (is_empty msg) [ true ↦ replay datas w' | false ↦ (w', rolled_back) ]

  -- A replica that applies the entries of tasks, whose logs were made from requests of less than
  -- 2^32 bytes, each entry with or without its closure, takes the documents of the tasks one after
  -- the other, up to the first that its engine refuses.
  pub apply_all-replay :
      (requests : Codec BlockRequest) (tasks : List Task) (entries : List Entry) (w : W)
      → All (IsFramed requests) tasks
      → AreDeliveries requests tasks entries
      → (
        (apply_all gamma docs space requests entries w).world,
        (apply_all gamma docs space requests entries w).halt,
      )
        ≡ replay (map (λ t. t.done.data_text) tasks) w
  unfolding apply_all replay
  apply_all-replay requests [] [] w framed h = refl
  apply_all-replay requests [] (e ∷ entries) w framed h = absurd h
  apply_all-replay requests (t ∷ tasks) [] w framed h = absurd h
  apply_all-replay requests (t ∷ tasks) (e ∷ entries) w (framed, all_framed) (h, hs) =
      let found = data_of-IsDelivery requests t e framed h in
      let (w', msg) = apply_data gamma docs space t.done.data_text w in
      elim (Bool-cases (is_empty msg)) [
        | inr p ↦ rw (found, p, apply_all, replay) refl
        | inl p ↦
            rw (found, p, apply_all, replay)
              (apply_all-replay requests tasks entries w' all_framed hs)
      ]

  -- Two replicas that start from one state, and apply the entries of the same written tasks, with
  -- requests of less than 2^32 bytes, each with or without its closure, end in one state and in the
  -- same way.
  pub apply_all-agrees :
      (requests : Codec BlockRequest) (braft : Braft W) (tasks : List Task)
      (leader follower : List Entry) (w : W)
      → All (IsWritten requests braft) tasks
      → AreDeliveries requests tasks leader
      → AreDeliveries requests tasks follower
      → ((apply_all gamma docs space requests leader w).world
          ≡ (apply_all gamma docs space requests follower w).world)
        × ((apply_all gamma docs space requests leader w).halt
            ≡ (apply_all gamma docs space requests follower w).halt)
  apply_all-agrees requests braft tasks leader follower w written h k =
      let framed = All-IsFramed requests braft tasks written in
      let same =
        apply_all-replay requests tasks leader w framed h
        ∙ sym (apply_all-replay requests tasks follower w framed k) in
      (ap (λ p. p.0) same, ap (λ p. p.1) same)
