-- ===== src/Cluster/Replayed.antt =====
-- raft_store/raft_store.cc, on_apply, in a group: the engine against the log of what it took, and the
-- answers that a write is given.
use sim_search.Prelude.{
  ◌≡◌, refl, sym, ap, ◌∙◌, subst, true, false, List, [], ◌∷◌, ◌++◌, Option, none, some, Bool-cases,
  Option-cases, inl, inr, if◌then◌else◌, true-false, is_empty, Str,
}
use mathlib.Core.List.{Mem, mem-append_left, mem-append_right, mem-cons_self}
use sim_search.Common.Messages.{Space, Document, BlockRequest, BlockResponse}
use sim_search.External.Braft.{Braft}
use sim_search.External.Codec.{Codec}
use sim_search.External.Gamma.{Gamma}
use sim_search.Raft.Block.{Block, BlockClosure, Task, run, redirect, with_success, failed_with}
use sim_search.Raft.Block.Apply.{Halt, finished, rolled_back, apply_data, apply_all, data_of}
use sim_search.Raft.Block.Replicas.{replay}
use sim_search.Cluster.{Environment, Group, is_finished, deliver}

module _ {W : Type 0} (gamma : Gamma W) (docs : Codec Document) (space : Space) where
  -- The world of the engine after the log, and after the document that it refused.
  abbrev pub Ends : Option Str → W → W → Type 0
  Ends none w engine = engine ≡ w
  Ends (some d) w engine = replay gamma docs space (d ∷ []) w ≡ (engine, rolled_back)

  -- From the world `w0` the engine took all of the log, and then refused what the group says.
  abbrev pub IsReplayed : {E : Type 0} → W → Group E W → Type 0
  IsReplayed w0 g =
      (w : W) × (replay gamma docs space g.log w0 ≡ (w, finished)) × Ends g.refused w g.engine

  replay-append :
      (xs ys : List Str) (w0 w : W)
      → replay gamma docs space xs w0 ≡ (w, finished)
      → replay gamma docs space (xs ++ ys) w0 ≡ replay gamma docs space ys w
  unfolding replay
  replay-append [] ys w0 w h = ap (λ (r : W × Halt). replay gamma docs space ys r.0) h
  replay-append (x ∷ xs) ys w0 w h =
      let (w', msg) = apply_data gamma docs space x w0 in
      elim (Bool-cases (is_empty msg)) [
        | inr p ↦
            let stops : (w', rolled_back) ≡ (w, finished) = (rw (p, replay) at h) in
            absurd (true-false (sym (ap (λ (r : W × Halt). is_finished r.1) stops)))
        | inl p ↦ rw (p, replay) (replay-append xs ys w' w (rw (p, replay) at h))
      ]

  replay_one :
      (d : Str) (w : W)
      → replay gamma docs space (d ∷ []) w ≡ (
        (apply_data gamma docs space d w).0,
        (if is_empty (apply_data gamma docs space d w).1 then finished else rolled_back),
      )
  unfolding replay
  replay_one d w = elim (Bool-cases (is_empty (apply_data gamma docs space d w).1)) [
    | inl p ↦ rw (p, replay) refl
    | inr p ↦ rw (p, replay) refl
  ]

module _ {W : Type 0} (braft : Braft W) where
  pub redirect-fails :
      (b : Block) (response : BlockResponse) (w : W) → (redirect braft b response w).success ≡ false
  unfolding redirect
  redirect-fails b response w = elim (Option-cases b.node) [
    | inl e ↦ rw (e, redirect) refl
    | inr (node, e) ↦ elim (Bool-cases (is_empty (braft.leader_id node w))) [
      | inl p ↦ rw (e, p, redirect) refl
      | inr p ↦ rw (e, p, redirect) refl
    ]
  ]

  pub run-fails :
      (b : Block) (closure : BlockClosure) (w : W) → (run braft b closure false w).success ≡ false
  unfolding run
  run-fails b closure w = redirect-fails b closure.response w

module _ {E W : Type 0} (environment : Environment E) (braft : Braft W) (gamma : Gamma W)
    (docs : Codec Document) (space : Space) (requests : Codec BlockRequest) where
  deliver-taken :
      (b : Block) (t : Task) (g : Group E W)
      → is_empty (apply_data gamma docs space t.done.data_text g.engine).1 ≡ true
      → deliver environment braft gamma docs space requests b t g ≡ (
        with_success t.done.response true,
        record g {
          log = g.log ++ t.done.data_text ∷ [];
          engine = (apply_data gamma docs space t.done.data_text g.engine).0;
        },
      )
  unfolding deliver apply_all data_of run
  deliver-taken b t g p = rw (p, deliver, apply_all, data_of, run) refl

  deliver-refused :
      (b : Block) (t : Task) (g : Group E W)
      → is_empty (apply_data gamma docs space t.done.data_text g.engine).1 ≡ false
      → ((deliver environment braft gamma docs space requests b t g).1 ≡ record g {
        refused = some t.done.data_text;
        engine = (apply_data gamma docs space t.done.data_text g.engine).0;
      })
        × ((deliver environment braft gamma docs space requests b t g).0.success ≡ false)
  unfolding deliver apply_all data_of
  deliver-refused b t g p =
      let (w', msg) = apply_data gamma docs space t.done.data_text g.engine in
      let closure : BlockClosure = record t.done {
        response =
            if is_empty msg
            then with_success t.done.response true
            else failed_with t.done.response msg;
      } in
      rw (p, deliver, apply_all, data_of) (refl, run-fails braft b closure w')

  replay-taken :
      (w0 : W) (g : Group E W) (d : Str)
      → g.refused ≡ none
      → IsReplayed gamma docs space w0 g
      → replay gamma docs space (g.log ++ d ∷ []) w0 ≡ (
        (apply_data gamma docs space d g.engine).0,
        (if is_empty (apply_data gamma docs space d g.engine).1 then finished else rolled_back),
      )
  replay-taken w0 g d none_refused (w, taken, ends) =
      let same : g.engine ≡ w = subst (λ r. Ends gamma docs space r w g.engine) none_refused ends in
      replay-append gamma docs space g.log (d ∷ []) w0 w taken
      ∙ subst
          (λ u. replay gamma docs space (d ∷ []) u ≡ (
            (apply_data gamma docs space d g.engine).0,
            (if is_empty (apply_data gamma docs space d g.engine).1 then finished else rolled_back),
          ))
          same (replay_one gamma docs space d g.engine)

  pub deliver-IsReplayed :
      (b : Block) (t : Task) (w0 : W) (g : Group E W)
      → g.refused ≡ none
      → IsReplayed gamma docs space w0 g
      → IsReplayed gamma docs space w0 (deliver environment braft gamma docs space requests b t g).1
  deliver-IsReplayed b t w0 g none_refused h =
      let d = t.done.data_text in
      let (w', msg) = apply_data gamma docs space d g.engine in
      elim (Bool-cases (is_empty msg)) [
        | inl p ↦
            subst (λ r. IsReplayed gamma docs space w0 r)
              (sym (ap (λ (r : BlockResponse × Group E W). r.1) (deliver-taken b t g p)))
              (
                w',
                replay-taken w0 g d none_refused h
                    ∙ ap (λ ok. (w', (if ok then finished else rolled_back))) p,
                subst (λ r. Ends gamma docs space r w' w') (sym none_refused) refl,
              )
        | inr p ↦
            subst (λ r. IsReplayed gamma docs space w0 r) (sym (deliver-refused b t g p).0)
              (
                g.engine,
                h.1
                    ∙ ap (λ u. (u, finished))
                        (sym (subst (λ r. Ends gamma docs space r h.0 g.engine) none_refused h.2)),
                replay_one gamma docs space d g.engine
                    ∙ ap (λ ok. (w', (if ok then finished else rolled_back))) p,
              )
      ]

  -- What was in the log stays in it.
  pub deliver-log :
      (b : Block) (t : Task) (g : Group E W) (d : Str)
      → Mem d g.log
      → Mem d (deliver environment braft gamma docs space requests b t g).1.log
  deliver-log b t g d m =
      elim (Bool-cases (is_empty (apply_data gamma docs space t.done.data_text g.engine).1)) [
        | inl p ↦
            subst (λ (r : BlockResponse × Group E W). Mem d r.1.log) (sym (deliver-taken b t g p))
              (mem-append_left (t.done.data_text ∷ []) m)
        | inr p ↦ subst (λ (r : Group E W). Mem d r.log) (sym (deliver-refused b t g p).0) m
      ]

  pub deliver-success :
      (b : Block) (t : Task) (g : Group E W)
      → (deliver environment braft gamma docs space requests b t g).0.success ≡ true
      → Mem t.done.data_text (deliver environment braft gamma docs space requests b t g).1.log
  deliver-success b t g success =
      elim (Bool-cases (is_empty (apply_data gamma docs space t.done.data_text g.engine).1)) [
        | inl p ↦
            subst (λ (r : BlockResponse × Group E W). Mem t.done.data_text r.1.log)
              (sym (deliver-taken b t g p)) (mem-append_right g.log mem-cons_self)
        | inr p ↦ absurd (true-false (sym success ∙ (deliver-refused b t g p).1))
      ]
