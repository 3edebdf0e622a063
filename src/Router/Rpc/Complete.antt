-- ===== src/Router/Rpc/Complete.antt =====
-- service/router/router_rpc.cc: what the responses of the document handlers say of each id.
use sim_search.Prelude.{
  ℕ, suc, ◌+◌, ◌≡◌, ◌≢◌, refl, ap, ◌∙◌, true, false, not, ◌||◌, List, [], ◌∷◌, Option, arith,
  Bool-cases, Option-cases, inl, inr, ◌==◌, is_empty, length, replicate, Str, str_eq_refl, str_key,
  All,
}
use sim_search.Prelude.Assoc.{has}
use sim_search.Common.Messages.{Document, GetResponse}
use sim_search.Common.Names.{gen_space_key}
use sim_search.Dto.Checks.{check_pb_ids}
use sim_search.External.Network.{Network}
use sim_search.Router.Hashing.{hash_keys}
use sim_search.Router.Manager
use sim_search.Router.Manager.{Router}
use sim_search.Router.Partition.Answers.{asks}
use sim_search.Router.Space
use sim_search.Router.Space.{SpaceConnection}
use sim_search.Router.Space.Answers.{get_docs-asks}
use sim_search.Router.Rpc.{
  IdsRequest, UpsertRequest, add_same_msg, answer_ids, get_from, get, check_documents,
}
use sim_search.Router.Rpc.Writes.{upsert}

answer_ids-length :
    (err_ids : List (Str × Str)) (docs_res : List (Str × Document)) (ids : List Str)
    → length (answer_ids err_ids docs_res ids).0 + length (answer_ids err_ids docs_res ids).1
      ≡ length ids
unfolding answer_ids
answer_ids-length err_ids docs_res [] = refl
answer_ids-length err_ids docs_res (key ∷ keys) =
    ground (arith, answer_ids-length err_ids docs_res keys)

answer_ids-none :
    (docs_res : List (Str × Document)) (ids : List Str)
    → All (λ key. has docs_res key ≡ true) ids
    → (answer_ids [] docs_res ids).1 ≡ []
unfolding answer_ids has
answer_ids-none docs_res [] h = refl
answer_ids-none docs_res (key ∷ keys) (h, hs) = ground (arith, h, answer_ids-none docs_res keys hs)

add_same_msg-length : (ids : List Str) (msg : Str) → length (add_same_msg ids msg) ≡ length ids
unfolding add_same_msg
add_same_msg-length [] msg = refl
add_same_msg-length (key ∷ keys) msg = ap suc (add_same_msg-length keys msg)

-- Where no entry of the map is an error, each id that is asked for has a document.
All-asked :
    (docs_res : List (Str × Document)) (ids all : List Str)
    → ((j : Str) → asks ids j ≡ true → asks all j ≡ true)
    → ((j : Str) → asks all j ≡ true → has docs_res j ≡ true)
    → All (λ key. has docs_res key ≡ true) ids
unfolding asks
All-asked docs_res [] all sub h = tt
All-asked docs_res (key ∷ keys) all sub h = (
  h key (sub key (ground (arith, str_eq_refl key))),
  All-asked docs_res keys all (λ j p. sub j (ground (arith, p))) h,
)

no_error-none :
    (err_ids : List (Str × Str)) (docs_res : List (Str × Document)) (ids : List Str)
    → ((j : Str) → (has err_ids j || has docs_res j) ≡ asks ids j)
    → is_empty err_ids ≡ true
    → (answer_ids err_ids docs_res ids).1 ≡ []
unfolding has
no_error-none [] docs_res ids covered e =
    answer_ids-none docs_res ids (All-asked docs_res ids ids (λ j p. p) (λ j p. covered j ∙ p))
no_error-none (_ ∷ _) docs_res ids covered e = cc

-- A response in which each id is either a document or a failure, and in which nothing failed where
-- the code is 0.
pub record IsComplete (ids : List Str) (resp : GetResponse) : Type 0 where
  pub counted : length resp.documents + length resp.failed_docs ≡ length ids
  pub clean : (not (resp.code == 0) || is_empty resp.failed_docs) ≡ true

is_empty-nil : {A : Type 0} {xs : List A} → xs ≡ [] → is_empty xs ≡ true
is_empty-nil e = rw e refl

refused-IsComplete :
    (ids : List Str) (code : ℕ) (msg : Str)
    → (code == 0) ≡ false
    → IsComplete ids
        (record { code = code; msg = msg; documents = []; failed_docs = add_same_msg ids msg })
refused-IsComplete ids code msg ne = record {
  counted = ground (arith, add_same_msg-length ids msg);
  clean = ground (arith, ne);
}

module _ {W : Type 0} (hash : Str → ℕ) (net : Network W) where
  get_from-IsComplete :
      (conn : SpaceConnection) (ids : List Str) (w : W)
      → IsComplete ids (get_from hash net conn ids w).0
  unfolding get_from
  get_from-IsComplete conn ids w =
      let (w', err_ids, docs_res) =
        Space.get_docs net conn (hash_keys hash conn.pb_space.partition_num ids) [] [] w in
      elim (Bool-cases (is_empty (check_pb_ids ids conn.pb_space))) [
        | inr e ↦ rw (e, get_from) (refused-IsComplete ids 102 _ refl)
        | inl e ↦ elim (Bool-cases (is_empty err_ids)) [
          | inr f ↦
              rw (e, f, get_from)
                (record { counted = answer_ids-length err_ids docs_res ids; clean = refl })
          | inl f ↦
              rw (e, f, get_from)
                (record {
                  counted = answer_ids-length err_ids docs_res ids;
                  clean = is_empty-nil (
                      no_error-none err_ids docs_res ids
                        (get_docs-asks hash conn.pb_space.partition_num net conn ids w) f);
                })
        ]
      ]

  -- The response of `Get` has as many documents and failures together as the request has ids,
  -- whatever the servers do and also where the request is refused; and where its code is 0 it has
  -- no failure.
  pub get-IsComplete :
      (r : Router SpaceConnection W) (req : IdsRequest) → IsComplete req.ids (get hash net r req).0
  unfolding get
  get-IsComplete r req =
      elim (Option-cases
        (Manager.get_space_conn hash r (gen_space_key req.db_name req.space_name)).0) [
          | inl e ↦ rw (e, get) (refused-IsComplete req.ids 101 _ refl)
          | inr (conn, e) ↦ rw (e, get) (get_from-IsComplete conn req.ids r.world)
        ]

module _ {W : Type 0} (hash : Str → ℕ) (net : Network W) (serialize : Document → Option Str) where
  length-replicate_nil :
      (docs : List Document)
      → is_empty docs ≡ false
      → is_empty (replicate {A = Str} (length docs) []) ≡ false
  length-replicate_nil [] h = h
  length-replicate_nil (_ ∷ _) h = refl

  -- `Upsert` of at least one document never answers with code 0, whatever the servers do.
  pub upsert-never_succeeds :
      (r : Router SpaceConnection W) (req : UpsertRequest)
      → is_empty req.documents ≡ false
      → (upsert hash net serialize r req).0.code ≢ 0
  unfolding upsert
  upsert-never_succeeds r req h =
      let space_key = gen_space_key req.db_name req.space_name in
      elim (Option-cases (Manager.get_space_conn hash r space_key).0) [
        | inl e ↦ rw (e, upsert) (omega arith)
        | inr (conn, e) ↦
            elim (Bool-cases (is_empty (check_documents conn.pb_space req.documents))) [
              | inr f ↦ rw (e, f, upsert) (omega arith)
              | inl f ↦ rw (e, f, length-replicate_nil req.documents h, upsert) (omega arith)
            ]
      ]
