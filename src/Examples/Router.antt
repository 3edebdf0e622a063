-- ===== src/Examples/Router.antt =====
-- The examples of service/router/: documents, partitions and the handlers.
mod Spaces
use sim_search.Prelude.{
  All, length, ◌<◌, arith, ℕ, ◌≡◌, ◌≢◌, refl, Bool, true, false, ◌||◌, List, [], ◌∷◌, Option, none,
  some, if◌then◌else◌, arith, is_empty, length, Str, str_key, nat_key,
}
use sim_search.Prelude.Assoc.{get?, has}
use sim_search.Common.Messages.{Document}
use sim_search.External.FileSystem.{Disk, disk}
use sim_search.Router.Hashing.{DocsGroup, hash_keys, hash_docs}
use sim_search.Router.Hashing.Groups.{keys_of, infos_of, get?-hash_docs}
use sim_search.Router.Manager.{Router}
use sim_search.Router.Partition
use sim_search.Router.Partition.{PartitionConnetion, new_partition}
use sim_search.Router.Partition.Answers.{asks, IsAnswer, get_docs-IsAnswer}
use sim_search.Router.Partition.Writes.{StoredOrReported, upsert_docs-StoredOrReported}
use sim_search.Router.Rpc
use sim_search.Router.Rpc.{IdsRequest, UpsertRequest}
use sim_search.Router.Rpc.Writes.{upsert}
use sim_search.Router.Rpc.Complete.{IsComplete, get-IsComplete, upsert-never_succeeds}
use sim_search.Router.Space
use sim_search.Router.Space.{SpaceConnection, connector}
use sim_search.Router.Space.Bounds.{upsert_all, upsert_all-init-AllBelow}
use sim_search.Router.Space.Answers.{get_docs-hash_keys}
use sim_search.Examples.Values.{
  by_length, no_json, good_net, document, partition, space, roomy_router,
}

abbrev keys : List Str
keys = (65 ∷ []) ∷ (66 ∷ 66 ∷ []) ∷ (67 ∷ []) ∷ []

abbrev documents : List Document
documents = document 65 ∷ document 66 ∷ document 67 ∷ []

get?-hash_docs_example : get? (hash_docs by_length 2 documents keys) 1 ≡ (
    if is_empty (infos_of by_length 2 1 documents keys)
    then none
    else some (record {
      partition_id = 1;
      pb_doc_infos = infos_of by_length 2 1 documents keys;
      data_text = [];
    }))
get?-hash_docs_example = get?-hash_docs by_length 2 documents keys 1 refl

-- A partition with one replica, which answers.
abbrev pub served : PartitionConnetion
served = (Partition.init good_net (new_partition (97 ∷ []) (98 ∷ [])) partition []).1

get_docs-IsAnswer_example :
    IsAnswer keys []
      (Partition.get_docs good_net served keys [] []).1
      (Partition.get_docs good_net served keys [] []).2
      (65 ∷ [])
get_docs-IsAnswer_example = get_docs-IsAnswer good_net served keys [] [] (65 ∷ [])

-- A serializer that takes each document but one with no id.
abbrev pub serialize : Document → Option Str
serialize d = if is_empty d.id then none else some d.id

abbrev pub group : DocsGroup
group = record {
  partition_id = 0;
  pb_doc_infos = record { key = 65 ∷ []; pb_doc = document 65 } ∷ [];
  data_text = [];
}

upsert_docs-StoredOrReported_example :
    StoredOrReported good_net serialize
      (Partition.upsert_docs good_net serialize served group []).2
      group.pb_doc_infos
upsert_docs-StoredOrReported_example =
    upsert_docs-StoredOrReported good_net serialize served group []

abbrev pub conn : SpaceConnection
conn = (Space.init good_net (space 97 98) []).0

-- The space has one partition.
get_docs-hash_keys_example :
    let groups = hash_keys by_length conn.pb_space.partition_num keys in
    All (λ p. p.0 < length conn.partition_list) groups
    × ((has (Space.get_docs good_net conn groups [] [] []).1 (66 ∷ 66 ∷ [])
          || has (Space.get_docs good_net conn groups [] [] []).2 (66 ∷ 66 ∷ []))
        ≡ asks keys (66 ∷ 66 ∷ []))
unfolding Space.init Space.init_partitions
get_docs-hash_keys_example =
    get_docs-hash_keys by_length good_net conn keys [] (66 ∷ 66 ∷ []) (omega arith) refl

upsert_all-init-AllBelow_example :
    let conn' =
      upsert_all good_net serialize
        (Space.init good_net (space 97 98) []).0
        (((0, group) ∷ [], [], []) ∷ []) in
    All
      (λ p. p.0 < length conn'.partition_list)
      (hash_keys by_length conn'.pb_space.partition_num keys)
    × All
        (λ p. p.0 < length conn'.partition_list)
        (hash_docs by_length conn'.pb_space.partition_num documents keys)
upsert_all-init-AllBelow_example =
    upsert_all-init-AllBelow good_net serialize by_length (space 97 98)
      (((0, group) ∷ [], [], []) ∷ []) documents keys [] (omega arith) refl

-- A router with the space, and requests to it.
abbrev router : Router SpaceConnection Disk
router = (Rpc.add_space by_length disk no_json good_net roomy_router (space 97 98)).1

abbrev ids : IdsRequest
ids = record { db_name = 97 ∷ []; space_name = 98 ∷ []; ids = (65 ∷ []) ∷ (66 ∷ 66 ∷ []) ∷ [] }

get-IsComplete_example : IsComplete ids.ids (Rpc.get by_length good_net router ids).0
get-IsComplete_example = get-IsComplete by_length good_net router ids

abbrev upserts : UpsertRequest
upserts = record { db_name = 97 ∷ []; space_name = 98 ∷ []; documents = document 65 ∷ [] }

upsert-never_succeeds_example : (upsert by_length good_net serialize router upserts).0.code ≢ 0
upsert-never_succeeds_example =
    upsert-never_succeeds by_length good_net serialize router upserts refl
