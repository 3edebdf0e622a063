-- ===== src/Examples/Router/Spaces.antt =====
-- The examples of service/router/space_manager.cc.
use sim_search.Prelude.{
  ◌<◌, ◌≡◌, refl, false, List, [], ◌∷◌, Option, none, some, if◌then◌else◌, arith, length, Str,
  str_eq,
}
use sim_search.Prelude.Int.{is_negative, to_int16}
use sim_search.Utils.IndexMap
use sim_search.Utils.IndexMap.{bucket_index, empty_map}
use sim_search.Utils.IndexMap.Bucket.{get_bucket, put_bucket}
use sim_search.Utils.Hash.{str_hash_uint64}
use sim_search.Utils.IndexMap.Laws.{get-empty}
use sim_search.Common.Messages.{Space}
use sim_search.Common.Names.{gen_space_key}
use sim_search.External.FileSystem.{Disk, disk}
use sim_search.Router.Manager.{
  append_slot, put_index, parse_all, Router, new_key, add_space, delete_space, get_space_conn,
  not_exist, init, reserve, new_manager,
}
use sim_search.Router.Manager.Soundness.{IsSound, add_space-IsSound}
use sim_search.Router.Manager.Laws.{Call, adds, deletes, Answers, IsAlone, get_space_conn-delete}
use sim_search.Router.Manager.Session.{
  startup_spaces, serve, fresh-IsSound, serve-Answers, add_space-serves, add_space-lost,
}
use sim_search.Examples.Values.{by_length, no_json, bare_connector, space, new_router, roomy_router}

abbrev key_of : Space → Str
key_of s = gen_space_key s.db_name s.space_name

-- Every value of etcd is the space named by `a` and `b`.
abbrev from_json : Str → Space × Option Str
from_json text = (space 97 98, none)

abbrev calls : List Call
calls = adds (space 99 100) ∷ deletes (key_of (space 97 98)) ∷ []

serve-Answers_example : Answers key_of (key_of (space 99 100)) (
    get_space_conn by_length
      (serve by_length disk no_json bare_connector
        (init by_length disk no_json bare_connector from_json new_router 10
          (some ((1 ∷ []) ∷ []))).1
        calls)
      (key_of (space 99 100)))
unfolding startup_spaces parse_all
serve-Answers_example =
    serve-Answers by_length disk no_json bare_connector from_json new_router 10 ((1 ∷ []) ∷ [])
      calls (key_of (space 99 100)) refl (omega arith) (omega arith)

roomy-IsSound : IsSound by_length key_of (roomy_router {Conn = Space}).manager
roomy-IsSound = fresh-IsSound by_length key_of 10 (omega arith)

router-IsSound :
    IsSound by_length key_of
      (add_space by_length disk no_json bare_connector roomy_router (space 97 98)).1.manager
router-IsSound =
    add_space-IsSound by_length disk no_json bare_connector roomy_router (space 97 98) roomy-IsSound

-- The router that has the space named by `a` and `b`.
abbrev router : Router Space Disk
router = (add_space by_length disk no_json bare_connector roomy_router (space 97 98)).1

get_space_conn-delete_example :
    ((delete_space by_length router (key_of (space 97 98))).0 ≡ [])
    × (get_space_conn by_length
          (delete_space by_length router (key_of (space 97 98))).1
          (key_of (space 97 98))
        ≡ (if str_eq (key_of (space 97 98)) (key_of (space 97 98))
            then (none, not_exist (key_of (space 97 98)))
            else get_space_conn by_length router (key_of (space 97 98))))
unfolding add_space gen_space_key IndexMap.get IndexMap.put empty_map reserve new_manager get_bucket
    IndexMap.bucket_of bucket_index str_hash_uint64 append_slot put_index put_bucket str_eq to_int16
get_space_conn-delete_example =
    get_space_conn-delete by_length key_of router (key_of (space 97 98)) (key_of (space 97 98))
      router-IsSound refl (omega arith)

abbrev key : Str
key = new_key by_length disk no_json bare_connector roomy_router (space 97 98)

roomy-IsAlone : IsAlone by_length (roomy_router {Conn = Space}).space_idx_mp key
unfolding reserve new_manager
roomy-IsAlone = λ j h. rw (get-empty by_length 500 j) refl

roomy-add_space :
    (add_space by_length disk no_json bare_connector roomy_router (space 97 98)).0 ≡ []
unfolding add_space gen_space_key IndexMap.get IndexMap.put empty_map reserve new_manager get_bucket
    IndexMap.bucket_of bucket_index str_hash_uint64 append_slot put_index put_bucket str_eq to_int16
roomy-add_space = refl

long_key : 1 < length key
unfolding gen_space_key
long_key = omega arith

add_space-serves_example :
    get_space_conn by_length
      (add_space by_length disk no_json bare_connector roomy_router (space 97 98)).1
      key
    ≡ (some (space 97 98), [])
add_space-serves_example =
    add_space-serves by_length disk no_json bare_connector roomy_router (space 97 98) roomy-IsSound
      long_key roomy-IsAlone roomy-add_space

-- Another space, whose key has the same length.
abbrev lost_key : Str
lost_key = new_key by_length disk no_json bare_connector router (space 99 100)

router-add_space : (add_space by_length disk no_json bare_connector router (space 99 100)).0 ≡ []
unfolding add_space gen_space_key IndexMap.get IndexMap.put empty_map reserve new_manager get_bucket
    IndexMap.bucket_of bucket_index str_hash_uint64 append_slot put_index put_bucket str_eq to_int16
router-add_space = refl

same_bucket :
    bucket_index by_length router.space_idx_mp key
    ≡ bucket_index by_length router.space_idx_mp lost_key
unfolding add_space gen_space_key IndexMap.get IndexMap.put empty_map reserve new_manager get_bucket
    IndexMap.bucket_of bucket_index str_hash_uint64 append_slot put_index put_bucket str_eq to_int16
same_bucket = refl

key-indexed : is_negative (IndexMap.get by_length router.space_idx_mp key) ≡ false
unfolding add_space gen_space_key IndexMap.get IndexMap.put empty_map reserve new_manager get_bucket
    IndexMap.bucket_of bucket_index str_hash_uint64 append_slot put_index put_bucket str_eq to_int16
key-indexed = refl

long_lost_key : 1 < length lost_key
unfolding gen_space_key
long_lost_key = omega arith

add_space-lost_example :
    get_space_conn by_length
      (add_space by_length disk no_json bare_connector router (space 99 100)).1
      lost_key
    ≡ (none, not_exist lost_key)
add_space-lost_example =
    add_space-lost by_length disk no_json bare_connector router (space 99 100) key router-IsSound
      long_lost_key same_bucket key-indexed router-add_space
