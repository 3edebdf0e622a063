-- ===== src/Examples/Block.antt =====
-- The examples of raft_store/raft_store.cc: a group whose leader writes one document.
use sim_search.Prelude.{
  ◌≡◌, refl, inl, inr, Bool, true, false, [], ◌∷◌, Option, none, some, arith, Str,
}
use sim_search.Prelude.Int.{pos}
use sim_search.Common.Messages.{
  Document, BlockRequest, BlockResponse, ImplType, KeyType, upsert, string, empty_space,
}
use sim_search.External.Codec.{Codec}
use sim_search.Raft.Block.{Block, Task, new_block, on_leader_start, is_leader, write}
use sim_search.Raft.Block.Log.{frame}
use sim_search.Raft.Block.Apply.{Entry, apply_all}
use sim_search.Raft.Block.Replicas.{IsFramed, IsWritten, replay, apply_all-replay, apply_all-agrees}
use sim_search.Raft.Block.Leader.{Reached, leads, fresh, next, is_some, write-is_leader}
use sim_search.Examples.Ps.{ready_braft, ready_gamma}
use sim_search.Examples.Values.{none-some, request, document}

abbrev text_or_empty : Option Str → Str
text_or_empty none = []
text_or_empty (some t) = t

-- A converter of the requests that write a document with a text for its id, of two short names.
abbrev print_parts : Str → Str → ImplType → KeyType → Str → Option Str
print_parts (c ∷ []) (d ∷ []) upsert string key = some (c ∷ d ∷ key)
print_parts _ _ _ _ _ = none

abbrev parse_request : Str → BlockRequest × Bool
parse_request (c ∷ d ∷ key) = (
  record {
    db_name = c ∷ [];
    space_name = d ∷ [];
    impl_type = upsert;
    key_type = string;
    key = key;
  },
  true,
)
parse_request _ = (request, false)

pub parse_request-print_parts :
    (db_name space_name : Str) (impl_type : ImplType) (key_type : KeyType) (key t : Str)
    → print_parts db_name space_name impl_type key_type key ≡ some t
    → parse_request t ≡ (
      record {
        db_name = db_name;
        space_name = space_name;
        impl_type = impl_type;
        key_type = key_type;
        key = key;
      },
      true,
    )
parse_request-print_parts db_name space_name impl_type key_type key t e = ground arith

abbrev pub requests : Codec BlockRequest
requests = record {
  print = λ a. print_parts a.db_name a.space_name a.impl_type a.key_type a.key;
  parse = parse_request;
  parse-print =
      λ a t e. parse_request-print_parts a.db_name a.space_name a.impl_type a.key_type a.key t e;
}

-- Every text is a document.
abbrev pub docs : Codec Document
docs = record {
  print = λ a. none;
  parse = λ t. (document 65, true);
  parse-print = λ a t e. none-some e;
}

abbrev response : BlockResponse
response = record { success = false; redirect = []; msg = [] }

abbrev pub leader : Block
leader = on_leader_start new_block (pos 2)

abbrev task : Task
task = record {
  log = frame (97 ∷ 98 ∷ 65 ∷ []) (1 ∷ []);
  expected_term = none;
  done = record { request = request; response = response; data_text = 1 ∷ [] };
}

abbrev at_leader : Entry
at_leader = record { log = task.log; done = some task.done }

abbrev at_follower : Entry
at_follower = record { log = task.log; done = none }

task-IsFramed : IsFramed requests task
task-IsFramed = (97 ∷ 98 ∷ 65 ∷ [], refl, (omega arith), refl)

apply_all-replay_example :
    (
      (apply_all ready_gamma docs empty_space requests (at_follower ∷ []) []).world,
      (apply_all ready_gamma docs empty_space requests (at_follower ∷ []) []).halt,
    )
    ≡ replay ready_gamma docs empty_space ((1 ∷ []) ∷ []) []
apply_all-replay_example =
    apply_all-replay ready_gamma docs empty_space requests (task ∷ []) (at_follower ∷ []) []
      (task-IsFramed, tt) ((refl, inl refl), tt)

leader-write : (write ready_braft requests.print leader request response (1 ∷ []) []).1 ≡ some task
unfolding write on_leader_start new_block
leader-write = refl

task-IsWritten : IsWritten requests ready_braft task
task-IsWritten =
    (leader, request, response, 1 ∷ [], 97 ∷ 98 ∷ 65 ∷ [], [], refl, (omega arith), leader-write)

apply_all-agrees_example :
    ((apply_all ready_gamma docs empty_space requests (at_leader ∷ []) []).world
      ≡ (apply_all ready_gamma docs empty_space requests (at_follower ∷ []) []).world)
    × ((apply_all ready_gamma docs empty_space requests (at_leader ∷ []) []).halt
        ≡ (apply_all ready_gamma docs empty_space requests (at_follower ∷ []) []).halt)
apply_all-agrees_example =
    apply_all-agrees ready_gamma docs empty_space requests ready_braft (task ∷ []) (at_leader ∷ [])
      (at_follower ∷ []) [] (task-IsWritten, tt) ((refl, inr refl), tt) ((refl, inl refl), tt)

leader-Reached : Reached ready_braft leader
leader-Reached = next fresh (leads new_block 2 (omega arith))

write-is_leader_example :
    is_some (write ready_braft requests.print leader request response (1 ∷ []) []).1
    ≡ is_leader leader
write-is_leader_example =
    write-is_leader ready_braft requests.print leader request response (1 ∷ []) (97 ∷ 98 ∷ 65 ∷ [])
      [] leader-Reached refl
