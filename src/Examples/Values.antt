-- ===== src/Examples/Values.antt =====
-- The inputs that the examples share: a world that is a disk, and a network in which every server answers.
use sim_search.Prelude.{
  ℕ, ◌≡◌, refl, true, false, List, [], ◌∷◌, none, some, arith, length, Str, str_key,
}
use sim_search.Common.Messages.{
  Field, Replica, Partition, Space, Document, BlockRequest, BlockResponse, upsert, string,
  empty_document,
}
use sim_search.Common.Names.{gen_space_key}
use sim_search.External.Codec.{Codec}
use sim_search.External.FileSystem.{Disk}
use sim_search.External.Network.{Network, reply}
use sim_search.Router.LocalSpaces.{LocalSpaces}
use sim_search.Router.Manager.{Connector, Router, new_manager}
use sim_search.Router.Manager.Session.{fresh}

-- A hash under which texts of one length share a bucket.
abbrev pub by_length : Str → ℕ
by_length s = length s

pub none-some : {A : Type 0} {B : Type 0} {x : A} → none ≡ some x → B
none-some e = cc

-- A converter that fails.
abbrev pub no_json : Codec (List Space)
no_json = record { print = λ a. none; parse = λ t. ([], false); parse-print = λ a t e. none-some e }

abbrev pub bare_connector : Connector Disk
bare_connector = record {
  Conn = Space;
  connect = λ s w. (s, w);
  space_key = λ s. gen_space_key s.db_name s.space_name;
  space_key-connect = λ s w. refl;
}

abbrev pub document : ℕ → Document
document c = record empty_document { id = c ∷ [] }

abbrev acknowledged : BlockResponse
acknowledged = record { success = true; redirect = []; msg = [] }

-- Every server is there, and has the document 65 and no other.
abbrev pub good_net : Network Disk
good_net = record {
  random = λ min max w. (w, min);
  random_bounds = λ min max w h. (omega arith, h);
  channel_init = λ addr w. (w, true);
  ps_get = λ addr keys w.
      (w, reply (record { code = 0; msg = []; documents = document 65 ∷ []; failed_docs = [] }));
  raft_write = λ leader req text w. (w, reply acknowledged);
  update_configuration = λ group conf w. (w, true);
  select_leader = λ group w. (w, some (49 ∷ []));
  refresh_leader = λ group w. (w, true);
  update_leader = λ group leader w. w;
  is_asked_to_quit = λ w. (w, false);
}

-- No group has a leader.
abbrev pub leaderless_net : Network Disk
leaderless_net = record good_net { select_leader = λ group w. (w, none) }

abbrev pub replica : Replica
replica = record { ps_id = 1; ps_ip = 49 ∷ []; ps_port = 80 }

abbrev pub partition : Partition
partition = record { partition_id = 0; group_name = 103 ∷ []; replicas = replica ∷ [] }

abbrev id_field : Field
id_field = record {
  name = 95 ∷ 105 ∷ 100 ∷ [];
  type = 108 ∷ 111 ∷ 110 ∷ 103 ∷ [];
  dimension = none;
  index = none;
}

-- A space named by two characters, with one partition and ids that are texts.
abbrev pub space : ℕ → ℕ → Space
space c d = record {
  db_name = c ∷ [];
  space_name = d ∷ [];
  id = 1;
  partition_num = 1;
  replica_num = 1;
  fields = [];
  partitions = partition ∷ [];
  id_type = 115 ∷ [];
}

abbrev pub no_spaces : LocalSpaces
no_spaces = record { filename = 102 ∷ []; path = 112 ∷ []; pb_spaces = [] }

-- A router before `Init`, and one with room for ten spaces.
abbrev pub new_router : {Conn : Type 0} → Router Conn Disk
new_router = record { manager = new_manager; local = no_spaces; world = [] }

abbrev pub roomy_router : {Conn : Type 0} → Router Conn Disk
roomy_router = record { manager = fresh 10; local = no_spaces; world = [] }

abbrev pub request : BlockRequest
request = record {
  db_name = 97 ∷ [];
  space_name = 98 ∷ [];
  impl_type = upsert;
  key_type = string;
  key = 65 ∷ [];
}
