-- ===== src/Examples/Ps.antt =====
-- The examples of service/ps/: a server on a disk, whose engine and raft group take everything.
mod Codecs
mod Deleted
use sim_search.Prelude.{
  ℕ, ◌≡◌, ◌⊎◌, refl, sym, ◌∙◌, Bool, true, false, not, List, [], ◌∷◌, ◌++◌, Option, none, some,
  arith, Str, is_empty, codes, str_lt, if◌then◌else◌,
}
use sim_search.Prelude.Int.{pos, negsuc, is_negative}
use sim_search.Prelude.Assoc.{get?, put, has}
use sim_search.Common.Messages.{
  PsNodeInfo, MasterGenIdRequest, MasterGenIdResponse, RegisterRequest, RegisterResponse,
}
use sim_search.External.Braft.{Braft}
use sim_search.External.FileSystem.{Disk, IsWritable, disk}
use sim_search.External.Gamma.{Gamma}
use sim_search.External.Http.{Http, Conversion}
use sim_search.Ps.LocalMata
use sim_search.Ps.LocalMata.{LocalMata, new_mata, with_dir}
use sim_search.Ps.LocalStorager.{Config, create_or_load_node_mata}
use sim_search.Ps.LocalStorager.Identity.{create_or_load_node_mata-again}
use sim_search.Ps.Rpc.{Ps, create_space, space_has_exist}
use sim_search.Ps.Rpc.Answers.{create_space-create_space}
use sim_search.Ps.Rpc.Saved.{create_space-init}
use sim_search.Ps.Main.{recover}
use sim_search.Ps.Main.Rejoins.{restart_group, recover-create_space}
use sim_search.Ps.Rpc.Group.{node_of}
use sim_search.Ps.Register.{registered, launch_rounds, api_register}
use sim_search.Ps.Register.Masters.{NoneRefuses, launch_rounds-registered}
use sim_search.Utils.BrpcHttp
use sim_search.Utils.BrpcHttp.Answers.{AnswersAt}
use sim_search.Examples.Ps.Codecs.{node_codec, request_codec, named}
use sim_search.Examples.Values.{none-some}

abbrev pub ready_braft : Braft Disk
ready_braft = record {
  create_directory = λ p w. (w, true);
  open_data = λ p w. (w, some 3);
  is_endpoint = λ s. true;
  is_configuration = λ s. true;
  node_init = λ options w. (w, true);
  leader_id = λ options w. [];
  node_shutdown = λ options w. w;
  node_join = λ options w. w;
  delete_tree = λ p w. (w, true);
}

abbrev pub ready_gamma : Gamma Disk
ready_gamma = record {
  add_or_update_doc = λ doc w. (w, 0);
  get_doc_by_id = λ key w. none;
  init_engine = λ path name w. w;
  create_table = λ table w. (w, 0, []);
  load = λ w. (w, 0);
  close = λ w. w;
}

-- An engine that makes no table.
abbrev full_gamma : Gamma Disk
full_gamma = record ready_gamma { create_table = λ table w. (w, 5, []) }

-- Every server answers with one byte.
abbrev pub one_byte_http : Http Disk
one_byte_http = record {
  random = λ min max w. (w, min);
  random_bounds = λ min max w h. (omega arith, h);
  channel_init = λ addr balancer w. (w, true);
  post = λ addr path body w. (w, some (7 ∷ []));
}

abbrev ids : Conversion MasterGenIdRequest MasterGenIdResponse
ids = record {
  print = λ a. some [];
  parse = λ t old. (record { id = pos 7; code = 0; msg = [] }, true);
  empty = record { id = pos 0; code = 0; msg = [] };
}

abbrev pub config : Config
config = record {
  cur_ip = 49 ∷ [];
  raft_root_dir = 114 ∷ [];
  engine_data_dir = 101 ∷ [];
  rpc_port = 80;
  master_urls = (109 ∷ []) ∷ [];
  raft_election_timeout_ms = 1000;
  raft_snap_interval_s = 60;
}

writable : (path : Str) → IsWritable disk path
unfolding disk
writable path = λ text w. refl

-- A directory on a disk, and the server that starts there.
abbrev pub dir : List ℕ
dir = 100 ∷ []

abbrev started : Ps Disk
started =
    let (m, node_id, w) =
      create_or_load_node_mata one_byte_http ids config disk node_codec request_codec new_mata dir
        ((dir, []) ∷ []) in
    record { mata = m; block = none; world = w }

abbrev pub serving : Ps Disk
serving =
    (create_space disk ready_braft ready_gamma node_codec request_codec config started
      (named 97 103)).0

started-id :
    is_negative
      (create_or_load_node_mata one_byte_http ids config disk node_codec request_codec new_mata dir
        ((dir, []) ∷ [])).1
    ≡ false
unfolding create_or_load_node_mata disk new_mata str_lt
started-id = refl

started-dir : disk.path_exists dir started.world ≡ true
unfolding create_or_load_node_mata disk new_mata str_lt
started-dir = refl

no_space_file : disk.read_file (with_dir new_mata dir).space_schema_file started.world ≡ none
unfolding create_or_load_node_mata disk new_mata with_dir str_lt
no_space_file = refl

create_or_load_node_mata-again_example :
    let (m, again, w) =
      create_or_load_node_mata one_byte_http ids config disk node_codec request_codec new_mata dir
        started.world in
    (again
      ≡ (create_or_load_node_mata one_byte_http ids config disk node_codec request_codec new_mata
          dir
          ((dir, []) ∷ [])).1)
    × (w ≡ started.world)
create_or_load_node_mata-again_example =
    create_or_load_node_mata-again one_byte_http ids config disk node_codec request_codec dir
      ((dir, []) ∷ []) refl (writable _) started-id started-dir
      (λ u e. none-some (sym no_space_file ∙ e))

failing-create_space :
    (create_space disk ready_braft full_gamma node_codec request_codec config started
      (named 97 103)).1.code
    ≡ 5
unfolding create_space disk create_or_load_node_mata new_mata str_lt
failing-create_space = refl

create_space-create_space_example :
    let s' =
      (create_space disk ready_braft full_gamma node_codec request_codec config started
        (named 97 103)).0 in
    create_space disk ready_braft full_gamma node_codec request_codec config s' (named 98 104)
    ≡ (s', record { code = 201; msg = space_has_exist s'.mata.space_req.space.space_name })
create_space-create_space_example =
    create_space-create_space disk ready_braft full_gamma node_codec request_codec config started
      (named 97 103) (named 98 104) refl

serving-code :
    (create_space disk ready_braft ready_gamma node_codec request_codec config started
      (named 97 103)).1.code
    ≡ 0
unfolding create_space disk create_or_load_node_mata new_mata str_lt
serving-code = refl

serving-file : started.mata.space_schema_file ≡ (with_dir new_mata dir).space_schema_file
unfolding create_or_load_node_mata disk new_mata with_dir str_lt
serving-file = refl

serving-dir : disk.path_exists dir serving.world ≡ true
unfolding create_space disk create_or_load_node_mata new_mata str_lt
serving-dir = refl

-- The identity 7, at the address 49 and the port 80.
abbrev pub info : PsNodeInfo
info = record { ps_id = pos 7; ps_ip = 49 ∷ []; ps_port = 80 }

serving-node :
    disk.read_file (with_dir new_mata dir).node_info_file serving.world
    ≡ some (0 ∷ 7 ∷ 80 ∷ 49 ∷ [])
unfolding create_space disk create_or_load_node_mata new_mata with_dir str_lt
serving-node = refl

create_space-init_example :
    LocalMata.init disk node_codec request_codec new_mata dir serving.world ≡ (
      record (with_dir new_mata dir) {
        ps_node_info = info;
        space_req = named 97 103;
        has_space = true;
      },
      true,
      serving.world,
    )
create_space-init_example =
    create_space-init disk ready_braft ready_gamma node_codec request_codec config started
      (named 97 103) dir (0 ∷ 7 ∷ 80 ∷ 49 ∷ []) info serving-code (writable _) serving-file
      serving-dir serving-node refl

abbrev restarted : Ps Disk
restarted = record {
  mata = (LocalMata.init disk node_codec request_codec new_mata dir serving.world).0;
  block = none;
  world = serving.world;
}

abbrev running : Option (Ps Disk)
running = recover ready_braft ready_gamma config restarted

abbrev or_serving : Option (Ps Disk) → Ps Disk
or_serving none = serving
or_serving (some s) = s

running-some : running ≡ some (or_serving running)
unfolding recover create_space disk create_or_load_node_mata new_mata str_lt
running-some = refl

started-ip : info.ps_ip ≡ started.mata.ps_node_info.ps_ip
unfolding create_or_load_node_mata disk new_mata
started-ip = refl

recover-create_space_example : node_of (or_serving running).block ≡ (
    if is_empty (restart_group ready_braft ready_gamma config restarted.mata serving.world).1
    then node_of serving.block
    else none)
recover-create_space_example =
    recover-create_space disk ready_braft ready_gamma node_codec request_codec config started
      (or_serving running) (named 97 103) dir (0 ∷ 7 ∷ 80 ∷ 49 ∷ []) info refl serving-code
      (writable _) serving-file serving-dir serving-node refl started-ip running-some

abbrev registrations : Conversion RegisterRequest RegisterResponse
registrations = record {
  print = λ a. some [];
  parse = λ t old. (record { code = 0; msg = []; register_key = t }, true);
  empty = record { code = 0; msg = []; register_key = [] };
}

abbrev registration : RegisterRequest
registration = record { ip = 49 ∷ []; port = 80; id = 7 }

master-AnswersAt :
    AnswersAt one_byte_http registrations api_register ((109 ∷ []) ∷ []) registration 0
unfolding BrpcHttp.ask
master-AnswersAt resp w = refl

master-NoneRefuses : NoneRefuses one_byte_http registrations ((109 ∷ []) ∷ []) registration
unfolding BrpcHttp.ask
master-NoneRefuses i resp w answered = refl

launch_rounds-registered_example :
    (key : Str) × ((launch_rounds one_byte_http registrations
        ((109 ∷ []) ∷ [])
        1
        false
        registration
        []).0
      ≡ registered key)
launch_rounds-registered_example =
    launch_rounds-registered one_byte_http registrations ((109 ∷ []) ∷ []) registration false 0 0 []
      (omega arith) master-AnswersAt master-NoneRefuses
