-- ===== src/Ps/Register.antt =====
-- service/ps/ps_register.cc: the registration of a partition server at the masters. The threads are
-- their bodies; the pause between two rounds is left out.
pub mod Masters
use sim_search.Prelude.{
  ℕ, zero, suc, ◌*◌, Bool, true, false, ◌&&◌, List, Option, none, some, if◌then◌else◌, ◌==◌, length,
  Str, codes, to_string,
}
use sim_search.Common.Messages.{RegisterRequest, RegisterResponse}
use sim_search.Clients.Etcd
use sim_search.Clients.Etcd.{EtcdClient, PutRequest}
use sim_search.External.Http.{Http, Conversion}
use sim_search.Utils.BrpcHttp.{http_post}

pub record PsRegister : Type 0 where
  pub etcd_cli : EtcdClient
  pub ip : Str
  pub port : ℕ
  pub id : ℕ
  pub node_v : Str

-- How `LaunchRegisterImpl` ends: with the key of the node, with -100, or not in the rounds that it has.
pub data Registration : Type 0 where
  registered : Str → Registration
  refused running : Registration

unfoldable pub register_request : PsRegister → RegisterRequest
register_request r = record { ip = r.ip; port = r.port; id = r.id }

abbrev pub api_register : Str
api_register = codes "/api/register"

module _ {W : Type 0} (http : Http W) where
  -- The client of etcd has the addresses of the masters; whether it returns 0.
  unfoldable pub init : PsRegister → List (Str × ℕ) → Str → Str → ℕ → ℕ → W → PsRegister × Bool × W
  unfolding Etcd.init to_string
  init r master_ip_ports lb ip port id w =
      let (etcd_cli, done, w') = Etcd.init http r.etcd_cli master_ip_ports lb w in
      (
        record { etcd_cli = etcd_cli; ip = ip; port = port; id = id; node_v = to_string port },
        done,
        w',
      )

  module _ (json : Conversion RegisterRequest RegisterResponse) (master_urls : List Str) where
    unfoldable pub launch_rounds : ℕ → Bool → RegisterRequest → W → Registration × W
    unfolding http_post
    launch_rounds zero has_space req w = (running, w)
    launch_rounds (suc rounds) has_space req w =
        let (ok, resp, w') =
          http_post http json api_register master_urls req json.empty (length master_urls * 2) w in
        let rest = launch_rounds rounds has_space req w' in
        if ok && (resp.code == 0)
        then (registered resp.register_key, w')
        else if has_space
        then rest
        else (refused, w')

    module _ {PutResp : Type 0} (grant_json : Conversion ℕ ℕ)
        (put_json : Conversion PutRequest PutResp) (alive_json : Conversion ℕ ℕ) where
      -- `LaunchRegisterImpl`: whether it returns 0, none where it still tries after these rounds. The
      -- keep-alive is what its thread does before its loop.
      unfoldable pub launch_register_impl : ℕ → Bool → PsRegister → ℕ → W → Option Bool × W
      unfolding launch_rounds register_request Etcd.start_keep_alive
      launch_register_impl rounds has_space r hearbeat_interval_s w =
          let (registration, w') = launch_rounds rounds has_space (register_request r) w in
          elim registration [
            | registered register_key ↦ (
              some true,
              (Etcd.start_keep_alive http grant_json put_json alive_json r.etcd_cli register_key
                  r.node_v hearbeat_interval_s w').1,
            )
            | refused ↦ (some false, w')
            | running ↦ (none, w')
          ]

      -- `LaunchRegister`, which waits for the thread of a server that has no space: whether it returns 0.
      -- What the thread of a server with a space does is done at once here.
      unfoldable pub launch_register : ℕ → Bool → PsRegister → ℕ → W → Option Bool × W
      unfolding launch_register_impl
      launch_register rounds has_space r hearbeat_interval_s w =
          let (done, w') = launch_register_impl rounds has_space r hearbeat_interval_s w in
          if has_space then (some true, w') else (done, w')
