-- ===== src/Conf/Toml.antt =====
-- config/toml_conf.{h,cc}: the fields of the configuration, and their reading from the file. A reading that
-- fails leaves the fields that came before, as an exception does.
use sim_search.Prelude.{ℕ, Bool, false, List, [], ◌∷◌, ◌++◌, map, Str, codes, to_string}
use sim_search.External.Toml.{
  Toml, Found, found, type_error, other_error, parsed, syntax_error, runtime_error,
}

pub record GlobalConfig : Type 0 where
  pub name : Str
  pub data_dirs : List Str
  pub level : Str
  pub signkey : Str
  pub skip_auth : Bool

pub record MasterConfig : Type 0 where
  pub name : Str
  pub address : Str
  pub api_port : ℕ
  pub etcd_port : ℕ
  pub etcd_peer_port : ℕ
  pub etcd_client_port : ℕ

pub record RouterConfig : Type 0 where
  pub port : ℕ
  pub skip_auth : Bool
  pub hearbeat_interval_s : ℕ

pub record PsConfig : Type 0 where
  pub rpc_port : ℕ
  pub raft_election_timeout_ms : ℕ
  pub raft_snap_interval_s : ℕ
  pub hearbeat_interval_s : ℕ

pub record TomlConfig : Type 0 where
  pub global : GlobalConfig
  pub masters : List MasterConfig
  pub router : RouterConfig
  pub ps : PsConfig
  pub master_urls : List Str

-- The numbers and flags of a new one, which the source does not set, are 0 and false here.
abbrev pub new_config : TomlConfig
new_config = record {
  global = record { name = []; data_dirs = []; level = []; signkey = []; skip_auth = false };
  masters = [];
  router = record { port = 0; skip_auth = false; hearbeat_interval_s = 0 };
  ps = record {
    rpc_port = 0;
    raft_election_timeout_ms = 0;
    raft_snap_interval_s = 0;
    hearbeat_interval_s = 0;
  };
  master_urls = [];
}

-- A reading that sets fields on its way.
abbrev pub Loading : Type 0 → Type 0
Loading A = TomlConfig → Found A × TomlConfig

module _ {A B : Type 0} where
  abbrev and_then : Found A × TomlConfig → (A → Loading B) → Found B × TomlConfig
  and_then (found a, c) k = k a c
  and_then (type_error, c) k = (type_error, c)
  and_then (other_error, c) k = (other_error, c)

  infixl 5 ◌>>=◌ ◌>>◌
  abbrev ◌>>=◌ : Loading A → (A → Loading B) → Loading B
  m >>= k = λ c. and_then (m c) k

  abbrev ◌>>◌ : Loading A → Loading B → Loading B
  m >> n = m >>= λ a. n

abbrev lift : {A : Type 0} → Found A → Loading A
lift r c = (r, c)

abbrev update : (TomlConfig → TomlConfig) → Loading (Unit {0})
update f c = (found tt, f c)

-- An assignment of what a call finds.
abbrev assign : {A : Type 0} → Found A → (A → TomlConfig → TomlConfig) → Loading (Unit {0})
assign r f = do a ← lift r; update (f a)

module _ {Value : Type 0} (toml : Toml Value) where
  unfoldable pub load_global : Value → Loading (Unit {0})
  unfolding codes
  load_global toml_data = do
    g ← lift (toml.find_value toml_data (codes "global"))
    assign (toml.find_text g (codes "name"))
        (λ x c. record c { global = record c.global { name = x } })
    assign (toml.find_texts g (codes "data"))
        (λ x c. record c { global = record c.global { data_dirs = x } })
    assign (toml.find_text g (codes "level"))
        (λ x c. record c { global = record c.global { level = x } })
    assign (toml.find_text g (codes "signkey"))
        (λ x c. record c { global = record c.global { signkey = x } })
    assign (toml.find_bool g (codes "skip_auth"))
        (λ x c. record c { global = record c.global { skip_auth = x } })

  -- A master joins the list with all its fields.
  unfoldable pub load_master : Value → Loading (Unit {0})
  unfolding codes
  load_master m = do
    name ← lift (toml.find_text m (codes "name"))
    address ← lift (toml.find_text m (codes "address"))
    api_port ← lift (toml.find_int m (codes "api_port"))
    etcd_port ← lift (toml.find_int m (codes "etcd_port"))
    etcd_peer_port ← lift (toml.find_int m (codes "etcd_peer_port"))
    etcd_client_port ← lift (toml.find_int m (codes "etcd_client_port"))
    update (λ c. record c {
      masters =
          c.masters
          ++ record {
            name = name;
            address = address;
            api_port = api_port;
            etcd_port = etcd_port;
            etcd_peer_port = etcd_peer_port;
            etcd_client_port = etcd_client_port;
          }
            ∷ [];
    })

  unfoldable pub load_masters : List Value → Loading (Unit {0})
  unfolding load_master
  load_masters [] = lift (found tt)
  load_masters (m ∷ values) = do load_master m; load_masters values

  unfoldable pub load_router : Value → Loading (Unit {0})
  unfolding codes
  load_router toml_data = do
    r ← lift (toml.find_value toml_data (codes "router"))
    assign (toml.find_int r (codes "port"))
        (λ x c. record c { router = record c.router { port = x } })
    assign (toml.find_bool r (codes "skip_auth"))
        (λ x c. record c { router = record c.router { skip_auth = x } })
    assign (toml.find_int r (codes "hearbeat_interval_s"))
        (λ x c. record c { router = record c.router { hearbeat_interval_s = x } })

  unfoldable pub load_ps : Value → Loading (Unit {0})
  unfolding codes
  load_ps toml_data = do
    p ← lift (toml.find_value toml_data (codes "ps"))
    assign (toml.find_int p (codes "rpc_port"))
        (λ x c. record c { ps = record c.ps { rpc_port = x } })
    assign (toml.find_int p (codes "raft_election_timeout_ms"))
        (λ x c. record c { ps = record c.ps { raft_election_timeout_ms = x } })
    assign (toml.find_int p (codes "raft_snap_interval_s"))
        (λ x c. record c { ps = record c.ps { raft_snap_interval_s = x } })
    assign (toml.find_int p (codes "hearbeat_interval_s"))
        (λ x c. record c { ps = record c.ps { hearbeat_interval_s = x } })

  unfoldable pub load_all : Value → Loading (Unit {0})
  unfolding load_global load_masters load_router load_ps codes
  load_all toml_data = do
    load_global toml_data
    values ← lift (toml.find_values toml_data (codes "masters"))
    load_masters values
    load_router toml_data
    load_ps toml_data

unfoldable pub url_of : MasterConfig → Str
unfolding codes to_string
url_of m = m.address ++ codes ":" ++ to_string m.api_port

-- What `Load` returns and leaves, given how the reading ended.
unfoldable pub finish : Found (Unit {0}) × TomlConfig → Str × TomlConfig
unfolding codes url_of
finish (found done, c) = ([], record c { master_urls = c.master_urls ++ map url_of c.masters })
finish (type_error, c) = (codes "type_error", c)
finish (other_error, c) = (codes "missing_key", c)

-- `Load`, of the file at a path.
unfoldable pub load : {Value : Type 0} → Toml Value → Str → TomlConfig → Str × TomlConfig
unfolding load_all finish codes
load toml filepath c = elim (toml.parse filepath) [
  | syntax_error ↦ (codes "syntax_error", c)
  | runtime_error ↦ (codes "runtime_error", c)
  | parsed toml_data ↦ finish (load_all toml toml_data c)
]

unfoldable pub get_master_ip_ports : TomlConfig → List (Str × ℕ)
get_master_ip_ports c = map (λ (m : MasterConfig). (m.address, m.etcd_client_port)) c.masters
