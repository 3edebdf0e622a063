-- ===== src/Common/Messages.antt =====
-- The messages of idl/rpc_service_idl/*.proto that the modelled code reads and writes.
-- A field with no value reads as its default, as the generated getters do; an `Option` stands where
-- the code asks `has_…`. An int32, an int64, a float and a double are the numbers of their bits.
use sim_search.Prelude.{ℕ, Bool, List, [], Option, Str}
use sim_search.Prelude.Int.{ℤ}

pub record Index : Type 0 where
  pub name : Str
  pub type : Str
  pub params : Str

pub record Field : Type 0 where
  pub name : Str
  pub type : Str
  pub dimension : Option ℕ
  pub index : Option Index

pub record Replica : Type 0 where
  pub ps_id : ℕ
  pub ps_ip : Str
  pub ps_port : ℕ

pub record Partition : Type 0 where
  pub partition_id : ℕ
  pub group_name : Str
  pub replicas : List Replica

pub record Space : Type 0 where
  pub db_name : Str
  pub space_name : Str
  pub id : ℕ
  pub partition_num : ℕ
  pub replica_num : ℕ
  pub fields : List Field
  pub partitions : List Partition
  pub id_type : Str

pub record Document : Type 0 where
  pub id : Str
  pub ints : List (Str × ℕ)
  pub longs : List (Str × ℕ)
  pub floats : List (Str × ℕ)
  pub doubles : List (Str × ℕ)
  pub strings : List (Str × Str)
  pub string_arrays : List (Str × List Str)
  pub vectors : List (Str × List ℕ)

abbrev pub empty_document : Document
empty_document = record {
  id = [];
  ints = [];
  longs = [];
  floats = [];
  doubles = [];
  strings = [];
  string_arrays = [];
  vectors = [];
}

pub record DocStatus : Type 0 where
  pub id : Str
  pub msg : Str

pub record RespStatus : Type 0 where
  pub code : ℕ
  pub msg : Str

-- GetResponse of the partition server and of the router.
pub record GetResponse : Type 0 where
  pub code : ℕ
  pub msg : Str
  pub documents : List Document
  pub failed_docs : List DocStatus

-- UpsertResponse and DeleteResponse.
pub record WriteResponse : Type 0 where
  pub code : ℕ
  pub msg : Str
  pub failed_docs : List DocStatus

pub data ImplType : Type 0 where
  upsert delete read : ImplType

pub data KeyType : Type 0 where
  int64 string : KeyType

pub record BlockRequest : Type 0 where
  pub db_name : Str
  pub space_name : Str
  pub impl_type : ImplType
  pub key_type : KeyType
  pub key : Str

pub record BlockResponse : Type 0 where
  pub success : Bool
  pub redirect : Str
  pub msg : Str

abbrev pub empty_space : Space
empty_space = record {
  db_name = [];
  space_name = [];
  id = 0;
  partition_num = 0;
  replica_num = 0;
  fields = [];
  partitions = [];
  id_type = [];
}

pub record PsNodeInfo : Type 0 where
  pub ps_id : ℤ
  pub ps_ip : Str
  pub ps_port : ℕ

pub record CreateSpaceRequest : Type 0 where
  pub space : Space
  pub cur_partition : Partition

pub record MasterGenIdRequest : Type 0 where
  pub id : ℤ

pub record MasterGenIdResponse : Type 0 where
  pub id : ℤ
  pub code : ℕ
  pub msg : Str

pub record RegisterRequest : Type 0 where
  pub ip : Str
  pub port : ℕ
  pub id : ℕ

pub record RegisterResponse : Type 0 where
  pub code : ℕ
  pub msg : Str
  pub register_key : Str
