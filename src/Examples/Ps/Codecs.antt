-- ===== src/Examples/Ps/Codecs.antt =====
-- Converters for the examples of service/ps/: of any identity, and of requests without lists whose
-- texts are single characters.
use sim_search.Prelude.{
  ℕ, zero, suc, ◌≡◌, refl, ap, subst, Bool, true, false, List, [], ◌∷◌, Option, none, some, arith,
  Str,
}
use sim_search.Prelude.Int.{ℤ, pos, negsuc}
use sim_search.Common.Messages.{
  Field, Replica, Partition, PsNodeInfo, CreateSpaceRequest, empty_space,
}
use sim_search.External.Codec.{Codec}
use sim_search.Ps.LocalMata.{empty_node_info, empty_request}

abbrev text_or_empty : Option Str → Str
text_or_empty none = []
text_or_empty (some t) = t

abbrev print_id : ℤ → Str → Str
print_id (pos n) rest = 0 ∷ n ∷ rest
print_id (negsuc n) rest = 1 ∷ n ∷ rest

abbrev parse_node : Str → PsNodeInfo × Bool
parse_node (zero ∷ n ∷ port ∷ ip) = (record { ps_id = pos n; ps_ip = ip; ps_port = port }, true)
parse_node (suc k ∷ n ∷ port ∷ ip) = (record { ps_id = negsuc n; ps_ip = ip; ps_port = port }, true)
parse_node _ = (empty_node_info, false)

pub parse_node-print_id :
    (i : ℤ) (ip : Str) (port : ℕ)
    → parse_node (print_id i (port ∷ ip)) ≡ (record { ps_id = i; ps_ip = ip; ps_port = port }, true)
parse_node-print_id (pos n) ip port = refl
parse_node-print_id (negsuc n) ip port = refl

abbrev pub node_codec : Codec PsNodeInfo
node_codec = record {
  print = λ a. some (print_id a.ps_id (a.ps_port ∷ a.ps_ip));
  parse = parse_node;
  parse-print = λ a t e.
      subst (λ s. parse_node s ≡ (a, true)) (ap text_or_empty e)
        (parse_node-print_id a.ps_id a.ps_ip a.ps_port);
}

abbrev pub named : ℕ → ℕ → CreateSpaceRequest
named c g = record {
  space = record empty_space { db_name = c ∷ []; space_name = c ∷ [] };
  cur_partition = record { partition_id = 0; group_name = g ∷ []; replicas = [] };
}

abbrev print_parts :
    Str → Str → ℕ → ℕ → ℕ → List Field → List Partition → Str → ℕ → Str → List Replica → Option Str
print_parts (c ∷ []) (d ∷ []) i p r [] [] [] q (g ∷ []) [] = some (c ∷ d ∷ i ∷ p ∷ r ∷ q ∷ g ∷ [])
print_parts _ _ _ _ _ _ _ _ _ _ _ = none

abbrev parse_request : Str → CreateSpaceRequest × Bool
parse_request (c ∷ d ∷ i ∷ p ∷ r ∷ q ∷ g ∷ []) = (
  record {
    space = record {
      db_name = c ∷ [];
      space_name = d ∷ [];
      id = i;
      partition_num = p;
      replica_num = r;
      fields = [];
      partitions = [];
      id_type = [];
    };
    cur_partition = record { partition_id = q; group_name = g ∷ []; replicas = [] };
  },
  true,
)
parse_request _ = (empty_request, false)

pub parse_request-print_parts :
    (s d : Str) (i p r : ℕ) (fields : List Field) (partitions : List Partition) (id_type : Str)
    (q : ℕ) (g : Str) (replicas : List Replica) (t : Str)
    → print_parts s d i p r fields partitions id_type q g replicas ≡ some t
    → parse_request t ≡ (
      record {
        space = record {
          db_name = s;
          space_name = d;
          id = i;
          partition_num = p;
          replica_num = r;
          fields = fields;
          partitions = partitions;
          id_type = id_type;
        };
        cur_partition = record { partition_id = q; group_name = g; replicas = replicas };
      },
      true,
    )
parse_request-print_parts s d i p r fields partitions id_type q g replicas t e = ground arith

abbrev pub request_codec : Codec CreateSpaceRequest
request_codec = record {
  print = λ a.
      print_parts a.space.db_name a.space.space_name a.space.id a.space.partition_num
        a.space.replica_num a.space.fields a.space.partitions a.space.id_type
        a.cur_partition.partition_id a.cur_partition.group_name a.cur_partition.replicas;
  parse = parse_request;
  parse-print = λ a t e.
      parse_request-print_parts a.space.db_name a.space.space_name a.space.id a.space.partition_num
        a.space.replica_num a.space.fields a.space.partitions a.space.id_type
        a.cur_partition.partition_id a.cur_partition.group_name a.cur_partition.replicas t e;
}
