-- ===== src/Examples/Clients.antt =====
-- The examples of clients/etcd_client.cc, on nodes of which the second answers, and of
-- clients/dynamic_resource.h.
use sim_search.Prelude.{
  ℕ, ◌≡◌, refl, is_empty, true, false, not, ◌&&◌, List, [], ◌∷◌, Option, none, some, arith, Str,
  str_lt, if◌then◌else◌, str_eq,
}
use sim_search.External.FileSystem.{Disk}
use sim_search.External.Http.{Http, Conversion}
use sim_search.Clients.Etcd
use sim_search.Clients.Etcd.{EtcdOps, op_path, etcd_op, get_range_end}
use sim_search.Clients.Etcd.Answers.{etcd_op-answers}
use sim_search.Clients.Etcd.Prefix.{starts_with, get_range_end-starts_with}
use sim_search.Clients.DynamicResource.{
  DynamicResource, DynamicResourceManager, Values, new_manager, current, get_resource_wrapper,
  add_dynamic_resource, get_dynamic_resource,
}
use sim_search.Clients.DynamicResource.Buffers.{IsServed, get_resource_wrapper-IsServed}
use sim_search.Clients.DynamicResource.Names.{add_dynamic_resource-reverts}
use sim_search.Prelude.Assoc.{get?, put}

-- The server 50 answers, and no other.
abbrev http : Http Disk
http = record {
  random = λ min max w. (w, min);
  random_bounds = λ min max w h. (omega arith, h);
  channel_init = λ addr balancer w. (w, true);
  post = λ addr path body w. (w, if str_eq addr (50 ∷ []) then some (7 ∷ []) else none);
}

abbrev json : Conversion Str Str
json = record { print = λ a. some a; parse = λ t old. (t, true); empty = [] }

abbrev servers : List Str
servers = (49 ∷ []) ∷ (50 ∷ []) ∷ (51 ∷ []) ∷ []

etcd-AnswersAt : Etcd.Answers.AnswersAt http json (op_path EtcdOps.range) servers (1 ∷ []) 1
unfolding Etcd.ask str_eq
etcd-AnswersAt response w = refl

etcd_op-answers_example : (etcd_op http json servers EtcdOps.range (1 ∷ []) [] []).0 ≡ true
etcd_op-answers_example =
    etcd_op-answers http json servers EtcdOps.range (1 ∷ []) [] 1 [] (omega arith) etcd-AnswersAt

-- The keys of a prefix of two bytes.
get_range_end-starts_with_example :
    (not (str_lt (97 ∷ 98 ∷ 99 ∷ []) (97 ∷ 98 ∷ []))
      && str_lt (97 ∷ 98 ∷ 99 ∷ []) (get_range_end (97 ∷ 98 ∷ [])))
    ≡ starts_with (97 ∷ 98 ∷ []) (97 ∷ 98 ∷ 99 ∷ [])
get_range_end-starts_with_example =
    get_range_end-starts_with (97 ∷ 98 ∷ []) (97 ∷ 98 ∷ 99 ∷ []) (omega arith)

-- The values of a resource.
abbrev entry : Values
entry = (107 ∷ [], 118 ∷ []) ∷ []

-- A call of the resource that gives nothing.
abbrev silent : Str → Str × Option Values
silent w = (w, some [])

abbrev lone : DynamicResource
lone = record { flush_interval = 2; buffer0 = entry; buffer1 = []; idx = false; update_time = 0 }

lone-current : is_empty (current lone) ≡ false
unfolding current
lone-current = refl

get_resource_wrapper-IsServed_example :
    IsServed (get_resource_wrapper silent lone 3_000_000_000 3_000_000_001 [])
get_resource_wrapper-IsServed_example =
    get_resource_wrapper-IsServed silent lone 3_000_000_000 3_000_000_001 [] lone-current

-- A manager that knows the resource 1 under the name 97.
abbrev knows : DynamicResourceManager ℕ
knows = (add_dynamic_resource new_manager (97 ∷ []) 1 entry).0

knows-name : get_dynamic_resource knows (97 ∷ []) ≡ some 1
unfolding get_dynamic_resource add_dynamic_resource new_manager str_eq get? put
knows-name = refl

add_dynamic_resource-reverts_example :
    let replaced = (add_dynamic_resource knows (97 ∷ []) 2 entry).0 in
    (get_dynamic_resource replaced (97 ∷ []) ≡ some 2)
    × (get_dynamic_resource (add_dynamic_resource replaced (98 ∷ []) 3 entry).0 (97 ∷ []) ≡ some 1)
unfolding str_eq
add_dynamic_resource-reverts_example =
    add_dynamic_resource-reverts knows (97 ∷ []) (98 ∷ []) 1 2 3 entry entry knows-name refl refl
      refl
