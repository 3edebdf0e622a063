-- ===== src/Utils/Net.antt =====
-- utils/net.cc: the address of the host, from the list that getifaddrs gives.
use sim_search.Prelude.{
  Bool, false, not, ◌&&◌, List, [], ◌∷◌, Option, none, some, if◌then◌else◌, is_empty, Str, str_eq,
  codes,
}

-- `is_ipv4` is false where the entry has no address at all.
pub record Interface : Type 0 where
  pub name : Str
  pub is_ipv4 : Bool
  pub address : Str

unfoldable pub is_outside : Interface → Bool
unfolding str_eq codes
is_outside ifa = ifa.is_ipv4 && not (str_eq ifa.name (codes "lo"))

-- The loop, which leaves the address as it is if it finds none.
unfoldable pub first_outside : Str → List Interface → Str
unfolding is_outside
first_outside ip_addr [] = ip_addr
first_outside ip_addr (ifa ∷ interfaces) =
    if is_outside ifa then ifa.address else first_outside ip_addr interfaces

-- `GetLocalIPAddress`: the address, and whether it is there. The list is none where the call fails.
unfoldable pub get_local_ip_address : Option (List Interface) → Str → Str × Bool
unfolding first_outside
get_local_ip_address none ip_addr = (ip_addr, false)
get_local_ip_address (some interfaces) ip_addr =
    let found = first_outside ip_addr interfaces in (found, not (is_empty found))
