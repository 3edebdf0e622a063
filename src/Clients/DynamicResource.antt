-- ===== src/Clients/DynamicResource.antt =====
-- clients/dynamic_resource.h: a resource that is read from two buffers, of which one is filled when the
-- other is old, and the manager of resources by name. A time is in nanoseconds. A call of the resource
-- may throw, which is none; the sleep between two additions is left out.
pub mod Buffers
pub mod Names
use sim_search.Prelude.{
  ℕ, ◌-◌, ◌/◌, Bool, true, false, not, List, [], ◌∷◌, Option, none, some, if◌then◌else◌, ltb,
  is_empty, Str, str_key,
}
use sim_search.Prelude.Assoc.{get?, put, has}

abbrev pub Values : Type 0
Values = List (Str × Str)

-- `idx` is false for the buffer 0.
pub record DynamicResource : Type 0 where
  pub flush_interval : ℕ
  pub buffer0 : Values
  pub buffer1 : Values
  pub idx : Bool
  pub update_time : ℕ

unfoldable pub current : DynamicResource → Values
current d = if d.idx then d.buffer1 else d.buffer0

-- Whether more seconds have passed since the last update than the interval.
unfoldable pub is_old : DynamicResource → ℕ → Bool
is_old d now = ltb d.flush_interval ((now - d.update_time) / 1_000_000_000)

-- The new values go to the other buffer, which becomes the current one.
unfoldable pub swap_in : DynamicResource → Values → ℕ → DynamicResource
swap_in d new_res now =
    if d.idx
    then record d { buffer0 = new_res; idx = false; update_time = now }
    else record d { buffer1 = new_res; idx = true; update_time = now }

abbrev or_empty : Option Values → Values
or_empty none = []
or_empty (some values) = values

module _ {W : Type 0} (get_resource : W → W × Option Values) where
  -- The constructor, at the time `now`.
  unfoldable pub new : ℕ → ℕ → W → DynamicResource × W
  new flush_interval now w =
      let (w1, first) = get_resource w in
      let (w2, second) = get_resource w1 in
      (
        record {
          flush_interval = flush_interval;
          buffer0 = or_empty first;
          buffer1 = or_empty second;
          idx = false;
          update_time = now;
        },
        w2,
      )

  -- none: the resource threw.
  unfoldable pub update_resource : DynamicResource → ℕ → W → Option DynamicResource × W
  unfolding is_old swap_in
  update_resource d now w =
      let (w', answer) = get_resource w in
      if not (is_old d now) then (some d, w) else elim answer [
        | none ↦ (none, w')
        | some new_res ↦ ((if is_empty new_res then some d else some (swap_in d new_res now)), w')
      ]

  -- The clock is read twice, before and after the lock is taken. The call is one step: the source reads
  -- the buffer after it gave the lock back, so an update of another thread may come between.
  unfoldable pub get_resource_wrapper :
      DynamicResource → ℕ → ℕ → W → Option (DynamicResource × Values) × W
  unfolding is_old update_resource current
  get_resource_wrapper d now later w =
      let (updated, w') = update_resource d later w in
      if not (is_old d now)
      then (some (d, current d), w)
      else elim updated [ none ↦ (none, w') | some d' ↦ (some (d', current d'), w') ]

-- The manager, with what its pointers point to left open. `idx` is false for the map 0.
pub record DynamicResourceManager (V : Type 0) : Type 0 where
  pub idx : Bool
  pub map0 : List (Str × V)
  pub map1 : List (Str × V)

unfoldable pub new_manager : {V : Type 0} → DynamicResourceManager V
new_manager = record { idx = false; map0 = []; map1 = [] }

module _ {V : Type 0} where
  abbrev pub active : DynamicResourceManager V → List (Str × V)
  active m = if m.idx then m.map1 else m.map0

  abbrev pub inactive : DynamicResourceManager V → List (Str × V)
  inactive m = if m.idx then m.map0 else m.map1

  -- The entries whose keys are missing in the first map.
  unfoldable pub add_missing : List (Str × V) → List (Str × V) → List (Str × V)
  add_missing into [] = into
  add_missing into ((key, val) ∷ rest) =
      add_missing (if has into key then into else put into key val) rest

  -- `addDynamicResource`, where the resource has values at first; else the manager stays.
  unfoldable pub add_dynamic_resource :
      DynamicResourceManager V → Str → V → Values → DynamicResourceManager V × Bool
  unfolding add_missing
  add_dynamic_resource m name dyn_res res =
      let filled = add_missing (put (inactive m) name dyn_res) (active m) in
      if is_empty res
      then (m, false)
      else if m.idx
      then (record m { map0 = filled; idx = false }, true)
      else (record m { map1 = filled; idx = true }, true)

  -- The resource whose values `getDynamicResource` returns; none for the empty map.
  unfoldable pub get_dynamic_resource : DynamicResourceManager V → Str → Option V
  get_dynamic_resource m name = get? (active m) name
