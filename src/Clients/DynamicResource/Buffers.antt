-- ===== src/Clients/DynamicResource/Buffers.antt =====
-- clients/dynamic_resource.h: what a resource with two buffers returns.
use sim_search.Prelude.{ℕ, ◌≡◌, true, false, Option, none, some, is_empty, arith}
use sim_search.Clients.DynamicResource.{
  DynamicResource, Values, current, is_old, swap_in, update_resource, get_resource_wrapper,
}

-- A call that does not throw returns the current values, and they are not empty.
abbrev pub IsServed : {W : Type 0} → Option (DynamicResource × Values) × W → Type 0
IsServed (none, w) = Unit
IsServed (some (d, values), w) = (values ≡ current d) × (is_empty values ≡ false)

module _ {W : Type 0} (get_resource : W → W × Option Values) where
  current-swap_in :
      (d : DynamicResource) (res : Values) (now : ℕ) → current (swap_in d res now) ≡ res
  unfolding current swap_in
  current-swap_in d res now = ground arith

  -- A resource whose current values are not empty returns, at any time, its current values, which are
  -- not empty, unless the call throws.
  pub get_resource_wrapper-IsServed :
      (d : DynamicResource) (now later : ℕ) (w : W)
      → is_empty (current d) ≡ false
      → IsServed (get_resource_wrapper get_resource d now later w)
  unfolding get_resource_wrapper update_resource
  get_resource_wrapper-IsServed d now later w filled = ground arith

  -- With values that are old at both looks at the clock, a call asks the resource, and returns its
  -- answer if that is not empty.
  pub get_resource_wrapper-fresh :
      (d : DynamicResource) (now later : ℕ) (w w' : W) (res : Values)
      → is_old d now ≡ true
      → is_old d later ≡ true
      → get_resource w ≡ (w', some res)
      → is_empty res ≡ false
      → get_resource_wrapper get_resource d now later w ≡ (some (swap_in d res later, res), w')
  unfolding get_resource_wrapper update_resource
  get_resource_wrapper-fresh d now later w w' res old old' answer filled =
      ground (arith, current-swap_in d res later)
