-- ===== src/Clients/DynamicResource/Names.antt =====
-- clients/dynamic_resource.h: what the manager finds under a name.
use sim_search.Prelude.{
  ◌≡◌, sym, ap, ◌∙◌, refl, false, List, [], ◌∷◌, Option, none, some, if◌then◌else◌, is_empty, Str,
  str_key, str_eq, str_eq_refl, str_eq_iff, arith, Bool-cases, inl, inr,
}
use sim_search.Prelude.Assoc.{get?, put, has, get?-put, has-get?}
use sim_search.Clients.DynamicResource.{
  DynamicResourceManager, Values, active, inactive, add_missing, add_dynamic_resource,
  get_dynamic_resource,
}

module _ {V : Type 0} where
  abbrev first_of : Option V → Option V → Option V
  first_of none o = o
  first_of (some v) o = some v

  twice : (o : Option V) → first_of o o ≡ o
  twice none = refl
  twice (some v) = refl

  get?-add_missing :
      (into from : List (Str × V)) (k : Str)
      → get? (add_missing into from) k ≡ first_of (get? into k) (get? from k)
  unfolding add_missing get?
  get?-add_missing into [] k = ground arith
  get?-add_missing into ((key, val) ∷ rest) k = ground (
    arith,
    get?-add_missing (if has into key then into else put into key val) rest k,
    has-get? into key,
    get?-put into key val k,
    str_key.beq_iff key k,
  )

  -- What an addition finds under a name: the new resource, or that of the map it fills, or that of the
  -- map that was active.
  get-add :
      (m : DynamicResourceManager V) (name k : Str) (v : V) (res : Values)
      → is_empty res ≡ false
      → get_dynamic_resource (add_dynamic_resource m name v res).0 k
        ≡ (if str_eq name k then some v else first_of (get? (inactive m) k) (get? (active m) k))
  unfolding get_dynamic_resource add_dynamic_resource
  get-add m name k v res filled = ground (
    arith,
    get?-add_missing (put (inactive m) name v) (active m) k,
    get?-put (inactive m) name v k,
  )

  inactive-add :
      (m : DynamicResourceManager V) (name : Str) (v : V) (res : Values)
      → is_empty res ≡ false
      → inactive (add_dynamic_resource m name v res).0 ≡ active m
  unfolding add_dynamic_resource
  inactive-add m name v res filled = ground arith

  -- What the map that is not active has, the active one has too.
  abbrev pub IsSettled : DynamicResourceManager V → Type 0
  IsSettled m =
      (k : Str) → first_of (get? (inactive m) k) (get? (active m) k) ≡ get_dynamic_resource m k

  keeps :
      (m m' : DynamicResourceManager V) (name k : Str) (v : V)
      → get_dynamic_resource m name ≡ none
      → inactive m' ≡ active m
      → get_dynamic_resource m' k ≡ (if str_eq name k then some v else get_dynamic_resource m k)
      → first_of (get? (inactive m') k) (get? (active m') k) ≡ get_dynamic_resource m' k
  unfolding get_dynamic_resource
  keeps m m' name k v missing same after = rw (same) (elim (Bool-cases (str_eq name k)) [
    | inl e ↦ rw (ap (get? (active m)) (sym ((str_eq_iff name k).0 e)) ∙ missing) refl
    | inr e ↦
        let kept = after ∙ ap (λ b. if b then some v else get? (active m) k) e in
        rw (kept) (twice (get? (active m) k))
  ])

  -- An addition, with values, of a name that a settled manager does not know leaves it settled: the name
  -- gives the new resource, and every other name what it gave before.
  pub add_dynamic_resource-IsSettled :
      (m : DynamicResourceManager V) (name : Str) (v : V) (res : Values)
      → IsSettled m
      → get_dynamic_resource m name ≡ none
      → is_empty res ≡ false
      → IsSettled (add_dynamic_resource m name v res).0
        × ((k : Str)
            → get_dynamic_resource (add_dynamic_resource m name v res).0 k
              ≡ (if str_eq name k then some v else get_dynamic_resource m k))
  add_dynamic_resource-IsSettled m name v res settled missing filled =
      let m' = (add_dynamic_resource m name v res).0 in
      let after : (k : Str)
          → get_dynamic_resource m' k
            ≡ (if str_eq name k then some v else get_dynamic_resource m k) =
        λ k.
          get-add m name k v res filled
          ∙ ap (λ o. if str_eq name k then some v else o) (settled k) in
      ((λ k. keeps m m' name k v missing (inactive-add m name v res filled) (after k)), after)

  -- A resource that another of the same name took the place of comes back as soon as a resource of a
  -- different name is added, when both additions have values.
  pub add_dynamic_resource-reverts :
      (m : DynamicResourceManager V) (name other : Str) (old new_one v : V) (res res' : Values)
      → get_dynamic_resource m name ≡ some old
      → str_eq other name ≡ false
      → is_empty res ≡ false
      → is_empty res' ≡ false
      → let replaced = (add_dynamic_resource m name new_one res).0 in
        (get_dynamic_resource replaced name ≡ some new_one)
        × (get_dynamic_resource (add_dynamic_resource replaced other v res').0 name ≡ some old)
  unfolding get_dynamic_resource
  add_dynamic_resource-reverts m name other old new_one v res res' found ne filled filled' =
      let replaced = (add_dynamic_resource m name new_one res).0 in
      (
        get-add m name name new_one res filled
            ∙ ap
                (λ b.
                  if b
                  then some new_one
                  else first_of (get? (inactive m) name) (get? (active m) name))
                (str_eq_refl name),
        get-add replaced other name v res' filled'
            ∙ ap
                (λ b.
                  if b
                  then some v
                  else first_of (get? (inactive replaced) name) (get? (active replaced) name))
                ne
            ∙ ap (λ o. first_of o (get? (active replaced) name))
                (ap (λ values. get? values name) (inactive-add m name new_one res filled) ∙ found),
      )
