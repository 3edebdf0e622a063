-- ===== src/Ps/LocalMata/Load.antt =====
-- service/ps/local_mata.cc: what `Init` loads of the files.
use sim_search.Prelude.{
  ◌≡◌, ap, sym, ◌∙◌, subst, inl, inr, refl, Bool, true, false, none, some, if◌then◌else◌, if-both,
  Option-cases, is_empty, arith, Str,
}
use sim_search.Prelude.Int.{ℤ, is_negative}
use sim_search.Common.Messages.{PsNodeInfo, CreateSpaceRequest}
use sim_search.External.Codec.{Codec}
use sim_search.External.FileSystem.{FileSystem}
use sim_search.Ps.LocalMata
use sim_search.Ps.LocalMata.{
  LocalMata, new_mata, with_dir, load, load_space, init, is_positive, is_load_from_file,
  dump_node_info,
}

-- What `IsLoadFromFile` asks of an identity.
abbrev pub IsIdentity : PsNodeInfo → Type 0
IsIdentity info = (is_positive info.ps_id ≡ true) × (is_empty info.ps_ip ≡ false)

pub is_load_from_file-IsIdentity :
    (m : LocalMata) → is_load_from_file m ≡ true → IsIdentity m.ps_node_info
unfolding is_load_from_file
is_load_from_file-IsIdentity m h = ground arith

pub IsIdentity-is_load_from_file :
    (m : LocalMata) → IsIdentity m.ps_node_info → is_load_from_file m ≡ true
unfolding is_load_from_file
IsIdentity-is_load_from_file m (positive, ip) = rw (positive, ip) refl

module _ {W : Type 0} (fs : FileSystem W) (node_json : Codec PsNodeInfo)
    (space_json : Codec CreateSpaceRequest) where
  -- Where no id is negative, the file of the node holds that id and an address.
  abbrev pub Kept : Str → LocalMata × ℤ × W → Type 0
  Kept file r =
      is_negative r.1 ≡ false
      → (text : Str) × ((info : PsNodeInfo) × (fs.read_file file r.2 ≡ some text)
          × (node_json.parse text ≡ (info, true))
          × (info.ps_id ≡ r.1)
          × IsIdentity info)

  pub load_space-node_info :
      (m : LocalMata) (w : W)
      → (load_space fs node_json space_json m w).0.ps_node_info ≡ m.ps_node_info
  unfolding load_space
  load_space-node_info m w = elim (Option-cases (fs.read_file m.space_schema_file w)) [
    | inl e ↦ rw (load_space, e) refl
    | inr (u, e) ↦
        rw (load_space, e)
          (if-both (λ (r : LocalMata × Bool). r.0.ps_node_info ≡ m.ps_node_info)
            (space_json.parse u).1 (λ h. refl) (λ h. refl))
  ]

  -- An identity that is loaded comes from the file of the node.
  abbrev Loaded : LocalMata → W → LocalMata × Bool → Type 0
  Loaded m w r =
      r.1 ≡ true → is_load_from_file r.0 ≡ true → Kept m.node_info_file (r.0, LocalMata.id r.0, w)

  load-none :
      (m : LocalMata) (w : W)
      → fs.read_file m.node_info_file w ≡ none
      → load fs node_json space_json m w ≡ (m, true)
  unfolding load
  load-none m w e = rw (load, e) refl

  load-some :
      (m : LocalMata) (t : Str) (w : W)
      → fs.read_file m.node_info_file w ≡ some t
      → let (info, parsed) = node_json.parse t in
        let m' = record m { ps_node_info = info } in
        load fs node_json space_json m w
        ≡ (if parsed then load_space fs node_json space_json m' w else (m', false))
  unfolding load
  load-some m t w e = rw (load, e) refl

  load_space-Kept :
      (m : LocalMata) (t : Str) (w : W)
      → fs.read_file m.node_info_file w ≡ some t
      → node_json.parse t ≡ (m.ps_node_info, true)
      → let loaded = (load_space fs node_json space_json m w).0 in
        is_load_from_file loaded ≡ true → Kept m.node_info_file (loaded, LocalMata.id loaded, w)
  unfolding LocalMata.id
  load_space-Kept m t w read parsed found h =
      let same = load_space-node_info m w in
      (
        t,
        (
          m.ps_node_info,
          read,
          parsed,
          ap (λ (info : PsNodeInfo). info.ps_id) (sym same),
          subst IsIdentity same (is_load_from_file-IsIdentity _ found),
        ),
      )

  pub load-Loaded :
      (m : LocalMata) (w : W)
      → is_load_from_file m ≡ false
      → Loaded m w (load fs node_json space_json m w)
  load-Loaded m w fresh = elim (Option-cases (fs.read_file m.node_info_file w)) [
    | inl e ↦ subst (Loaded m w) (sym (load-none m w e)) (λ done loaded h. absurd (ground arith))
    | inr (t, e) ↦
        let (info, parsed) = node_json.parse t in
        let m' = record m { ps_node_info = info } in
        subst (Loaded m w) (sym (load-some m t w e)) (
          if-both (Loaded m w) parsed (λ ok done. load_space-Kept m' t w e (ap (λ b. (info, b)) ok))
            (λ bad h. absurd (ground arith)))
  ]

  load_space-node_info_file :
      (m : LocalMata) (w : W)
      → (load_space fs node_json space_json m w).0.node_info_file ≡ m.node_info_file
  unfolding load_space
  load_space-node_info_file m w = elim (Option-cases (fs.read_file m.space_schema_file w)) [
    | inl e ↦ rw (load_space, e) refl
    | inr (u, e) ↦
        rw (load_space, e)
          (if-both (λ (r : LocalMata × Bool). r.0.node_info_file ≡ m.node_info_file)
            (space_json.parse u).1 (λ h. refl) (λ h. refl))
  ]

  pub load-node_info_file :
      (m : LocalMata) (w : W)
      → (load fs node_json space_json m w).0.node_info_file ≡ m.node_info_file
  load-node_info_file m w =
      let P : LocalMata × Bool → Type 0 = λ r. r.0.node_info_file ≡ m.node_info_file in
      elim (Option-cases (fs.read_file m.node_info_file w)) [
        | inl e ↦ subst P (sym (load-none m w e)) refl
        | inr (t, e) ↦
            subst P (sym (load-some m t w e))
              (if-both P (node_json.parse t).1 (λ h. load_space-node_info_file _ w) (λ h. refl))
      ]

  pub load-found :
      (m : LocalMata) (t : Str) (w : W) (info : PsNodeInfo)
      → fs.read_file m.node_info_file w ≡ some t
      → node_json.parse t ≡ (info, true)
      → load fs node_json space_json m w
        ≡ load_space fs node_json space_json (record m { ps_node_info = info }) w
  load-found m t w info read parsed =
      load-some m t w read
      ∙ ap
          (λ (r : PsNodeInfo × Bool).
            let m' = record m { ps_node_info = r.0 } in
            if r.1 then load_space fs node_json space_json m' w else (m', false))
          parsed

  pub load_space-done :
      (m : LocalMata) (w : W)
      → ((u : Str) → fs.read_file m.space_schema_file w ≡ some u → (space_json.parse u).1 ≡ true)
      → (load_space fs node_json space_json m w).1 ≡ true
  unfolding load_space
  load_space-done m w parses = elim (Option-cases (fs.read_file m.space_schema_file w)) [
    | inl e ↦ rw (load_space, e) refl
    | inr (u, e) ↦ rw (load_space, e, parses u e) refl
  ]
