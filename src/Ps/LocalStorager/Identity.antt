-- ===== src/Ps/LocalStorager/Identity.antt =====
-- service/ps/local_storager.cc: the identity of a server is asked for once.
use sim_search.Prelude.{
  not-false, ◌≡◌, ap, sym, ◌∙◌, subst, inl, inr, refl, Bool, true, false, not, some, if◌then◌else◌,
  if-both, Bool-cases, is_empty, arith, Str,
}
use sim_search.Prelude.Int.{ℤ, negsuc, is_negative}
use sim_search.Common.Messages.{
  PsNodeInfo, CreateSpaceRequest, MasterGenIdRequest, MasterGenIdResponse,
}
use sim_search.External.Codec.{Codec}
use sim_search.External.FileSystem.{FileSystem, IsWritable}
use sim_search.External.Http.{Http, Conversion}
use sim_search.Ps.LocalMata
use sim_search.Ps.LocalMata.{
  LocalMata, new_mata, with_dir, load, load_space, init, is_positive, is_load_from_file,
  dump_node_info,
}
use sim_search.Ps.LocalMata.Restart.{dump_node_info-read}
use sim_search.Ps.LocalStorager.{
  Config, create_node_mata, create_or_load_node_mata, get_node_id_by_query_api,
}
use sim_search.Ps.LocalMata.Load.{
  IsIdentity, IsIdentity-is_load_from_file, Kept, load_space-node_info, load-Loaded,
  load-node_info_file, load-found, load_space-done,
}

module _ {W : Type 0} (http : Http W) (json : Conversion MasterGenIdRequest MasterGenIdResponse)
    (config : Config) (fs : FileSystem W) (node_json : Codec PsNodeInfo)
    (space_json : Codec CreateSpaceRequest) where
  create_node_mata-Kept :
      (m : LocalMata) (w : W)
      → is_empty config.cur_ip ≡ false
      → IsWritable fs m.node_info_file
      → Kept fs node_json space_json m.node_info_file
          (create_node_mata http json config fs node_json space_json m w)
  unfolding create_node_mata LocalMata.set_ps_ip LocalMata.set_ps_port LocalMata.set_ps_id
  create_node_mata-Kept m w ip good =
      let (node_id, w1) = get_node_id_by_query_api http json config 4 w in
      let m2 =
        LocalMata.set_ps_id
          (LocalMata.set_ps_port (LocalMata.set_ps_ip m config.cur_ip) config.rpc_port) node_id in
      let (msg, w2) = dump_node_info fs node_json space_json m2 w1 in
      if-both (Kept fs node_json space_json m.node_info_file) (is_negative node_id)
        (λ e h. absurd (ground arith))
        (λ e.
          if-both (Kept fs node_json space_json m.node_info_file) (is_empty msg)
            (λ e h.
              let (positive, (text, printed, (w', opened, written))) =
                dump_node_info-read fs node_json space_json m2 w1 e in
              (
                text,
                (
                  m2.ps_node_info,
                  rw (written) (fs.read-write m.node_info_file text w1 w' opened (good text w')),
                  node_json.parse-print m2.ps_node_info text printed,
                  refl,
                  (positive, ip),
                ),
              ))
            (λ e h. absurd (ground arith)))

  -- `CreateOrLoadNodeMata`, on what `Init` gives.
  abbrev after_init : LocalMata × Bool × W → LocalMata × ℤ × W
  after_init (m, done, w) =
      if not done
      then (m, negsuc 0, w)
      else if not (is_load_from_file m)
      then create_node_mata http json config fs node_json space_json m w
      else (m, LocalMata.id m, w)

  after_init-Kept :
      (m : LocalMata) (done : Bool) (w : W)
      → is_empty config.cur_ip ≡ false
      → IsWritable fs m.node_info_file
      → (done ≡ true
          → is_load_from_file m ≡ true
          → Kept fs node_json space_json m.node_info_file (m, LocalMata.id m, w))
      → Kept fs node_json space_json m.node_info_file (after_init (m, done, w))
  after_init-Kept m done w ip good kept =
      if-both (Kept fs node_json space_json m.node_info_file) (not done)
        (λ e h. absurd (ground arith))
        (λ e.
          if-both (Kept fs node_json space_json m.node_info_file) (not (is_load_from_file m))
            (λ missing. create_node_mata-Kept m w ip good)
            (λ found. kept (not-false done e) (not-false _ found)))

  create_or_load_node_mata-init :
      (dir : Str) (w : W)
      → create_or_load_node_mata http json config fs node_json space_json new_mata dir w
        ≡ after_init (init fs node_json space_json new_mata dir w)
  unfolding create_or_load_node_mata
  create_or_load_node_mata-init dir w = refl

  init-there :
      (dir : Str) (w : W)
      → fs.path_exists dir w ≡ true
      → let (loaded, done) = load fs node_json space_json (with_dir new_mata dir) w in
        init fs node_json space_json new_mata dir w ≡ (loaded, done, w)
  unfolding init
  init-there dir w e = rw (init, e) refl

  init-new :
      (dir : Str) (w : W)
      → fs.path_exists dir w ≡ false
      → init fs node_json space_json new_mata dir w
        ≡ (with_dir new_mata dir, true, (fs.create_directory dir w).0)
  unfolding init
  init-new dir w e = rw (init, e) refl

  not_loaded : (dir : Str) → is_load_from_file (with_dir new_mata dir) ≡ false
  unfolding is_load_from_file with_dir new_mata
  not_loaded dir = refl

  -- Where `CreateOrLoadNodeMata` gives an id, the file of the node holds it.
  create_or_load_node_mata-Kept :
      (dir : Str) (w : W)
      → is_empty config.cur_ip ≡ false
      → IsWritable fs (with_dir new_mata dir).node_info_file
      → Kept fs node_json space_json
          (with_dir new_mata dir).node_info_file
          (create_or_load_node_mata http json config fs node_json space_json new_mata dir w)
  create_or_load_node_mata-Kept dir w ip good =
      let m = with_dir new_mata dir in
      let (loaded, done) = load fs node_json space_json m w in
      let w1 = (fs.create_directory dir w).0 in
      let same = load-node_info_file fs node_json space_json m w in
      subst (Kept fs node_json space_json m.node_info_file)
        (sym (create_or_load_node_mata-init dir w))
        (elim (Bool-cases (fs.path_exists dir w)) [
          | inl e ↦
              subst (λ r. Kept fs node_json space_json m.node_info_file (after_init r))
                (sym (init-there dir w e))
                (subst (λ file. Kept fs node_json space_json file (after_init (loaded, done, w)))
                  same
                  (after_init-Kept loaded done w ip (subst (IsWritable fs) (sym same) good) (
                    subst
                      (λ file.
                        done ≡ true
                        → is_load_from_file loaded ≡ true
                        → Kept fs node_json space_json file (loaded, LocalMata.id loaded, w))
                      (sym same) (load-Loaded fs node_json space_json m w (not_loaded dir)))))
          | inr e ↦
              subst (λ r. Kept fs node_json space_json m.node_info_file (after_init r))
                (sym (init-new dir w e))
                (after_init-Kept m true w1 ip good
                  (λ done found. absurd (ground (arith, not_loaded dir))))
        ])

  after_init-found :
      (m : LocalMata) (w : W)
      → is_load_from_file m ≡ true
      → after_init (m, true, w) ≡ (m, LocalMata.id m, w)
  after_init-found m w found = rw (found) refl

  create_or_load_node_mata-load :
      (dir : Str) (w : W)
      → fs.path_exists dir w ≡ true
      → let (loaded, done) = load fs node_json space_json (with_dir new_mata dir) w in
        done ≡ true
        → is_load_from_file loaded ≡ true
        → create_or_load_node_mata http json config fs node_json space_json new_mata dir w
          ≡ (loaded, LocalMata.id loaded, w)
  create_or_load_node_mata-load dir w there done found =
      let loaded = (load fs node_json space_json (with_dir new_mata dir) w).0 in
      create_or_load_node_mata-init dir w
      ∙ ap after_init (init-there dir w there ∙ ap (λ b. (loaded, b, w)) done)
      ∙ after_init-found loaded w found

  -- A server with an address, for which no write to the opened file of its identity fails, and which
  -- got an identity, gets the same one when it starts again over the world that is left, and leaves
  -- that world as it is, if the directory is there and the file of its space, if any, parses.
  pub create_or_load_node_mata-again :
      (dir : Str) (w : W)
      → is_empty config.cur_ip ≡ false
      → IsWritable fs (with_dir new_mata dir).node_info_file
      → let (m, node_id, w') =
          create_or_load_node_mata http json config fs node_json space_json new_mata dir w in
        is_negative node_id ≡ false
        → fs.path_exists dir w' ≡ true
        → ((u : Str)
            → fs.read_file (with_dir new_mata dir).space_schema_file w' ≡ some u
            → (space_json.parse u).1 ≡ true)
        → let (m', again, w'') =
            create_or_load_node_mata http json config fs node_json space_json new_mata dir w' in
          (again ≡ node_id) × (w'' ≡ w')
  unfolding LocalMata.id
  create_or_load_node_mata-again dir w ip good got there parses =
      let m = with_dir new_mata dir in
      let w' =
        (create_or_load_node_mata http json config fs node_json space_json new_mata dir w).2 in
      let (t, (info, read, parsed, same_id, identity)) =
        create_or_load_node_mata-Kept dir w ip good got in
      let m' = record m { ps_node_info = info } in
      let found = load-found fs node_json space_json m t w' info read parsed in
      let loaded = load_space fs node_json space_json m' w' in
      let same = load_space-node_info fs node_json space_json m' w' in
      let result =
        create_or_load_node_mata-load dir w' there
          (ap (λ (r : LocalMata × Bool). r.1) found
            ∙ load_space-done fs node_json space_json m' w' parses)
          (subst (λ (r : LocalMata × Bool). is_load_from_file r.0 ≡ true) (sym found)
            (IsIdentity-is_load_from_file loaded.0 (subst IsIdentity (sym same) identity))) in
      (
        ap (λ (r : LocalMata × ℤ × W). r.1) result
            ∙ ap (λ (r : LocalMata × Bool). r.0.ps_node_info.ps_id) found
            ∙ ap (λ (i : PsNodeInfo). i.ps_id) same
            ∙ same_id,
        ap (λ (r : LocalMata × ℤ × W). r.2) result,
      )
