-- ===== src/Query/Conditions.antt =====
-- The groups of sets that src/corpus.rs `select` pushes, against the conditions of Query/Spec.
use readcon_db.Base.{◌-◌, ◌^◌, ◌≡◌, List, [], ◌∷◌}
use readcon_db.Error.{ok}
use readcon_db.Keys.{
  FrameKey, formula_prefix, pbc_mask_from_bools, meta_time, meta_timestep, meta_frame_index,
  meta_neb_bead, meta_neb_band, meta_charge, meta_magmom, flag_has_forces, flag_has_velocities,
  flag_has_energy,
}
use readcon_db.Keys.Float.{neg_infinity}
use readcon_db.Select.{Select}
use readcon_db.Corpus.{ConCorpus}
use readcon_db.Heed.{Heed}
use readcon_db.Query.{
  hash_set, hash_sets, natoms_sets, formula_sets, topo_sets, pbc_sets, meta_sets, range_sets,
  flag_sets, pushed_sets,
}
use readcon_db.Scan.{KeySet, is_of_traj, unwrap_or}
use readcon_db.Query.Sets.{in_all}
use readcon_db.Query.Scans.{AllKeys}
use readcon_db.Query.Rows.{contains-range_scan, contains-byte_scan}
use readcon_db.Query.Spec.{
  hash_matches, natoms_matches, formula_matches, topo_matches, all_meta_match, pbc_matches,
  ranges_match, flags_match, conditions_match,
}
use readcon_db.Query.Groups.{
  AgreeOn, in_all-push_if, in_all-two, in_all-push_some, posted_set-contains, text_set-contains,
  topo_asked-agree, symbols_agree, exact_agree, min_agree, ord_agree, meta_agree, flag_agree,
}

module _ (db : Heed) (c : ConCorpus db) where
  open db use {iter}

  -- The keys of the tables that are scanned in order are byte strings.
  pub record AreBytes : Type 0 where
    pub natoms : AllKeys (iter c.idx_natoms)
    pub energy : AllKeys (iter c.idx_energy)
    pub fmax : AllKeys (iter c.idx_fmax)
    pub mass : AllKeys (iter c.idx_mass)
    pub volume : AllKeys (iter c.idx_volume)

module _ (db : Heed) (c : ConCorpus db) (x : FrameKey) (sel : Select) where
  open db use {Table, get, iter, prefix_iter, iter-Ascends, prefix_iter-iter}

  hash_agree :
      AgreeOn (is_of_traj sel.traj_id x) (in_all (hash_sets db c sel) x) (hash_matches db c sel x)
  unfolding hash_sets hash_matches hash_set
  hash_agree =
      in_all-push_some _ sel.content_hash _ _ x
        (λ h. posted_set-contains sel.traj_id x (get c.frame_by_hash h))

  formula_agree :
      AgreeOn
        (is_of_traj sel.traj_id x)
        (in_all (formula_sets db c sel) x)
        (formula_matches db c sel x)
  unfolding formula_sets formula_matches
  formula_agree =
      in_all-push_some _ sel.exact_formula _ _ x
        (λ f. text_set-contains db c x c.idx_formula (formula_prefix f) sel.traj_id)

  pbc_agree :
      AgreeOn (is_of_traj sel.traj_id x) (in_all (pbc_sets db c sel) x) (pbc_matches db c sel x)
  unfolding pbc_sets pbc_matches
  pbc_agree = in_all-push_some _ sel.pbc_exact _ _ x (λ pbc.
      rw (prefix_iter-iter c.idx_pbc (pbc_mask_from_bools pbc ∷ []))
        (contains-byte_scan sel.traj_id x (iter c.idx_pbc) (pbc_mask_from_bools pbc)))

  natoms_agree :
      AllKeys (iter c.idx_natoms)
      → AgreeOn
          (is_of_traj sel.traj_id x)
          (in_all (natoms_sets db c sel) x)
          (natoms_matches db c sel x)
  unfolding natoms_sets natoms_matches
  natoms_agree ks = in_all-push_if _ _ _ _ x (
      contains-range_scan sel.traj_id x 4 (unwrap_or sel.natoms_min 0)
        (unwrap_or sel.natoms_max (2 ^ 32 - 1)) (iter c.idx_natoms) (iter-Ascends c.idx_natoms) ks)

  topo_agree :
      (topo : List KeySet)
      → topo_sets db c sel ≡ ok topo
      → AgreeOn (is_of_traj sel.traj_id x) (in_all topo x) (topo_matches db c sel x)
  unfolding topo_sets topo_matches
  topo_agree topo h = topo_asked-agree db c x c.idx_topo sel.traj_id sel.topo_key topo h

  all_meta_agree :
      AgreeOn (is_of_traj sel.traj_id x) (in_all (meta_sets db c sel) x) (all_meta_match db c sel x)
  unfolding meta_sets all_meta_match
  all_meta_agree =
      let two = in_all-two (is_of_traj sel.traj_id x) in
      two _ _ _ _ x (meta_agree db c x sel.traj_id meta_time sel.time_min sel.time_max) (
        two _ _ _ _ x
          (meta_agree db c x sel.traj_id meta_timestep sel.timestep_min sel.timestep_max)
          (two _ _ _ _ x
            (meta_agree db c x sel.traj_id meta_frame_index sel.frame_index_min sel.frame_index_max)
            (two _ _ _ _ x
              (meta_agree db c x sel.traj_id meta_neb_bead sel.neb_bead_min sel.neb_bead_max)
              (two _ _ _ _ x
                (meta_agree db c x sel.traj_id meta_neb_band sel.neb_band_min sel.neb_band_max)
                (two _ _ _ _ x
                  (meta_agree db c x sel.traj_id meta_charge sel.charge_min sel.charge_max)
                  (meta_agree db c x sel.traj_id meta_magmom sel.magmom_min sel.magmom_max))))))

  flags_agree :
      AgreeOn (is_of_traj sel.traj_id x) (in_all (flag_sets db c sel) x) (flags_match db c sel x)
  unfolding flag_sets flags_match
  flags_agree =
      in_all-two _ _ _ _ _ x (flag_agree db c x sel.traj_id sel.require_forces flag_has_forces) (
        in_all-two _ _ _ _ _ x
          (flag_agree db c x sel.traj_id sel.require_velocities flag_has_velocities)
          (flag_agree db c x sel.traj_id sel.require_energy flag_has_energy))

  ranges_agree :
      AreBytes db c
      → AgreeOn
          (is_of_traj sel.traj_id x)
          (in_all (range_sets db c sel) x)
          (ranges_match db c sel x)
  unfolding range_sets ranges_match
  ranges_agree ks =
      in_all-two _ _ _ _ _ x
        (ord_agree db c x c.idx_energy sel.traj_id neg_infinity sel.energy_min sel.energy_max
          ks.energy)
        (in_all-two _ _ _ _ _ x
          (ord_agree db c x c.idx_fmax sel.traj_id 0 sel.fmax_min sel.fmax_max ks.fmax)
          (in_all-two _ _ _ _ _ x
            (ord_agree db c x c.idx_mass sel.traj_id neg_infinity sel.mass_min sel.mass_max ks.mass)
            (ord_agree db c x c.idx_volume sel.traj_id neg_infinity sel.volume_min sel.volume_max
              ks.volume)))

  -- The sets together, on the frames of the trajectory asked for.
  pub pushed_agree :
      (topo : List KeySet)
      → AreBytes db c
      → topo_sets db c sel ≡ ok topo
      → AgreeOn
          (is_of_traj sel.traj_id x)
          (in_all (pushed_sets db c sel topo) x)
          (conditions_match db c sel x)
  unfolding pushed_sets conditions_match
  pushed_agree topo ks e =
      let two = in_all-two (is_of_traj sel.traj_id x) in
      two _ _ _ _ x hash_agree (
        two _ _ _ _ x (natoms_agree ks.natoms) (
          two _ _ _ _ x (symbols_agree db c x sel.traj_id sel.symbols_all) (
            two _ _ _ _ x formula_agree (
              two _ _ _ _ x (topo_agree topo e) (
                two _ _ _ _ x (exact_agree db c x sel.traj_id sel.element_count_exact) (
                  two _ _ _ _ x (min_agree db c x sel.traj_id sel.element_count_min) (
                    two _ _ _ _ x (ranges_agree ks)
                      (two _ _ _ _ x pbc_agree (two _ _ _ _ x all_meta_agree flags_agree)))))))))
