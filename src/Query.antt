-- ===== src/Query.antt =====
-- src/corpus.rs, `ConCorpus::select`: each condition of a selection scans its index into a set of
-- frame keys (Scan.antt), and the result is the intersection of the sets. The index iterators yield
-- no error here (see Corpus.antt).
pub mod Order
pub mod Scans
pub mod Spec
pub mod Rows
pub mod Groups
pub mod Conditions
pub mod Pushes
pub mod Answer
pub mod Bounds
pub mod Found
pub mod Sets
use readcon_db.Base.{
  ℕ, zero, suc, ◌+◌, ◌-◌, ◌*◌, ◌/◌, ◌%◌, ◌^◌, ◌<◌, ◌≤◌, ◌≡◌, ◌≢◌, refl, sym, ap, ◌∙◌, ◌↔◌, ◌⊎◌, inl,
  inr, Bool, true, false, not, ◌&&◌, ◌||◌, Option, none, some, List, [], ◌∷◌, ◌++◌, map, ltb, leb,
  ◌==◌, if◌then◌else◌, arith, Bool-cases, &&_split, lt→ltb, ltb→lt, leb→le, ==_iff, length, take,
  drop, slice, get_elem?, All, All-append, length-append, take-append, drop-append, take_all,
  length-take, length-drop, take-drop, get_elem?-append, slice-append, slice-append_end, usize_max,
  saturating_add, saturating_mul, min, max,
}
use mathlib.Core.List.{append-nil, append_assoc}
use readcon_db.Base.Bytes.{
  Bytes, IsByte, IsU32, IsU64, to_le_bytes, from_le_bytes, to_be_bytes, from_be_bytes,
  length-to_le_bytes, from_le_bytes-to_le_bytes, length-to_be_bytes, from_be_bytes-to_be_bytes,
  to_be_bytes-IsByte, starts_with, starts_with-append, bytes_eq, bytes_eq_iff,
}
use readcon_db.Base.Utf8.{is_utf8, is_utf8-IsTextByte, IsTextByte}
use readcon_db.Base.Order.{bytes_ltb, bytes_ltb-to_be_bytes}
use readcon_db.Error.{
  Error, Result, ok, err, message, parse, missing_frame, traj_exists, heed, io, utf8, json, nul,
  ◌>>=◌, ◌>>◌, guard, ok_or, >>=-eq-ok,
}
use readcon_db.Heed.{Heed, Entry}
use readcon_db.Keys.{
  FrameKey, TrajId, from_bytes, frame_key_ltb, frame_key_eq, symbol_prefix, formula_prefix,
  topo_prefix, elem_count_symbol_prefix, parse_elem_count_key, pbc_mask_from_bools, flag_has_forces,
  flag_has_velocities, flag_has_energy, meta_time, meta_timestep, meta_frame_index, meta_neb_bead,
  meta_neb_band, meta_charge, meta_magmom,
}
use readcon_db.Keys.Float.{Float64, ordered_f64_bits, infinity, neg_infinity}
use readcon_db.Select.{Select}
use readcon_db.Corpus.{ConCorpus}
use readcon_db.Topology.{normalize_topo_hex}
use readcon_db.Scan.{
  KeySet, scan, unwrap_or, is_some, range_step, meta_step, text_step, byte_step, count_step,
  frame_step, sort_by, frame_key_leb, intersect_sets, truncate, push_if, push_some, lo_bits,
  hi_bits, retain_all, posted_set,
}

module _ (db : Heed) where
  open db use {Table, get, iter, prefix_iter}

  unfoldable pub hash_set : ConCorpus db → Option TrajId → Bytes → KeySet
  hash_set c traj h = posted_set traj (get c.frame_by_hash h)

  unfoldable pub hash_sets : ConCorpus db → Select → List KeySet
  hash_sets c sel = push_some sel.content_hash (hash_set c sel.traj_id)

  unfoldable pub natoms_sets : ConCorpus db → Select → List KeySet
  natoms_sets c sel = push_if (is_some sel.natoms_min || is_some sel.natoms_max) (
      scan
        (range_step 4 (unwrap_or sel.natoms_min 0) (unwrap_or sel.natoms_max (2 ^ 32 - 1))
          sel.traj_id)
        (iter c.idx_natoms) [])

  -- The keys under a prefix: the scans for a symbol, a formula and a topology.
  unfoldable pub text_set : Table → Bytes → Option TrajId → KeySet
  text_set t prefix traj = scan (text_step traj) (prefix_iter t prefix) []

  unfoldable pub symbol_sets : ConCorpus db → Option TrajId → List Bytes → List KeySet
  symbol_sets c traj [] = []
  symbol_sets c traj (sym ∷ symbols) =
      text_set c.idx_symbol (symbol_prefix sym) traj ∷ symbol_sets c traj symbols

  unfoldable pub formula_sets : ConCorpus db → Select → List KeySet
  formula_sets c sel =
      push_some sel.exact_formula
        (λ formula. text_set c.idx_formula (formula_prefix formula) sel.traj_id)

  -- Without the index the set is empty, and the key is not looked at.
  unfoldable pub topo_set : Option Table → Option TrajId → Bytes → Result KeySet
  topo_set none traj hex = ok []
  topo_set (some idx) traj hex =
      normalize_topo_hex hex >>= λ norm. ok (text_set idx (topo_prefix norm) traj)

  unfoldable pub push_topo : Option Table → Option TrajId → Option Bytes → Result (List KeySet)
  unfolding topo_set
  push_topo idx_topo traj none = ok []
  push_topo idx_topo traj (some hex) = topo_set idx_topo traj hex >>= λ s. ok (s ∷ [])

  unfoldable pub topo_sets : ConCorpus db → Select → Result (List KeySet)
  topo_sets c sel = push_topo c.idx_topo sel.traj_id sel.topo_key

  unfoldable pub count_set : ConCorpus db → Option TrajId → (ℕ → Bool) → Bytes → KeySet
  count_set c traj wanted sym =
      scan (count_step wanted sym traj)
        (prefix_iter c.idx_elem_count (elem_count_symbol_prefix sym)) []

  unfoldable pub exact_sets : ConCorpus db → Option TrajId → List (Bytes × ℕ) → List KeySet
  exact_sets c traj [] = []
  exact_sets c traj ((sym, exact_c) ∷ rest) =
      count_set c traj (λ n. n == exact_c) sym ∷ exact_sets c traj rest

  unfoldable pub min_sets : ConCorpus db → Option TrajId → List (Bytes × ℕ) → List KeySet
  min_sets c traj [] = []
  min_sets c traj ((sym, min_c) ∷ rest) =
      count_set c traj (λ n. leb min_c n) sym ∷ min_sets c traj rest

  -- The scan of `idx_energy`, `idx_fmax`, and `scan_ord`; `default` is the bound where none is set.
  unfoldable pub scan_ord :
      Table → Option TrajId → Float64 → Option Float64 → Option Float64 → List KeySet
  scan_ord t traj default lo hi =
      push_if (is_some lo || is_some hi)
        (scan (range_step 8 (lo_bits lo default) (hi_bits hi) traj) (iter t) [])

  unfoldable pub pbc_sets : ConCorpus db → Select → List KeySet
  pbc_sets c sel = push_some sel.pbc_exact (λ pbc.
      scan (byte_step sel.traj_id) (prefix_iter c.idx_pbc (pbc_mask_from_bools pbc ∷ [])) [])

  unfoldable pub scan_meta :
      ConCorpus db → Option TrajId → ℕ → Option Float64 → Option Float64 → List KeySet
  scan_meta c traj ch lo hi = push_if (is_some lo || is_some hi) (
      scan (meta_step (lo_bits lo neg_infinity) (hi_bits hi) traj)
        (prefix_iter c.idx_meta (ch ∷ [])) [])

  unfoldable pub meta_sets : ConCorpus db → Select → List KeySet
  meta_sets c sel =
      scan_meta c sel.traj_id meta_time sel.time_min sel.time_max
      ++ (scan_meta c sel.traj_id meta_timestep sel.timestep_min sel.timestep_max
          ++ (scan_meta c sel.traj_id meta_frame_index sel.frame_index_min sel.frame_index_max
              ++ (scan_meta c sel.traj_id meta_neb_bead sel.neb_bead_min sel.neb_bead_max
                  ++ (scan_meta c sel.traj_id meta_neb_band sel.neb_band_min sel.neb_band_max
                      ++ (scan_meta c sel.traj_id meta_charge sel.charge_min sel.charge_max
                          ++ scan_meta c sel.traj_id meta_magmom sel.magmom_min sel.magmom_max)))))

  unfoldable pub push_flag : ConCorpus db → Option TrajId → Bool → ℕ → List KeySet
  push_flag c traj required flag =
      push_if required (scan (byte_step traj) (prefix_iter c.idx_flags (flag ∷ [])) [])

  unfoldable pub range_sets : ConCorpus db → Select → List KeySet
  range_sets c sel =
      scan_ord c.idx_energy sel.traj_id neg_infinity sel.energy_min sel.energy_max
      ++ (scan_ord c.idx_fmax sel.traj_id 0 sel.fmax_min sel.fmax_max
          ++ (scan_ord c.idx_mass sel.traj_id neg_infinity sel.mass_min sel.mass_max
              ++ scan_ord c.idx_volume sel.traj_id neg_infinity sel.volume_min sel.volume_max))

  unfoldable pub flag_sets : ConCorpus db → Select → List KeySet
  flag_sets c sel =
      push_flag c sel.traj_id sel.require_forces flag_has_forces
      ++ (push_flag c sel.traj_id sel.require_velocities flag_has_velocities
          ++ push_flag c sel.traj_id sel.require_energy flag_has_energy)

  -- The sets in the order of the pushes.
  unfoldable pub pushed_sets : ConCorpus db → Select → List KeySet → List KeySet
  pushed_sets c sel topo =
      hash_sets c sel
      ++ (natoms_sets c sel
          ++ (symbol_sets c sel.traj_id sel.symbols_all
              ++ (formula_sets c sel
                  ++ (topo
                      ++ (exact_sets c sel.traj_id sel.element_count_exact
                          ++ (min_sets c sel.traj_id sel.element_count_min
                              ++ (range_sets c sel
                                  ++ (pbc_sets c sel ++ (meta_sets c sel ++ flag_sets c sel)))))))))

  unfoldable pub condition_sets : ConCorpus db → Select → Result (List KeySet)
  condition_sets c sel = topo_sets c sel >>= λ topo. ok (pushed_sets c sel topo)

  -- All frames where no condition pushed a set.
  unfoldable pub restrict_sets : ConCorpus db → Select → List KeySet → List KeySet
  restrict_sets c sel [] = scan (frame_step sel.traj_id) (iter c.frames) [] ∷ []
  restrict_sets c sel (s ∷ sets) = elim sel.traj_id [
    | none ↦ s ∷ sets
    | some tid ↦ retain_all tid (s ∷ sets)
  ]

  unfoldable pub finish : Option ℕ → Option KeySet → Result KeySet
  finish limit none = err (message "removal index (is 0) should be < len (is 0)")
  finish limit (some acc) = ok (truncate limit (sort_by frame_key_leb acc))

  unfoldable pub select : ConCorpus db → Select → Result KeySet
  unfolding finish
  select c sel = do
    sets ← condition_sets c sel
    finish sel.limit (intersect_sets (restrict_sets c sel sets))
