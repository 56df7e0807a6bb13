-- ===== src/Query/Spec.antt =====
-- What a selection asks of a frame, as a test of the index rows one by one: no scan, no order of
-- evaluation, no sets. Query/Conditions and Query/Answer measure src/corpus.rs `select` by it.
use readcon_db.Base.{
  ℕ, ◌+◌, ◌-◌, ◌^◌, sym, Bool, true, false, not, ◌&&◌, ◌||◌, Option, none, some, List, [], ◌∷◌, leb,
  ◌==◌, length, drop, slice,
}
use readcon_db.Base.Bytes.{Bytes, from_be_bytes, starts_with}
use readcon_db.Error.{Result, ok, err}
use readcon_db.Keys.{
  FrameKey, from_bytes, frame_key_eq, symbol_prefix, formula_prefix, topo_prefix,
  elem_count_symbol_prefix, parse_elem_count_key, pbc_mask_from_bools, flag_has_forces,
  flag_has_velocities, flag_has_energy, meta_time, meta_timestep, meta_frame_index, meta_neb_bead,
  meta_neb_band, meta_charge, meta_magmom,
}
use readcon_db.Keys.Float.{Float64, neg_infinity}
use readcon_db.Select.{Select}
use readcon_db.Corpus.{ConCorpus}
use readcon_db.Topology.{normalize_topo_hex}
use readcon_db.Heed.{Heed}
use readcon_db.Scan.{is_some, unwrap_or, lo_bits, hi_bits}
use readcon_db.Query.Scans.{has_row}

unfoldable pub reads : Option FrameKey → FrameKey → Bool
reads none x = false
reads (some fk) x = frame_key_eq fk x

unfoldable pub posted_reads : Option Bytes → FrameKey → Bool
posted_reads none x = false
posted_reads (some b) x = reads (from_bytes b) x

-- A number of `w` bytes at `i` in a range, and the frame key behind it.
unfoldable pub range_row : ℕ → ℕ → ℕ → ℕ → FrameKey → Bytes → Bool
range_row i w lo hi x k =
    let n = from_be_bytes (slice i (i + w) k) in
    leb (i + w + 12) (length k)
    && (leb lo n && (leb n hi && reads (from_bytes (slice (i + w) (i + w + 12) k)) x))

unfoldable pub text_row : Bytes → FrameKey → Bytes → Bool
text_row prefix x k =
    starts_with k prefix && (leb 12 (length k) && reads (from_bytes (drop (length k - 12) k)) x)

unfoldable pub byte_row : ℕ → FrameKey → Bytes → Bool
byte_row b x k =
    starts_with k (b ∷ []) && (leb 13 (length k) && reads (from_bytes (slice 1 13 k)) x)

unfoldable pub counted : (ℕ → Bool) → Option (ℕ × FrameKey) → FrameKey → Bool
counted wanted none x = false
counted wanted (some (n, fk)) x = wanted n && frame_key_eq fk x

unfoldable pub count_row : (ℕ → Bool) → Bytes → FrameKey → Bytes → Bool
unfolding counted
count_row wanted symbol x k =
    starts_with k (elem_count_symbol_prefix symbol)
    && counted wanted (parse_elem_count_key k symbol) x

-- The test of a condition that may be missing.
unfoldable pub asked {ℓ} : {A : Type ℓ} → Option A → (A → Bool) → Bool
asked none test = true
asked (some a) test = test a

unfoldable pub implies : Bool → Bool → Bool
implies cond test = not cond || test

module _ (db : Heed) where
  open db use {Table, get, iter}

  unfoldable pub hash_matches : ConCorpus db → Select → FrameKey → Bool
  hash_matches c sel x = asked sel.content_hash (λ h. posted_reads (get c.frame_by_hash h) x)

  unfoldable pub natoms_matches : ConCorpus db → Select → FrameKey → Bool
  natoms_matches c sel x = implies (is_some sel.natoms_min || is_some sel.natoms_max) (
      has_row (range_row 0 4 (unwrap_or sel.natoms_min 0) (unwrap_or sel.natoms_max (2 ^ 32 - 1)) x)
        (iter c.idx_natoms))

  unfoldable pub symbols_match : ConCorpus db → List Bytes → FrameKey → Bool
  symbols_match c [] x = true
  symbols_match c (sym ∷ symbols) x =
      has_row (text_row (symbol_prefix sym) x) (iter c.idx_symbol) && symbols_match c symbols x

  unfoldable pub formula_matches : ConCorpus db → Select → FrameKey → Bool
  formula_matches c sel x =
      asked sel.exact_formula
        (λ formula. has_row (text_row (formula_prefix formula) x) (iter c.idx_formula))

  unfoldable pub in_topo : Option Table → Result Bytes → FrameKey → Bool
  in_topo none norm x = false
  in_topo (some idx) (err e) x = false
  in_topo (some idx) (ok hex) x = has_row (text_row (topo_prefix hex) x) (iter idx)

  unfoldable pub topo_asked : Option Table → Option Bytes → FrameKey → Bool
  unfolding in_topo
  topo_asked idx_topo none x = true
  topo_asked idx_topo (some hex) x = in_topo idx_topo (normalize_topo_hex hex) x

  unfoldable pub topo_matches : ConCorpus db → Select → FrameKey → Bool
  topo_matches c sel x = topo_asked c.idx_topo sel.topo_key x

  unfoldable pub exact_match : ConCorpus db → List (Bytes × ℕ) → FrameKey → Bool
  exact_match c [] x = true
  exact_match c ((sym, exact_c) ∷ rest) x =
      has_row (count_row (λ n. n == exact_c) sym x) (iter c.idx_elem_count) && exact_match c rest x

  unfoldable pub min_match : ConCorpus db → List (Bytes × ℕ) → FrameKey → Bool
  min_match c [] x = true
  min_match c ((sym, min_c) ∷ rest) x =
      has_row (count_row (λ n. leb min_c n) sym x) (iter c.idx_elem_count) && min_match c rest x

  unfoldable pub ord_matches : Table → Float64 → Option Float64 → Option Float64 → FrameKey → Bool
  ord_matches t default lo hi x =
      implies (is_some lo || is_some hi)
        (has_row (range_row 0 8 (lo_bits lo default) (hi_bits hi) x) (iter t))

  unfoldable pub meta_matches : ConCorpus db → ℕ → Option Float64 → Option Float64 → FrameKey → Bool
  meta_matches c ch lo hi x = implies (is_some lo || is_some hi) (
      has_row
        (λ k. starts_with k (ch ∷ []) && range_row 1 8 (lo_bits lo neg_infinity) (hi_bits hi) x k)
        (iter c.idx_meta))

  unfoldable pub all_meta_match : ConCorpus db → Select → FrameKey → Bool
  all_meta_match c sel x =
      meta_matches c meta_time sel.time_min sel.time_max x
      && (meta_matches c meta_timestep sel.timestep_min sel.timestep_max x
          && (meta_matches c meta_frame_index sel.frame_index_min sel.frame_index_max x
              && (meta_matches c meta_neb_bead sel.neb_bead_min sel.neb_bead_max x
                  && (meta_matches c meta_neb_band sel.neb_band_min sel.neb_band_max x
                      && (meta_matches c meta_charge sel.charge_min sel.charge_max x
                          && meta_matches c meta_magmom sel.magmom_min sel.magmom_max x)))))

  unfoldable pub pbc_matches : ConCorpus db → Select → FrameKey → Bool
  pbc_matches c sel x =
      asked sel.pbc_exact (λ pbc. has_row (byte_row (pbc_mask_from_bools pbc) x) (iter c.idx_pbc))

  unfoldable pub flag_matches : ConCorpus db → Bool → ℕ → FrameKey → Bool
  flag_matches c required flag x = implies required (has_row (byte_row flag x) (iter c.idx_flags))

  unfoldable pub ranges_match : ConCorpus db → Select → FrameKey → Bool
  ranges_match c sel x =
      ord_matches c.idx_energy neg_infinity sel.energy_min sel.energy_max x
      && (ord_matches c.idx_fmax 0 sel.fmax_min sel.fmax_max x
          && (ord_matches c.idx_mass neg_infinity sel.mass_min sel.mass_max x
              && ord_matches c.idx_volume neg_infinity sel.volume_min sel.volume_max x))

  unfoldable pub flags_match : ConCorpus db → Select → FrameKey → Bool
  flags_match c sel x =
      flag_matches c sel.require_forces flag_has_forces x
      && (flag_matches c sel.require_velocities flag_has_velocities x
          && flag_matches c sel.require_energy flag_has_energy x)

  -- All conditions of the selection but its trajectory and its limit.
  unfoldable pub conditions_match : ConCorpus db → Select → FrameKey → Bool
  conditions_match c sel x =
      hash_matches c sel x
      && (natoms_matches c sel x
          && (symbols_match c sel.symbols_all x
              && (formula_matches c sel x
                  && (topo_matches c sel x
                      && (exact_match c sel.element_count_exact x
                          && (min_match c sel.element_count_min x
                              && (ranges_match c sel x
                                  && (pbc_matches c sel x
                                      && (all_meta_match c sel x && flags_match c sel x)))))))))
