-- ===== src/Corpus/Build.antt =====
-- src/corpus.rs `build_index_puts`: the keys of a frame, from the scalars that readcon-core gives
-- of it. Those scalars are the parameter `FrameIndexProjection`.
use readcon_db.Base.{
  ℕ, sym, Bool, true, false, ◌||◌, Option, none, some, List, [], ◌∷◌, ◌++◌, if◌then◌else◌,
}
use readcon_db.Base.Bytes.{Bytes, bytes_eq}
use readcon_db.Error.{Result, ok, ◌>>=◌}
use readcon_db.Zstd.{Zstd}
use readcon_db.Keys.{
  FrameKey, ContentHash, hash_frame_bytes, natoms_key, symbol_key, elem_count_key, formula_key,
  flag_key, flag_has_forces, flag_has_velocities, flag_has_energy, pbc_key, pbc_mask_from_bools,
  meta_time, meta_timestep, meta_frame_index, meta_neb_bead, meta_neb_band, meta_charge,
  meta_magmom,
}
use readcon_db.Keys.Float.{
  Float64, energy_bin_key, fmax_bin_key, mass_bin_key, volume_bin_key, meta_scalar_key,
}
use readcon_db.Codec.{store_frame}
use readcon_db.Corpus.{PreparedIndexPuts, as_slice}

-- readcon-core's `FrameIndexProjection`, by the fields that the code reads.
pub record FrameIndexProjection : Type 0 where
  pub n_atoms : ℕ
  pub species_counts : List (Bytes × ℕ)
  pub formula : Bytes
  pub energy : Option Float64
  pub has_forces : Bool
  pub has_velocities : Bool
  pub fmax : Option Float64
  pub total_mass : Option Float64
  pub cell_volume : Option Float64
  pub pbc : Option (Bool × Bool × Bool)
  pub time : Option Float64
  pub timestep : Option Float64
  pub frame_index : Option Float64
  pub neb_bead : Option Float64
  pub neb_band : Option Float64
  pub charge : Option Float64
  pub magmom : Option Float64

-- `o.and_then(f)`
unfoldable pub and_then {ℓ κ} : {A : Type ℓ} {B : Type κ} → Option A → (A → Option B) → Option B
and_then none f = none
and_then (some a) f = f a

unfoldable pub is_some {ℓ} : {A : Type ℓ} → Option A → Bool
is_some none = false
is_some (some a) = true

unfoldable pub has_seen : List Bytes → Bytes → Bool
has_seen [] sym = false
has_seen (s ∷ seen) sym = bytes_eq s sym || has_seen seen sym

unfoldable pub elem_count_keys_of : FrameKey → List (Bytes × ℕ) → List Bytes
elem_count_keys_of fk [] = []
elem_count_keys_of fk ((sym, cnt) ∷ counts) =
    elem_count_key sym cnt fk ∷ elem_count_keys_of fk counts

-- A symbol's key the first time that it is seen.
unfoldable pub symbol_keys_of : FrameKey → List Bytes → List (Bytes × ℕ) → List Bytes
symbol_keys_of fk seen [] = []
symbol_keys_of fk seen ((sym, cnt) ∷ counts) =
    let rest = symbol_keys_of fk (sym ∷ seen) counts in
    if has_seen seen sym then rest else symbol_key sym fk ∷ rest

unfoldable pub formula_key_of : FrameKey → Bytes → Option Bytes
formula_key_of fk [] = none
formula_key_of fk (c ∷ formula) = some (formula_key (c ∷ formula) fk)

unfoldable pub push_when : Bool → Bytes → List Bytes
push_when cond k = if cond then k ∷ [] else []

unfoldable pub flag_keys_of : FrameKey → FrameIndexProjection → List Bytes
flag_keys_of fk proj =
    push_when (is_some proj.energy) (flag_key flag_has_energy fk)
    ++ (push_when proj.has_forces (flag_key flag_has_forces fk)
        ++ push_when proj.has_velocities (flag_key flag_has_velocities fk))

unfoldable pub meta_key_of : FrameKey → ℕ → Option Float64 → List Bytes
meta_key_of fk ch val = as_slice (and_then val (λ x. meta_scalar_key ch x fk))

unfoldable pub meta_keys_of : FrameKey → FrameIndexProjection → List Bytes
meta_keys_of fk proj =
    meta_key_of fk meta_time proj.time
    ++ (meta_key_of fk meta_timestep proj.timestep
        ++ (meta_key_of fk meta_frame_index proj.frame_index
            ++ (meta_key_of fk meta_neb_bead proj.neb_bead
                ++ (meta_key_of fk meta_neb_band proj.neb_band
                    ++ (meta_key_of fk meta_charge proj.charge
                        ++ meta_key_of fk meta_magmom proj.magmom)))))

unfoldable pub keys_of : FrameKey → FrameIndexProjection → Bytes → ContentHash → PreparedIndexPuts
keys_of fk proj stored hash = record {
  fk = fk;
  stored = stored;
  hash = hash;
  natoms_k = natoms_key proj.n_atoms fk;
  symbol_keys = symbol_keys_of fk [] proj.species_counts;
  elem_count_keys = elem_count_keys_of fk proj.species_counts;
  formula_k = formula_key_of fk proj.formula;
  energy_k = and_then proj.energy (λ e. energy_bin_key e fk);
  fmax_k = if proj.has_forces then and_then proj.fmax (λ fm. fmax_bin_key fm fk) else none;
  mass_k = and_then proj.total_mass (λ m. mass_bin_key m fk);
  volume_k = and_then proj.cell_volume (λ v. volume_bin_key v fk);
  pbc_k = and_then proj.pbc (λ p. some (pbc_key (pbc_mask_from_bools p) fk));
  flag_keys = flag_keys_of fk proj;
  meta_keys = meta_keys_of fk proj;
}

module _ (z : Zstd) (xxh3_128 : Bytes → ℕ) where
  unfoldable pub build_index_puts :
      FrameKey → FrameIndexProjection → Bytes → Bool → Result PreparedIndexPuts
  build_index_puts fk proj text compress = do
    stored ← store_frame z text compress
    ok (keys_of fk proj stored (hash_frame_bytes xxh3_128 text))
