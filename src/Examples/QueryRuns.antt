-- ===== src/Examples/QueryRuns.antt =====
-- Runs of `select` of src/corpus.rs on the corpus of Examples/CorpusRuns.
use readcon_db.Base.{
  ◌≡◌, refl, inl, inr, leb, Bool, true, false, ◌&&◌, none, some, List, [], ◌∷◌, ltb, arith, All,
}
use readcon_db.Base.Bytes.{Bytes, IsByte, to_be_bytes, bytes_eq}
use readcon_db.Base.Order.{bytes_ltb}
use readcon_db.Error.{ok}
use readcon_db.Examples.Sorted.{sorted_tables}
use readcon_db.Examples.CorpusRuns.{filled, none_yet}
use readcon_db.Heed.{Entry}
use readcon_db.Keys.{FrameKey, to_bytes, natoms_key, symbol_prefix}
use readcon_db.Corpus.{put_all, put_index_puts, put_keys, ConCorpus}
use readcon_db.Corpus.Build.{FrameIndexProjection, keys_of}
use readcon_db.Corpus.Ingest.{key_of}
use readcon_db.Query.Spec.{range_row, text_row, count_row}
use readcon_db.Query.Found.{put_index_puts_found}
use readcon_db.Select.{Select, new}
use readcon_db.Query.{select}
use readcon_db.Scan.{KeySet, truncate, contains}
use readcon_db.Query.Order.{Ascending}
use readcon_db.Query.Scans.{AllKeys, has_row}
use readcon_db.Query.Conditions.{AreBytes}
use readcon_db.Query.Answer.{select_answer, topo_readable, matches}

are_bytes : Bytes → Bool
are_bytes [] = true
are_bytes (b ∷ bs) = ltb b 256 && are_bytes bs

are_bytes-All : (bs : Bytes) → are_bytes bs ≡ true → All IsByte bs
unfolding are_bytes
are_bytes-All [] h = tt
are_bytes-All (b ∷ bs) h = (ground arith, are_bytes-All bs (ground arith))

keys_are_bytes : List Entry → Bool
unfolding are_bytes
keys_are_bytes [] = true
keys_are_bytes ((k, v) ∷ entries) = are_bytes k && keys_are_bytes entries

keys_are_bytes-AllKeys : (entries : List Entry) → keys_are_bytes entries ≡ true → AllKeys entries
unfolding keys_are_bytes
keys_are_bytes-AllKeys [] h = tt
keys_are_bytes-AllKeys ((k, v) ∷ entries) h =
    (are_bytes-All k (ground arith), keys_are_bytes-AllKeys entries (ground arith))

pub filled-AreBytes : AreBytes sorted_tables filled
unfolding keys_are_bytes are_bytes put_all put_index_puts put_keys to_bytes to_be_bytes natoms_key
    bytes_eq bytes_ltb
filled-AreBytes = record {
  natoms = keys_are_bytes-AllKeys (sorted_tables.iter filled.idx_natoms) refl;
  energy = tt;
  fmax = tt;
  mass = tt;
  volume = tt;
}

-- Frames of three atoms with carbon among them, the first two.
abbrev carbons : Select
carbons = record new {
  natoms_min = some 3;
  natoms_max = some 3;
  symbols_all = (b'C' ∷ []) ∷ [];
  limit = some 2;
}

select_answer_example :
    (full : KeySet) × (select sorted_tables filled carbons ≡ ok (truncate (some 2) full))
    × Ascending full
    × ((x : FrameKey) → contains full x ≡ matches sorted_tables filled carbons x)
unfolding topo_readable
select_answer_example = select_answer sorted_tables filled carbons filled-AreBytes refl

-- An index of topologies, and a key that is none.
abbrev indexed : ConCorpus sorted_tables
indexed = record none_yet { idx_topo = some sorted_tables.empty }

abbrev by_topology : Select
by_topology = record new { topo_key = some (b'0' ∷ b'x' ∷ b'f' ∷ []) }

-- Copper oxide.
abbrev pub oxide : FrameIndexProjection
oxide = record {
  n_atoms = 3;
  species_counts = (b'C' ∷ b'u' ∷ [], 2) ∷ (b'O' ∷ [], 1) ∷ [];
  formula = b'C' ∷ b'u' ∷ b'2' ∷ b'O' ∷ [];
  energy = none;
  has_forces = true;
  has_velocities = false;
  fmax = some 0;
  total_mass = none;
  cell_volume = none;
  pbc = some (true, true, false);
  time = none;
  timestep = none;
  frame_index = none;
  neb_bead = none;
  neb_band = none;
  charge = none;
  magmom = none;
}

abbrev with_oxide : ConCorpus sorted_tables
with_oxide = put_index_puts sorted_tables none_yet (keys_of (key_of 5 7) oxide (1 ∷ []) (2 ∷ []))

put_index_puts_found_example :
    (has_row (range_row 0 4 2 4 (key_of 5 7)) (sorted_tables.iter with_oxide.idx_natoms) ≡ true)
    × (has_row
          (text_row (symbol_prefix (b'O' ∷ [])) (key_of 5 7))
          (sorted_tables.iter with_oxide.idx_symbol)
        ≡ true)
    × (has_row
          (count_row (λ n. leb 1 n) (b'O' ∷ []) (key_of 5 7))
          (sorted_tables.iter with_oxide.idx_elem_count)
        ≡ true)
put_index_puts_found_example =
    put_index_puts_found sorted_tables none_yet (key_of 5 7) oxide (1 ∷ []) (2 ∷ []) 2 4 (b'O' ∷ [])
      1 (λ n. leb 1 n) (omega arith, omega arith) (omega arith) (omega arith) (omega arith)
      (inr (inl refl)) (omega arith) refl
