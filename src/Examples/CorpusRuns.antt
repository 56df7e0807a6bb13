-- ===== src/Examples/CorpusRuns.antt =====
-- Runs of the corpus of src/corpus.rs over the tables of Examples/Sorted.
use readcon_db.Base.{ℕ, ◌≡◌, ◌≢◌, refl, inl, inr, false, none, some, List, [], ◌∷◌, arith}
use readcon_db.Base.Bytes.{Bytes, to_be_bytes, from_be_bytes, starts_with, bytes_eq, bytes_eq_iff}
use readcon_db.Base.Utf8.{is_utf8}
use readcon_db.Base.Order.{bytes_ltb}
use readcon_db.Error.{ok}
use readcon_db.Examples.Sorted.{sorted_tables}
use readcon_db.Examples.Dictionary.{repeat}
use readcon_db.Examples.CodecRuns.{group, redirect, z, frames, a20, b20, trajectory, packed}
use readcon_db.Keys.{FrameKey, to_bytes, natoms_key, symbol_key}
use readcon_db.Codec.{store_frame, load_frame, is_group, is_redirect, is_tagged}
use readcon_db.Corpus.{PreparedIndexPuts, ConCorpus, put_index_puts, put_all, rewrite_frames}
use readcon_db.Corpus.Rewrite.{
  HashesAgree, Rows, Fresh, Distinct, put_all-HashesAgree, rewrite_frames-HashesAgree,
}
use readcon_db.Corpus.Read.{find_by_hash-frame_hash, frame_hash, find_by_hash}
use readcon_db.Corpus.Ingest.{
  put_all-AllRead, AllRead, Built, group_prepared, group_texts, load_texts, set_stored, key_of,
}

abbrev pub none_yet : ConCorpus sorted_tables
none_yet = record {
  frames = sorted_tables.empty;
  traj_meta = sorted_tables.empty;
  idx_natoms = sorted_tables.empty;
  idx_symbol = sorted_tables.empty;
  idx_energy = sorted_tables.empty;
  idx_flags = sorted_tables.empty;
  idx_elem_count = sorted_tables.empty;
  idx_formula = sorted_tables.empty;
  idx_fmax = sorted_tables.empty;
  idx_mass = sorted_tables.empty;
  idx_volume = sorted_tables.empty;
  idx_pbc = sorted_tables.empty;
  idx_meta = sorted_tables.empty;
  frame_by_hash = sorted_tables.empty;
  hash_by_frame = sorted_tables.empty;
  frames_soa = sorted_tables.empty;
  idx_topo = none;
  topo_by_frame = none;
}

-- The rows of a frame of trajectory 5, with its atoms counted.
abbrev pub row : ℕ → ℕ → Bytes → PreparedIndexPuts
row k byte stored = record {
  fk = key_of 5 k;
  stored = stored;
  hash = repeat 16 byte;
  natoms_k = natoms_key 3 (key_of 5 k);
  symbol_keys = symbol_key (b'C' ∷ []) (key_of 5 k) ∷ [];
  elem_count_keys = [];
  formula_k = none;
  energy_k = none;
  fmax_k = none;
  mass_k = none;
  volume_k = none;
  pbc_k = none;
  flag_keys = [];
  meta_keys = [];
}

abbrev pub rows : List PreparedIndexPuts
rows = row 62 1 a20 ∷ row 63 1 b20 ∷ row 64 2 (repeat 3 b'c') ∷ []

agree_at_first : HashesAgree sorted_tables none_yet []
agree_at_first = record {
  row_key = λ k h e. absurd (ground arith);
  row_hash = λ k h e. absurd (ground arith);
  known = λ k h e. absurd (ground arith);
  posting_key = λ h b e. absurd (ground arith);
  posted = λ h b e. absurd (ground arith);
}

fresh : Fresh sorted_tables none_yet.hash_by_frame rows
fresh = (
  ((omega arith, omega arith), refl),
  refl,
  (((omega arith, omega arith), refl), refl, (((omega arith, omega arith), refl), refl, tt)),
)

differ : (a b : Bytes) → bytes_eq a b ≡ false → a ≢ b
differ a b h e = ground (arith, bytes_eq_iff a b)

distinct : Distinct rows
unfolding to_bytes to_be_bytes bytes_eq
distinct = ((differ _ _ refl, (differ _ _ refl, tt)), ((differ _ _ refl, tt), (tt, tt)))

put_all-HashesAgree_example : HashesAgree sorted_tables (put_all sorted_tables none_yet rows) []
put_all-HashesAgree_example =
    put_all-HashesAgree sorted_tables none_yet rows agree_at_first fresh distinct

-- The corpus with the three frames, of which two have one hash.
abbrev pub filled : ConCorpus sorted_tables
filled = put_all sorted_tables none_yet rows

filled-HashesAgree : HashesAgree sorted_tables filled []
filled-HashesAgree = put_all-HashesAgree sorted_tables none_yet rows agree_at_first fresh distinct

there : Rows sorted_tables filled.hash_by_frame rows
unfolding put_all put_index_puts to_bytes to_be_bytes bytes_eq bytes_ltb
there = (
  (omega arith, omega arith),
  refl,
  ((omega arith, omega arith), refl, ((omega arith, omega arith), refl, tt)),
)

-- The first frame, whose hash the second has too, goes over to another hash.
abbrev old_puts : List PreparedIndexPuts
old_puts = row 62 1 a20 ∷ []

abbrev prepared : List PreparedIndexPuts
prepared = row 62 3 (repeat 4 b'd') ∷ []

rewrite_frames-HashesAgree_example :
    HashesAgree sorted_tables (rewrite_frames sorted_tables filled old_puts prepared) []
rewrite_frames-HashesAgree_example =
    rewrite_frames-HashesAgree sorted_tables filled old_puts prepared filled-HashesAgree
      (there.0, there.1, tt) (tt, tt) (((omega arith, omega arith), refl), inr (inl refl), tt)
      (tt, tt)

find_by_hash-frame_hash_example :
    (fk : FrameKey) × (frame_hash sorted_tables z from_be_bytes filled (key_of 5 63)
      ≡ ok (repeat 16 1))
    × (find_by_hash sorted_tables z from_be_bytes filled (repeat 16 1) ≡ some fk)
    × (frame_hash sorted_tables z from_be_bytes filled fk ≡ ok (repeat 16 1))
find_by_hash-frame_hash_example =
    find_by_hash-frame_hash sorted_tables z from_be_bytes filled (key_of 5 63) (repeat 16 1)
      filled-HashesAgree there.2.1

built : Built z 5 frames rows
unfolding store_frame bytes_eq
built = (refl, refl, (refl, refl, (refl, refl, tt)))

loaded : load_texts z rows ≡ ok frames
unfolding load_texts load_frame is_group is_redirect is_tagged is_utf8 starts_with
loaded = refl

grouped :
    group_prepared z rows ≡ ok (row 62 1 group ∷ row 63 1 redirect ∷ row 64 2 (repeat 3 b'c') ∷ [])
unfolding group_prepared group_texts set_stored
grouped = rw (loaded, packed) refl

put_all-AllRead_example :
    AllRead sorted_tables z from_be_bytes 5
      (omega arith)
      (put_all sorted_tables none_yet
        (row 62 1 group ∷ row 63 1 redirect ∷ row 64 2 (repeat 3 b'c') ∷ []))
      frames
put_all-AllRead_example =
    put_all-AllRead sorted_tables z from_be_bytes 5 (omega arith) none_yet frames rows _ trajectory
      built grouped
