-- ===== src/Corpus.antt =====
-- src/corpus.rs: the tables of a corpus and the writes that a transaction makes to them. The
-- tables' implementation is the section's parameter, an interface of Heed.antt; an error of LMDB
-- itself aborts the whole transaction and has no counterpart here.
pub mod HashIndex
pub mod Repoint
pub mod Rewrite
pub mod Read
pub mod Ingest
pub mod Build
pub mod Chunks
pub mod MapSize
pub mod Commit
pub mod EncodedKeys
pub mod Dump
pub mod Repack
pub mod Reindex
pub mod Topo
pub mod Annotate
use readcon_db.Base.{
  ℕ, zero, suc, ◌+◌, ◌-◌, ◌*◌, ◌/◌, ◌%◌, ◌^◌, ◌<◌, ◌≤◌, ◌≡◌, ◌≢◌, refl, sym, ap, ◌∙◌, ◌↔◌, ◌⊎◌, inl,
  inr, Bool, true, false, not, ◌&&◌, ◌||◌, Option, none, some, List, [], ◌∷◌, ◌++◌, map, ltb, leb,
  ◌==◌, if◌then◌else◌, arith, Bool-cases, &&_split, lt→ltb, ltb→lt, leb→le, ==_iff, length, take,
  drop, slice, get_elem?, All, All-append, length-append, take-append, drop-append, take_all,
  length-take, length-drop, take-drop, get_elem?-append, slice-append, slice-append_end, usize_max,
  saturating_add, saturating_mul, min, max,
}
use mathlib.Core.List.{append-nil, append_assoc}
use readcon_db.Base.Bytes.{
  Bytes, IsByte, IsU32, IsU64, to_le_bytes, from_le_bytes, to_be_bytes, from_be_bytes,
  length-to_le_bytes, from_le_bytes-to_le_bytes, length-to_be_bytes, from_be_bytes-to_be_bytes,
  to_be_bytes-IsByte, starts_with, starts_with-append, bytes_eq, bytes_eq_iff,
}
use readcon_db.Base.Utf8.{is_utf8, is_utf8-IsTextByte, IsTextByte}
use readcon_db.Base.Order.{bytes_ltb, bytes_ltb-to_be_bytes}
use readcon_db.Error.{
  Error, Result, ok, err, message, parse, missing_frame, traj_exists, heed, io, utf8, json, nul,
  ◌>>=◌, ◌>>◌, guard, ok_or, >>=-eq-ok,
}
use readcon_db.Heed.{Heed, Entry}
use readcon_db.Keys.{
  FrameKey, to_bytes, from_bytes, ContentHash, frame_key_eq, content_hash_from_bytes,
}

-- All keys of one frame, and the value for `frames`.
pub record PreparedIndexPuts : Type 0 where
  pub fk : FrameKey
  pub stored : Bytes
  pub hash : ContentHash
  pub natoms_k : Bytes
  pub symbol_keys : List Bytes
  pub elem_count_keys : List Bytes
  pub formula_k : Option Bytes
  pub energy_k : Option Bytes
  pub fmax_k : Option Bytes
  pub mass_k : Option Bytes
  pub volume_k : Option Bytes
  pub pbc_k : Option Bytes
  pub flag_keys : List Bytes
  pub meta_keys : List Bytes

-- The keys of an `Option` field as a list, as `as_slice` gives them.
abbrev pub as_slice : Option Bytes → List Bytes
as_slice none = []
as_slice (some k) = k ∷ []

-- `posted.then_some(hash)`
abbrev pub then_some {ℓ} : {A : Type ℓ} → Bool → A → Option A
then_some true a = some a
then_some false a = none

-- The test `FrameKey::from_bytes(bytes) == Some(fk)`.
unfoldable pub names_frame : Option Bytes → FrameKey → Bool
names_frame none fk = false
names_frame (some bytes) fk = elim (from_bytes bytes) [
  | none ↦ false
  | some other ↦ frame_key_eq other fk
]

module _ (db : Heed) where
  open db use {Table, empty, get, put, delete, iter, prefix_iter}

  -- The tables of `ConCorpus`; the two of the topology may be missing in an older corpus.
  pub record ConCorpus : Type 0 where
    pub frames : Table
    pub traj_meta : Table
    pub idx_natoms : Table
    pub idx_symbol : Table
    pub idx_energy : Table
    pub idx_flags : Table
    pub idx_elem_count : Table
    pub idx_formula : Table
    pub idx_fmax : Table
    pub idx_mass : Table
    pub idx_volume : Table
    pub idx_pbc : Table
    pub idx_meta : Table
    pub frame_by_hash : Table
    pub hash_by_frame : Table
    pub frames_soa : Table
    pub idx_topo : Option Table
    pub topo_by_frame : Option Table

  -- `for k in keys { table.put(wtxn, k, &()) }`, and the same with `delete`.
  unfoldable pub put_keys : Table → List Bytes → Table
  put_keys t [] = t
  put_keys t (k ∷ keys) = put_keys (put t k []) keys

  unfoldable pub delete_keys : Table → List Bytes → Table
  delete_keys t [] = t
  delete_keys t (k ∷ keys) = delete_keys (delete t k) keys

  -- `if frame_by_hash.get(hash)?.is_none() { frame_by_hash.put(hash, fk) }`
  unfoldable pub post_hash : Table → Bytes → Bytes → Table
  post_hash t hash fk_b = elim (get t hash) [ none ↦ put t hash fk_b | some other ↦ t ]

  unfoldable pub put_index_puts : ConCorpus → PreparedIndexPuts → ConCorpus
  put_index_puts c p = record c {
    frames = put c.frames (to_bytes p.fk) p.stored;
    hash_by_frame = put c.hash_by_frame (to_bytes p.fk) p.hash;
    frame_by_hash = post_hash c.frame_by_hash p.hash (to_bytes p.fk);
    idx_natoms = put c.idx_natoms p.natoms_k [];
    idx_symbol = put_keys c.idx_symbol p.symbol_keys;
    idx_elem_count = put_keys c.idx_elem_count p.elem_count_keys;
    idx_formula = put_keys c.idx_formula (as_slice p.formula_k);
    idx_energy = put_keys c.idx_energy (as_slice p.energy_k);
    idx_fmax = put_keys c.idx_fmax (as_slice p.fmax_k);
    idx_mass = put_keys c.idx_mass (as_slice p.mass_k);
    idx_volume = put_keys c.idx_volume (as_slice p.volume_k);
    idx_pbc = put_keys c.idx_pbc (as_slice p.pbc_k);
    idx_flags = put_keys c.idx_flags p.flag_keys;
    idx_meta = put_keys c.idx_meta p.meta_keys;
  }

  unfoldable pub delete_index_puts : ConCorpus → PreparedIndexPuts → ConCorpus × Option ContentHash
  delete_index_puts c p = (
    record c {
      frames = delete c.frames (to_bytes p.fk);
      hash_by_frame = delete c.hash_by_frame (to_bytes p.fk);
      frames_soa = delete c.frames_soa (to_bytes p.fk);
      idx_natoms = delete c.idx_natoms p.natoms_k;
      idx_symbol = delete_keys c.idx_symbol p.symbol_keys;
      idx_elem_count = delete_keys c.idx_elem_count p.elem_count_keys;
      idx_formula = delete_keys c.idx_formula (as_slice p.formula_k);
      idx_energy = delete_keys c.idx_energy (as_slice p.energy_k);
      idx_fmax = delete_keys c.idx_fmax (as_slice p.fmax_k);
      idx_mass = delete_keys c.idx_mass (as_slice p.mass_k);
      idx_volume = delete_keys c.idx_volume (as_slice p.volume_k);
      idx_pbc = delete_keys c.idx_pbc (as_slice p.pbc_k);
      idx_flags = delete_keys c.idx_flags p.flag_keys;
      idx_meta = delete_keys c.idx_meta p.meta_keys;
    },
    then_some (names_frame (get c.frame_by_hash p.hash) p.fk) p.hash,
  )

  -- `survivor.get(digest)`: the first row of `hash_by_frame`, in key order, with a hash of sixteen
  -- bytes equal to the digest and a key that is a frame key.
  unfoldable pub survivor : List Entry → Bytes → Option FrameKey
  survivor [] digest = none
  survivor ((key, hash) ∷ rows) digest =
      let other = survivor rows digest in
      if length hash == 16 && bytes_eq hash digest
      then elim (from_bytes key) [ none ↦ other | some fk ↦ some fk ]
      else other

  -- One round of the second loop of `repoint_frame_by_hash`. `rows` are those of `hash_by_frame`.
  unfoldable pub repoint_one : Table → Table → Bytes → Table
  repoint_one hash_by_frame t digest = elim (get t digest) [
    | none ↦ t
    | some bytes ↦ elim (from_bytes bytes) [
      | none ↦ t
      | some posted ↦ elim (get hash_by_frame (to_bytes posted)) [
        | some hash ↦ t
        | none ↦ elim (survivor (iter hash_by_frame) digest) [
          | some other ↦ put t digest (to_bytes other)
          | none ↦ delete t digest
        ]
      ]
    ]
  ]

  unfoldable pub repoint_all : Table → Table → List Bytes → Table
  repoint_all hash_by_frame t [] = t
  repoint_all hash_by_frame t (digest ∷ stale) =
      repoint_all hash_by_frame (repoint_one hash_by_frame t digest) stale

  unfoldable pub repoint_frame_by_hash : ConCorpus → List Bytes → ConCorpus
  repoint_frame_by_hash c stale = record c {
    frame_by_hash = repoint_all c.hash_by_frame c.frame_by_hash stale;
  }

  -- The loops over several frames: `for p in prepared { put_index_puts(p) }`, and the deletes of
  -- `set_trajectory_units` with the hashes that they return.
  unfoldable pub put_all : ConCorpus → List PreparedIndexPuts → ConCorpus
  put_all c [] = c
  put_all c (p ∷ ps) = put_all (put_index_puts c p) ps

  unfoldable pub push_stale : Option ContentHash → List ContentHash → List ContentHash
  push_stale none stale = stale
  push_stale (some hash) stale = stale ++ (hash ∷ [])

  unfoldable pub delete_all :
      ConCorpus → List PreparedIndexPuts → List ContentHash → ConCorpus × List ContentHash
  delete_all c [] stale = (c, stale)
  delete_all c (p ∷ ps) stale =
      let (c', posted) = delete_index_puts c p in delete_all c' ps (push_stale posted stale)

  -- The transaction of `set_trajectory_units`: the old rows out, the hash postings moved, the new
  -- rows in.
  unfoldable pub rewrite_frames :
      ConCorpus → List PreparedIndexPuts → List PreparedIndexPuts → ConCorpus
  rewrite_frames c old_puts prepared =
      let (c', stale) = delete_all c old_puts [] in
      put_all (repoint_frame_by_hash c' stale) prepared
