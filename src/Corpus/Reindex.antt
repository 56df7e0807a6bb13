-- ===== src/Corpus/Reindex.antt =====
-- src/corpus.rs `reindex`: every secondary index is cleared and written anew from the values of
-- `frames`, and `idx_topo` from the keys that are stored by frame. serde_json, zstd and xxh3-128 are
-- parameters, and so is `project`: the first frame of a text, as readcon-core parses it, by the
-- scalars that the indexes have of it.
pub mod Loop
pub mod Rows
pub mod Exact
pub mod Rebuilding
pub mod Keys
pub mod TopoKeys
pub mod Promise
use readcon_db.Base.{
  ℕ, zero, suc, ◌+◌, ◌-◌, ◌*◌, ◌/◌, ◌%◌, ◌^◌, ◌<◌, ◌≤◌, ◌≡◌, ◌≢◌, refl, sym, ap, ◌∙◌, ◌↔◌, ◌⊎◌, inl,
  inr, Bool, true, false, not, ◌&&◌, ◌||◌, Option, none, some, List, [], ◌∷◌, ◌++◌, map, ltb, leb,
  ◌==◌, if◌then◌else◌, arith, Bool-cases, &&_split, lt→ltb, ltb→lt, leb→le, ==_iff, length, take,
  drop, slice, get_elem?, All, All-append, length-append, take-append, drop-append, take_all,
  length-take, length-drop, take-drop, get_elem?-append, slice-append, slice-append_end, usize_max,
  saturating_add, saturating_mul, min, max,
}
use readcon_db.Zstd.{Zstd}
use readcon_db.Heed.{Heed, Entry}
use readcon_db.Keys.{
  FrameKey, TrajId, ContentHash, to_bytes, from_bytes, symbol_key, topo_key, hash_frame_bytes,
}
use readcon_db.Topology.{TopologyParams, agrees, normalize_topo_hex}
use readcon_db.Codec.{decode_frame}
use readcon_db.Corpus.{PreparedIndexPuts, as_slice, ConCorpus, put_keys, post_hash}
use readcon_db.Corpus.Build.{FrameIndexProjection, keys_of}
use readcon_db.Corpus.Read.{stored_in}
use readcon_db.Corpus.Commit.{TrajMeta, Json, topo_params, has_topo}
use mathlib.Core.List.{append-nil, append_assoc}
use readcon_db.Base.Bytes.{
  Bytes, IsByte, IsU32, IsU64, to_le_bytes, from_le_bytes, to_be_bytes, from_be_bytes,
  length-to_le_bytes, from_le_bytes-to_le_bytes, length-to_be_bytes, from_be_bytes-to_be_bytes,
  to_be_bytes-IsByte, starts_with, starts_with-append, bytes_eq, bytes_eq_iff,
}
use readcon_db.Base.Utf8.{is_utf8, is_utf8-IsTextByte, IsTextByte}
use readcon_db.Base.Order.{bytes_ltb, bytes_ltb-to_be_bytes}
use readcon_db.Error.{
  Error, Result, ok, err, message, parse, missing_frame, traj_exists, heed, io, utf8, json, nul,
  ◌>>=◌, ◌>>◌, guard, ok_or, >>=-eq-ok, ok_eq,
}

-- The keys of `idx_symbol`, put once for each count.
unfoldable pub all_symbol_keys : FrameKey → List (Bytes × ℕ) → List Bytes
all_symbol_keys fk [] = []
all_symbol_keys fk ((sym, cnt) ∷ counts) = symbol_key sym fk ∷ all_symbol_keys fk counts

-- What is put for one frame.
unfoldable pub rows_of : FrameKey → FrameIndexProjection → Bytes → ContentHash → PreparedIndexPuts
rows_of fk proj stored hash = record (keys_of fk proj stored hash) {
  symbol_keys = all_symbol_keys fk proj.species_counts;
}

-- `TopologyParams::agrees` with what was seen, or the error for mixed parameters.
unfoldable pub see_params : Option TopologyParams → TopologyParams → Result (Option TopologyParams)
see_params none rec = ok (some rec)
see_params (some prev) rec =
    if agrees prev rec then ok (some prev) else err (message "mixed topology parameters")

unfoldable pub collect_params :
    Option TopologyParams → List (TrajId × TrajMeta) → Result (Option TopologyParams)
collect_params seen [] = ok seen
collect_params seen ((traj_id, meta) ∷ metas) =
    let skip = collect_params seen metas in
    let take = (do s ← see_params seen (topo_params meta); collect_params s metas) in
    if not (has_topo meta) then skip else take

module _ (db : Heed) (z : Zstd) (xxh3_128 : Bytes → ℕ) (json : Json)
    (project : Bytes → Result FrameIndexProjection) where
  open db use {Table, empty, get, put, iter}
  open json use {from_str}

  unfoldable pub clear_secondary : ConCorpus db → ConCorpus db
  clear_secondary c = record c {
    idx_natoms = empty;
    idx_symbol = empty;
    idx_energy = empty;
    idx_flags = empty;
    idx_elem_count = empty;
    idx_formula = empty;
    idx_fmax = empty;
    idx_mass = empty;
    idx_volume = empty;
    idx_pbc = empty;
    idx_meta = empty;
    frame_by_hash = empty;
    hash_by_frame = empty;
  }

  -- `if let Some(idx) = self.idx_topo { idx.clear(wtxn)? }`
  unfoldable pub clear_topo : Option Table → Option Table
  clear_topo none = none
  clear_topo (some idx) = some empty

  -- The puts of `index_frame`, but for that of `frames`.
  unfoldable pub put_rows : ConCorpus db → PreparedIndexPuts → ConCorpus db
  put_rows c p = record c {
    hash_by_frame = put c.hash_by_frame (to_bytes p.fk) p.hash;
    frame_by_hash = post_hash db c.frame_by_hash p.hash (to_bytes p.fk);
    idx_natoms = put c.idx_natoms p.natoms_k [];
    idx_elem_count = put_keys db c.idx_elem_count p.elem_count_keys;
    idx_symbol = put_keys db c.idx_symbol p.symbol_keys;
    idx_formula = put_keys db c.idx_formula (as_slice p.formula_k);
    idx_energy = put_keys db c.idx_energy (as_slice p.energy_k);
    idx_flags = put_keys db c.idx_flags p.flag_keys;
    idx_fmax = put_keys db c.idx_fmax (as_slice p.fmax_k);
    idx_mass = put_keys db c.idx_mass (as_slice p.mass_k);
    idx_volume = put_keys db c.idx_volume (as_slice p.volume_k);
    idx_pbc = put_keys db c.idx_pbc (as_slice p.pbc_k);
    idx_meta = put_keys db c.idx_meta p.meta_keys;
  }

  -- The rows of one frame, from its value in `frames`.
  unfoldable pub rebuild : ConCorpus db → FrameKey → Bytes → Result PreparedIndexPuts
  rebuild c fk stored = do
    text ←
        decode_frame z stored
          (λ head. stored_in db z xxh3_128 c (record { traj_id = fk.traj_id; frame_idx = head }))
    proj ← project text
    ok (rows_of fk proj stored (hash_frame_bytes xxh3_128 text))

  -- The loop over the keys of `frames`; what is not a frame key is skipped.
  unfoldable pub reindex_loop : ConCorpus db → List Entry → Result (ConCorpus db × ℕ)
  reindex_loop c [] = ok (c, 0)
  reindex_loop c ((k, v) ∷ keys) = elim (from_bytes k) [
    | none ↦ reindex_loop c keys
    | some fk ↦ elim (get c.frames k) [
      | none ↦ reindex_loop c keys
      | some stored ↦ do
        p ← rebuild c fk stored
        (c', n) ← reindex_loop (put_rows c p) keys
        ok (c', (n + 1) % 2 ^ 32)
    ]
  ]

  unfoldable pub list_traj_metas : List Entry → Result (List (TrajId × TrajMeta))
  list_traj_metas [] = ok []
  list_traj_metas ((k, v) ∷ rows) =
      let rest = list_traj_metas rows in
      if not (length k == 8)
      then rest
      else do meta ← from_str v; metas ← rest; ok ((from_be_bytes k, meta) ∷ metas)

  unfoldable pub collected_topo_params : ConCorpus db → Result (Option TopologyParams)
  collected_topo_params c = do metas ← list_traj_metas (iter c.traj_meta); collect_params none metas

  unfoldable pub put_topo_keys : Table → List Entry → Result Table
  put_topo_keys idx_topo [] = ok idx_topo
  put_topo_keys idx_topo ((k, v) ∷ pairs) = elim (from_bytes k) [
    | none ↦ put_topo_keys idx_topo pairs
    | some fk ↦ do
      text ← guard (is_utf8 v) utf8
      hex ← normalize_topo_hex v
      put_topo_keys (put idx_topo (topo_key hex fk) []) pairs
  ]

  unfoldable pub require_topo_dbs : ConCorpus db → Result (Table × Table)
  require_topo_dbs c = do
    idx ← ok_or c.idx_topo (message "topology indexes missing")
    by ← ok_or c.topo_by_frame (message "topology indexes missing")
    ok (idx, by)

  unfoldable pub rebuild_idx_topo_from_stored : ConCorpus db → Result (ConCorpus db)
  rebuild_idx_topo_from_stored c = do
    (idx_topo, topo_by_frame) ← require_topo_dbs c
    rebuilt ← put_topo_keys idx_topo (iter topo_by_frame)
    ok (record c { idx_topo = some rebuilt })

  -- `if recorded.is_some() { .. }`
  unfoldable pub rebuild_topo : Option TopologyParams → ConCorpus db → Result (ConCorpus db)
  rebuild_topo none c = ok c
  rebuild_topo (some params) c = rebuild_idx_topo_from_stored c

  unfoldable pub cleared : ConCorpus db → ConCorpus db
  cleared c = record (clear_secondary c) { idx_topo = clear_topo c.idx_topo }

  unfoldable pub reindex : ConCorpus db → Result (ConCorpus db × ℕ)
  reindex c = do
    recorded ← collected_topo_params c
    (c1, n) ← reindex_loop (cleared c) (iter c.frames)
    c2 ← rebuild_topo recorded c1
    ok (c2, n)
