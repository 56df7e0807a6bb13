-- ===== src/Corpus/Commit.antt =====
-- src/corpus.rs: the metadata of a trajectory, and the transactions that append to one:
-- `commit_prepared`, `extend_trajectory_frames` and the `IngestSession` of an MPI ingest. serde_json
-- is the section's parameter.
pub mod Counted
pub mod Steps
pub mod Race
use readcon_db.Base.{
  ℕ, zero, suc, ◌+◌, ◌-◌, ◌*◌, ◌/◌, ◌%◌, ◌^◌, ◌<◌, ◌≤◌, ◌≡◌, ◌≢◌, refl, sym, ap, ◌∙◌, ◌↔◌, ◌⊎◌, inl,
  inr, Bool, true, false, not, ◌&&◌, ◌||◌, Option, none, some, List, [], ◌∷◌, ◌++◌, map, ltb, leb,
  ◌==◌, if◌then◌else◌, arith, Bool-cases, &&_split, lt→ltb, ltb→lt, leb→le, ==_iff, length, take,
  drop, slice, get_elem?, All, All-append, length-append, take-append, drop-append, take_all,
  length-take, length-drop, take-drop, get_elem?-append, slice-append, slice-append_end, usize_max,
  saturating_add, saturating_mul, min, max,
}
use mathlib.Core.List.{append-nil, append_assoc}
use readcon_db.Base.Bytes.{
  Bytes, IsByte, IsU32, IsU64, to_le_bytes, from_le_bytes, to_be_bytes, from_be_bytes,
  length-to_le_bytes, from_le_bytes-to_le_bytes, length-to_be_bytes, from_be_bytes-to_be_bytes,
  to_be_bytes-IsByte, starts_with, starts_with-append, bytes_eq, bytes_eq_iff,
}
use readcon_db.Base.Utf8.{is_utf8, is_utf8-IsTextByte, IsTextByte}
use readcon_db.Base.Order.{bytes_ltb, bytes_ltb-to_be_bytes}
use readcon_db.Error.{
  Error, Result, ok, err, message, parse, missing_frame, traj_exists, heed, io, utf8, json, nul,
  ◌>>=◌, ◌>>◌, guard, ok_or, >>=-eq-ok,
}
use readcon_db.Zstd.{Zstd}
use readcon_db.Heed.{Heed, Entry}
use readcon_db.Keys.{FrameKey, TrajId}
use readcon_db.Keys.Float.{Float64}
use readcon_db.Topology.{TopologyParams, is_empty}
use readcon_db.Corpus.{PreparedIndexPuts, ConCorpus, put_all}
use readcon_db.Corpus.Ingest.{group_prepared}

pub record TrajMeta : Type 0 where
  pub n_frames : ℕ
  pub source : Bytes
  pub topo_cutoff : Option Float64
  pub topo_graph : Option Bytes
  pub topo_hops : Option ℕ
  pub topo_method : Option Bytes

unfoldable pub default_meta : TrajMeta
default_meta = record {
  n_frames = 0;
  source = [];
  topo_cutoff = none;
  topo_graph = none;
  topo_hops = none;
  topo_method = none;
}

unfoldable pub topo_params : TrajMeta → TopologyParams
topo_params m = record {
  cutoff = m.topo_cutoff;
  graph = m.topo_graph;
  hops = m.topo_hops;
  method = m.topo_method;
}

unfoldable pub has_topo : TrajMeta → Bool
unfolding topo_params
has_topo m = not (is_empty (topo_params m))

unfoldable pub stamp_topo : TrajMeta → Float64 → Bytes → ℕ → Bytes → TrajMeta
stamp_topo m cutoff graph hops method = record m {
  topo_cutoff = some cutoff;
  topo_graph = some graph;
  topo_hops = some hops;
  topo_method = some method;
}

-- serde_json on `TrajMeta`. A number of frames is read back as it was written; a cutoff may not be,
-- since JSON has no NaN.
pub record Json : Type 0 where
  pub to_string : TrajMeta → Result Bytes
  pub from_str : Bytes → Result TrajMeta
  pub from_str-to_string :
      (m : TrajMeta) (text : Bytes)
      → IsU32 m.n_frames
      → to_string m ≡ ok text
      → (back : TrajMeta) × (from_str text ≡ ok back) × (back.n_frames ≡ m.n_frames)

-- `traj_id.to_be_bytes()`
abbrev pub tid_key : TrajId → Bytes
tid_key traj_id = to_be_bytes 8 traj_id

-- `.last().map(|p| p.fk.frame_idx + 1).unwrap_or(default)`; the addition is of `u32`.
unfoldable pub next_idx : ℕ → List PreparedIndexPuts → ℕ
next_idx default [] = default
next_idx default (p ∷ ps) = next_idx ((p.fk.frame_idx + 1) % 2 ^ 32) ps

unfoldable pub n_frames_or_zero : Option TrajMeta → ℕ
n_frames_or_zero none = 0
n_frames_or_zero (some m) = m.n_frames

unfoldable pub or_default : Option TrajMeta → TrajMeta → TrajMeta
or_default none d = d
or_default (some m) d = m

module _ (db : Heed) (json : Json) where
  open db use {Table, get, put, prefix_iter}
  open json use {to_string, from_str}

  unfoldable pub some_meta : Result TrajMeta → Result (Option TrajMeta)
  some_meta (ok m) = ok (some m)
  some_meta (err e) = err e

  -- The metadata that a transaction finds.
  unfoldable pub read_meta : ConCorpus db → TrajId → Result (Option TrajMeta)
  read_meta c traj_id = elim (get c.traj_meta (tid_key traj_id)) [
    | none ↦ ok none
    | some existing ↦ some_meta (from_str existing)
  ]

  abbrev pub with_text : ConCorpus db → TrajId → Bytes → ConCorpus db
  with_text c traj_id text = record c { traj_meta = put c.traj_meta (tid_key traj_id) text }

  unfoldable pub put_meta : ConCorpus db → TrajId → TrajMeta → Result (ConCorpus db)
  put_meta c traj_id meta = do text ← to_string meta; ok (with_text c traj_id text)

  -- `return Err(TrajExists)` where there is metadata.
  unfoldable pub absent_meta : TrajId → Option TrajMeta → Result (Unit {0})
  absent_meta traj_id none = ok tt
  absent_meta traj_id (some meta) = err (traj_exists traj_id meta.n_frames)

  unfoldable pub refuse_existing : ConCorpus db → TrajId → Result (Unit {0})
  refuse_existing c traj_id = do meta ← read_meta c traj_id; absent_meta traj_id meta

  -- `traj_claimed`: nor is there a frame.
  unfoldable pub no_rows : List Entry → Result (Unit {0})
  no_rows [] = ok tt
  no_rows (row ∷ rows) = err (message "frame records and no metadata; refusing to overwrite")

  unfoldable pub traj_claimed : ConCorpus db → TrajId → Result (Unit {0})
  traj_claimed c traj_id = do
    free ← refuse_existing c traj_id
    no_rows (prefix_iter c.frames (tid_key traj_id))

  -- The closure of `commit_prepared`.
  unfoldable pub commit_body :
      TrajId → List PreparedIndexPuts → Bytes → Bool → ConCorpus db → Result (ConCorpus db × ℕ)
  commit_body traj_id prepared source replace_meta c = do
    free ← if replace_meta then ok tt else refuse_existing c traj_id
    let c1 = put_all db c prepared
    let n_frames = next_idx 0 prepared
    existing ← if replace_meta then read_meta c1 traj_id else ok none
    let meta = record (or_default existing default_meta) { n_frames = n_frames; source = source }
    c2 ← put_meta c1 traj_id meta
    ok (c2, n_frames)

  unfoldable pub commit_prepared :
      Zstd
      → TrajId
      → List PreparedIndexPuts
      → Bytes
      → Bool
      → Bool
      → ConCorpus db
      → Result (ConCorpus db × ℕ)
  commit_prepared z traj_id prepared source replace_meta compress c = do
    grouped ← if compress then group_prepared z prepared else ok prepared
    commit_body traj_id grouped source replace_meta c

  -- `extend_trajectory_frames`: what its read transaction finds, and the closure of its write
  -- transaction. Between the two, other transactions may run.
  unfoldable pub extend_start : ConCorpus db → TrajId → Result (ℕ × Option TrajMeta)
  extend_start c traj_id = do prior ← read_meta c traj_id; ok (n_frames_or_zero prior, prior)

  unfoldable pub extend_body :
      TrajId
      → ℕ
      → Option TrajMeta
      → List PreparedIndexPuts
      → Bytes
      → ConCorpus db
      → Result (ConCorpus db × ℕ)
  extend_body traj_id start_idx prior prepared hint c = do
    live ← read_meta c traj_id
    moved ← guard (n_frames_or_zero live == start_idx) (message "concurrent extend race")
    let n_frames = next_idx start_idx prepared
    let fresh = record default_meta { source = hint }
    let meta = record (or_default live (or_default prior fresh)) { n_frames = n_frames }
    c1 ← put_meta (put_all db c prepared) traj_id meta
    ok (c1, n_frames)

  -- `IngestSession`: the environment, and the open transaction's view of it.
  pub record IngestSession : Type 0 where
    pub committed : ConCorpus db
    pub txn : Option (ConCorpus db)

  unfoldable pub begin : ConCorpus db → IngestSession
  begin c = record { committed = c; txn = some c }

  unfoldable pub open_txn : IngestSession → Result (ConCorpus db)
  open_txn s = ok_or s.txn (message "ingest session is closed")

  unfoldable pub claim : IngestSession → TrajId → Result IngestSession
  claim s traj_id = do c ← open_txn s; free ← traj_claimed c traj_id; ok s

  unfoldable pub put_prepared : IngestSession → List PreparedIndexPuts → Result IngestSession
  put_prepared s prepared = do c ← open_txn s; ok (record s { txn = some (put_all db c prepared) })

  unfoldable pub put_traj_meta : IngestSession → TrajId → ℕ → Bytes → Result IngestSession
  put_traj_meta s traj_id n_frames source = do
    text ← to_string (record default_meta { n_frames = n_frames; source = source })
    c ← open_txn s
    ok (record s { txn = some (with_text c traj_id text) })

  unfoldable pub commit : IngestSession → Result IngestSession
  commit s = do c ← open_txn s; ok (record { committed = c; txn = none })
