-- ===== src/Corpus/Topo.antt =====
-- src/corpus.rs: the topology keys of frames. `topo_by_frame` has the key of each frame that was
-- annotated and `idx_topo` the frames of each key; `put_topo_entry` moves a frame from its old key to
-- its new one. The engine that finds the keys is outside.
pub mod Agree
use readcon_db.Base.{
  ℕ, zero, suc, ◌+◌, ◌-◌, ◌*◌, ◌/◌, ◌%◌, ◌^◌, ◌<◌, ◌≤◌, ◌≡◌, ◌≢◌, refl, sym, ap, ◌∙◌, ◌↔◌, ◌⊎◌, inl,
  inr, Bool, true, false, not, ◌&&◌, ◌||◌, Option, none, some, List, [], ◌∷◌, ◌++◌, map, ltb, leb,
  ◌==◌, if◌then◌else◌, arith, Bool-cases, &&_split, lt→ltb, ltb→lt, leb→le, ==_iff, length, take,
  drop, slice, get_elem?, All, All-append, length-append, take-append, drop-append, take_all,
  length-take, length-drop, take-drop, get_elem?-append, slice-append, slice-append_end, usize_max,
  saturating_add, saturating_mul, min, max,
}
use mathlib.Core.Path.{subst}
use readcon_db.Heed.{Heed}
use readcon_db.Heed.Tables.{put_cases, put_self, put_other, delete_cases, delete_other}
use readcon_db.Keys.{FrameKey, TrajId, to_bytes, from_bytes, topo_key}
use readcon_db.Keys.Float.{Float64}
use readcon_db.Keys.Layout.{
  IsFrameKey, from_bytes-to_bytes, length-to_bytes, last_twelve, last_twelve-append,
}
use readcon_db.Corpus.{ConCorpus}
use readcon_db.Corpus.Commit.{TrajMeta, Json, stamp_topo, put_meta}
use mathlib.Core.List.{append-nil, append_assoc}
use readcon_db.Base.Bytes.{
  Bytes, IsByte, IsU32, IsU64, to_le_bytes, from_le_bytes, to_be_bytes, from_be_bytes,
  length-to_le_bytes, from_le_bytes-to_le_bytes, length-to_be_bytes, from_be_bytes-to_be_bytes,
  to_be_bytes-IsByte, starts_with, starts_with-append, bytes_eq, bytes_eq_iff,
}
use readcon_db.Base.Utf8.{is_utf8, is_utf8-IsTextByte, IsTextByte}
use readcon_db.Base.Order.{bytes_ltb, bytes_ltb-to_be_bytes}
use readcon_db.Error.{
  Error, Result, ok, err, message, parse, missing_frame, traj_exists, heed, io, utf8, json, nul,
  ◌>>=◌, ◌>>◌, guard, ok_or, >>=-eq-ok, ok_eq,
}

module _ (db : Heed) where
  open db use {Table, get, put, delete}

  -- `if let Some(old) = topo_by_frame.get(..)? { .. }`
  unfoldable pub delete_old : Table → FrameKey → Option Bytes → Result Table
  delete_old idx_topo fk none = ok idx_topo
  delete_old idx_topo fk (some old) = do
    old_hex ← guard (is_utf8 old) utf8
    ok (delete idx_topo (topo_key old fk))

  unfoldable pub put_topo_entry : Table → Table → FrameKey → Bytes → Result (Table × Table)
  put_topo_entry idx_topo topo_by_frame fk hex = do
    rest ← delete_old idx_topo fk (get topo_by_frame (to_bytes fk))
    ok (put rest (topo_key hex fk) [], put topo_by_frame (to_bytes fk) hex)

  -- `for (fk, hex) in &pending { .. }`
  unfoldable pub put_topo_entries : Table → Table → List (FrameKey × Bytes) → Result (Table × Table)
  put_topo_entries idx_topo topo_by_frame [] = ok (idx_topo, topo_by_frame)
  put_topo_entries idx_topo topo_by_frame ((fk, hex) ∷ pending) = do
    (idx, by) ← put_topo_entry idx_topo topo_by_frame fk hex
    put_topo_entries idx by pending

  unfoldable pub frame_topo_key : ConCorpus db → FrameKey → Result (Option Bytes)
  frame_topo_key c key = elim c.topo_by_frame [
    | none ↦ ok none
    | some by ↦ elim (get by (to_bytes key)) [
      | none ↦ ok none
      | some b ↦ do text ← guard (is_utf8 b) utf8; ok (some b)
    ]
  ]

  module _ (json : Json) where
    -- `for (tid, meta) in &metas { .. }`, with the metadata that was read before the transaction.
    unfoldable pub stamp_metas :
        ConCorpus db
        → Float64
        → Bytes
        → ℕ
        → Bytes
        → List (TrajId × TrajMeta)
        → Result (ConCorpus db)
    stamp_metas c cutoff graph hops method [] = ok c
    stamp_metas c cutoff graph hops method ((tid, meta) ∷ metas) = do
      c1 ← put_meta db json c tid (stamp_topo meta cutoff graph hops method)
      stamp_metas c1 cutoff graph hops method metas

    -- The transaction of `annotate_topology`, on the two tables that `require_topo_dbs` has found.
    unfoldable pub annotate_body :
        Table
        → Table
        → List (FrameKey × Bytes)
        → Float64
        → Bytes
        → ℕ
        → Bytes
        → List (TrajId × TrajMeta)
        → ConCorpus db
        → Result (ConCorpus db × ℕ)
    annotate_body idx_topo topo_by_frame pending cutoff graph hops method metas c = do
      (idx, by) ← put_topo_entries idx_topo topo_by_frame pending
      c1 ←
          stamp_metas (record c { idx_topo = some idx; topo_by_frame = some by }) cutoff graph hops
            method metas
      ok (c1, length pending % 2 ^ 32)
