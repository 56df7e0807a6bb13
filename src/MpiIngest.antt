-- ===== src/MpiIngest.antt =====
-- src/mpi_ingest.rs: the frames that a writing rank holds until their group is complete, in the
-- buffer of one environment.
pub mod Grouping
pub mod Draining
use readcon_db.Base.{
  ℕ, zero, suc, ◌+◌, ◌-◌, ◌*◌, ◌/◌, ◌%◌, ◌^◌, ◌<◌, ◌≤◌, ◌≡◌, ◌≢◌, refl, sym, ap, ◌∙◌, ◌↔◌, ◌⊎◌, inl,
  inr, Bool, true, false, not, ◌&&◌, ◌||◌, Option, none, some, List, [], ◌∷◌, ◌++◌, map, ltb, leb,
  ◌==◌, if◌then◌else◌, arith, Bool-cases, &&_split, lt→ltb, ltb→lt, leb→le, ==_iff, length, take,
  drop, slice, get_elem?, All, All-append, length-append, take-append, drop-append, take_all,
  length-take, length-drop, take-drop, get_elem?-append, slice-append, slice-append_end, usize_max,
  saturating_add, saturating_mul, min, max,
}
use mathlib.Core.List.{append-nil, append_assoc}
use readcon_db.Base.Bytes.{
  Bytes, IsByte, IsU32, IsU64, to_le_bytes, from_le_bytes, to_be_bytes, from_be_bytes,
  length-to_le_bytes, from_le_bytes-to_le_bytes, length-to_be_bytes, from_be_bytes-to_be_bytes,
  to_be_bytes-IsByte, starts_with, starts_with-append, bytes_eq, bytes_eq_iff,
}
use readcon_db.Base.Utf8.{is_utf8, is_utf8-IsTextByte, IsTextByte}
use readcon_db.Base.Order.{bytes_ltb, bytes_ltb-to_be_bytes}
use readcon_db.Error.{
  Error, Result, ok, err, message, parse, missing_frame, traj_exists, heed, io, utf8, json, nul,
  ◌>>=◌, ◌>>◌, guard, ok_or, >>=-eq-ok, ok_eq,
}
use readcon_db.Zstd.{Zstd}
use readcon_db.Keys.{FrameKey, TrajId}
use readcon_db.Codec.{Frame, group_len, load_frame, pack_aligned}

pub record Held : Type 0 where
  pub fk : FrameKey
  pub enc : Bytes
  pub stored : Bytes

-- `for (row, stored) in rows.iter_mut().zip(packed) { row.stored = stored }`
unfoldable pub set_held : List Held → List Bytes → List Held
set_held [] packed = []
set_held (r ∷ rows) [] = r ∷ rows
set_held (r ∷ rows) (v ∷ packed) = record r { stored = v } ∷ set_held rows packed

-- The test on the last row of a group: the same trajectory, and the last index before `end`. The
-- addition is of `u32`.
unfoldable pub completes : Option Held → TrajId → ℕ → Bool
completes none traj_id end = false
completes (some last) traj_id end =
    last.fk.traj_id == traj_id && (last.fk.frame_idx + 1) % 2 ^ 32 == end

module _ (z : Zstd) where
  unfoldable pub load_held : List Held → Result (List Frame)
  load_held [] = ok []
  load_held (r ∷ rows) = do
    text ← load_frame z r.stored
    more ← load_held rows
    ok ((r.fk.frame_idx, text) ∷ more)

  unfoldable pub pack_held : List Held → Result (List Held)
  pack_held rows = do
    texts ← load_held rows
    packed ← pack_aligned z texts
    ok (set_held rows packed)

  -- The loop of `drain_ready`, which drains a row at least in each round; what it makes ready, and
  -- what stays in the buffer. A `need` of zero, at which the code would panic, has no last row.
  unfoldable pub drain_loop : (TrajId → Option ℕ) → ℕ → List Held → Result (List Held × List Held)
  drain_loop n_of zero buf = ok ([], buf)
  drain_loop n_of (suc fuel) [] = ok ([], [])
  drain_loop n_of (suc fuel) (r ∷ rest) = do
    n ← ok_or (n_of r.fk.traj_id) (message "missing traj")
    let start = r.fk.frame_idx / group_len * group_len
    aligned ←
        guard (r.fk.frame_idx == start) (message "frame group does not start on an aligned index")
    let end = min ((start + group_len) % 2 ^ 32) n
    let need = end - start
    let more = drain_loop n_of fuel (drop need (r ∷ rest))
    let group = pack_held (take need (r ∷ rest))
    if ltb (length (r ∷ rest)) need
        then ok ([], r ∷ rest)
        else if completes (get_elem? (r ∷ rest) (need - 1)) r.fk.traj_id end
        then (do g ← group; (ready, left) ← more; ok (g ++ ready, left))
        else ok ([], r ∷ rest)

  unfoldable pub drain_ready : (TrajId → Option ℕ) → List Held → Result (List Held × List Held)
  drain_ready n_of buf = drain_loop n_of (length buf) buf

  -- Batches that arrive one after the other: each is appended to the buffer, and what is ready is
  -- put. The rows that were put, and the buffer at the end.
  unfoldable pub feed :
      (TrajId → Option ℕ) → List Held → List (List Held) → Result (List Held × List Held)
  feed n_of buf [] = ok ([], buf)
  feed n_of buf (batch ∷ batches) = do
    (ready, left) ← drain_ready n_of (buf ++ batch)
    (more, rest) ← feed n_of left batches
    ok (ready ++ more, rest)

  -- The loop over the batches and the last flush, behind which no row may be held.
  unfoldable pub put_batches : (TrajId → Option ℕ) → List (List Held) → Result (List Held)
  put_batches n_of batches = do
    (rows, left) ← feed n_of [] batches
    (tail, rest) ← drain_ready n_of left
    finished ← guard (length rest == 0) (message "MPI ingest left an unfinished frame group")
    ok (rows ++ tail)
