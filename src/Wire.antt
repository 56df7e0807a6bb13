-- ===== src/Wire.antt =====
-- src/mpi_wire.rs: counts and displacements of MPI collectives, batch bounds, and the record that
-- carries one frame. An `i32` is a `ℤ`; the rest of a buffer comes back beside what was read.
pub mod Counts
pub mod Batches
pub mod Blocks
pub mod Records
use readcon_db.Base.{
  ℕ, zero, suc, ◌+◌, ◌-◌, ◌*◌, ◌/◌, ◌%◌, ◌^◌, ◌<◌, ◌≤◌, ◌≡◌, ◌≢◌, refl, sym, ap, ◌∙◌, ◌↔◌, ◌⊎◌, inl,
  inr, Bool, true, false, not, ◌&&◌, ◌||◌, Option, none, some, List, [], ◌∷◌, ◌++◌, map, ltb, leb,
  ◌==◌, if◌then◌else◌, arith, Bool-cases, &&_split, lt→ltb, ltb→lt, leb→le, ==_iff, length, take,
  drop, slice, get_elem?, All, All-append, length-append, take-append, drop-append, take_all,
  length-take, length-drop, take-drop, get_elem?-append, slice-append, slice-append_end, usize_max,
  saturating_add, saturating_mul, min, max,
}
use mathlib.Core.List.{append-nil, append_assoc}
use readcon_db.Base.Bytes.{
  Bytes, IsByte, IsU32, IsU64, to_le_bytes, from_le_bytes, to_be_bytes, from_be_bytes,
  length-to_le_bytes, from_le_bytes-to_le_bytes, length-to_be_bytes, from_be_bytes-to_be_bytes,
  to_be_bytes-IsByte, starts_with, starts_with-append, bytes_eq, bytes_eq_iff,
}
use readcon_db.Base.Utf8.{is_utf8, is_utf8-IsTextByte, IsTextByte}
use readcon_db.Base.Order.{bytes_ltb, bytes_ltb-to_be_bytes}
use readcon_db.Error.{
  Error, Result, ok, err, message, parse, missing_frame, traj_exists, heed, io, utf8, json, nul,
  ◌>>=◌, ◌>>◌, guard, ok_or, >>=-eq-ok,
}

pub data ℤ : Type 0 where
  pos : ℕ → ℤ
  negsuc : ℕ → ℤ

-- `i32::MAX`
abbrev pub mpi_count_max : ℕ
mpi_count_max = 2 ^ 31 - 1

unfoldable pub mpi_i32 : ℕ → Result ℤ
mpi_i32 n = if leb n mpi_count_max then ok (pos n) else err (message "MPI count exceeds i32::MAX")

-- The loop of `prefix_i32`; `acc` starts at 0 and only non-negative counts are added to it.
unfoldable pub prefix_from : ℕ → List ℤ → Result (List ℕ)
prefix_from acc [] = ok []
prefix_from acc (negsuc c ∷ counts) = err (message "negative MPI count")
prefix_from acc (pos c ∷ counts) =
    let rest = prefix_from (acc + c) counts in
    if leb (acc + c) mpi_count_max
    then (do displs ← rest; ok (acc ∷ displs))
    else err (message "MPI displacement exceeds i32::MAX")

unfoldable pub prefix_i32 : List ℤ → Result (List ℕ)
prefix_i32 counts = prefix_from 0 counts

-- The loop of `fits_i32`; the `u64` sum of two numbers up to `mpi_count_max` does not overflow.
unfoldable pub fits_from : ℕ → List ℕ → Bool
fits_from acc [] = true
fits_from acc (c ∷ counts) =
    let rest = fits_from (acc + c) counts in
    if ltb mpi_count_max c
    then false
    else if leb (acc + c) (2 ^ 64 - 1) && leb (acc + c) mpi_count_max
    then rest
    else false

unfoldable pub fits_i32 : List ℕ → Bool
fits_i32 counts = fits_from 0 counts

unfoldable pub fit_u32 : ℕ → Result ℕ
fit_u32 n = if leb n (2 ^ 32 - 1) then ok n else err (message "exceeds u32::MAX")

unfoldable pub hash_gather_chunk_frames : ℕ
hash_gather_chunk_frames = mpi_count_max / 16

unfoldable pub batch_end : ℕ → ℕ → ℕ → ℕ
batch_end b0 batch n = if leb n b0 then b0 else min (saturating_add b0 (max batch 1)) n

-- `b1.saturating_sub(b0)` is `-` on ℕ.
unfoldable pub shrink_batch_end : ℕ → ℕ → Option ℕ
shrink_batch_end b0 b1 =
    let span = b1 - b0 in
    let next = saturating_add b0 (span / 2) in
    if leb span 1 then none else if ltb b0 next && ltb next b1 then some next else none

unfoldable pub send_stored_bytes : ℕ → ℕ → ℕ → Bool
send_stored_bytes winner frame batch_start = winner == frame || ltb winner batch_start

unfoldable pub record_bytes : ℕ → ℕ → Bool → ℕ
record_bytes enc_len stored_len send_blob =
    8 + 8 + enc_len + 8 + (if send_blob then stored_len else 0)

unfoldable pub push_u64 : Bytes → ℕ → Bytes
push_u64 out n = out ++ to_le_bytes 8 n

unfoldable pub push_record : Bytes → ℕ → Bytes → Bytes → Bytes
unfolding push_u64
push_record out frame enc stored =
    push_u64 (push_u64 (push_u64 out frame) (length enc) ++ enc) (length stored) ++ stored

unfoldable pub read_u64 : Bytes → Result (ℕ × Bytes)
read_u64 buf =
    if ltb (length buf) 8
    then err (message "truncated MPI frame record")
    else ok (from_le_bytes (take 8 buf), drop 8 buf)

-- A `usize` has 64 bits, so the conversion of the length cannot fail.
unfoldable pub read_bytes : Bytes → Result (Bytes × Bytes)
read_bytes buf = do
  (n, rest) ← read_u64 buf
  if ltb (length rest) n
      then err (message "truncated MPI frame record")
      else ok (take n rest, drop n rest)
