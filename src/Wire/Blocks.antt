-- ===== src/Wire/Blocks.antt =====
-- `block_range` and `rank_span` of src/mpi_ingest.rs: the frames that each rank parses.
use readcon_db.Base.{
  ℕ, zero, suc, ◌+◌, ◌-◌, ◌*◌, ◌/◌, ◌%◌, ◌<◌, ◌≤◌, ◌≡◌, ltb, if◌then◌else◌, arith, min, max,
}
use native.Mathlib.Nat.{div-add-mod, mod-lt}

unfoldable pub block_range : ℕ → ℕ → ℕ → ℕ × ℕ
block_range n size rank =
    let base = n / size in
    let rem = n % size in
    let start = rank * base + min rank rem in
    (start, start + base + (if ltb rank rem then 1 else 0))

-- The part of a rank's block in `[g0, g1)`; a Rust range that ends before its start is empty.
unfoldable pub rank_span : ℕ → ℕ → ℕ → ℕ → ℕ → ℕ × ℕ
unfolding block_range
rank_span n size rank g0 g1 = let (a, b) = block_range n size rank in (max a g0, min b g1)

-- The blocks of ranks 0, 1, … tile the frames: each begins where the one before it ends, the
-- first at 0, and the last ends at `n`.
pub block_range_tiles :
    (n size rank : ℕ)
    → rank < size
    → ((block_range n size 0).0 ≡ 0)
      × ((block_range n size rank).1 ≡ (block_range n size (rank + 1)).0)
      × ((block_range n size (size - 1)).1 ≡ n)
unfolding block_range
block_range_tiles n zero rank h = absurd (omega arith)
block_range_tiles n (suc size) rank h = (
  omega arith,
  ground arith,
  ground (arith, div-add-mod n (suc size), mod-lt n {m = suc size} (omega arith)),
)

-- Two ranks differ by at most one frame, and the lower rank has the longer block.
pub block_range_balanced :
    (n size r s : ℕ)
    → r ≤ s
    → ((block_range n size s).1 - (block_range n size s).0
        ≤ (block_range n size r).1 - (block_range n size r).0)
      × ((block_range n size r).1 - (block_range n size r).0
          ≤ (block_range n size s).1 - (block_range n size s).0 + 1)
unfolding block_range
block_range_balanced n size r s h = (ground arith, ground arith)
