-- ===== src/Corpus/MapSize/Sizes.antt =====
-- The sizes that the LMDB map of src/corpus.rs gets.
use readcon_db.Base.{
  ℕ, suc, ◌+◌, ◌*◌, ◌%◌, ◌^◌, ◌≤◌, ◌≡◌, inl, inr, leb, arith, Bool-cases, usize_max, saturating_add,
  saturating_mul, min, max,
}
use native.Mathlib.Nat.{one-le-pow, mul-le-mul_right, mul-le-mul_left}
use readcon_db.Base.Bytes.{IsU64}
use readcon_db.Corpus.MapSize.{map_align, align_map, grown_size}

pub align_map-bounds :
    (n : ℕ)
    → n ≤ 2 ^ 63
    → (n ≤ align_map n) × (align_map n ≤ 2 ^ 63) × (align_map n % map_align ≡ 0)
unfolding align_map
align_map-bounds n h = (ground arith, ground arith, ground arith)

-- Growing never makes the map smaller, at the end of the address space too.
pub not_smaller : (n cur : ℕ) → cur ≤ n → IsU64 cur → cur ≤ align_map n
unfolding align_map
not_smaller n cur h u = ground arith

pub grown_size_le : (used cur input_bytes : ℕ) → IsU64 cur → cur ≤ grown_size used cur input_bytes
unfolding grown_size
grown_size_le used cur input_bytes u =
    ground (arith, not_smaller (saturating_add cur map_align) cur)

pub grown_size-IsU64 : (used cur input_bytes : ℕ) → IsU64 (grown_size used cur input_bytes)
unfolding grown_size align_map
grown_size-IsU64 used cur input_bytes = ground arith

pub grown_size-min :
    (used cur input_bytes : ℕ)
    → IsU64 cur
    → min (2 * cur) usize_max ≤ grown_size used cur input_bytes
unfolding grown_size align_map
grown_size-min used cur input_bytes u = ground arith

-- What one growth leaves of the growths that are needed.
pub room_after :
    (need cur cur' n : ℕ)
    → need ≤ cur * 2 ^ suc n
    → need ≤ usize_max
    → min (2 * cur) usize_max ≤ cur'
    → need ≤ cur' * 2 ^ n
room_after need cur cur' n a b h =
    let one : 1 ≤ 2 ^ n = one-le-pow n 2 (omega arith) in
    let power : 2 ^ suc n ≡ 2 * 2 ^ n = omega arith in
    let twice : cur * 2 ^ suc n ≡ 2 * cur * 2 ^ n = rw power (grind arith) in
    elim (Bool-cases (leb (2 * cur) usize_max)) [
      | inl q ↦
          let le : 2 * cur * 2 ^ n ≤ cur' * 2 ^ n = mul-le-mul_right (2 ^ n) (ground arith) in
          omega (arith, twice, le)
      | inr q ↦
          let le : cur' * 1 ≤ cur' * 2 ^ n = mul-le-mul_left cur' one in
          let all : usize_max ≤ cur' = ground arith in omega (arith, le, all, b)
    ]

pub align_map_above : (n : ℕ) → n ≤ 2 ^ 63 → align_map n ≤ n + 2 ^ 20
unfolding align_map
align_map_above n h = ground arith

pub grown_size_above :
    (used cur input_bytes : ℕ)
    → 2 * cur ≤ 2 ^ 62
    → used + input_bytes ≤ 2 ^ 62
    → grown_size used cur input_bytes ≤ max (2 * cur) (used + input_bytes) + 2 ^ 20
unfolding grown_size
grown_size_above used cur input_bytes h k =
    let twice : saturating_mul cur 2 ≡ cur * 2 = ground arith in
    let plus : saturating_add used input_bytes ≡ used + input_bytes = ground arith in
    let one : saturating_add cur map_align ≡ cur + map_align = ground arith in
    let (a, b, c) = align_map-bounds (max (cur * 2) (used + input_bytes)) (ground arith) in
    let top = align_map_above (max (cur * 2) (used + input_bytes)) (ground arith) in
    let first : align_map map_align ≡ map_align = unfold align_map in ground arith in
    rw (twice, plus, one) (ground (arith, a, top, first))
