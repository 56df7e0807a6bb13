-- ===== src/Wire/Counts.antt =====
-- `prefix_i32` and `fits_i32` against plain sums.
use readcon_db.Base.{
  ℕ, ◌+◌, ◌≤◌, ◌≡◌, refl, inl, inr, List, [], ◌∷◌, ◌++◌, map, leb, if◌then◌else◌, arith, Bool-cases,
}
use readcon_db.Error.{Error, Result, ok, err, message}
use readcon_db.Wire.{ℤ, pos, negsuc, mpi_count_max, prefix_from, prefix_i32, fits_from, fits_i32}

pub sum : List ℕ → ℕ
sum [] = 0
sum (c ∷ counts) = c + sum counts

-- The exclusive prefix sums, from `acc` on.
pub offsets : ℕ → List ℕ → List ℕ
offsets acc [] = []
offsets acc (c ∷ counts) = acc ∷ offsets (acc + c) counts

too_far : Result (List ℕ)
too_far = err (message "MPI displacement exceeds i32::MAX")

fits_from-sum :
    (acc : ℕ) (counts : List ℕ)
    → acc ≤ mpi_count_max
    → fits_from acc counts ≡ leb (acc + sum counts) mpi_count_max
unfolding fits_from sum
fits_from-sum acc [] h = ground arith
fits_from-sum acc (c ∷ counts) h = ground (arith, fits_from-sum (acc + c) counts)

-- `fits_i32` tests whether the sum of the counts fits.
pub fits_i32-sum : (counts : List ℕ) → fits_i32 counts ≡ leb (sum counts) mpi_count_max
unfolding fits_i32
fits_i32-sum counts = ground (arith, fits_from-sum 0 counts (omega arith))

prefix_from-offsets :
    (acc : ℕ) (counts : List ℕ)
    → acc ≤ mpi_count_max
    → prefix_from acc (map pos counts)
      ≡ (if leb (acc + sum counts) mpi_count_max then ok (offsets acc counts) else too_far)
unfolding prefix_from sum offsets too_far
prefix_from-offsets acc [] h = ground arith
prefix_from-offsets acc (c ∷ counts) h = ground (arith, prefix_from-offsets (acc + c) counts)

-- On counts that are not negative, `prefix_i32` gives the exclusive prefix sums exactly where
-- `fits_i32` holds, and an error elsewhere.
pub prefix_i32-offsets :
    (counts : List ℕ)
    → prefix_i32 (map pos counts) ≡ (
        if fits_i32 counts
        then ok (offsets 0 counts)
        else err (message "MPI displacement exceeds i32::MAX"))
unfolding prefix_i32 too_far
prefix_i32-offsets counts =
    ground (arith, fits_i32-sum counts, prefix_from-offsets 0 counts (omega arith))

prefix_from_negative :
    (acc n : ℕ) (before : List ℕ) (after : List ℤ)
    → (e : Error) × (prefix_from acc (map pos before ++ (negsuc n ∷ after)) ≡ err e)
unfolding prefix_from
prefix_from_negative acc n [] after = (message "negative MPI count", refl)
prefix_from_negative acc n (c ∷ before) after =
    let (e, h) = prefix_from_negative (acc + c) n before after in
    elim (Bool-cases (leb (acc + c) mpi_count_max)) [
      | inl t ↦ (e, ground arith)
      | inr t ↦ (message "MPI displacement exceeds i32::MAX", ground arith)
    ]

-- A negative count anywhere makes `prefix_i32` fail.
pub prefix_i32_negative :
    (n : ℕ) (before : List ℕ) (after : List ℤ)
    → (e : Error) × (prefix_i32 (map pos before ++ (negsuc n ∷ after)) ≡ err e)
unfolding prefix_i32
prefix_i32_negative n before after = prefix_from_negative 0 n before after
