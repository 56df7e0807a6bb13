-- ===== src/Wire/Batches.antt =====
-- The batches of the MPI ingest cover the frames, and the split of a batch ends.
use readcon_db.Base.{
  ℕ, zero, suc, ◌+◌, ◌-◌, ◌*◌, ◌/◌, ◌^◌, ◌<◌, ◌≤◌, ◌≡◌, inl, inr, none, some, List, [], ◌∷◌, ltb,
  leb, Option, Bool, true, false, not, if◌then◌else◌, arith, Bool-cases, ltb→lt, min, max,
}
use readcon_db.Base.Bytes.{IsU64}
use readcon_db.Wire.{batch_end, shrink_batch_end}

-- While a frame remains, a batch is not empty, ends within the frames, and has the size that was
-- asked for unless the frames end first; `usize::MAX` as the size does not wrap.
pub batch_end_progress :
    (b0 batch n : ℕ)
    → b0 < n
    → IsU64 n
    → (b0 < batch_end b0 batch n)
      × (batch_end b0 batch n ≤ n)
      × (batch_end b0 batch n ≡ min (b0 + max batch 1) n)
unfolding batch_end
batch_end_progress b0 batch n h u = (ground arith, ground arith, ground arith)

-- A batch of two frames or more is cut to a shorter one that is not empty, at its middle; a
-- shorter batch, or an end before the start, is not cut.
pub shrink_batch_end_cases :
    (b0 b1 : ℕ)
    → IsU64 b1
    → shrink_batch_end b0 b1 ≡ (if leb b1 (b0 + 1) then none else some (b0 + (b1 - b0) / 2))
unfolding shrink_batch_end
shrink_batch_end_cases b0 b1 u = ground arith

-- The loop of `exchange_batch`: `fits b0 b1` is whether all ranks agree that the counts of the
-- batch fit. `none` is the error of a batch that does not fit and is not cut further. With fuel.
unfoldable pub agreed_end : (ℕ → ℕ → Bool) → ℕ → ℕ → ℕ → Option ℕ
agreed_end fits zero b0 b1 = none
agreed_end fits (suc fuel) b0 b1 =
    if fits b0 b1
    then some b1
    else elim (shrink_batch_end b0 b1) [ none ↦ none | some b2 ↦ agreed_end fits fuel b0 b2 ]

-- The loop `while b0 < n` of `engine`, with fuel: the ends of its batches. A batch of a 64-bit
-- address space is cut 64 times at most.
unfoldable pub batch_ends : (ℕ → ℕ → Bool) → ℕ → ℕ → ℕ → ℕ → Option (List ℕ)
batch_ends fits zero b0 batch n = some []
batch_ends fits (suc fuel) b0 batch n =
    if not (ltb b0 n) then some [] else elim (agreed_end fits 65 b0 (batch_end b0 batch n)) [
      | none ↦ none
      | some b1 ↦ elim (batch_ends fits fuel b1 batch n) [
        | none ↦ none
        | some ends ↦ some (b1 ∷ ends)
      ]
    ]

-- How the loop may end: an end that fits, or one frame that does not fit by itself.
abbrev pub IsAgreed : (ℕ → ℕ → Bool) → ℕ → ℕ → Option ℕ → Type 0
IsAgreed fits b0 b1 none = fits b0 (b0 + 1) ≡ false
IsAgreed fits b0 b1 (some b) = (b0 < b) × (b ≤ b1) × (fits b0 b ≡ true)

IsAgreed-weaken :
    (fits : ℕ → ℕ → Bool) (b0 b2 b1 : ℕ) (o : Option ℕ)
    → b2 ≤ b1
    → IsAgreed fits b0 b2 o
    → IsAgreed fits b0 b1 o
IsAgreed-weaken fits b0 b2 b1 none h a = a
IsAgreed-weaken fits b0 b2 b1 (some b) h a = let le = a.1 in (a.0, omega arith, a.2)

-- `exchange_batch` cuts a batch, of at most `2 ^ k` frames, until it fits, with `k` cuts at most.
-- It fails only when a single frame does not fit.
pub agreed_end-IsAgreed :
    (fits : ℕ → ℕ → Bool) (k b0 b1 : ℕ)
    → b0 < b1
    → IsU64 b1
    → b1 - b0 ≤ 2 ^ k
    → IsAgreed fits b0 b1 (agreed_end fits (suc k) b0 b1)
unfolding agreed_end
agreed_end-IsAgreed fits zero b0 b1 h u s = elim (Bool-cases (fits b0 b1)) [
  | inl q ↦ rw q (h, omega arith, q)
  | inr q ↦
      let one : leb b1 (b0 + 1) ≡ true = ground arith in
      let same : b1 ≡ b0 + 1 = omega arith in
      rw (q, shrink_batch_end_cases b0 b1 u, one) (rw (← same) q)
]
agreed_end-IsAgreed fits (suc k) b0 b1 h u s = elim (Bool-cases (fits b0 b1)) [
  | inl q ↦ rw q (h, omega arith, q)
  | inr q ↦ elim (Bool-cases (leb b1 (b0 + 1))) [
    | inl one ↦
        let same : b1 ≡ b0 + 1 = ground arith in
        rw (q, shrink_batch_end_cases b0 b1 u, one) (rw (← same) q)
    | inr more ↦
        let two : b0 + 2 ≤ b1 = ground arith in
        let pow : 2 ^ suc k ≡ 2 * 2 ^ k = omega arith in
        let b2 : ℕ = b0 + (b1 - b0) / 2 in
        rw (q, shrink_batch_end_cases b0 b1 u, more)
          (IsAgreed-weaken fits b0 b2 b1 (agreed_end fits (suc k) b0 b2) (omega arith)
            (agreed_end-IsAgreed fits k b0 b2 (omega arith) (omega arith) (omega arith)))
  ]
]

-- Consecutive ends that ascend from `b0` to `n`, each batch with counts that fit.
abbrev pub Covers : (ℕ → ℕ → Bool) → ℕ → ℕ → List ℕ → Type 0
Covers fits b0 n [] = b0 ≡ n
Covers fits b0 n (b1 ∷ ends) = (b0 < b1) × (fits b0 b1 ≡ true) × Covers fits b1 n ends

-- What the loop of `engine` may give: batches that cover the frames, or the error of a frame that
-- does not fit by itself.
abbrev pub IsCovered : (ℕ → ℕ → Bool) → ℕ → ℕ → Option (List ℕ) → Type 0
IsCovered fits b0 n none = (f : ℕ) × (b0 ≤ f) × (f < n) × (fits f (f + 1) ≡ false)
IsCovered fits b0 n (some ends) = Covers fits b0 n ends

consed-IsCovered :
    (fits : ℕ → ℕ → Bool) (n b0 b1 : ℕ)
    → b0 < b1
    → fits b0 b1 ≡ true
    → (o : Option (List ℕ)) → IsCovered fits b1 n o
    → IsCovered fits b0 n
        (elim o as (λ x. Option (List ℕ)) [ none ↦ none | some ends ↦ some (b1 ∷ ends) ])
consed-IsCovered fits n b0 b1 x z none (f, p, q, r) = (f, omega arith, q, r)
consed-IsCovered fits n b0 b1 x z (some ends) c = (x, z, c)

-- For any batch size, and whatever fits, the ingest loop ends within `n - b0` rounds. Its batches
-- are not empty, fit, and cover the frames from `b0` to `n` without a gap; or one frame does not
-- fit by itself.
pub batch_ends-IsCovered :
    (fits : ℕ → ℕ → Bool) (fuel b0 batch n : ℕ)
    → b0 ≤ n
    → IsU64 n
    → n - b0 ≤ fuel
    → IsCovered fits b0 n (batch_ends fits fuel b0 batch n)
unfolding batch_ends
batch_ends-IsCovered fits zero b0 batch n h u f = omega arith
batch_ends-IsCovered fits (suc fuel) b0 batch n h u f = elim (Bool-cases (ltb b0 n)) [
  | inr t ↦ rw t (ground arith)
  | inl t ↦
      let (a, b, c) = batch_end_progress b0 batch n (ltb→lt b0 n t) u in
      let agreed =
        agreed_end-IsAgreed fits 64 b0 (batch_end b0 batch n) a (omega (arith, b))
          (omega (arith, b)) in
      rw t (
        go (agreed_end fits 65 b0 (batch_end b0 batch n)) b (ltb→lt b0 n t) agreed
          (λ b1. batch_ends-IsCovered fits fuel b1 batch n))
]
  where
    go :
        (o : Option ℕ)
        → batch_end b0 batch n ≤ n
        → b0 < n
        → IsAgreed fits b0 (batch_end b0 batch n) o
        → ((b1 : ℕ)
            → b1 ≤ n
            → IsU64 n
            → n - b1 ≤ fuel
            → IsCovered fits b1 n (batch_ends fits fuel b1 batch n))
        → IsCovered fits b0 n (elim o as (λ x. Option (List ℕ)) [
          | none ↦ none
          | some b1 ↦ elim (batch_ends fits fuel b1 batch n) as (λ x. Option (List ℕ)) [
            | none ↦ none
            | some ends ↦ some (b1 ∷ ends)
          ]
        ])
    go none le some_left bad ih = (b0, omega arith, some_left, bad)
    go (some b1) le some_left (x, y, z) ih =
        consed-IsCovered fits n b0 b1 x z (batch_ends fits fuel b1 batch n)
          (ih b1 (omega arith) u (omega arith))
