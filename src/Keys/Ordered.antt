-- ===== src/Keys/Ordered.antt =====
-- `ordered_f64_bits` against the numbers that IEEE 754 means by the bits.
use readcon_db.Base.{
  ℕ, zero, suc, ◌+◌, ◌-◌, ◌*◌, ◌%◌, ◌^◌, ◌<◌, ◌≤◌, ◌≡◌, refl, true, Option, none, some, ◌++◌, ◌==◌,
  if◌then◌else◌, arith, lt→ltb,
}
use native.Mathlib.Nat.{pow-le-pow_right, one-le-pow, mul-le-mul_right}
use native.Mathlib.Decide.{dec_lt}
use readcon_db.Base.Bytes.{Bytes, IsU64, to_be_bytes}
use readcon_db.Base.Order.{bytes_ltb, bytes_ltb-to_be_bytes}
use readcon_db.Keys.{FrameKey, to_bytes}
use readcon_db.Keys.Float.{
  Float64, is_sign_negative, exponent, fraction, ordered_f64_bits, energy_bin_key,
}

-- The absolute value of a finite number over 2 ^ -1074: an exponent of 0 is a subnormal number.
unfoldable pub scaled : ℕ → ℕ → ℕ
scaled e m = if e == 0 then m else (2 ^ 52 + m) * 2 ^ (e - 1)

unfoldable pub magnitude : Float64 → ℕ
unfolding scaled exponent fraction
magnitude x = scaled (exponent x) (fraction x)

-- x < y as real numbers; each is its part above 0 less its part below.
unfoldable pub above : Float64 → ℕ
above x = if is_sign_negative x then 0 else magnitude x

unfoldable pub below : Float64 → ℕ
below x = if is_sign_negative x then magnitude x else 0

abbrev pub NumberLess : Float64 → Float64 → Type 0
NumberLess x y = above x + below y < above y + below x

-- A larger exponent at least doubles the power.
pow_doubles : (e f : ℕ) → 1 ≤ e → e < f → 2 * 2 ^ (e - 1) ≤ 2 ^ (f - 1)
pow_doubles zero f h k = absurd (omega arith)
pow_doubles (suc e) f h k =
    let up : 2 ^ suc e ≤ 2 ^ (f - 1) = pow-le-pow_right (omega arith) (omega arith) in
    let at : suc e - 1 ≡ e = omega arith in rw at (omega (arith, up))

product_lt : (m n p q : ℕ) → m < 2 ^ 52 → 1 ≤ p → 2 * p ≤ q → (2 ^ 52 + m) * p < (2 ^ 52 + n) * q
product_lt m n p q hm hp hq =
    let less : suc m * p ≤ 2 ^ 52 * p = mul-le-mul_right p hm in omega (arith, less)

scaled_exponent : (e f m n : ℕ) → m < 2 ^ 52 → e < f → scaled e m < scaled f n
unfolding scaled
scaled_exponent zero f m n hm h =
    let one : 1 ≤ 2 ^ (f - 1) = one-le-pow (f - 1) 2 (omega arith) in ground (arith, one)
scaled_exponent (suc e) f m n hm h =
    let one : 1 ≤ 2 ^ (suc e - 1) = one-le-pow (suc e - 1) 2 (omega arith) in
    ground (
      arith,
      one,
      pow_doubles (suc e) f (omega arith) h,
      product_lt m n (2 ^ (suc e - 1)) (2 ^ (f - 1)),
    )

scaled_fraction : (e m n : ℕ) → m < n → scaled e m < scaled e n
unfolding scaled
scaled_fraction zero m n h = h
scaled_fraction (suc e) m n h =
    let one : 1 ≤ 2 ^ (suc e - 1) = one-le-pow (suc e - 1) 2 (omega arith) in
    let less : suc m * 2 ^ (suc e - 1) ≤ n * 2 ^ (suc e - 1) = mul-le-mul_right _ h in
    ground (arith, one, less)

-- Below the sign bit, a larger pattern is a larger magnitude.
magnitude_lt : (x y : Float64) → x % 2 ^ 63 < y % 2 ^ 63 → magnitude x < magnitude y
unfolding magnitude
magnitude_lt x y h = elim (dec_lt (exponent x) (exponent y)) [
  | yes p ↦ scaled_exponent (exponent x) (exponent y) (fraction x) (fraction y) (omega arith) p
  | no p ↦
      let e : exponent x ≡ exponent y = omega arith in
      let less : fraction x < fraction y = omega arith in
      rw e (scaled_fraction (exponent y) (fraction x) (fraction y) less)
]

magnitude_le : (x y : Float64) → x % 2 ^ 63 ≤ y % 2 ^ 63 → magnitude x ≤ magnitude y
magnitude_le x y h = elim (dec_lt (x % 2 ^ 63) (y % 2 ^ 63)) [
  | yes p ↦ omega (arith, magnitude_lt x y p)
  | no p ↦
      let e : exponent x ≡ exponent y = unfold exponent in omega arith in
      let f : fraction x ≡ fraction y = unfold fraction in omega arith in
      unfold magnitude in rw (e, f) (omega arith)
]

pub ordered-lt-2_64 : (x p : ℕ) → IsU64 x → ordered_f64_bits x ≡ some p → IsU64 p
unfolding ordered_f64_bits
ordered-lt-2_64 x p h e = ground arith

-- Larger numbers have larger bits.
pub ordered_mono :
    (x y p q : ℕ)
    → IsU64 x
    → IsU64 y
    → ordered_f64_bits x ≡ some p
    → ordered_f64_bits y ≡ some q
    → NumberLess x y
    → p < q
unfolding ordered_f64_bits above below
ordered_mono x y p q hx hy ex ey h = elim (dec_lt p q) [
  | yes d ↦ d
  | no d ↦ absurd (ground (arith, magnitude_le x y, magnitude_le y x))
]

ordered_key_some :
    (x : Float64) (fk : FrameKey) (k : Bytes)
    → energy_bin_key x fk ≡ some k
    → (p : ℕ) × (ordered_f64_bits x ≡ some p) × (k ≡ to_be_bytes 8 p ++ to_bytes fk)
unfolding energy_bin_key
ordered_key_some x fk k e = go (ordered_f64_bits x) refl e
  where
    go :
        (o : Option ℕ)
        → ordered_f64_bits x ≡ o
        → energy_bin_key x fk ≡ some k
        → (p : ℕ) × (ordered_f64_bits x ≡ some p) × (k ≡ to_be_bytes 8 p ++ to_bytes fk)
    go none q e = ground arith
    go (some p) q e = (p, q, ground arith)

-- In `idx_energy`, and in the other tables of its layout, the key of a smaller number comes first.
pub energy_bin_key_order :
    (x y : Float64) (a b : FrameKey) (k l : Bytes)
    → IsU64 x
    → IsU64 y
    → energy_bin_key x a ≡ some k
    → energy_bin_key y b ≡ some l
    → NumberLess x y
    → bytes_ltb k l ≡ true
energy_bin_key_order x y a b k l hx hy ek el h =
    let (p, ep, fk) = ordered_key_some x a k ek in
    let (q, eq, fl) = ordered_key_some y b l el in
    rw (
      fk,
      fl,
      bytes_ltb-to_be_bytes 8 p q (to_bytes a) (to_bytes b) (ordered-lt-2_64 x p hx ep)
          (ordered-lt-2_64 y q hy eq),
      lt→ltb p q (ordered_mono x y p q hx hy ep eq h),
    )
