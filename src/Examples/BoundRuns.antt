-- ===== src/Examples/BoundRuns.antt =====
-- Runs of the bounds of the scans over `f64`.
use readcon_db.Base.{◌+◌, ◌^◌, ◌≤◌, refl, some, arith}
use readcon_db.Keys.Float.{
  Float64, is_finite, is_sign_negative, exponent, fraction, ordered_f64_bits, neg_infinity,
}
use readcon_db.Keys.Ordered.{NumberLess, above, below, magnitude, scaled}
use readcon_db.Scan.{lo_bits, hi_bits, unwrap_or}
use readcon_db.Query.Bounds.{accepted_between, between_accepted, not_finite_accepts}

-- -2.5, 1.0 and 1.5.
abbrev low : Float64
low = 13836184477793058816

abbrev one : Float64
one = 4607182418800017408

abbrev high : Float64
high = 4609434218613702656

accepted_between_example : ¬ NumberLess one low × ¬ NumberLess high one
unfolding lo_bits hi_bits unwrap_or ordered_f64_bits is_finite is_sign_negative exponent
accepted_between_example =
    accepted_between low high one neg_infinity (one + 2 ^ 63) (omega arith) (omega arith)
      (omega arith) refl refl refl (omega arith) (omega arith)

between_accepted_example :
    (lo_bits (some low) neg_infinity ≤ one + 2 ^ 63) × (one + 2 ^ 63 ≤ hi_bits (some high))
unfolding ordered_f64_bits is_finite is_sign_negative exponent above below magnitude scaled fraction
between_accepted_example =
    between_accepted low high one neg_infinity (one + 2 ^ 63) (omega arith) (omega arith)
      (omega arith) refl refl refl (omega arith) (omega arith)

not_finite_accepts_example : (lo_bits (some neg_infinity) 0 ≤ 5) × (5 ≤ hi_bits (some neg_infinity))
unfolding is_finite exponent
not_finite_accepts_example = not_finite_accepts neg_infinity 0 5 refl (omega arith)
