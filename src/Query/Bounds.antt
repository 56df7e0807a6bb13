-- ===== src/Query/Bounds.antt =====
-- The bounds of the scans over `f64` in src/corpus.rs `select`, as numbers.
use readcon_db.Base.{ℕ, ◌+◌, ◌-◌, ◌^◌, ◌≤◌, ◌≡◌, inl, inr, true, false, some, arith, Bool-cases}
use readcon_db.Base.Bytes.{IsU64}
use readcon_db.Keys.Float.{Float64, is_finite, is_sign_negative, ordered_f64_bits}
use readcon_db.Keys.Ordered.{NumberLess, ordered_mono}
use readcon_db.Scan.{lo_bits, hi_bits, unwrap_or}

finite_bits : (x : Float64) → IsU64 x → is_finite x ≡ true → (p : ℕ) × (ordered_f64_bits x ≡ some p)
unfolding ordered_f64_bits
finite_bits x u h = elim (Bool-cases (is_sign_negative x)) [
  | inl q ↦ (2 ^ 64 - 1 - x, ground arith)
  | inr q ↦ (x + 2 ^ 63, ground arith)
]

module _ (lo hi e default : Float64) (n : ℕ) (ulo : IsU64 lo) (uhi : IsU64 hi) (ue : IsU64 e)
    (flo : is_finite lo ≡ true) (fhi : is_finite hi ≡ true) (at : ordered_f64_bits e ≡ some n) where
  -- A number whose bits a scan accepts, between finite bounds, is not below the lower bound and
  -- not above the upper one.
  pub accepted_between :
      lo_bits (some lo) default ≤ n → n ≤ hi_bits (some hi) → ¬ NumberLess e lo × ¬ NumberLess hi e
  unfolding lo_bits hi_bits unwrap_or
  accepted_between a b =
      let (p, ep) = finite_bits lo ulo flo in
      let (q, eq) = finite_bits hi uhi fhi in
      (
        λ less. let s = ordered_mono e lo n p ue ulo at ep less in ground (arith, ep, s),
        λ less. let s = ordered_mono hi e q n uhi ue eq at less in ground (arith, eq, s),
      )

  -- A number strictly between finite bounds is accepted by the scan.
  pub between_accepted :
      NumberLess lo e → NumberLess e hi → (lo_bits (some lo) default ≤ n) × (n ≤ hi_bits (some hi))
  unfolding lo_bits hi_bits unwrap_or
  between_accepted a b =
      let (p, ep) = finite_bits lo ulo flo in
      let (q, eq) = finite_bits hi uhi fhi in
      let s = ordered_mono lo e p n ulo ue ep at a in
      let t = ordered_mono e hi n q ue uhi at eq b in (ground (arith, ep, s), ground (arith, eq, t))

-- An infinity of either sign, or a NaN, bounds nothing: as a bound it accepts every 64-bit
-- pattern of a key, `-inf` as the upper bound too.
pub not_finite_accepts :
    (x default : Float64) (n : ℕ)
    → is_finite x ≡ false
    → IsU64 n
    → (lo_bits (some x) default ≤ n) × (n ≤ hi_bits (some x))
unfolding lo_bits hi_bits unwrap_or ordered_f64_bits
not_finite_accepts x default n h u = (ground arith, ground arith)
