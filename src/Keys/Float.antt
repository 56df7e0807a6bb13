-- ===== src/Keys/Float.antt =====
-- Binary64 numbers by their bit patterns, and the keys over them of src/keys.rs. `value` is what
-- IEEE 754 means by a finite pattern, in units of 2 ^ -1074.
use readcon_db.Base.{
  ℕ, ◌+◌, ◌-◌, ◌*◌, ◌/◌, ◌%◌, ◌^◌, Bool, not, Option, none, some, [], ◌∷◌, ◌++◌, leb, ◌==◌,
  if◌then◌else◌,
}
use readcon_db.Base.Bytes.{Bytes, to_be_bytes}
use readcon_db.Keys.{FrameKey, to_bytes}

-- A `f64` is `x.to_bits()`.
abbrev pub Float64 : Type 0
Float64 = ℕ

-- The sign bit, the eleven bits of the exponent, the 52 bits of the fraction.
unfoldable pub is_sign_negative : Float64 → Bool
is_sign_negative x = leb (2 ^ 63) x

unfoldable pub exponent : Float64 → ℕ
exponent x = x / 2 ^ 52 % 2 ^ 11

unfoldable pub fraction : Float64 → ℕ
fraction x = x % 2 ^ 52

unfoldable pub is_finite : Float64 → Bool
unfolding exponent
is_finite x = not (exponent x == 2047)

abbrev pub infinity : Float64
infinity = 2047 * 2 ^ 52

abbrev pub neg_infinity : Float64
neg_infinity = 2 ^ 63 + 2047 * 2 ^ 52

-- `!bits` for a negative number, and `bits ^ (1 << 63)` for another, whose top bit is 0.
unfoldable pub ordered_f64_bits : Float64 → Option ℕ
unfolding is_finite is_sign_negative
ordered_f64_bits x =
    if not (is_finite x)
    then none
    else some (if is_sign_negative x then 2 ^ 64 - 1 - x else x + 2 ^ 63)

ordered_key : Bytes → FrameKey → Option ℕ → Option Bytes
ordered_key front fk none = none
ordered_key front fk (some ordered) = some (front ++ (to_be_bytes 8 ordered ++ to_bytes fk))

unfoldable pub energy_bin_key : Float64 → FrameKey → Option Bytes
unfolding ordered_key
energy_bin_key energy fk = ordered_key [] fk (ordered_f64_bits energy)

unfoldable pub fmax_bin_key : Float64 → FrameKey → Option Bytes
unfolding energy_bin_key
fmax_bin_key fmax fk = energy_bin_key fmax fk

unfoldable pub mass_bin_key : Float64 → FrameKey → Option Bytes
unfolding energy_bin_key
mass_bin_key mass fk = energy_bin_key mass fk

unfoldable pub volume_bin_key : Float64 → FrameKey → Option Bytes
unfolding energy_bin_key
volume_bin_key vol fk = energy_bin_key vol fk

unfoldable pub meta_scalar_key : ℕ → Float64 → FrameKey → Option Bytes
unfolding ordered_key
meta_scalar_key channel value fk = ordered_key (channel ∷ []) fk (ordered_f64_bits value)
