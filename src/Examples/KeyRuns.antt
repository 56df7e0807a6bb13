-- ===== src/Examples/KeyRuns.antt =====
-- Runs of the keys of src/keys.rs.
use readcon_db.Base.{◌+◌, ◌-◌, ◌^◌, ◌≡◌, refl, ◌↔◌, true, some, [], ◌∷◌, ◌++◌, arith}
use readcon_db.Base.Bytes.{Bytes, to_be_bytes, starts_with}
use readcon_db.Base.Utf8.{is_utf8}
use readcon_db.Base.Order.{bytes_ltb}
use readcon_db.Keys.{FrameKey, to_bytes, frame_key_ltb, symbol_key, symbol_prefix}
use readcon_db.Keys.Float.{
  Float64, energy_bin_key, ordered_f64_bits, is_finite, is_sign_negative, exponent, fraction,
}
use readcon_db.Keys.Layout.{bytes_ltb-to_bytes}
use readcon_db.Keys.Prefixes.{symbol_scan_exact}
use readcon_db.Keys.Ordered.{NumberLess, energy_bin_key_order, above, below, magnitude, scaled}

abbrev early : FrameKey
early = record { traj_id = 3; frame_idx = 700 }

abbrev late : FrameKey
late = record { traj_id = 4; frame_idx = 1 }

bytes_ltb-to_bytes_example : bytes_ltb (to_bytes early) (to_bytes late) ≡ frame_key_ltb early late
bytes_ltb-to_bytes_example =
    bytes_ltb-to_bytes early late (omega arith, omega arith) (omega arith, omega arith)

abbrev carbon : Bytes
carbon = b'C' ∷ []

abbrev copper : Bytes
copper = b'C' ∷ b'u' ∷ []

symbol_scan_exact_example :
    (starts_with (symbol_key copper early) (symbol_prefix carbon) ≡ true) ↔ (copper ≡ carbon)
unfolding is_utf8
symbol_scan_exact_example = symbol_scan_exact copper carbon early refl refl

-- -2.5 and 1.5 as bits.
abbrev low : Float64
low = 13836184477793058816

abbrev high : Float64
high = 4609434218613702656

less : NumberLess low high
unfolding above below magnitude scaled exponent fraction is_sign_negative
less = omega arith

key_of_low : energy_bin_key low early ≡ some (to_be_bytes 8 (2 ^ 64 - 1 - low) ++ to_bytes early)
unfolding energy_bin_key ordered_f64_bits is_finite is_sign_negative exponent
key_of_low = refl

key_of_high : energy_bin_key high late ≡ some (to_be_bytes 8 (high + 2 ^ 63) ++ to_bytes late)
unfolding energy_bin_key ordered_f64_bits is_finite is_sign_negative exponent
key_of_high = refl

energy_bin_key_order_example :
    bytes_ltb
      (to_be_bytes 8 (2 ^ 64 - 1 - low) ++ to_bytes early)
      (to_be_bytes 8 (high + 2 ^ 63) ++ to_bytes late)
    ≡ true
energy_bin_key_order_example =
    energy_bin_key_order low high early late _ _ (omega arith) (omega arith) key_of_low key_of_high
      less
