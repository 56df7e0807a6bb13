-- ===== src/Base/Trim.antt =====
-- `str::trim` and the ASCII tests of Rust on UTF-8 bytes: the characters with the property
-- White_Space, by the bytes of their encodings.
use readcon_db.Base.Tests.{leb, ◌==◌, if◌then◌else◌}
use readcon_db.Base.Lists.{length, drop}
use readcon_db.Base.Bytes.{Bytes}
use Prim.Native.Nat.{ℕ, zero, suc}
use mathlib.Core.Bool.{Bool, ◌&&◌, ◌||◌}
use mathlib.Core.List.{[], ◌∷◌, reverse}

-- \t \n \v \f \r and the space.
unfoldable pub is_space : ℕ → Bool
is_space b = (leb 0x09 b && leb b 0x0d) || b == 0x20

-- U+0085 and U+00A0.
is_space_2 : ℕ → ℕ → Bool
is_space_2 a b = a == 0xc2 && (b == 0x85 || b == 0xa0)

-- U+1680, U+2000 to U+200A, U+2028, U+2029, U+202F, U+205F and U+3000.
is_space_3 : ℕ → ℕ → ℕ → Bool
is_space_3 a b c =
    (a == 0xe1 && (b == 0x9a && c == 0x80))
    || ((a == 0xe2
          && ((b == 0x80 && ((leb 0x80 c && leb c 0x8a) || (c == 0xa8 || (c == 0xa9 || c == 0xaf))))
              || (b == 0x81 && c == 0x9f)))
        || (a == 0xe3 && (b == 0x80 && c == 0x80)))

-- How many bytes of white space stand in front; 0 if none.
unfoldable pub space_len : Bytes → ℕ
unfolding is_space is_space_2 is_space_3
space_len [] = 0
space_len (a ∷ []) = if is_space a then 1 else 0
space_len (a ∷ b ∷ []) = if is_space a then 1 else if is_space_2 a b then 2 else 0
space_len (a ∷ b ∷ c ∷ rest) =
    if is_space a then 1 else if is_space_2 a b then 2 else if is_space_3 a b c then 3 else 0

-- The same at the end, of the bytes in reverse.
unfoldable pub space_len_back : Bytes → ℕ
unfolding is_space is_space_2 is_space_3
space_len_back [] = 0
space_len_back (a ∷ []) = if is_space a then 1 else 0
space_len_back (b ∷ a ∷ []) = if is_space b then 1 else if is_space_2 a b then 2 else 0
space_len_back (c ∷ b ∷ a ∷ rest) =
    if is_space c then 1 else if is_space_2 b c then 2 else if is_space_3 a b c then 3 else 0

-- Drops white space while it is there; each round drops a byte at least.
unfoldable pub trim_by : (Bytes → ℕ) → ℕ → Bytes → Bytes
trim_by f zero bs = bs
trim_by f (suc fuel) bs = elim (f bs) [ zero ↦ bs | suc n ↦ trim_by f fuel (drop (suc n) bs) ]

unfoldable pub trim : Bytes → Bytes
unfolding trim_by space_len space_len_back
trim bs =
    let front = trim_by space_len (length bs) bs in
    reverse (trim_by space_len_back (length front) (reverse front))
