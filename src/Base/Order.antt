-- ===== src/Base/Order.antt =====
-- The order of byte strings, in which LMDB keeps its keys: the first byte that differs decides,
-- and a proper prefix comes first.
use Prim.Native.Nat.{ℕ, zero, suc, ◌/◌, ◌%◌, ◌^◌, ◌<◌}
use mathlib.Core.Path.{◌≡◌}
use mathlib.Core.Bool.{Bool, true, false, ◌&&◌, ◌||◌}
use mathlib.Core.List.{[], ◌∷◌, ◌++◌}
use native.Mathlib.Omega.{arith}
use readcon_db.Base.Tests.{ltb, ◌==◌}
use mathlib.Core.List.{append_assoc}
use readcon_db.Base.Bytes.{Bytes, to_be_bytes}

unfoldable pub bytes_ltb : Bytes → Bytes → Bool
bytes_ltb xs [] = false
bytes_ltb [] (y ∷ ys) = true
bytes_ltb (x ∷ xs) (y ∷ ys) = ltb x y || (x == y && bytes_ltb xs ys)

-- A big-endian number in front decides the order by its value.
pub bytes_ltb-to_be_bytes :
    (k a b : ℕ) (xs ys : Bytes)
    → a < 256 ^ k
    → b < 256 ^ k
    → bytes_ltb (to_be_bytes k a ++ xs) (to_be_bytes k b ++ ys)
      ≡ (ltb a b || (a == b && bytes_ltb xs ys))
unfolding to_be_bytes
bytes_ltb-to_be_bytes zero a b xs ys h k = ground arith
bytes_ltb-to_be_bytes (suc k) a b xs ys ha hb =
    rw
      (
        append_assoc (to_be_bytes k (a / 256)),
        append_assoc (to_be_bytes k (b / 256)),
        bytes_ltb-to_be_bytes k (a / 256) (b / 256) (a % 256 ∷ xs) (b % 256 ∷ ys) (grind arith)
            (grind arith),
      )
      (unfold bytes_ltb in ground arith)
