-- ===== src/Base/Utf8.antt =====
-- Well-formed UTF-8 (Unicode, table 3-7), which Rust's `str::from_utf8` checks. A `str` is a byte
-- string that passes.
use Prim.Native.Nat.{ℕ, zero, suc, ◌≤◌, ◌<◌}
use mathlib.Core.Path.{◌≡◌, refl}
use mathlib.Core.Bool.{Bool, true, false, ◌&&◌}
use mathlib.Core.Option.{Option, none, some}
use mathlib.Core.List.{[], ◌∷◌}
use native.Mathlib.Omega.{arith}
use readcon_db.Base.Tests.{ltb, leb, ◌==◌, if◌then◌else◌}
use readcon_db.Base.Lists.{All}
use readcon_db.Base.Bytes.{Bytes}

-- How many continuation bytes a lead byte wants, and the range of the first of them.
lead : ℕ → Option (ℕ × ℕ × ℕ)
lead b =
    if ltb b 0x80
    then some (0, 0, 0)
    else if ltb b 0xc2
    then none
    else if ltb b 0xe0
    then some (1, 0x80, 0xbf)
    else if b == 0xe0
    then some (2, 0xa0, 0xbf)
    else if b == 0xed
    then some (2, 0x80, 0x9f)
    else if ltb b 0xf0
    then some (2, 0x80, 0xbf)
    else if b == 0xf0
    then some (3, 0x90, 0xbf)
    else if ltb b 0xf4
    then some (3, 0x80, 0xbf)
    else if b == 0xf4
    then some (3, 0x80, 0x8f)
    else none

step : ℕ → ℕ → ℕ → ℕ → Option (ℕ × ℕ × ℕ)
unfolding lead
step zero lo hi b = lead b
step (suc n) lo hi b = if leb lo b && leb b hi then some (n, 0x80, 0xbf) else none

scan : ℕ → ℕ → ℕ → Bytes → Bool
unfolding step
scan n lo hi [] = n == 0
scan n lo hi (b ∷ bs) = elim (step n lo hi b) [
  | none ↦ false
  | some (n', lo', hi') ↦ scan n' lo' hi' bs
]

unfoldable pub is_utf8 : Bytes → Bool
unfolding scan
is_utf8 bs = scan 0 0 0 bs

-- No byte of a text is 0xf5 or above.
abbrev pub IsTextByte : ℕ → Type 0
IsTextByte b = b < 0xf5

step-IsTextByte :
    (n lo hi b n' lo' hi' : ℕ)
    → hi ≤ 0xbf
    → step n lo hi b ≡ some (n', lo', hi')
    → IsTextByte b × (hi' ≤ 0xbf)
unfolding step
step-IsTextByte zero lo hi b n' lo' hi' h e = ground arith
step-IsTextByte (suc n) lo hi b n' lo' hi' h e = ground arith

scan-IsTextByte :
    (n lo hi : ℕ) (bs : Bytes) → hi ≤ 0xbf → scan n lo hi bs ≡ true → All IsTextByte bs
scan-IsTextByte n lo hi [] h e = tt
scan-IsTextByte n lo hi (b ∷ bs) h e =
    go (λ n' lo' hi' h' e'. scan-IsTextByte n' lo' hi' bs h' e') (step n lo hi b) refl e
  where
    go :
        ((n' lo' hi' : ℕ) → hi' ≤ 0xbf → scan n' lo' hi' bs ≡ true → All IsTextByte bs)
        → (o : Option (ℕ × ℕ × ℕ)) → step n lo hi b ≡ o
        → scan n lo hi (b ∷ bs) ≡ true
        → All IsTextByte (b ∷ bs)
    go ih none q e = unfold scan in cc
    go ih (some (n', lo', hi')) q e =
        let s = step-IsTextByte n lo hi b n' lo' hi' h q in
        (s.0, ih n' lo' hi' s.1 (unfold scan in rw (q, scan) at e))

pub is_utf8-IsTextByte : (bs : Bytes) → is_utf8 bs ≡ true → All IsTextByte bs
unfolding is_utf8
is_utf8-IsTextByte bs e = scan-IsTextByte 0 0 0 bs (omega arith) e
