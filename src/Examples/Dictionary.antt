-- ===== src/Examples/Dictionary.antt =====
-- The concrete zstd of the runs: a coder with one text in its dictionary. That text becomes five
-- bytes, and another has five bytes in front of it.
use readcon_db.Base.{
  ℕ, zero, suc, ◌≤◌, ◌≡◌, refl, sym, ap, inl, inr, Option, none, some, [], ◌∷◌, if◌then◌else◌,
  arith, Bool-cases, length,
}
use readcon_db.Base.Bytes.{Bytes, bytes_eq, bytes_eq_iff}
use readcon_db.Zstd.{Zstd}

abbrev pub code : Bytes → Bytes → Bytes
code entry plain =
    if bytes_eq plain entry then 40 ∷ 181 ∷ 47 ∷ 253 ∷ 1 ∷ [] else 40 ∷ 181 ∷ 47 ∷ 253 ∷ 0 ∷ plain

abbrev pub uncode : Bytes → Bytes → Option Bytes
uncode entry (a ∷ b ∷ c ∷ d ∷ zero ∷ rest) = some rest
uncode entry (a ∷ b ∷ c ∷ d ∷ suc n ∷ rest) = some entry
uncode entry frame = none

pub uncode-code :
    (entry plain : Bytes) (level : ℕ) (frame : Bytes)
    → some (code entry plain) ≡ some frame
    → uncode entry frame ≡ some plain
uncode-code entry plain level frame h =
    let e : code entry plain ≡ frame = grind arith in
    elim (Bool-cases (bytes_eq plain entry)) [
      | inl q ↦ let same = (bytes_eq_iff plain entry).0 q in rw (← e, q) (ap some (sym same))
      | inr q ↦ rw (← e, q) refl
    ]

pub code_not_short :
    (entry plain : Bytes) (level : ℕ) (frame : Bytes)
    → some (code entry plain) ≡ some frame
    → 4 ≤ length frame
code_not_short entry plain level frame h =
    let e : code entry plain ≡ frame = grind arith in
    elim (Bool-cases (bytes_eq plain entry)) [
      | inl q ↦ rw (← e, q) (omega arith)
      | inr q ↦ rw (← e, q) (omega arith)
    ]

abbrev pub with_dictionary : Bytes → Zstd
with_dictionary entry = record {
  encode_all = λ plain level. some (code entry plain);
  decode_all = uncode entry;
  decode-encode = uncode-code entry;
  frame_length = code_not_short entry;
}

abbrev pub repeat : ℕ → ℕ → Bytes
repeat zero x = []
repeat (suc n) x = x ∷ repeat n x
