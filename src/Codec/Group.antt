-- ===== src/Codec/Group.antt =====
-- A group value decodes to the texts of its run.
use readcon_db.Base.{
  ℕ, zero, suc, ◌+◌, ◌%◌, ◌^◌, ◌≤◌, ◌≡◌, refl, ap, ◌∙◌, true, Option, none, some, List, [], ◌∷◌,
  ◌++◌, arith, length, length-append, take-append, drop-append,
}
use readcon_db.Base.Bytes.{
  Bytes, IsU32, to_le_bytes, from_le_bytes, length-to_le_bytes, from_le_bytes-to_le_bytes,
  starts_with-append,
}
use readcon_db.Base.Utf8.{is_utf8}
use readcon_db.Error.{Result, ok, err}
use readcon_db.Zstd.{Zstd}
use readcon_db.Codec.{
  Frame, group_tag, zstd_level, is_group, group_payload, split_texts, encode_group, decode_group,
}

abbrev pub IsText : Bytes → Type 0
IsText text = is_utf8 text ≡ true

-- The texts of a run, and that each frame of it holds a text.
abbrev pub texts : List Frame → List Bytes
texts [] = []
texts ((k, text) ∷ run) = text ∷ texts run

abbrev pub AllText : List Frame → Type 0
AllText [] = Unit
AllText ((k, text) ∷ run) = IsText text × AllText run

-- The bytes of a payload are at least four times the texts.
split_one :
    (fuel : ℕ) (text rest : Bytes) {more : List Bytes}
    → IsU32 (length text)
    → IsText text
    → split_texts fuel rest ≡ ok more
    → split_texts (suc fuel) (to_le_bytes 4 (length text) ++ (text ++ rest)) ≡ ok (text ∷ more)
unfolding split_texts to_le_bytes
split_one fuel text rest h u e = ground (
  arith,
  from_le_bytes-to_le_bytes 4 (length text) h,
  take-append text rest (length text) refl,
  drop-append text rest (length text) refl,
  length-append text rest,
)

group_payload_cons :
    (k : ℕ) (text : Bytes) (run : List Frame) (payload : Bytes)
    → group_payload ((k, text) ∷ run) ≡ ok payload
    → (rest : Bytes) × (group_payload run ≡ ok rest)
      × (payload ≡ to_le_bytes 4 (length text) ++ (text ++ rest))
      × IsU32 (length text)
unfolding group_payload
group_payload_cons k text run payload e = go (group_payload run) refl
  where
    go :
        (r : Result Bytes)
        → group_payload run ≡ r
        → (rest : Bytes) × (group_payload run ≡ ok rest)
          × (payload ≡ to_le_bytes 4 (length text) ++ (text ++ rest))
          × IsU32 (length text)
    go (err x) q = absurd (ground arith)
    go (ok rest) q = (rest, q, ground arith, ground arith)

payload_length :
    (text rest : Bytes)
    → length (to_le_bytes 4 (length text) ++ (text ++ rest)) ≡ 4 + length text + length rest
payload_length text rest = omega (
  arith,
  length-append (to_le_bytes 4 (length text)) (text ++ rest),
  length-append text rest,
  length-to_le_bytes 4 (length text),
)

pub split_texts-group_payload :
    (run : List Frame) (payload : Bytes) (fuel : ℕ)
    → AllText run
    → group_payload run ≡ ok payload
    → length payload ≤ fuel
    → split_texts fuel payload ≡ ok (texts run)
split_texts-group_payload [] payload fuel u e h =
    let n : payload ≡ [] = unfold group_payload in ground arith in rw n (unfold split_texts in refl)
split_texts-group_payload ((k, text) ∷ run) payload zero u e h =
    let (rest, r, p, fits) = group_payload_cons k text run payload e in
    absurd (omega (arith, payload_length text rest, ap length p))
split_texts-group_payload ((k, text) ∷ run) payload (suc fuel) u e h =
    let (rest, r, p, fits) = group_payload_cons k text run payload e in
    rw p (
      split_one fuel text rest fits u.0 (
        split_texts-group_payload run rest fuel u.1 r
          (omega (arith, payload_length text rest, ap length p))))

length-texts : (run : List Frame) → length (texts run) ≡ length run
length-texts [] = refl
length-texts ((k, text) ∷ run) = omega (arith, length-texts run)

module _ (z : Zstd) where
  open z use {encode_all, decode_all, decode-encode, frame_length}

  encode_group_ok :
      (run : List Frame) (v : Bytes)
      → encode_group z run ≡ ok v
      → (payload c : Bytes) × (group_payload run ≡ ok payload)
        × (encode_all payload zstd_level ≡ some c)
        × (v ≡ group_tag ++ (to_le_bytes 4 (length run % 2 ^ 32) ++ c))
  unfolding encode_group
  encode_group_ok run v e = go (group_payload run) refl
    where
      tail :
          (payload : Bytes) (o : Option Bytes)
          → group_payload run ≡ ok payload
          → encode_all payload zstd_level ≡ o
          → (payload c : Bytes) × (group_payload run ≡ ok payload)
            × (encode_all payload zstd_level ≡ some c)
            × (v ≡ group_tag ++ (to_le_bytes 4 (length run % 2 ^ 32) ++ c))
      tail payload none q r = absurd (ground arith)
      tail payload (some c) q r = (payload, c, q, r, ground arith)

      go :
          (r : Result Bytes)
          → group_payload run ≡ r
          → (payload c : Bytes) × (group_payload run ≡ ok payload)
            × (encode_all payload zstd_level ≡ some c)
            × (v ≡ group_tag ++ (to_le_bytes 4 (length run % 2 ^ 32) ++ c))
      go (err x) q = absurd (ground arith)
      go (ok payload) q = tail payload (encode_all payload zstd_level) q refl

  group_value :
      (run : List Frame) (payload c : Bytes)
      → IsU32 (length run)
      → 2 ≤ length run
      → AllText run
      → group_payload run ≡ ok payload
      → encode_all payload zstd_level ≡ some c
      → decode_group z (group_tag ++ (to_le_bytes 4 (length run % 2 ^ 32) ++ c)) ≡ ok (texts run)
  unfolding decode_group
  group_value run payload c small two u p e =
      let n : from_le_bytes (to_le_bytes 4 (length run % 2 ^ 32)) ≡ length run =
        from_le_bytes-to_le_bytes 4 (length run % 2 ^ 32) (omega arith) ∙ omega arith in
      let d = decode-encode payload zstd_level c e in
      let s = split_texts-group_payload run payload (length payload) u p (omega arith) in
      unfold to_le_bytes in
      ground (arith, n, d, s, length-texts run, frame_length payload zstd_level c e)

  -- A group value decodes to the texts of its run, in order.
  pub decode_group-encode_group :
      (run : List Frame) (v : Bytes)
      → IsU32 (length run)
      → 2 ≤ length run
      → AllText run
      → encode_group z run ≡ ok v
      → (decode_group z v ≡ ok (texts run)) × (is_group v ≡ true)
  decode_group-encode_group run v small two u e =
      let (payload, c, p, q, r) = encode_group_ok run v e in
      rw r (
        group_value run payload c small two u p q,
        unfold is_group in starts_with-append group_tag _,
      )
