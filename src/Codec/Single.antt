-- ===== src/Codec/Single.antt =====
-- One text: `store_frame` and `load_frame`.
use readcon_db.Base.{
  ◌<◌, ◌≤◌, ◌≡◌, refl, ◌⊎◌, inl, inr, Bool, true, false, Option, none, some, [], ◌∷◌, ◌++◌, leb,
  arith, Bool-cases, length, saturating_add,
}
use readcon_db.Base.Bytes.{Bytes, IsU64, starts_with}
use readcon_db.Base.Utf8.{is_utf8, is_utf8-IsTextByte}
use readcon_db.Error.{ok}
use readcon_db.Zstd.{Zstd}
use readcon_db.Codec.{
  frame_tag, zstd_level, is_tagged, is_redirect, is_group, store_frame, load_frame,
}

-- A text begins with no tag.
pub text_untagged :
    (text : Bytes)
    → is_utf8 text ≡ true
    → (is_tagged text ≡ false) × (is_redirect text ≡ false) × (is_group text ≡ false)
unfolding is_tagged is_redirect is_group starts_with
text_untagged [] h = (refl, refl, refl)
text_untagged (b ∷ bs) h =
    let t = (is_utf8-IsTextByte (b ∷ bs) h).0 in
    (ground (arith, t), ground (arith, t), ground (arith, t))

-- What `store_frame` writes is the text, or a shorter tagged frame.
module _ (z : Zstd) where
  open z use {encode_all, decode_all, decode-encode}

  pub store_frame_cases :
      (text : Bytes) (compress : Bool) (v : Bytes)
      → IsU64 (length text)
      → store_frame z text compress ≡ ok v
      → (v ≡ text)
        ⊎ (c : Bytes) × (encode_all text zstd_level ≡ some c)
          × (v ≡ frame_tag ++ c)
          × (length v < length text)
  unfolding store_frame
  store_frame_cases text false v u h = inl (ground arith)
  store_frame_cases text true v u h = go (encode_all text zstd_level) refl h
    where
      go :
          (o : Option Bytes)
          → encode_all text zstd_level ≡ o
          → store_frame z text true ≡ ok v
          → (v ≡ text)
            ⊎ (c : Bytes) × (encode_all text zstd_level ≡ some c)
              × (v ≡ frame_tag ++ c)
              × (length v < length text)
      go none e h = absurd (ground arith)
      go (some c) e h = elim (Bool-cases (leb (length text) (saturating_add (length c) 2))) [
        | inl t ↦ inl (ground arith)
        | inr f ↦ inr (c, e, ground arith, ground arith)
      ]

  pub load_frame-text : (text : Bytes) → is_utf8 text ≡ true → load_frame z text ≡ ok text
  unfolding load_frame
  load_frame-text text h = let (t, r, g) = text_untagged text h in rw (t, r, g, h)

  pub load_frame-tagged :
      (text c : Bytes)
      → is_utf8 text ≡ true
      → encode_all text zstd_level ≡ some c
      → load_frame z (frame_tag ++ c) ≡ ok text
  unfolding load_frame is_tagged is_redirect is_group starts_with
  load_frame-tagged text c h e = rw (decode-encode text zstd_level c e, h)

  -- Whatever the setting, `load_frame` reads back the text that `store_frame` was given, and the
  -- stored bytes are never more than the text.
  pub load_frame-store_frame :
      (text : Bytes) (compress : Bool) (v : Bytes)
      → IsU64 (length text)
      → is_utf8 text ≡ true
      → store_frame z text compress ≡ ok v
      → (load_frame z v ≡ ok text) × (length v ≤ length text)
  load_frame-store_frame text compress v u h e = elim (store_frame_cases text compress v u e) [
    | inl t ↦ rw t (load_frame-text text h, omega arith)
    | inr (c, ec, t, less) ↦ (rw t (load_frame-tagged text c h ec), omega arith)
  ]
