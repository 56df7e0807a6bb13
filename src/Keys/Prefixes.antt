-- ===== src/Keys/Prefixes.antt =====
-- A prefix scan of an index finds the keys of its own text and no others: 0xff, which ends the
-- text, is no byte of UTF-8.
use readcon_db.Base.{◌≡◌, refl, ◌↔◌, true, [], ◌∷◌, ◌++◌, arith, All}
use readcon_db.Base.Bytes.{Bytes, starts_with}
use readcon_db.Base.Utf8.{is_utf8, is_utf8-IsTextByte, IsTextByte}
use readcon_db.Keys.{FrameKey, to_bytes, symbol_key, symbol_prefix}
use mathlib.Core.List.{append_assoc}

pub starts_with-ended :
    (s t rest : Bytes)
    → All IsTextByte s
    → All IsTextByte t
    → (starts_with (s ++ 0xff ∷ rest) (t ++ 0xff ∷ []) ≡ true) ↔ (s ≡ t)
unfolding starts_with
starts_with-ended [] [] rest hs ht = (λ e. refl, λ e. unfold starts_with in ground arith)
starts_with-ended [] (y ∷ t) rest hs ht = (λ e. ground arith, λ e. cc)
starts_with-ended (x ∷ s) [] rest hs ht = (λ e. ground arith, λ e. cc)
starts_with-ended (x ∷ s) (y ∷ t) rest hs ht =
    let ih = starts_with-ended s t rest hs.1 ht.1 in
    (λ e. ground (arith, ih), λ e. ground (arith, ih))

module _ (s t : Bytes) (fk : FrameKey) (hs : is_utf8 s ≡ true) (ht : is_utf8 t ≡ true) where
  -- The scan for one symbol meets a key of `idx_symbol` exactly when the key is of that symbol.
  pub symbol_scan_exact : (starts_with (symbol_key s fk) (symbol_prefix t) ≡ true) ↔ (s ≡ t)
  unfolding symbol_key symbol_prefix
  symbol_scan_exact =
      rw (append_assoc s (0xff ∷ []) (to_bytes fk))
        (starts_with-ended s t (to_bytes fk) (is_utf8-IsTextByte s hs) (is_utf8-IsTextByte t ht))
