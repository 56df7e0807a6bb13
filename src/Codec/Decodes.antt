-- ===== src/Codec/Decodes.antt =====
-- What it is for a list of stored values to decode to the frames that it stands for.
use readcon_db.Base.{
  ℕ, ◌+◌, ◌%◌, ◌^◌, ◌<◌, ◌≤◌, ◌≡◌, refl, inl, inr, true, false, List, [], ◌∷◌, ◌++◌, arith, length,
  get_elem?, length-append, get_elem?-append,
}
use mathlib.Core.List.{append_assoc}
use readcon_db.Base.Bytes.{Bytes, IsU32, IsU64, starts_with}
use readcon_db.Error.{Result, ok, >>=-eq-ok}
use readcon_db.Zstd.{Zstd}
use readcon_db.Codec.{
  Frame, frame_tag, is_redirect, is_group, encode_redirect, redirects, store_frame,
  open_group_or_single, decode_frame, decode_group, store_singles,
}
use readcon_db.Codec.Redirect.{parse_redirect-encode_redirect, encode_redirect-tag}
use readcon_db.Codec.Single.{text_untagged, store_frame_cases, load_frame-text, load_frame-tagged}
use readcon_db.Codec.Group.{IsText, texts}
use readcon_db.Codec.Runs.{IsTrajectory}

abbrev pub Fetch : Type 0
Fetch = ℕ → Result Bytes

-- What the table holds: `fetch` finds each value under the index of its frame.
abbrev pub Holds : Fetch → List Frame → List Bytes → Type 0
Holds fetch [] vs = Unit
Holds fetch (f ∷ fs) [] = Unit
Holds fetch ((k, text) ∷ fs) (v ∷ vs) = (fetch k ≡ ok v) × Holds fetch fs vs

-- As many values as frames, and each decodes to its frame's text.
abbrev pub Decodes : Zstd → Fetch → List Frame → List Bytes → Type 0
Decodes z fetch [] [] = Unit
Decodes z fetch [] (v ∷ vs) = ⊥
Decodes z fetch (f ∷ fs) [] = ⊥
Decodes z fetch ((k, text) ∷ fs) (v ∷ vs) =
    (decode_frame z v fetch ≡ ok text) × Decodes z fetch fs vs

pub group_not_redirect : (v : Bytes) → is_group v ≡ true → is_redirect v ≡ false
unfolding is_group is_redirect starts_with
group_not_redirect [] h = refl
group_not_redirect (a ∷ []) h = ground arith
group_not_redirect (a ∷ b ∷ v) h = ground arith

at_slot :
    (front rest : List Bytes) (slot : ℕ)
    → length front ≡ slot
    → get_elem? (front ++ rest) slot ≡ get_elem? rest 0
at_slot front rest slot n =
    let e : slot ≡ length front + 0 = omega arith in rw e (get_elem?-append front rest 0)

module _ (z : Zstd) (fetch : Fetch) where
  pub Decodes-append :
      (fs gs : List Frame) (vs ws : List Bytes)
      → Decodes z fetch fs vs
      → Decodes z fetch gs ws
      → Decodes z fetch (fs ++ gs) (vs ++ ws)
  Decodes-append [] gs [] ws h k = k
  Decodes-append [] gs (v ∷ vs) ws h k = absurd h
  Decodes-append (f ∷ fs) gs [] ws h k = absurd h
  Decodes-append ((k, text) ∷ fs) gs (v ∷ vs) ws h k' = (h.0, Decodes-append fs gs vs ws h.1 k')

  pub Holds-append :
      (fs gs : List Frame) (vs ws : List Bytes)
      → Decodes z fetch fs vs
      → Holds fetch (fs ++ gs) (vs ++ ws)
      → Holds fetch gs ws
  Holds-append [] gs [] ws h k = k
  Holds-append [] gs (v ∷ vs) ws h k = absurd h
  Holds-append (f ∷ fs) gs [] ws h k = absurd h
  Holds-append ((k, text) ∷ fs) gs (v ∷ vs) ws h k' = Holds-append fs gs vs ws h.1 k'.1

  pub decode_frame-single :
      (text : Bytes) (v : Bytes)
      → IsU64 (length text)
      → IsText text
      → store_frame z text true ≡ ok v
      → decode_frame z v fetch ≡ ok text
  unfolding decode_frame open_group_or_single
  decode_frame-single text v u h e = elim (store_frame_cases z text true v u e) [
    | inl t ↦ let (a, b, c) = text_untagged text h in rw (t, b, c, load_frame-text z text h) refl
    | inr (c, ec, t, less) ↦ rw t (ground (arith, load_frame-tagged z text c h ec, tags c))
  ]
    where
      tags :
          (c : Bytes) → (is_redirect (frame_tag ++ c) ≡ false) × (is_group (frame_tag ++ c) ≡ false)
      tags c = unfold is_redirect is_group starts_with in (refl, refl)

  pub store_singles-Decodes :
      (lo : ℕ) (fs : List Frame) (vs : List Bytes)
      → IsTrajectory lo fs
      → store_singles z fs ≡ ok vs
      → Decodes z fetch fs vs
  unfolding store_singles
  store_singles-Decodes lo [] vs t e = let w : vs ≡ [] = ground arith in rw w tt
  store_singles-Decodes lo ((k, text) ∷ fs) vs t e =
      let (one, e1, r) = >>=-eq-ok (store_frame z text true) _ e in
      let (more, e2, q) = >>=-eq-ok (store_singles z fs) _ r in
      let w : vs ≡ one ∷ more = cc q in
      rw w (decode_frame-single text one t.2 t.3 e1, store_singles-Decodes (k + 1) fs more t.4 e2)

  decode_frame-redirect :
      (head slot : ℕ) (grouped text : Bytes) (front rest : List Bytes)
      → IsU32 head
      → IsU32 slot
      → 1 ≤ slot
      → length front ≡ slot
      → fetch head ≡ ok grouped
      → is_group grouped ≡ true
      → decode_group z grouped ≡ ok (front ++ (text ∷ rest))
      → decode_frame z (encode_redirect head slot) fetch ≡ ok text
  unfolding decode_frame open_group_or_single
  decode_frame-redirect head slot grouped text front rest hh hs one n f g d = ground (
    arith,
    encode_redirect-tag head slot,
    parse_redirect-encode_redirect head slot hh hs one,
    group_not_redirect grouped g,
    at_slot front (text ∷ rest) slot n,
  )

  pub redirects-Decodes :
      (head slot : ℕ) (grouped : Bytes) (front : List Bytes) (fs : List Frame)
      → IsU32 head
      → 1 ≤ slot
      → slot + length fs < 2 ^ 32
      → length front ≡ slot
      → fetch head ≡ ok grouped
      → is_group grouped ≡ true
      → decode_group z grouped ≡ ok (front ++ texts fs)
      → Decodes z fetch fs (redirects head slot (length fs))
  unfolding redirects
  redirects-Decodes head slot grouped front [] hh s1 s2 n f g d = tt
  redirects-Decodes head slot grouped front ((k, text) ∷ fs) hh s1 s2 n f g d =
      let s : slot % 2 ^ 32 ≡ slot = omega arith in
      rw s (
        decode_frame-redirect head slot grouped text front (texts fs) hh (omega arith) s1 n f g d,
        redirects-Decodes head (slot + 1) grouped (front ++ (text ∷ [])) fs hh (omega arith)
            (omega arith) (omega (arith, length-append front (text ∷ []))) f g
            (rw (append_assoc front (text ∷ []) (texts fs)) d),
      )
