-- ===== src/Codec/Sizes.antt =====
-- `pack_aligned` returns when zstd does, and what it stores is no longer than the single values.
use readcon_db.Base.{
  ℕ, zero, suc, ◌+◌, ◌*◌, ◌/◌, ◌%◌, ◌^◌, ◌≤◌, ◌≡◌, refl, inl, inr, true, some, List, [], ◌∷◌, ◌++◌,
  ltb, leb, arith, Bool-cases, length, usize_max, saturating_add, saturating_mul,
}
use readcon_db.Base.Bytes.{Bytes, IsU32, to_le_bytes}
use readcon_db.Error.{Result, ok, err, >>=-eq-ok}
use readcon_db.Zstd.{Zstd}
use readcon_db.Codec.{
  Frame, frame_tag, zstd_level, group_tag, redirects, take_run, drop_run, group_payload,
  store_frame, encode_group, store_singles, size_sum, pack_run, pack_loop, pack_aligned,
}
use readcon_db.Codec.Split.{length-pack_aligned}
use readcon_db.Codec.Redirect.{length-encode_redirect}
use readcon_db.Codec.Runs.{take-drop_run, length-drop_run}

-- The bytes of all the values.
pub total_len : List Bytes → ℕ
total_len [] = 0
total_len (v ∷ vs) = length v + total_len vs

total_len-append : (vs ws : List Bytes) → total_len (vs ++ ws) ≡ total_len vs + total_len ws
unfolding total_len
total_len-append [] ws = omega arith
total_len-append (v ∷ vs) ws = omega (arith, total_len-append vs ws)

total_len-redirects : (head slot n : ℕ) → total_len (redirects head slot n) ≡ 10 * n
unfolding total_len redirects
total_len-redirects head slot zero = refl
total_len-redirects head slot (suc n) =
    omega
      (arith, length-encode_redirect head (slot % 2 ^ 32), total_len-redirects head (slot + 1) n)

size_sum-le : (vs : List Bytes) → (size_sum vs ≤ total_len vs) × (size_sum vs ≤ usize_max)
unfolding size_sum total_len
size_sum-le [] = omega arith
size_sum-le (v ∷ vs) = ground (arith, size_sum-le vs)

module _ (z : Zstd) where
  store_singles-append :
      (fs gs : List Frame) (s : List Bytes)
      → store_singles z (fs ++ gs) ≡ ok s
      → (a b : List Bytes) × (store_singles z fs ≡ ok a)
        × (store_singles z gs ≡ ok b)
        × (s ≡ a ++ b)
  unfolding store_singles
  store_singles-append [] gs s e = ([], s, refl, e, refl)
  store_singles-append ((k, text) ∷ fs) gs s e =
      let (one, e1, r) = >>=-eq-ok (store_frame z text true) _ e in
      let (more, e2, q) = >>=-eq-ok (store_singles z (fs ++ gs)) _ r in
      let (a, b, ea, eb, w) = store_singles-append fs gs more e2 in
      (one ∷ a, b, ground (arith, e1, ea), eb, cc (q, w))

  pack_run_size :
      (head : ℕ) (text : Bytes) (run : List Frame) (vs singles : List Bytes)
      → store_singles z ((head, text) ∷ run) ≡ ok singles
      → pack_run z head text run ≡ ok vs
      → total_len vs ≤ total_len singles
  unfolding pack_run
  pack_run_size head text run vs singles s e = go (encode_group z ((head, text) ∷ run)) refl
    where
      same : vs ≡ singles → total_len vs ≤ total_len singles
      same w = rw w (omega arith)

      go :
          (g : Result Bytes)
          → encode_group z ((head, text) ∷ run) ≡ g
          → total_len vs ≤ total_len singles
      go (err x) q = same (ground arith)
      go (ok grouped) q = elim (Bool-cases (ltb 1 (length ((head, text) ∷ run)))) [
        | inr t ↦ same (ground arith)
        | inl t ↦
            elim (Bool-cases (
              ltb (saturating_add (length grouped) (saturating_mul 10 (length run)))
                (size_sum singles))) [
                  | inr u ↦ same (ground arith)
                  | inl u ↦
                      let w : vs ≡ grouped ∷ redirects head 1 (length run) = ground arith in
                      rw w (
                        unfold total_len in
                        ground
                          (arith, size_sum-le singles, total_len-redirects head 1 (length run)))
                ]
      ]

  pack_loop_size :
      (fuel : ℕ) (fs : List Frame) (vs singles : List Bytes)
      → length fs ≤ fuel
      → store_singles z fs ≡ ok singles
      → pack_loop z fuel fs ≡ ok vs
      → total_len vs ≤ total_len singles
  unfolding pack_loop
  pack_loop_size fuel [] vs singles n s e =
      let w : vs ≡ [] = ground arith in rw w (unfold total_len in omega arith)
  pack_loop_size zero (f ∷ fs) vs singles n s e = absurd (omega arith)
  pack_loop_size (suc fuel) ((k, text) ∷ fs) vs singles n s e =
      let g = k / 64 in
      let (packed, e1, r) = >>=-eq-ok (pack_run z k text (take_run g fs)) _ e in
      let (more, e2, q) = >>=-eq-ok (pack_loop z fuel (drop_run g fs)) _ r in
      let w : vs ≡ packed ++ more = cc q in
      let s' : store_singles z ((k, text) ∷ (take_run g fs ++ drop_run g fs)) ≡ ok singles =
        rw (take-drop_run g fs) s in
      let (a, b, ea, eb, v) =
        store_singles-append ((k, text) ∷ take_run g fs) (drop_run g fs) singles s' in
      let here = pack_run_size k text (take_run g fs) packed a ea e1 in
      let there =
        pack_loop_size fuel (drop_run g fs) more b (omega (arith, length-drop_run g fs)) eb e2 in
      rw (w, v) (omega (arith, total_len-append packed more, total_len-append a b))

  -- The packed values of any frames have together at most the bytes of the values that
  -- `store_frame` gives for the frames one by one.
  pub pack_aligned_size :
      (frames : List Frame) (vs singles : List Bytes)
      → store_singles z frames ≡ ok singles
      → pack_aligned z frames ≡ ok vs
      → total_len vs ≤ total_len singles
  unfolding pack_aligned
  pack_aligned_size frames vs singles s e =
      pack_loop_size (length frames) frames vs singles (omega arith) s e

-- Texts whose lengths fit a `u32`.
abbrev pub AllShort : List Frame → Type 0
AllShort [] = Unit
AllShort ((k, text) ∷ fs) = IsU32 (length text) × AllShort fs

AllShort-append : (fs gs : List Frame) → AllShort (fs ++ gs) → AllShort fs × AllShort gs
AllShort-append [] gs h = (tt, h)
AllShort-append ((k, text) ∷ fs) gs h = let ih = AllShort-append fs gs h.1 in ((h.0, ih.0), ih.1)

module _ (z : Zstd)
    (works : (plain : Bytes) → (c : Bytes) × (z.encode_all plain zstd_level ≡ some c)) where
  store_frame_total : (text : Bytes) → (v : Bytes) × (store_frame z text true ≡ ok v)
  unfolding store_frame
  store_frame_total text =
      let (c, e) = works text in
      elim (Bool-cases (leb (length text) (saturating_add (length c) 2))) [
        | inl t ↦ (text, ground arith)
        | inr t ↦ (frame_tag ++ c, ground arith)
      ]

  store_singles_total : (fs : List Frame) → (vs : List Bytes) × (store_singles z fs ≡ ok vs)
  unfolding store_singles
  store_singles_total [] = ([], refl)
  store_singles_total ((k, text) ∷ fs) =
      let (v, e) = store_frame_total text in
      let (vs, es) = store_singles_total fs in (v ∷ vs, ground arith)

  group_payload_total : (fs : List Frame) → AllShort fs → (p : Bytes) × (group_payload fs ≡ ok p)
  unfolding group_payload
  group_payload_total [] h = ([], refl)
  group_payload_total ((k, text) ∷ fs) h =
      let (p, e) = group_payload_total fs h.1 in
      (to_le_bytes 4 (length text) ++ (text ++ p), ground arith)

  encode_group_total : (fs : List Frame) → AllShort fs → (g : Bytes) × (encode_group z fs ≡ ok g)
  unfolding encode_group
  encode_group_total fs h =
      let (p, e) = group_payload_total fs h in
      let (c, ec) = works p in
      (group_tag ++ (to_le_bytes 4 (length fs % 2 ^ 32) ++ c), ground arith)

  pack_run_total :
      (head : ℕ) (text : Bytes) (run : List Frame)
      → AllShort ((head, text) ∷ run)
      → (vs : List Bytes) × (pack_run z head text run ≡ ok vs)
  unfolding pack_run
  pack_run_total head text run h =
      let (s, es) = store_singles_total ((head, text) ∷ run) in
      let (g, eg) = encode_group_total ((head, text) ∷ run) h in
      elim (Bool-cases (ltb 1 (length ((head, text) ∷ run)))) [
        | inr t ↦ (s, ground arith)
        | inl t ↦
            elim (Bool-cases
              (ltb (saturating_add (length g) (saturating_mul 10 (length run))) (size_sum s))) [
                | inl u ↦ (g ∷ redirects head 1 (length run), ground arith)
                | inr u ↦ (s, ground arith)
              ]
      ]

  pack_loop_total :
      (fuel : ℕ) (fs : List Frame)
      → length fs ≤ fuel
      → AllShort fs
      → (vs : List Bytes) × (pack_loop z fuel fs ≡ ok vs)
  unfolding pack_loop
  pack_loop_total fuel [] n h = ([], refl)
  pack_loop_total zero (f ∷ fs) n h = absurd (omega arith)
  pack_loop_total (suc fuel) ((k, text) ∷ fs) n h =
      let g = k / 64 in
      let parts = AllShort-append (take_run g fs) (drop_run g fs) (rw (take-drop_run g fs) h.1) in
      let (a, ea) = pack_run_total k text (take_run g fs) (h.0, parts.0) in
      let (b, eb) =
        pack_loop_total fuel (drop_run g fs) (omega (arith, length-drop_run g fs, n)) parts.1 in
      (a ++ b, ground arith)

  -- Where zstd compresses every input, `pack_aligned` returns a value for each of the frames, as
  -- long as their texts are shorter than 2 ^ 32 bytes.
  pub pack_aligned_total :
      (frames : List Frame)
      → AllShort frames
      → (vs : List Bytes) × (pack_aligned z frames ≡ ok vs) × (length vs ≡ length frames)
  unfolding pack_aligned
  pack_aligned_total frames h =
      let (vs, e) = pack_loop_total (length frames) frames (omega arith) h in
      (vs, e, length-pack_aligned z frames vs e)
