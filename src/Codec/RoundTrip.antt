-- ===== src/Codec/RoundTrip.antt =====
-- `pack_aligned` stores every frame so that `decode_frame` reads its text back.
use readcon_db.Base.{
  ℕ, zero, suc, ◌+◌, ◌/◌, ◌≤◌, ◌≡◌, refl, ◌⊎◌, inl, inr, List, [], ◌∷◌, ◌++◌, ltb, arith,
  Bool-cases, length, saturating_add, saturating_mul,
}
use readcon_db.Base.Bytes.{Bytes}
use readcon_db.Error.{Result, ok, err, >>=-eq-ok}
use readcon_db.Zstd.{Zstd}
use readcon_db.Codec.{
  Frame, redirects, take_run, drop_run, open_group_or_single, decode_frame, encode_group,
  store_singles, size_sum, pack_run, pack_loop, pack_aligned,
}
use readcon_db.Codec.Group.{decode_group-encode_group}
use readcon_db.Codec.Runs.{
  IsTrajectory, length-take_run, take_run-IsTrajectory, drop_run-IsTrajectory, take-drop_run,
  length-drop_run, IsTrajectory-AllText,
}
use readcon_db.Codec.Decodes.{
  Fetch, Holds, Decodes, group_not_redirect, Decodes-append, Holds-append, store_singles-Decodes,
  redirects-Decodes,
}

module _ (z : Zstd) (fetch : Fetch) where
  pub pack_run_cases :
      (head : ℕ) (text : Bytes) (run : List Frame) (vs : List Bytes)
      → pack_run z head text run ≡ ok vs
      → (store_singles z ((head, text) ∷ run) ≡ ok vs)
        ⊎ (grouped : Bytes) × (encode_group z ((head, text) ∷ run) ≡ ok grouped)
          × (vs ≡ grouped ∷ redirects head 1 (length run))
          × (1 ≤ length run)
  unfolding pack_run
  pack_run_cases head text run vs e =
      go (store_singles z ((head, text) ∷ run)) (encode_group z ((head, text) ∷ run)) refl refl
    where
      go :
          (r : Result (List Bytes)) (g : Result Bytes)
          → store_singles z ((head, text) ∷ run) ≡ r
          → encode_group z ((head, text) ∷ run) ≡ g
          → (store_singles z ((head, text) ∷ run) ≡ ok vs)
            ⊎ (grouped : Bytes) × (encode_group z ((head, text) ∷ run) ≡ ok grouped)
              × (vs ≡ grouped ∷ redirects head 1 (length run))
              × (1 ≤ length run)
      go (err x) g p q = absurd (ground arith)
      go (ok singles) (err x) p q = inl (ground arith)
      go (ok singles) (ok grouped) p q = elim (Bool-cases (ltb 1 (length ((head, text) ∷ run)))) [
        | inr t ↦ inl (ground arith)
        | inl t ↦
            elim (Bool-cases (
              ltb (saturating_add (length grouped) (saturating_mul 10 (length run)))
                (size_sum singles))) [
                  | inl u ↦ inr (grouped, q, ground arith, ground arith)
                  | inr u ↦ inl (ground arith)
                ]
      ]

  grouped-Decodes :
      (lo head : ℕ) (text : Bytes) (run : List Frame) (grouped : Bytes)
      → IsTrajectory lo ((head, text) ∷ run)
      → length run ≤ 63
      → 1 ≤ length run
      → encode_group z ((head, text) ∷ run) ≡ ok grouped
      → fetch head ≡ ok grouped
      → Decodes z fetch ((head, text) ∷ run) (grouped ∷ redirects head 1 (length run))
  unfolding decode_frame open_group_or_single
  grouped-Decodes lo head text run grouped t small two e f =
      let (d, g) =
        decode_group-encode_group z ((head, text) ∷ run) grouped (omega arith) (omega arith)
          (IsTrajectory-AllText lo ((head, text) ∷ run) t) e in
      (
        ground (arith, group_not_redirect grouped g),
        redirects-Decodes z fetch head 1 grouped (text ∷ []) run t.1 (omega arith) (omega arith)
            refl f g d,
      )

  pack_run-Decodes :
      (lo head : ℕ) (text : Bytes) (run : List Frame) (vs more : List Bytes) (fs : List Frame)
      → IsTrajectory lo ((head, text) ∷ run)
      → length run ≤ 63
      → pack_run z head text run ≡ ok vs
      → Holds fetch ((head, text) ∷ fs) (vs ++ more)
      → Decodes z fetch ((head, text) ∷ run) vs
  pack_run-Decodes lo head text run vs more fs t small e h =
      elim (pack_run_cases head text run vs e) [
        | inl s ↦ store_singles-Decodes z fetch lo ((head, text) ∷ run) vs t s
        | inr (grouped, g, w, two) ↦
            let f : fetch head ≡ ok grouped = (rw w at h).0 in
            rw w (grouped-Decodes lo head text run grouped t small two g f)
      ]

  pack_loop-Decodes :
      (fuel lo : ℕ) (fs : List Frame) (vs : List Bytes)
      → length fs ≤ fuel
      → IsTrajectory lo fs
      → pack_loop z fuel fs ≡ ok vs
      → Holds fetch fs vs
      → Decodes z fetch fs vs
  unfolding pack_loop
  pack_loop-Decodes fuel lo [] vs n t e h = let w : vs ≡ [] = ground arith in rw w tt
  pack_loop-Decodes zero lo (f ∷ fs) vs n t e h = absurd (omega arith)
  pack_loop-Decodes (suc fuel) lo ((k, text) ∷ fs) vs n t e h =
      let g = k / 64 in
      let run = take_run g fs in
      let rest = drop_run g fs in
      let (packed, e1, r) = >>=-eq-ok (pack_run z k text run) _ e in
      let (more, e2, q) = >>=-eq-ok (pack_loop z fuel rest) _ r in
      let w : vs ≡ packed ++ more = cc q in
      let whole : run ++ rest ≡ fs = take-drop_run g fs in
      let h' : Holds fetch ((k, text) ∷ fs) (packed ++ more) = rw w at h in
      let small = length-take_run g (k + 1) fs t.4 (omega arith) in
      let here =
        pack_run-Decodes lo k text run packed more fs
          (t.0, t.1, t.2, t.3, take_run-IsTrajectory g (k + 1) fs t.4) (omega arith) e1 h' in
      let h'' : Holds fetch ((k, text) ∷ (run ++ rest)) (packed ++ more) = rw whole h' in
      let left = Holds-append z fetch ((k, text) ∷ run) rest packed more here h'' in
      let there =
        pack_loop-Decodes fuel (k + 1) rest more (omega (arith, length-drop_run g fs))
          (drop_run-IsTrajectory g (k + 1) fs t.4) e2 left in
      let all = Decodes-append z fetch ((k, text) ∷ run) rest packed more here there in
      rw w (rw whole at all)

  -- When `pack_aligned` succeeds on the frames of a trajectory, whose indices ascend and fit a
  -- `u32`, there is a value for each frame; and where `fetch_head` finds the values under their
  -- frames' indices, `decode_frame` reads from each value the text of its frame.
  pub pack_aligned-Decodes :
      (frames : List Frame) (vs : List Bytes)
      → IsTrajectory 0 frames
      → pack_aligned z frames ≡ ok vs
      → Holds fetch frames vs
      → Decodes z fetch frames vs
  unfolding pack_aligned
  pack_aligned-Decodes frames vs t e h =
      pack_loop-Decodes (length frames) 0 frames vs (omega arith) t e h
