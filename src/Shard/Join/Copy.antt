-- ===== src/Shard/Join/Copy.antt =====
-- A join of src/shard.rs copies each trajectory once.
use readcon_db.Base.{
  ℕ, ◌+◌, ◌%◌, ◌^◌, ◌≡◌, ◌≢◌, refl, sym, ap, ◌∙◌, inl, inr, false, none, some, List, [], ◌∷◌, ◌==◌,
  Bool-cases, ==_iff, All,
}
use readcon_db.Base.Bytes.{Bytes}
use readcon_db.Error.{Result, ok, err, ◌>>=◌, >>=-eq-ok, ok_eq}
use mathlib.Core.Path.{subst}
use readcon_db.Zstd.{Zstd}
use readcon_db.Heed.{Heed}
use readcon_db.Keys.{FrameKey, TrajId}
use readcon_db.Corpus.{ConCorpus}
use readcon_db.Shard.Join.{
  owner_of, preview_keys, by_traj, is_seen, Source, list_frame_keys, preview_sources, append_group,
  append_groups, append_sources, rollback_new_dest, after_preview, join,
}
use readcon_db.Shard.Join.Preview.{
  Grows, Owned, Owned-Grows, preview_keys-ok, OwnedGroups, Rising, by_traj_groups, Unseen,
  Unseen-cons,
}

add_seen : List TrajId → List (TrajId × List FrameKey) → List TrajId
add_seen seen [] = seen
add_seen seen (g ∷ groups) = add_seen (g.0 ∷ seen) groups

with_seen : {C : Type 0} → List TrajId → Result (C × ℕ) → Result (C × List TrajId × ℕ)
with_seen seen (err e) = err e
with_seen seen (ok (out, n)) = ok (out, seen, n)

-- What another owner has is not among the trajectories of these groups.
add_seen_other :
    (p : List (TrajId × ℕ)) (owner other t : ℕ) (seen : List TrajId)
    (groups : List (TrajId × List FrameKey))
    → OwnedGroups p owner groups
    → owner ≢ other
    → owner_of p t ≡ some other
    → is_seen seen t ≡ false
    → is_seen (add_seen seen groups) t ≡ false
unfolding add_seen is_seen
add_seen_other p owner other t seen [] o n h u = u
add_seen_other p owner other t seen (g ∷ groups) o n h u =
    add_seen_other p owner other t (g.0 ∷ seen) groups o.1 n h (elim (Bool-cases (g.0 == t)) [
      | inl x ↦
          let here : g.0 ≡ t = (==_iff g.0 t).0 x in
          let both : some owner ≡ some other = sym o.0 ∙ ap (owner_of p) here ∙ h in
          absurd (n (let q : owner ≡ other = cc both in q))
      | inr x ↦ rw x u
    ])

module _ (db : Heed) (z : Zstd) (xxh3_128 : Bytes → ℕ)
    (append_trajectory_str : ConCorpus db → TrajId → Bytes → Result (ConCorpus db × ℕ)) where
  abbrev Src : Type 0
  Src = Source db z xxh3_128 append_trajectory_str

  abbrev group_copy :
      ConCorpus db → ConCorpus db → TrajId × List FrameKey → Result (ConCorpus db × ℕ)
  group_copy = append_group db z xxh3_128 append_trajectory_str

  abbrev keys_of_source : ConCorpus db → List FrameKey
  keys_of_source = list_frame_keys db z xxh3_128 append_trajectory_str

  -- The copies with no look at what was seen.
  unfoldable pub copy_groups :
      ConCorpus db → ConCorpus db → List (TrajId × List FrameKey) → Result (ConCorpus db × ℕ)
  copy_groups c out [] = ok (out, 0)
  copy_groups c out (g ∷ groups) = do
    (out1, nf) ← group_copy c out g
    (out2, n) ← copy_groups c out1 groups
    ok (out2, (nf + n) % 2 ^ 32)

  unfoldable pub copy_sources : ConCorpus db → List Src → Result (ConCorpus db × ℕ)
  copy_sources out [] = ok (out, 0)
  copy_sources out (s ∷ sources) = do
    c ← s.opened
    (out1, n) ← copy_groups c out (by_traj [] (keys_of_source c))
    (out2, m) ← copy_sources out1 sources
    ok (out2, (n + m) % 2 ^ 32)

  append_groups_lem :
      (c out : ConCorpus db) (seen : List TrajId) (groups : List (TrajId × List FrameKey))
      → Unseen seen groups
      → Rising groups
      → append_groups db z xxh3_128 append_trajectory_str c out seen groups
        ≡ with_seen (add_seen seen groups) (copy_groups c out groups)
  unfolding append_groups copy_groups add_seen with_seen
  append_groups_lem c out seen [] u r = refl
  append_groups_lem c out seen (g ∷ groups) u r = go (group_copy c out g) refl (λ out1.
      append_groups_lem c out1 (g.0 ∷ seen) groups (Unseen-cons g.0 seen groups r.0 u.1) r.1)
    where
      rest : ConCorpus db → Result (ConCorpus db × List TrajId × ℕ)
      rest out1 = append_groups db z xxh3_128 append_trajectory_str c out1 (g.0 ∷ seen) groups

      Goal : Type 0
      Goal =
          append_groups db z xxh3_128 append_trajectory_str c out seen (g ∷ groups)
          ≡ with_seen (add_seen seen (g ∷ groups)) (copy_groups c out (g ∷ groups))

      go2 :
          (out1 : ConCorpus db) (nf : ℕ) (y : Result (ConCorpus db × ℕ))
          → group_copy c out g ≡ ok (out1, nf)
          → rest out1 ≡ with_seen (add_seen (g.0 ∷ seen) groups) (copy_groups c out1 groups)
          → copy_groups c out1 groups ≡ y
          → Goal
      go2 out1 nf (err e) at ih q = rw (u.0, at, ih, q) refl
      go2 out1 nf (ok (out2, n)) at ih q = rw (u.0, at, ih, q) refl

      go :
          (x : Result (ConCorpus db × ℕ))
          → group_copy c out g ≡ x
          → ((out1 : ConCorpus db)
              → rest out1 ≡ with_seen (add_seen (g.0 ∷ seen) groups) (copy_groups c out1 groups))
          → Goal
      go (err e) at ih = rw (u.0, at) refl
      go (ok (out1, nf)) at ih = go2 out1 nf (copy_groups c out1 groups) at (ih out1) refl

  -- The sources of a preview that passed.
  abbrev pub OwnedAll : List (TrajId × ℕ) → List Src → Type 0
  OwnedAll p sources =
      All (λ s. (c : ConCorpus db) × (s.opened ≡ ok c) × Owned p s.owner (keys_of_source c)) sources

  OwnedAll-Grows :
      (p q : List (TrajId × ℕ)) (sources : List Src)
      → Grows p q
      → OwnedAll p sources
      → OwnedAll q sources
  OwnedAll-Grows p q [] g h = tt
  OwnedAll-Grows p q (s ∷ sources) g ((c, o, k), h) =
      ((c, o, Owned-Grows p q s.owner (keys_of_source c) g k), OwnedAll-Grows p q sources g h)

  preview_sources-ok :
      (p q : List (TrajId × ℕ)) (sources : List Src)
      → preview_sources db z xxh3_128 append_trajectory_str p sources ≡ ok q
      → OwnedAll q sources × Grows p q
  unfolding preview_sources
  preview_sources-ok p q [] e =
      let same : p ≡ q = ok_eq e in subst (λ m. OwnedAll m [] × Grows p m) same (tt, λ t o h. h)
  preview_sources-ok p q (s ∷ sources) e =
      let (c, o, e1) = >>=-eq-ok s.opened _ e in
      let (m, k, e2) = >>=-eq-ok (preview_keys p s.owner (keys_of_source c)) _ e1 in
      let (owned, g) = preview_keys-ok p m s.owner (keys_of_source c) k in
      let (rest, g2) = preview_sources-ok m q sources e2 in
      (
        ((c, o, Owned-Grows m q s.owner (keys_of_source c) g2 owned), rest),
        λ t w h. g2 t w (g t w h),
      )

  -- The numbers of the owners differ.
  abbrev pub DistinctOwners : List Src → Type 0
  DistinctOwners [] = Unit
  DistinctOwners (s ∷ sources) = All (λ r. s.owner ≢ r.owner) sources × DistinctOwners sources

  -- Nothing was seen that belongs to one of the sources.
  abbrev FreshFor : List (TrajId × ℕ) → List TrajId → List Src → Type 0
  FreshFor p seen sources =
      All (λ s. (t : ℕ) → owner_of p t ≡ some s.owner → is_seen seen t ≡ false) sources

  FreshFor-add_seen :
      (p : List (TrajId × ℕ)) (owner : ℕ) (seen : List TrajId)
      (groups : List (TrajId × List FrameKey)) (sources : List Src)
      → OwnedGroups p owner groups
      → All (λ r. owner ≢ r.owner) sources
      → FreshFor p seen sources
      → FreshFor p (add_seen seen groups) sources
  FreshFor-add_seen p owner seen groups [] o n f = tt
  FreshFor-add_seen p owner seen groups (s ∷ sources) o n f = (
    λ t h. add_seen_other p owner s.owner t seen groups o n.0 h (f.0 t h),
    FreshFor-add_seen p owner seen groups sources o n.1 f.1,
  )

  FreshFor-Unseen :
      (p : List (TrajId × ℕ)) (owner : ℕ) (seen : List TrajId)
      (groups : List (TrajId × List FrameKey))
      → OwnedGroups p owner groups
      → ((t : ℕ) → owner_of p t ≡ some owner → is_seen seen t ≡ false)
      → Unseen seen groups
  FreshFor-Unseen p owner seen [] o f = tt
  FreshFor-Unseen p owner seen (g ∷ groups) o f =
      (f g.0 o.0, FreshFor-Unseen p owner seen groups o.1 f)

  append_sources_lem :
      (p : List (TrajId × ℕ)) (out : ConCorpus db) (seen : List TrajId) (sources : List Src)
      → OwnedAll p sources
      → DistinctOwners sources
      → FreshFor p seen sources
      → append_sources db z xxh3_128 append_trajectory_str out seen sources
        ≡ copy_sources out sources
  unfolding append_sources copy_sources with_seen
  append_sources_lem p out seen [] o n f = refl
  append_sources_lem p out seen (s ∷ sources) ((c, at, owned), o) n f =
      let (og, rising) = by_traj_groups p s.owner (keys_of_source c) [] owned tt tt in
      let groups : List (TrajId × List FrameKey) = by_traj [] (keys_of_source c) in
      let step =
        append_groups_lem c out seen groups (FreshFor-Unseen p s.owner seen groups og f.0) rising in
      go c at (add_seen seen groups) step (copy_groups c out groups) refl (λ out1.
        append_sources_lem p out1 (add_seen seen groups) sources o n.1
          (FreshFor-add_seen p s.owner seen groups sources og n.0 f.1))
    where
      go :
          (c : ConCorpus db)
          → s.opened ≡ ok c
          → (seen2 : List TrajId)
          → append_groups db z xxh3_128 append_trajectory_str c out seen
              (by_traj [] (keys_of_source c))
            ≡ with_seen seen2 (copy_groups c out (by_traj [] (keys_of_source c)))
          → (y : Result (ConCorpus db × ℕ)) → copy_groups c out (by_traj [] (keys_of_source c)) ≡ y
          → ((out1 : ConCorpus db)
              → append_sources db z xxh3_128 append_trajectory_str out1 seen2 sources
                ≡ copy_sources out1 sources)
          → append_sources db z xxh3_128 append_trajectory_str out seen (s ∷ sources)
            ≡ copy_sources out (s ∷ sources)
      go c at seen2 step (err e) q ih = rw (at, step, q) refl
      go c at seen2 step (ok (out1, m)) q ih = rw (at, step, q, ih out1) refl

  FreshFor-nil : (p : List (TrajId × ℕ)) (sources : List Src) → FreshFor p [] sources
  unfolding is_seen
  FreshFor-nil p [] = tt
  FreshFor-nil p (s ∷ sources) = (λ t h. refl, FreshFor-nil p sources)

  -- The preview of a join decides: when it passes, every key of every source belongs to the owner
  -- of its trajectory, so that no two sources share one, and the join copies the trajectories of
  -- the sources one after the other, as if it did not look for a trajectory it has seen.
  pub join_previewed :
      (opened_new : Result (ConCorpus db)) (sources : List Src) (preview : List (TrajId × ℕ))
      → DistinctOwners sources
      → preview_sources db z xxh3_128 append_trajectory_str [] sources ≡ ok preview
      → OwnedAll preview sources
        × (join db z xxh3_128 append_trajectory_str none opened_new sources
            ≡ rollback_new_dest db z xxh3_128 append_trajectory_str
                (opened_new >>= λ out. copy_sources out sources))
  unfolding join after_preview
  join_previewed opened_new sources preview n e =
      let (owned, g) = preview_sources-ok [] preview sources e in
      (
        owned,
        rw e (
            ap (rollback_new_dest db z xxh3_128 append_trajectory_str) (
              same opened_new (λ out.
                append_sources_lem preview out [] sources owned n (FreshFor-nil preview sources)))),
      )
    where
      same :
          (r : Result (ConCorpus db))
          → ((out : ConCorpus db)
              → append_sources db z xxh3_128 append_trajectory_str out [] sources
                ≡ copy_sources out sources)
          → (r >>= λ out. append_sources db z xxh3_128 append_trajectory_str out [] sources)
            ≡ (r >>= λ out. copy_sources out sources)
      same (err e) h = refl
      same (ok out) h = h out
