-- ===== src/Corpus/Commit/Steps.antt =====
-- The transactions of `commit_prepared` and `extend_trajectory_frames` of src/corpus.rs, as steps of
-- the corpus, in any order.
use readcon_db.Base.{
  ℕ, suc, ◌+◌, ◌≡◌, refl, sym, ap, ◌∙◌, inl, inr, Bool, true, false, Option, none, some, List, [],
  ◌∷◌, ltb, ◌==◌, if◌then◌else◌, arith, Bool-cases, ==_iff, length,
}
use readcon_db.Base.Bytes.{Bytes, IsU32, IsU64}
use readcon_db.Error.{Error, Result, ok, err, guard, >>=-eq-ok}
use mathlib.Core.Path.{subst}
use readcon_db.Zstd.{Zstd}
use readcon_db.Heed.{Heed}
use readcon_db.Keys.{TrajId}
use readcon_db.Codec.{pack_aligned}
use readcon_db.Corpus.{PreparedIndexPuts, ConCorpus, put_all}
use readcon_db.Corpus.Ingest.{load_texts, group_texts, group_prepared, set_stored}
use readcon_db.Corpus.Commit.{
  TrajMeta, Json, read_meta, put_meta, next_idx, n_frames_or_zero, with_text, absent_meta,
  refuse_existing, commit_body, commit_prepared, extend_body,
}
use readcon_db.Corpus.Commit.Counted.{Run, next_idx-Run, Counted, grown-Counted}

set_stored-Run :
    (traj lo : ℕ) (ps : List PreparedIndexPuts) (packed : List Bytes)
    → Run traj lo ps
    → Run traj lo (set_stored ps packed) × (length (set_stored ps packed) ≡ length ps)
unfolding set_stored
set_stored-Run traj lo [] packed r = (tt, refl)
set_stored-Run traj lo (p ∷ ps) [] r = (r, refl)
set_stored-Run traj lo (p ∷ ps) (v ∷ packed) r =
    let (s, n) = set_stored-Run traj (suc lo) ps packed r.1 in ((r.0, s), ap suc n)

-- Grouping changes the stored values only.
group_prepared-Run :
    (z : Zstd) (traj lo : ℕ) (ps ps' : List PreparedIndexPuts)
    → Run traj lo ps
    → group_prepared z ps ≡ ok ps'
    → Run traj lo ps' × (length ps' ≡ length ps)
unfolding group_prepared group_texts
group_prepared-Run z traj lo ps ps' r e = elim (Bool-cases (ltb (length ps) 2)) [
  | inl p ↦
      let same : ok ps ≡ ok ps' = rw p at e in
      let at : ps ≡ ps' = cc same in
      subst (λ q. Run traj lo q × (length q ≡ length ps)) at (r, refl)
  | inr p ↦
      let (texts, l, e1) = >>=-eq-ok (load_texts z ps) _ (rw p at e) in
      let (packed, k, e2) = >>=-eq-ok (pack_aligned z texts) _ e1 in
      let at : set_stored ps packed ≡ ps' = cc e2 in
      subst (λ q. Run traj lo q × (length q ≡ length ps)) at (set_stored-Run traj lo ps packed r)
]

module _ (db : Heed) (json : Json) where
  open db use {Table, get, put, prefix_iter}
  open json use {to_string}

  refuse_existing-ok :
      (c : ConCorpus db) (traj : ℕ)
      → refuse_existing db json c traj ≡ ok tt
      → read_meta db json c traj ≡ ok none
  unfolding refuse_existing
  refuse_existing-ok c traj e =
      let (o, p, q) = >>=-eq-ok (read_meta db json c traj) (absent_meta db json traj) e in
      p ∙ ap ok (none_of o q)
    where
      none_of : (o : Option TrajMeta) → absent_meta db json traj o ≡ ok tt → o ≡ none
      none_of none q = refl
      none_of (some m) q = unfold absent_meta in cc q

  -- A transaction that appends has read the metadata, put the rows and written the new count.
  unfoldable pub Appends :
      ℕ → Option TrajMeta → List PreparedIndexPuts → ConCorpus db → ConCorpus db → Type 0
  Appends traj old ps c c' =
      (meta : TrajMeta) × (text : Bytes) × (read_meta db json c traj ≡ ok old)
      × (meta.n_frames ≡ next_idx (n_frames_or_zero old) ps)
      × (to_string meta ≡ ok text)
      × (c' ≡ with_text db json (put_all db c ps) traj text)

  guarded : (a b : ℕ) (e : Error) (u : Unit {0}) → guard (a == b) e ≡ ok u → a ≡ b
  guarded a b e u g = elim (Bool-cases (a == b)) [
    | inl p ↦ (==_iff a b).0 p
    | inr p ↦ absurd (let bad : err e ≡ ok u = rw p at g in cc bad)
  ]

  put_meta-ok :
      (c c' : ConCorpus db) (traj : ℕ) (meta : TrajMeta)
      → put_meta db json c traj meta ≡ ok c'
      → (text : Bytes) × (to_string meta ≡ ok text) × (c' ≡ with_text db json c traj text)
  unfolding put_meta
  put_meta-ok c c' traj meta e =
      let (text, t, e1) = >>=-eq-ok (to_string meta) _ e in (text, t, cc e1)

  pair_eq :
      {A : Type 0} {x y : A} {m n : ℕ}
      → ◌≡◌ {A = Result (A × ℕ)} (ok (x, m)) (ok (y, n))
      → (y ≡ x) × (n ≡ m)
  pair_eq e = (cc e, cc e)

  pub commit_body-Appends :
      (c c' : ConCorpus db) (traj n : ℕ) (ps : List PreparedIndexPuts) (source : Bytes)
      → commit_body db json traj ps source false c ≡ ok (c', n)
      → Appends traj none ps c c' × (n ≡ next_idx 0 ps)
  unfolding commit_body n_frames_or_zero Appends
  commit_body-Appends c c' traj n ps source e =
      let (free, f, e1) = >>=-eq-ok (refuse_existing db json c traj) _ e in
      let (c2, w, e2) = >>=-eq-ok (put_meta db json (put_all db c ps) traj _) _ e1 in
      let (text, t, at) = put_meta-ok (put_all db c ps) c2 traj _ w in
      let (same, count) = pair_eq e2 in
      ((_, text, refuse_existing-ok c traj f, refl, t, same ∙ at), count)

  pub extend_body-Appends :
      (c c' : ConCorpus db) (traj start n : ℕ) (prior : Option TrajMeta)
      (ps : List PreparedIndexPuts) (hint : Bytes)
      → extend_body db json traj start prior ps hint c ≡ ok (c', n)
      → (live : Option TrajMeta) × (n_frames_or_zero live ≡ start)
        × Appends traj live ps c c'
        × (n ≡ next_idx start ps)
  unfolding extend_body Appends
  extend_body-Appends c c' traj start n prior ps hint e =
      let (live, l, e1) = >>=-eq-ok (read_meta db json c traj) _ e in
      let (moved, g, e2) = >>=-eq-ok (guard (n_frames_or_zero live == start) _) _ e1 in
      let (c2, w, e3) = >>=-eq-ok (put_meta db json (put_all db c ps) traj _) _ e2 in
      let (text, t, at) = put_meta-ok (put_all db c ps) c2 traj _ w in
      let (end, count) = pair_eq e3 in
      let same = guarded (n_frames_or_zero live) start _ _ g in
      (live, same, (_, text, l, ap (λ k. next_idx k ps) (sym same), t, end ∙ at), count)

  Appends-Counted :
      (c c' : ConCorpus db) (traj : ℕ) (old : Option TrajMeta) (ps : List PreparedIndexPuts)
      → IsU64 traj
      → Run traj (n_frames_or_zero old) ps
      → IsU32 (n_frames_or_zero old + length ps)
      → Appends traj old ps c c'
      → Counted db json c
      → Counted db json c'
  unfolding Appends
  Appends-Counted c c' traj old ps ht run fits (meta, text, found, count, written, at) h =
      subst (Counted db json) (sym at) (
        grown-Counted db json c traj ht old found ps run fits meta text
          (count ∙ next_idx-Run traj (n_frames_or_zero old) ps run fits) written h)

  -- A commit of a new trajectory, or an extension of one.
  pub data Write (c c' : ConCorpus db) : Type 0 where
    committed :
        (z : Zstd) (traj : TrajId) (ps : List PreparedIndexPuts) (source : Bytes) (compress : Bool)
        (n : ℕ)
        → IsU64 traj
        → Run traj 0 ps
        → IsU32 (length ps)
        → commit_prepared db json z traj ps source false compress c ≡ ok (c', n)
        → Write c c'
    extended :
        (traj : TrajId) (start : ℕ) (prior : Option TrajMeta) (ps : List PreparedIndexPuts)
        (hint : Bytes) (n : ℕ)
        → IsU64 traj
        → Run traj start ps
        → IsU32 (start + length ps)
        → extend_body db json traj start prior ps hint c ≡ ok (c', n)
        → Write c c'

  pub data Reach (c : ConCorpus db) : ConCorpus db → Type 0 where
    here : Reach c c
    next : {d e : ConCorpus db} → Reach c d → Write d e → Reach c e

  Write-Counted : {c c' : ConCorpus db} → Write c c' → Counted db json c → Counted db json c'
  unfolding commit_prepared n_frames_or_zero
  Write-Counted {c} {c'} (committed z traj ps source compress n ht r u e) h =
      let (ps', g, e1) =
        >>=-eq-ok (if compress then group_prepared z ps else ok ps)
          (λ grouped. commit_body db json traj grouped source false c) e in
      let (r', same) = regroup compress g in
      let (a, k) = commit_body-Appends c c' traj n ps' source e1 in
      Appends-Counted c c' traj none ps' ht r' (omega (arith, u, same)) a h
    where
      regroup :
          (compress : Bool) {ps' : List PreparedIndexPuts}
          → (if compress then group_prepared z ps else ok ps) ≡ ok ps'
          → Run traj 0 ps' × (length ps' ≡ length ps)
      regroup true {ps'} g = group_prepared-Run z traj 0 ps ps' r g
      regroup false {ps'} g =
          let at : ps ≡ ps' = cc g in
          subst (λ q. Run traj 0 q × (length q ≡ length ps)) at (r, refl)
  Write-Counted {c} {c'} (extended traj start prior ps hint n ht r u e) h =
      let (live, at, a, k) = extend_body-Appends c c' traj start n prior ps hint e in
      Appends-Counted c c' traj live ps ht (subst (λ s. Run traj s ps) (sym at) r)
        (omega (arith, u, at)) a h

  -- Through any history of commits of new trajectories and extensions, in any order, and whatever
  -- commits and extensions run between the read of an extension and its transaction: the metadata
  -- counts exactly the frames that are stored, when it did so at the start. Each write numbers its
  -- frames one after the other, from 0 or from the count it has read.
  pub Reach-Counted : {c c' : ConCorpus db} → Counted db json c → Reach c c' → Counted db json c'
  Reach-Counted h here = h
  Reach-Counted h (next r w) = Write-Counted w (Reach-Counted h r)
