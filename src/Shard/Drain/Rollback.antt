-- ===== src/Shard/Drain/Rollback.antt =====
-- The rollback of src/shard.rs `drain_to`: what it leaves of the destination.
use readcon_db.Base.{
  ℕ, ◌+◌, ◌≡◌, refl, sym, ap, ◌∙◌, ◌⊎◌, inl, inr, Bool, true, false, ◌&&◌, ◌||◌, Option, none, some,
  List, [], ◌∷◌, ◌==◌, if◌then◌else◌, arith, Bool-cases, ==_iff, All,
}
use readcon_db.Error.{Error, Result, ok, err, >>=-eq-ok}
use mathlib.Core.Path.{subst}
use readcon_db.Heed.{Heed}
use readcon_db.Corpus.{ConCorpus}
use readcon_db.Shard.{ids, ShardDir, absent, bare, stored, shard_has_data, set_shard}
use readcon_db.Shard.Drain.{
  Manifest, Root, Os, Progress, and_then, root_of, check_manifest, refuse_overwrite, copy_manifest,
  copy_shard, copy_shards, checks, written, remove_created, roll_back, finish_drain, drain_to,
}

unfoldable is_in : ℕ → List ℕ → Bool
is_in i [] = false
is_in i (j ∷ js) = i == j || is_in i js

module _ (db : Heed) where
  -- The removals of the rollback succeed.
  pub record Removes (os : Os db) : Type 0 where
    pub shard_gone : (sid : ℕ) (dir : ShardDir db) → os.remove_dir_all sid dir ≡ absent
    pub manifest_gone : (m : Option Manifest) → os.remove_file m ≡ none
    pub root_gone : (r : Root db) → os.remove_root r ≡ none

  remove_created_lem :
      (os : Os db)
      → Removes os
      → (dirs : ℕ → ShardDir db) (created : List ℕ) (sid : ℕ)
      → remove_created db os dirs created sid ≡ (if is_in sid created then absent else dirs sid)
  unfolding remove_created is_in set_shard
  remove_created_lem os gone dirs [] sid = refl
  remove_created_lem os gone dirs (i ∷ created) sid =
      let here = gone.shard_gone i (dirs i) in
      let rest =
        remove_created_lem os gone (set_shard db dirs i (os.remove_dir_all i (dirs i))) created
          sid in
      rest ∙ split (is_in sid created) (sid == i) (os.remove_dir_all i (dirs i)) here
    where
      split :
          (b p : Bool) (left : ShardDir db)
          → left ≡ absent
          → (if b then absent else if p then left else dirs sid)
            ≡ (if p || b then absent else dirs sid)
      split true true left e = refl
      split true false left e = refl
      split false true left e = e
      split false false left e = refl

  -- The two sides do not both have the shard.
  abbrev Free : Root db → Root db → ℕ → Type 0
  Free src d i =
      (shard_has_data db (src.shard_path i) && shard_has_data db (d.shard_path i)) ≡ false

  refuse_overwrite-Free :
      (src d : Root db) (sids : List ℕ)
      → refuse_overwrite db src d sids ≡ ok tt
      → All (Free src d) sids
  unfolding refuse_overwrite
  refuse_overwrite-Free src d [] e = tt
  refuse_overwrite-Free src d (i ∷ sids) e =
      elim (Bool-cases
        (shard_has_data db (src.shard_path i) && shard_has_data db (d.shard_path i))) [
          | inl p ↦ absurd (ground (arith, p, e))
          | inr p ↦ (p, refuse_overwrite-Free src d sids (ground (arith, p, e)))
        ]

  -- What holds of the destination `d` while the shards are copied.
  record IsUndoable (d : Root db) (p : Progress db) : Type 0 where
    manifest : (if p.copied_manifest then none else p.dst.manifest) ≡ d.manifest
    kept : (sid : ℕ) → is_in sid p.created ≡ false → p.dst.shard_path sid ≡ d.shard_path sid
    new : (sid : ℕ) → is_in sid p.created ≡ true → shard_has_data db (d.shard_path sid) ≡ false

  copy_shard-IsUndoable :
      (os : Os db) (d : Root db) (i : ℕ) (opened : Result (ConCorpus db)) (p : Progress db)
      → shard_has_data db (d.shard_path i) ≡ false
      → IsUndoable d p
      → IsUndoable d (copy_shard db os i opened p).0
  unfolding copy_shard is_in set_shard
  copy_shard-IsUndoable os d i (err e) p h u = record {
    manifest = u.manifest;
    kept = λ sid n. ground (arith, u.kept sid, n);
    new = λ sid n. elim (Bool-cases (sid == i)) [
      | inl q ↦ let same : sid ≡ i = (==_iff sid i).0 q in rw same h
      | inr q ↦ u.new sid (ground (arith, n, q))
    ];
  }
  copy_shard-IsUndoable os d i (ok ro) p h u = record {
    manifest = u.manifest;
    kept = λ sid n. ground (arith, u.kept sid, n);
    new = λ sid n. elim (Bool-cases (sid == i)) [
      | inl q ↦ let same : sid ≡ i = (==_iff sid i).0 q in rw same h
      | inr q ↦ u.new sid (ground (arith, n, q))
    ];
  }

  and_then-IsUndoable :
      (d : Root db) (r : Progress db × Result (Unit {0}))
      (next : Progress db → Progress db × Result ℕ)
      → IsUndoable d r.0
      → ((q : Progress db) → IsUndoable d q → IsUndoable d (next q).0)
      → IsUndoable d (and_then db r next).0
  unfolding and_then
  and_then-IsUndoable d (q, err e) next u more = u
  and_then-IsUndoable d (q, ok done) next u more = more q u

  copy_shards-IsUndoable :
      (os : Os db) (src d : Root db) (sids : List ℕ) (p : Progress db) (n : ℕ)
      → All (Free src d) sids
      → IsUndoable d p
      → IsUndoable d (copy_shards db os src sids p n).0
  unfolding copy_shards shard_has_data
  copy_shards-IsUndoable os src d [] p n f u = u
  copy_shards-IsUndoable os src d (i ∷ sids) p n f u =
      go (src.shard_path i) refl f.0 (λ q k. copy_shards-IsUndoable os src d sids q k f.1)
    where
      go :
          (dir : ShardDir db)
          → src.shard_path i ≡ dir
          → Free src d i
          → ((q : Progress db) (k : ℕ)
              → IsUndoable d q
              → IsUndoable d (copy_shards db os src sids q k).0)
          → IsUndoable d (copy_shards db os src (i ∷ sids) p n).0
      go absent e free ih = rw (e, copy_shards) (ih p n u)
      go bare e free ih = rw (e, copy_shards) (ih p n u)
      go (stored opened) e free ih =
          let h : shard_has_data db (d.shard_path i) ≡ false = rw e at free in
          rw (e, copy_shards)
            (and_then-IsUndoable d (copy_shard db os i opened p)
              (λ q. copy_shards db os src sids q (n + 1))
              (copy_shard-IsUndoable os d i opened p h u) (λ q. ih q (n + 1)))

  copy_manifest-IsUndoable :
      (os : Os db) (man : Manifest) (d : Root db) → IsUndoable d (copy_manifest db os man d).0
  unfolding copy_manifest is_in
  copy_manifest-IsUndoable os man d = go d.manifest refl os.copy refl
    where
      go :
          (m : Option Manifest)
          → d.manifest ≡ m
          → (c : Result (Unit {0})) → os.copy ≡ c
          → IsUndoable d (copy_manifest db os man d).0
      go (some m) e c f =
          rw (e, copy_manifest) (record { manifest = e; kept = λ sid n. refl; new = λ sid n. cc })
      go none e (ok done) f =
          rw (e, f, copy_manifest)
            (record { manifest = refl; kept = λ sid n. refl; new = λ sid n. cc })
      go none e (err x) f =
          rw (e, f, copy_manifest)
            (record { manifest = refl; kept = λ sid n. refl; new = λ sid n. cc })

  checks-Free :
      (os : Os db) (src : Root db) (man : Manifest) (d : Root db) (n : ℕ)
      → checks db os src man d ≡ ok n
      → All (Free src d) (ids 0 n)
  unfolding checks
  checks-Free os src man d n e =
      let (made, p, e1) = >>=-eq-ok os.create_dir_all _ e in
      let (same, q, e2) = >>=-eq-ok (check_manifest db d.manifest man) _ e1 in
      let (k, r, e3) = >>=-eq-ok man _ e2 in
      let (free, f, e4) = >>=-eq-ok (refuse_overwrite db src d (ids 0 k)) _ e3 in
      let at : k ≡ n = cc e4 in
      subst (λ j. All (Free src d) (ids 0 j)) at (refuse_overwrite-Free src d (ids 0 k) f)

  written-IsUndoable :
      (os : Os db) (src : Root db) (man : Manifest) (d : Root db)
      → IsUndoable d (written db os src man d).0
  unfolding written is_in
  written-IsUndoable os src man d = go (checks db os src man d) refl
    where
      go : (c : Result ℕ) → checks db os src man d ≡ c → IsUndoable d (written db os src man d).0
      go (err x) e =
          rw (e, written) (record { manifest = refl; kept = λ sid n. refl; new = λ sid n. cc })
      go (ok n) e =
          rw (e, written)
            (and_then-IsUndoable d (copy_manifest db os man d)
              (λ q. copy_shards db os src (ids 0 n) q 0) (copy_manifest-IsUndoable os man d)
              (λ q u.
                copy_shards-IsUndoable os src d (ids 0 n) q 0 (checks-Free os src man d n e) u))

  -- The same, or a directory without an environment that is gone.
  abbrev pub Restored : ShardDir db → ShardDir db → Type 0
  Restored before after = (after ≡ before) ⊎ ((before ≡ bare) × (after ≡ absent))

  no_data-Restored : (dir : ShardDir db) → shard_has_data db dir ≡ false → Restored dir absent
  unfolding shard_has_data
  no_data-Restored absent h = inl refl
  no_data-Restored bare h = inr (refl, refl)
  no_data-Restored (stored c) h = cc

  roll_back-Restored :
      (os : Os db)
      → Removes os
      → (d : Root db) (p : Progress db) → IsUndoable d p
      → (sid : ℕ) → Restored (d.shard_path sid) ((roll_back db os p).shard_path sid)
  unfolding roll_back
  roll_back-Restored os gone d p u sid =
      subst (Restored (d.shard_path sid))
        (sym (remove_created_lem os gone p.dst.shard_path p.created sid))
        (elim (Bool-cases (is_in sid p.created)) [
          | inl q ↦ rw q (no_data-Restored (d.shard_path sid) (u.new sid q))
          | inr q ↦ rw q (inl (u.kept sid q))
        ])

  -- The destination after a failure: not there if it was not there, and with its manifest and its
  -- shards if it was.
  abbrev pub RolledBack : Option (Root db) → Option (Root db) → Type 0
  RolledBack none after = after ≡ none
  RolledBack (some d) after =
      (d' : Root db) × (after ≡ some d')
      × (d'.manifest ≡ d.manifest)
      × ((sid : ℕ) → Restored (d.shard_path sid) (d'.shard_path sid))

  unchanged : (dst : Option (Root db)) → RolledBack dst dst
  unchanged none = refl
  unchanged (some d) = (d, refl, refl, λ sid. inl refl)

  finish_drain-RolledBack :
      (os : Os db)
      → Removes os
      → (dst : Option (Root db)) (r : Progress db × Result ℕ) (after : Option (Root db)) (e : Error)
      → IsUndoable (root_of db dst) r.0
      → finish_drain db os dst r ≡ (after, err e)
      → RolledBack dst after
  unfolding finish_drain root_of
  finish_drain-RolledBack os gone dst (p, ok n) after e u h =
      let q : ok n ≡ err e = ap (λ r. r.1) h in absurd (cc q)
  finish_drain-RolledBack os gone none (p, err x) after e u h =
      sym (ap (λ q. q.0) h) ∙ gone.root_gone p.dst
  finish_drain-RolledBack os gone (some d) (p, err x) after e u h = (
    roll_back db os p,
    sym (ap (λ q. q.0) h),
    unfold roll_back in
        (removed p.copied_manifest p.dst.manifest (gone.manifest_gone p.dst.manifest) ∙ u.manifest),
    roll_back-Restored os gone d p u,
  )
    where
      removed :
          (b : Bool) (m : Option Manifest)
          → os.remove_file m ≡ none
          → (if b then os.remove_file m else m) ≡ (if b then none else m)
      removed true m w = w
      removed false m w = refl

  -- A drain that fails, wherever it fails, takes back what it did, when the removals that its
  -- rollback makes succeed: there is no directory where there was none, and otherwise the manifest
  -- is as it was, and so is every shard, but that a shard directory without an environment may be
  -- gone.
  pub drain_to-RolledBack :
      (os : Os db)
      → Removes os
      → (src : Root db) (dst after : Option (Root db)) (e : Error)
      → drain_to db os src dst ≡ (after, err e)
      → RolledBack dst after
  unfolding drain_to
  drain_to-RolledBack os gone src dst after e = go src.manifest refl
    where
      go :
          (m : Option Manifest)
          → src.manifest ≡ m
          → drain_to db os src dst ≡ (after, err e)
          → RolledBack dst after
      go none q h =
          let same : dst ≡ after = ap (λ r. r.0) (rw (q, drain_to) at h) in
          subst (RolledBack dst) same (unchanged dst)
      go (some man) q h =
          finish_drain-RolledBack os gone dst (written db os src man (root_of db dst)) after e
            (written-IsUndoable os src man (root_of db dst)) (rw (q, drain_to) at h)
