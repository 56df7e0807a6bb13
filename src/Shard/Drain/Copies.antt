-- ===== src/Shard/Drain/Copies.antt =====
-- What src/shard.rs `drain_to` copies when it succeeds.
use readcon_db.Base.{
  ℕ, zero, suc, ◌+◌, ◌≡◌, ◌≢◌, refl, sym, ap, ◌∙◌, inl, inr, true, false, ◌&&◌, Option, none, some,
  ◌∷◌, ltb, leb, ◌==◌, if◌then◌else◌, arith, Bool-cases, ==_iff,
}
use readcon_db.Error.{Result, ok, err, >>=-eq-ok}
use readcon_db.Heed.{Heed}
use readcon_db.Corpus.{ConCorpus}
use readcon_db.Shard.{ids, ShardDir, absent, bare, stored, set_shard}
use readcon_db.Shard.Drain.{
  Manifest, Root, Os, Progress, and_then, root_of, check_manifest, refuse_overwrite, copy_manifest,
  copy_shard, copy_shards, checks, written, finish_drain, drain_to,
}

module _ (db : Heed) (os : Os db) where
  -- A shard of the destination after the drain, from the source's and its own before.
  unfoldable pub drained : ℕ → ShardDir db → ShardDir db → ShardDir db
  drained sid absent old = old
  drained sid bare old = old
  drained sid (stored (err e)) old = old
  drained sid (stored (ok ro)) old = (os.snapshot_to sid ro).0

  and_then-ok :
      (r : Progress db × Result (Unit {0})) (next : Progress db → Progress db × Result ℕ)
      (p : Progress db) (n : ℕ)
      → and_then db r next ≡ (p, ok n)
      → (r.1 ≡ ok tt) × (next r.0 ≡ (p, ok n))
  unfolding and_then
  and_then-ok (q, err e) next p n h = let same : err e ≡ ok n = ap (λ r. r.1) h in cc same
  and_then-ok (q, ok done) next p n h = (refl, h)

  -- A shard of `p` once the shards from `from` on are copied.
  abbrev pub Copies : ℕ → ℕ → (ℕ → ShardDir db) → (ℕ → ShardDir db) → (ℕ → ShardDir db) → Type 0
  Copies from n src old new =
      (sid : ℕ)
      → new sid
        ≡ (if leb from sid && ltb sid (from + n) then drained sid (src sid) (old sid) else old sid)

  copy_shard-drained :
      (i : ℕ) (opened : Result (ConCorpus db)) (p : Progress db) (sid : ℕ)
      → (copy_shard db os i opened p).1 ≡ ok tt
      → (copy_shard db os i opened p).0.dst.shard_path sid ≡ (
          if i == sid
          then drained i (stored opened) (p.dst.shard_path sid)
          else p.dst.shard_path sid)
  unfolding copy_shard drained set_shard
  copy_shard-drained i (err e) p sid h = cc h
  copy_shard-drained i (ok ro) p sid h = ground (arith)

  -- One more shard at the front of the range: `q` is the shard `sid` behind that step.
  widen :
      (src : Root db) (from n sid : ℕ) (dir old q new : ShardDir db)
      → src.shard_path from ≡ dir
      → q ≡ (if from == sid then drained from dir old else old)
      → new ≡ (
          if leb (suc from) sid && ltb sid (suc from + n)
          then drained sid (src.shard_path sid) q
          else q)
      → new ≡ (
          if leb from sid && ltb sid (from + suc n)
          then drained sid (src.shard_path sid) old
          else old)
  widen src from n sid dir old q new e at later = elim (Bool-cases (from == sid)) [
    | inl same ↦
        let here : from ≡ sid = (==_iff from sid).0 same in
        let b1 : (leb from sid && ltb sid (from + suc n)) ≡ true = ground (arith, here) in
        let b2 : (leb (suc from) sid && ltb sid (suc from + n)) ≡ false = ground (arith, here) in
        let now : q ≡ drained from dir old = rw same at at in
        let d : src.shard_path sid ≡ dir = ap src.shard_path (sym here) ∙ e in
        rw (b1, d) ((rw b2 at later) ∙ now ∙ ap (λ i. drained i dir old) here)
    | inr other ↦
        let apart : from ≢ sid = λ p. let r = (==_iff from sid).1 p in cc (r, other) in
        let b : (leb (suc from) sid && ltb sid (suc from + n))
            ≡ (leb from sid && ltb sid (from + suc n)) =
          ground (arith, apart) in
        let now : q ≡ old = rw other at at in rw (← b, ← now) later
  ]

  copy_shards-Copies :
      (src : Root db) (from n : ℕ) (p p' : Progress db) (k k' : ℕ)
      → copy_shards db os src (ids from n) p k ≡ (p', ok k')
      → Copies from n src.shard_path p.dst.shard_path p'.dst.shard_path
  unfolding copy_shards ids
  copy_shards-Copies src from zero p p' k k' h sid =
      let same : p ≡ p' = ap (λ r. r.0) h in rw same (ground arith)
  copy_shards-Copies src from (suc n) p p' k k' h sid =
      go (src.shard_path from) refl h (λ q j h. copy_shards-Copies src (suc from) n q p' j k' h sid)
    where
      go :
          (dir : ShardDir db)
          → src.shard_path from ≡ dir
          → copy_shards db os src (from ∷ ids (suc from) n) p k ≡ (p', ok k')
          → ((q : Progress db) (j : ℕ)
              → copy_shards db os src (ids (suc from) n) q j ≡ (p', ok k')
              → p'.dst.shard_path sid ≡ (
                  if leb (suc from) sid && ltb sid (suc from + n)
                  then drained sid (src.shard_path sid) (q.dst.shard_path sid)
                  else q.dst.shard_path sid))
          → p'.dst.shard_path sid ≡ (
              if leb from sid && ltb sid (from + suc n)
              then drained sid (src.shard_path sid) (p.dst.shard_path sid)
              else p.dst.shard_path sid)
      go absent e h ih =
          widen src from n sid absent (p.dst.shard_path sid) (p.dst.shard_path sid)
            (p'.dst.shard_path sid) e (unfold drained in ground arith)
            (ih p k (rw (e, copy_shards) at h))
      go bare e h ih =
          widen src from n sid bare (p.dst.shard_path sid) (p.dst.shard_path sid)
            (p'.dst.shard_path sid) e (unfold drained in ground arith)
            (ih p k (rw (e, copy_shards) at h))
      go (stored opened) e h ih =
          let (done, rest) =
            and_then-ok (copy_shard db os from opened p)
              (λ q. copy_shards db os src (ids (suc from) n) q (k + 1)) p' k'
              (rw (e, copy_shards) at h) in
          widen src from n sid (stored opened) (p.dst.shard_path sid)
            ((copy_shard db os from opened p).0.dst.shard_path sid) (p'.dst.shard_path sid) e
            (copy_shard-drained from opened p sid done)
            (ih (copy_shard db os from opened p).0 (k + 1) rest)

  copy_manifest_kept :
      (man : Manifest) (d : Root db) (sid : ℕ)
      → (copy_manifest db os man d).0.dst.shard_path sid ≡ d.shard_path sid
  unfolding copy_manifest
  copy_manifest_kept man d sid = ground arith

  finish_drain-ok :
      (os : Os db) (dst : Option (Root db)) (r : Progress db × Result ℕ) (after : Option (Root db))
      (n : ℕ)
      → finish_drain db os dst r ≡ (after, ok n)
      → (after ≡ some r.0.dst) × (r.1 ≡ ok n)
  unfolding finish_drain
  finish_drain-ok os dst (p, ok k) after n h = (sym (ap (λ q. q.0) h), ap (λ q. q.1) h)
  finish_drain-ok os none (p, err x) after n h = let q : err x ≡ ok n = ap (λ q. q.1) h in cc q
  finish_drain-ok os (some d) (p, err x) after n h = let q : err x ≡ ok n = ap (λ q. q.1) h in cc q

  checks-ok :
      (src : Root db) (man : Manifest) (d : Root db) (n : ℕ)
      → checks db os src man d ≡ ok n
      → man ≡ ok n
  unfolding checks
  checks-ok src man d n e =
      let (made, p, e1) = >>=-eq-ok os.create_dir_all _ e in
      let (same, q, e2) = >>=-eq-ok (check_manifest db d.manifest man) _ e1 in
      let (k, r, e3) = >>=-eq-ok man _ e2 in
      let (free, f, e4) = >>=-eq-ok (refuse_overwrite db src d (ids 0 k)) _ e3 in r ∙ e4

  written_when :
      (src d : Root db) (m : ℕ)
      → checks db os src (ok m) d ≡ ok m
      → written db os src (ok m) d
        ≡ and_then db (copy_manifest db os (ok m) d) (λ p. copy_shards db os src (ids 0 m) p 0)
  unfolding written
  written_when src d m e = rw (e, written) refl

  written-Copies :
      (src : Root db) (d : Root db) (m n : ℕ)
      → (written db os src (ok m) d).1 ≡ ok n
      → Copies 0 m src.shard_path d.shard_path (written db os src (ok m) d).0.dst.shard_path
  unfolding written
  written-Copies src d m n h sid = go (checks db os src (ok m) d) refl
    where
      go :
          (c : Result ℕ)
          → checks db os src (ok m) d ≡ c
          → (written db os src (ok m) d).0.dst.shard_path sid ≡ (
              if leb 0 sid && ltb sid (0 + m)
              then drained sid (src.shard_path sid) (d.shard_path sid)
              else d.shard_path sid)
      go (err x) e = let q : err x ≡ ok n = rw (e, written) at h in cc q
      go (ok k) e =
          let same : ok m ≡ ok k = checks-ok src (ok m) d k e in
          let at : k ≡ m = cc same in
          let whole : and_then db (copy_manifest db os (ok m) d)
                (λ p. copy_shards db os src (ids 0 m) p 0)
              ≡ ((written db os src (ok m) d).0, ok n) =
            sym (written_when src d m (e ∙ ap ok at))
            ∙ ap (λ x. ((written db os src (ok m) d).0, x)) h in
          let (done, rest) =
            and_then-ok (copy_manifest db os (ok m) d) (λ p. copy_shards db os src (ids 0 m) p 0)
              (written db os src (ok m) d).0 n whole in
          let all =
            copy_shards-Copies src 0 m (copy_manifest db os (ok m) d).0
              (written db os src (ok m) d).0 0 n rest sid in
          rw (copy_manifest_kept (ok m) d sid) at all

  -- A drain that succeeds has made each shard of the destination what it should be: where the
  -- source's shard has an environment, the snapshot of that environment, and elsewhere what the
  -- destination had.
  pub drain_to-Copies :
      (src : Root db) (dst after : Option (Root db)) (m n : ℕ)
      → src.manifest ≡ some (ok m)
      → drain_to db os src dst ≡ (after, ok n)
      → (d' : Root db) × (after ≡ some d')
        × Copies 0 m src.shard_path (root_of db dst).shard_path d'.shard_path
  unfolding drain_to
  drain_to-Copies src dst after m n e h =
      let (p, q) =
        finish_drain-ok os dst (written db os src (ok m) (root_of db dst)) after n
          (rw (e, drain_to) at h) in
      (
        (written db os src (ok m) (root_of db dst)).0.dst,
        p,
        written-Copies src (root_of db dst) m n q,
      )
