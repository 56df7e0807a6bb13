-- ===== src/Corpus/Commit/Race.antt =====
-- Two writers of one trajectory in src/corpus.rs: the second is refused.
use readcon_db.Base.{
  ℕ, ◌+◌, ◌%◌, ◌^◌, ◌≤◌, ◌≡◌, ◌≢◌, refl, sym, ap, ◌∙◌, inl, inr, false, Option, none, some, List,
  [], ◌∷◌, ◌==◌, arith, Bool-cases, ==_iff, length,
}
use readcon_db.Base.Bytes.{Bytes, IsU32}
use readcon_db.Error.{Error, ok, err, message, traj_exists, guard}
use mathlib.Core.Path.{subst}
use readcon_db.Heed.{Heed}
use readcon_db.Corpus.{PreparedIndexPuts, ConCorpus, put_all}
use readcon_db.Corpus.Commit.{
  TrajMeta, Json, read_meta, next_idx, n_frames_or_zero, absent_meta, refuse_existing, traj_claimed,
  commit_body, extend_body,
}
use readcon_db.Corpus.Commit.Counted.{Run, next_idx-Run, read_meta-with_text}
use readcon_db.Corpus.Commit.Steps.{Appends, commit_body-Appends, extend_body-Appends}

module _ (db : Heed) (json : Json) where
  open json use {to_string}

  -- The metadata after an append.
  appended :
      (c c' : ConCorpus db) (traj : ℕ) (old : Option TrajMeta) (ps : List PreparedIndexPuts)
      → Appends db json traj old ps c c'
      → IsU32 (next_idx (n_frames_or_zero old) ps)
      → (back : TrajMeta) × (read_meta db json c' traj ≡ ok (some back))
        × (back.n_frames ≡ next_idx (n_frames_or_zero old) ps)
  unfolding Appends
  appended c c' traj old ps (meta, text, found, count, written, at) u =
      let (back, p, n) =
        read_meta-with_text db json (put_all db c ps) traj meta text (subst IsU32 (sym count) u)
          written in
      (back, subst (λ d. read_meta db json d traj ≡ ok (some back)) (sym at) p, n ∙ count)

  next_idx-IsU32 :
      (start : ℕ) (ps : List PreparedIndexPuts) → IsU32 start → IsU32 (next_idx start ps)
  unfolding next_idx
  next_idx-IsU32 start [] u = u
  next_idx-IsU32 start (p ∷ ps) u = next_idx-IsU32 ((p.fk.frame_idx + 1) % 2 ^ 32) ps (omega arith)

  refused :
      (c : ConCorpus db) (traj n : ℕ) (back : TrajMeta)
      → read_meta db json c traj ≡ ok (some back)
      → back.n_frames ≡ n
      → refuse_existing db json c traj ≡ err (traj_exists traj n)
  unfolding refuse_existing absent_meta
  refused c traj n back e at = rw (e, at) refl

  -- The first writer of a trajectory wins: on the corpus that its commit of `n` frames leaves, with
  -- no other write in between, a commit that does not replace metadata and a claim of the same
  -- trajectory fail with the error that names it and `n`. Both commits are those that do not
  -- replace metadata.
  pub commit_body_again :
      (c c' : ConCorpus db) (traj n : ℕ) (ps ps' : List PreparedIndexPuts) (source source' : Bytes)
      → commit_body db json traj ps source false c ≡ ok (c', n)
      → (commit_body db json traj ps' source' false c' ≡ err (traj_exists traj n))
        × (traj_claimed db json c' traj ≡ err (traj_exists traj n))
  unfolding commit_body traj_claimed n_frames_or_zero
  commit_body_again c c' traj n ps ps' source source' e =
      let (a, k) = commit_body-Appends db json c c' traj n ps source e in
      let (back, p, m) = appended c c' traj none ps a (next_idx-IsU32 0 ps (omega arith)) in
      let no = refused c' traj n back p (m ∙ sym k) in (rw no refl, rw no refl)

  race : (a b : ℕ) (e : Error) → a ≢ b → guard (a == b) e ≡ err e
  race a b e apart = elim (Bool-cases (a == b)) [
    | inl p ↦ absurd (apart ((==_iff a b).0 p))
    | inr p ↦ rw p refl
  ]

  -- Of two extensions of a trajectory that were prepared from the same number of frames, the one
  -- that commits second is refused, when the first has added a frame.
  pub extend_body_again :
      (c c' : ConCorpus db) (traj start n : ℕ) (prior prior' : Option TrajMeta)
      (ps ps' : List PreparedIndexPuts) (hint hint' : Bytes)
      → Run traj start ps
      → IsU32 (start + length ps)
      → 1 ≤ length ps
      → extend_body db json traj start prior ps hint c ≡ ok (c', n)
      → extend_body db json traj start prior' ps' hint' c' ≡ err (message "concurrent extend race")
  unfolding extend_body n_frames_or_zero
  extend_body_again c c' traj start n prior prior' ps ps' hint hint' r u more e =
      let (live, at, a, k) = extend_body-Appends db json c c' traj start n prior ps hint e in
      let next : next_idx (n_frames_or_zero live) ps ≡ start + length ps =
        ap (λ s. next_idx s ps) at ∙ next_idx-Run traj start ps r u in
      let (back, p, m) = appended c c' traj live ps a (subst IsU32 (sym next) u) in
      let apart : back.n_frames ≢ start = λ q. omega (arith, m, next, q, more) in
      rw (p, race back.n_frames start (message "concurrent extend race") apart) refl
