-- ===== src/Corpus/Commit/Counted.antt =====
-- The metadata of a trajectory counts its frames: an invariant of the transactions of
-- src/corpus.rs that append to one.
use readcon_db.Base.{
  ℕ, suc, ◌+◌, ◌%◌, ◌^◌, ◌<◌, ◌≤◌, ◌≡◌, ◌≢◌, refl, sym, ap, ◌∙◌, ◌⊎◌, inl, inr, Option, none, some,
  List, [], ◌∷◌, ltb, ◌==◌, arith, Bool-cases, ==_iff, length,
}
use readcon_db.Base.Bytes.{Bytes, IsU32, IsU64, from_be_bytes, from_be_bytes-to_be_bytes}
use readcon_db.Error.{ok}
use mathlib.Core.Path.{subst}
use readcon_db.Heed.{Heed}
use readcon_db.Heed.Tables.{put_self, put_other}
use readcon_db.Keys.{FrameKey, TrajId, to_bytes, from_bytes}
use readcon_db.Keys.Layout.{IsFrameKey, from_bytes-to_bytes}
use readcon_db.Corpus.{PreparedIndexPuts, ConCorpus, put_index_puts, put_all}
use readcon_db.Corpus.Ingest.{key_of}
use readcon_db.Corpus.Commit.{
  TrajMeta, Json, tid_key, some_meta, read_meta, next_idx, n_frames_or_zero, with_text,
}

-- The rows of the frames `lo`, `lo + 1`, … of one trajectory.
abbrev pub Run : TrajId → ℕ → List PreparedIndexPuts → Type 0
Run traj lo [] = Unit
Run traj lo (p ∷ ps) = (p.fk ≡ key_of traj lo) × Run traj (suc lo) ps

pub next_idx-Run :
    (traj lo : ℕ) (ps : List PreparedIndexPuts)
    → Run traj lo ps
    → IsU32 (lo + length ps)
    → next_idx lo ps ≡ lo + length ps
unfolding next_idx
next_idx-Run traj lo [] r u = omega arith
next_idx-Run traj lo (p ∷ ps) r u =
    let at : p.fk.frame_idx ≡ lo = ap (λ fk. fk.frame_idx) r.0 in
    let step : (p.fk.frame_idx + 1) % 2 ^ 32 ≡ suc lo = grind arith in
    rw step (omega (arith, next_idx-Run traj (suc lo) ps r.1 (omega (arith, u))))

pub to_bytes_injective :
    (a b : FrameKey) → IsFrameKey a → IsFrameKey b → to_bytes a ≡ to_bytes b → a ≡ b
to_bytes_injective a b ha hb e =
    let same : some a ≡ some b =
      sym (from_bytes-to_bytes a ha) ∙ ap from_bytes e ∙ from_bytes-to_bytes b hb in
    cc same

tid_key_injective : (a b : ℕ) → IsU64 a → IsU64 b → tid_key a ≡ tid_key b → a ≡ b
tid_key_injective a b ha hb e =
    sym (from_be_bytes-to_be_bytes 8 a (omega arith))
    ∙ ap from_be_bytes e
    ∙ from_be_bytes-to_be_bytes 8 b (omega arith)

module _ (db : Heed) where
  open db use {Table, get, put}

  put_all-traj_meta :
      (c : ConCorpus db) (ps : List PreparedIndexPuts) → (put_all db c ps).traj_meta ≡ c.traj_meta
  unfolding put_all put_index_puts
  put_all-traj_meta c [] = refl
  put_all-traj_meta c (p ∷ ps) = put_all-traj_meta (put_index_puts db c p) ps

  -- Other keys keep their values.
  put_all_other :
      (c : ConCorpus db) (traj lo : ℕ) (ps : List PreparedIndexPuts) (fk : FrameKey)
      → Run traj lo ps
      → IsU64 traj
      → IsU32 (lo + length ps)
      → IsFrameKey fk
      → (fk.traj_id ≢ traj) ⊎ ((fk.frame_idx < lo) ⊎ (lo + length ps ≤ fk.frame_idx))
      → get (put_all db c ps).frames (to_bytes fk) ≡ get c.frames (to_bytes fk)
  unfolding put_all put_index_puts
  put_all_other c traj lo [] fk r t u f out = refl
  put_all_other c traj lo (p ∷ ps) fk r t u f out =
      put_all_other (put_index_puts db c p) traj (suc lo) ps fk r.1 t (omega (arith, u)) f
        (later out)
      ∙ put_other db c.frames (to_bytes p.fk) p.stored (to_bytes fk) (λ e. clash out (
          to_bytes_injective (key_of traj lo) fk (t, omega (arith, u)) f
            (ap to_bytes (sym r.0) ∙ e)))
    where
      later :
          (fk.traj_id ≢ traj) ⊎ ((fk.frame_idx < lo) ⊎ (lo + suc (length ps) ≤ fk.frame_idx))
          → (fk.traj_id ≢ traj) ⊎ ((fk.frame_idx < suc lo) ⊎ (suc lo + length ps ≤ fk.frame_idx))
      later (inl n) = inl n
      later (inr (inl n)) = inr (inl (omega arith))
      later (inr (inr n)) = inr (inr (omega arith))

      clash :
          (fk.traj_id ≢ traj) ⊎ ((fk.frame_idx < lo) ⊎ (lo + suc (length ps) ≤ fk.frame_idx))
          → key_of traj lo ≡ fk
          → ⊥
      clash (inl n) e = n (sym (ap (λ q. q.traj_id) e))
      clash (inr (inl n)) e = let i : lo ≡ fk.frame_idx = ap (λ q. q.frame_idx) e in omega arith
      clash (inr (inr n)) e = let i : lo ≡ fk.frame_idx = ap (λ q. q.frame_idx) e in omega arith

  -- The frames of the run have rows.
  put_all_here :
      (c : ConCorpus db) (traj lo : ℕ) (ps : List PreparedIndexPuts) (k : ℕ)
      → Run traj lo ps
      → IsU64 traj
      → IsU32 (lo + length ps)
      → lo ≤ k
      → k < lo + length ps
      → (v : Bytes) × (get (put_all db c ps).frames (to_bytes (key_of traj k)) ≡ some v)
  unfolding put_all put_index_puts
  put_all_here c traj lo [] k r t u h j = absurd (omega arith)
  put_all_here c traj lo (p ∷ ps) k r t u h j = elim (Bool-cases (lo == k)) [
    | inl q ↦
        let same : lo ≡ k = (==_iff lo k).0 q in
        let kept =
          put_all_other (put_index_puts db c p) traj (suc lo) ps (key_of traj k) r.1 t
            (omega (arith, u)) (t, omega (arith, u, j)) (inr (inl (omega (arith, same)))) in
        let at : to_bytes p.fk ≡ to_bytes (key_of traj k) =
          ap to_bytes (r.0 ∙ ap (key_of traj) same) in
        (
          p.stored,
          kept
              ∙ subst (λ b. get (put c.frames (to_bytes p.fk) p.stored) b ≡ some p.stored) at
                  (put_self db c.frames (to_bytes p.fk) p.stored),
        )
    | inr q ↦
        let apart : lo ≢ k = λ e. let s = (==_iff lo k).1 e in cc (s, q) in
        put_all_here (put_index_puts db c p) traj (suc lo) ps k r.1 t (omega (arith, u))
          (omega arith) (omega (arith, j))
  ]

  module _ (json : Json) where
    open json use {to_string, from_str, from_str-to_string}

    -- What is in `frames` is what the metadata counts.
    pub record Counted (c : ConCorpus db) : Type 0 where
      pub counted :
          (fk : FrameKey) (v : Bytes)
          → IsFrameKey fk
          → get c.frames (to_bytes fk) ≡ some v
          → (meta : TrajMeta) × (read_meta db json c fk.traj_id ≡ ok (some meta))
            × (fk.frame_idx < meta.n_frames)
      pub present :
          (traj : ℕ) (meta : TrajMeta) (k : ℕ)
          → IsU64 traj
          → read_meta db json c traj ≡ ok (some meta)
          → k < meta.n_frames
          → IsU32 k
          → (v : Bytes) × (get c.frames (to_bytes (key_of traj k)) ≡ some v)

    read_meta_same :
        (c c' : ConCorpus db) (traj : ℕ)
        → get c.traj_meta (tid_key traj) ≡ get c'.traj_meta (tid_key traj)
        → read_meta db json c traj ≡ read_meta db json c' traj
    unfolding read_meta
    read_meta_same c c' traj e = rw (e, read_meta) refl

    -- What a transaction writes is what the next one reads.
    pub read_meta-with_text :
        (c : ConCorpus db) (traj : ℕ) (meta : TrajMeta) (text : Bytes)
        → IsU32 meta.n_frames
        → to_string meta ≡ ok text
        → (back : TrajMeta) × (read_meta db json (with_text db json c traj text) traj
            ≡ ok (some back))
          × (back.n_frames ≡ meta.n_frames)
    unfolding read_meta some_meta
    read_meta-with_text c traj meta text u e =
        let (back, p, n) = from_str-to_string meta text u e in
        let at = put_self db c.traj_meta (tid_key traj) text in
        (back, rw (at, read_meta, p) refl, n)

    -- A transaction that puts the next frames of a trajectory, and counts them.
    module _ (c : ConCorpus db) (traj : ℕ) (ht : IsU64 traj) (old : Option TrajMeta)
        (found : read_meta db json c traj ≡ ok old) (ps : List PreparedIndexPuts)
        (run : Run traj (n_frames_or_zero old) ps) (fits : IsU32 (n_frames_or_zero old + length ps))
        (meta : TrajMeta) (text : Bytes) (count : meta.n_frames ≡ n_frames_or_zero old + length ps)
        (written : to_string meta ≡ ok text) (h : Counted c) where
      abbrev pub grown : ConCorpus db
      grown = with_text db json (put_all db c ps) traj text

      grown_meta :
          (back : TrajMeta) × (read_meta db json grown traj ≡ ok (some back))
          × (back.n_frames ≡ n_frames_or_zero old + length ps)
      grown_meta =
          let (back, p, n) =
            read_meta-with_text (put_all db c ps) traj meta text (rw count fits) written in
          (back, p, n ∙ count)

      other_meta :
          (tid : ℕ) → IsU64 tid → tid ≢ traj → read_meta db json grown tid ≡ read_meta db json c tid
      other_meta tid hu apart = read_meta_same grown c tid (
          put_other db (put_all db c ps).traj_meta (tid_key traj) text (tid_key tid)
            (λ e. apart (sym (tid_key_injective traj tid ht hu e)))
          ∙ ap (λ t. get t (tid_key tid)) (put_all-traj_meta c ps))

      -- Metadata that was there is `old`.
      old_count :
          (m : TrajMeta)
          → read_meta db json c traj ≡ ok (some m)
          → n_frames_or_zero old ≡ m.n_frames
      unfolding n_frames_or_zero
      old_count m e = let same : old ≡ some m = cc (found, e) in ap n_frames_or_zero same

      counted_here :
          (k : ℕ) (v : Bytes)
          → IsU32 k
          → get grown.frames (to_bytes (key_of traj k)) ≡ some v
          → k < n_frames_or_zero old + length ps
      counted_here k v hk e = elim (Bool-cases (ltb k (n_frames_or_zero old + length ps))) [
        | inl p ↦ ground arith
        | inr p ↦
            let high : n_frames_or_zero old + length ps ≤ k = ground arith in
            let kept =
              put_all_other c traj (n_frames_or_zero old) ps (key_of traj k) run ht fits (ht, hk)
                (inr (inr high)) in
            let (m, at, less) = h.counted (key_of traj k) v (ht, hk) (sym kept ∙ e) in
            absurd (omega (arith, less, old_count m at, high))
      ]

      present_here :
          (k : ℕ)
          → IsU32 k
          → k < n_frames_or_zero old + length ps
          → (v : Bytes) × (get grown.frames (to_bytes (key_of traj k)) ≡ some v)
      unfolding n_frames_or_zero
      present_here k hk j = elim (Bool-cases (ltb k (n_frames_or_zero old))) [
        | inr p ↦ put_all_here c traj (n_frames_or_zero old) ps k run ht fits (ground arith) j
        | inl p ↦ before old found (ground arith)
      ]
        where
          kept :
              k < n_frames_or_zero old
              → get (put_all db c ps).frames (to_bytes (key_of traj k))
                ≡ get c.frames (to_bytes (key_of traj k))
          kept less =
              put_all_other c traj (n_frames_or_zero old) ps (key_of traj k) run ht fits (ht, hk)
                (inr (inl less))

          before :
              (o : Option TrajMeta)
              → read_meta db json c traj ≡ ok o
              → k < n_frames_or_zero old
              → (v : Bytes) × (get (put_all db c ps).frames (to_bytes (key_of traj k)) ≡ some v)
          before none e less =
              let same : old ≡ none = cc (found, e) in absurd (ground (arith, same, less))
          before (some m) e less =
              let (v, at) = h.present traj m k ht e (omega (arith, less, old_count m e)) hk in
              (v, kept less ∙ at)

      counted_same :
          (fk : FrameKey) (v : Bytes)
          → IsFrameKey fk
          → get grown.frames (to_bytes fk) ≡ some v
          → fk.traj_id ≡ traj
          → (m : TrajMeta) × (read_meta db json grown fk.traj_id ≡ ok (some m))
            × (fk.frame_idx < m.n_frames)
      counted_same fk v f e same =
          let here =
            subst (λ t. get grown.frames (to_bytes (key_of t fk.frame_idx)) ≡ some v) same e in
          let (back, p, n) = grown_meta in
          (
            back,
            subst (λ t. read_meta db json grown t ≡ ok (some back)) (sym same) p,
            omega (arith, n, counted_here fk.frame_idx v f.1 here),
          )

      counted_other :
          (fk : FrameKey) (v : Bytes)
          → IsFrameKey fk
          → get grown.frames (to_bytes fk) ≡ some v
          → fk.traj_id ≢ traj
          → (m : TrajMeta) × (read_meta db json grown fk.traj_id ≡ ok (some m))
            × (fk.frame_idx < m.n_frames)
      counted_other fk v f e apart =
          let kept = put_all_other c traj (n_frames_or_zero old) ps fk run ht fits f (inl apart) in
          let (m, at, less) = h.counted fk v f (sym kept ∙ e) in
          (m, other_meta fk.traj_id f.0 apart ∙ at, less)

      present_same :
          (tid : ℕ) (m : TrajMeta) (k : ℕ)
          → IsU32 k
          → k < m.n_frames
          → tid ≡ traj
          → read_meta db json grown tid ≡ ok (some m)
          → (v : Bytes) × (get grown.frames (to_bytes (key_of tid k)) ≡ some v)
      present_same tid m k hk j same e =
          let (back, p, n) = grown_meta in
          let at = subst (λ t. read_meta db json grown t ≡ ok (some m)) same e in
          let one : back ≡ m = cc (p, at) in
          let (v, row) =
            present_here k hk (omega (arith, j, n, ap (λ (x : TrajMeta). x.n_frames) one)) in
          (v, subst (λ t. get grown.frames (to_bytes (key_of t k)) ≡ some v) (sym same) row)

      present_other :
          (tid : ℕ) (m : TrajMeta) (k : ℕ)
          → IsU64 tid
          → IsU32 k
          → k < m.n_frames
          → tid ≢ traj
          → read_meta db json grown tid ≡ ok (some m)
          → (v : Bytes) × (get grown.frames (to_bytes (key_of tid k)) ≡ some v)
      present_other tid m k hu hk j apart e =
          let kept =
            put_all_other c traj (n_frames_or_zero old) ps (key_of tid k) run ht fits (hu, hk)
              (inl apart) in
          let (v, at) = h.present tid m k hu (sym (other_meta tid hu apart) ∙ e) j hk in
          (v, kept ∙ at)

      pub grown-Counted : Counted grown
      grown-Counted = record {
        counted = λ fk v f e. elim (Bool-cases (fk.traj_id == traj)) [
          | inl q ↦ counted_same fk v f e ((==_iff fk.traj_id traj).0 q)
          | inr q ↦ counted_other fk v f e (λ w. let r = (==_iff fk.traj_id traj).1 w in cc (q, r))
        ];
        present = λ tid m k hu e j hk. elim (Bool-cases (tid == traj)) [
          | inl q ↦ present_same tid m k hk j ((==_iff tid traj).0 q) e
          | inr q ↦
              present_other tid m k hu hk j (λ w. let r = (==_iff tid traj).1 w in cc (q, r)) e
        ];
      }
