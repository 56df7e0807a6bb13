-- ===== src/Corpus/Annotate.antt =====
-- src/corpus.rs: `annotate_topology`. The engine's run on a text, with the options of the
-- annotation, is the parameter `fingerprint`.
use readcon_db.Base.{
  ℕ, zero, suc, ◌+◌, ◌%◌, ◌^◌, ◌<◌, ◌≤◌, ◌≡◌, refl, sym, ap, ◌∙◌, inl, inr, Bool, true, false, not,
  ◌||◌, Option, none, some, List, [], ◌∷◌, ◌++◌, ◌==◌, if◌then◌else◌, arith, Bool-cases, ==_iff,
  length, All,
}
use readcon_db.Zstd.{Zstd}
use readcon_db.Heed.{Heed}
use readcon_db.Keys.{FrameKey, TrajId}
use readcon_db.Keys.Float.{Float64}
use readcon_db.Topology.{TopologyParams, f64_eq}
use readcon_db.Corpus.{ConCorpus}
use readcon_db.Corpus.Read.{get_frame_text_txn}
use readcon_db.Corpus.Ingest.{key_of}
use readcon_db.Corpus.Commit.{TrajMeta, Json}
use readcon_db.Corpus.Build.{FrameIndexProjection}
use readcon_db.Corpus.Topo.{annotate_body}
use readcon_db.Corpus.Reindex.{require_topo_dbs, collected_topo_params, list_traj_metas}
use readcon_db.Base.Bytes.{Bytes, bytes_eq}
use readcon_db.Error.{Error, Result, ok, err, message, ◌>>=◌, guard, >>=-eq-ok, ok_eq}

-- `frame` is the bit pattern of an `i64`.
pub record FingerprintRecord : Type 0 where
  pub frame : ℕ
  pub key : Bytes
  pub method : Bytes

-- The recorded parameters differ from those of this run.
unfoldable pub params_differ : TopologyParams → Float64 → Bytes → ℕ → Bool
params_differ rec cutoff graph hops =
    elim rec.cutoff [ none ↦ false | some c ↦ not (f64_eq c cutoff) ]
    || (elim rec.graph [ none ↦ false | some g ↦ not (bytes_eq g graph) ]
        || elim rec.hops [ none ↦ false | some h ↦ not (h == hops) ])

unfoldable pub refuse_params : Option TopologyParams → Float64 → Bytes → ℕ → Result (Unit {0})
refuse_params none cutoff graph hops = ok tt
refuse_params (some rec) cutoff graph hops =
    guard (not (params_differ rec cutoff graph hops)) (message "mixed topology parameters")

unfoldable pub see_method : Option Bytes → Bytes → Result (Option Bytes)
see_method none method = ok (some method)
see_method (some m) method =
    if bytes_eq m method
    then ok (some m)
    else err (message "seams fingerprint mixed methods in one run")

-- The loop over the records of one trajectory, from the index `i` on.
unfoldable pub push_records :
    Option Bytes
    → TrajId
    → ℕ
    → List FingerprintRecord
    → Result (List (FrameKey × Bytes) × Option Bytes)
push_records run_method tid i [] = ok ([], run_method)
push_records run_method tid i (rec ∷ recs) = do
  m ← see_method run_method rec.method
  (pending, last) ← push_records m tid (i + 1) recs
  ok ((record { traj_id = tid; frame_idx = i % 2 ^ 32 }, rec.key) ∷ pending, last)

-- A method that was recorded must be that of this run.
unfoldable pub refuse_method : Option TopologyParams → Bytes → Result (Unit {0})
refuse_method none method = ok tt
refuse_method (some rec) method = elim rec.method [
  | none ↦ ok tt
  | some m ↦ guard (bytes_eq m method) (message "mixed topology parameters")
]

module _ (db : Heed) (z : Zstd) (xxh3_128 : Bytes → ℕ)
    (fingerprint : Bytes → Result (List FingerprintRecord)) where
  open db use {Table, iter}

  -- The texts of the frames `i`, `i + 1`, .., of which there are `count`.
  unfoldable pub traj_text : ConCorpus db → TrajId → ℕ → ℕ → Result Bytes
  traj_text c tid i zero = ok []
  traj_text c tid i (suc count) = do
    text ← get_frame_text_txn db z xxh3_128 c (record { traj_id = tid; frame_idx = i })
    more ← traj_text c tid (i + 1) count
    ok (text ++ more)

  unfoldable pub fingerprint_traj :
      ConCorpus db → Option Bytes → TrajId → ℕ → Result (List (FrameKey × Bytes) × Option Bytes)
  fingerprint_traj c run_method tid n_frames = do
    blob ← traj_text c tid 0 n_frames
    recs ← fingerprint blob
    same ←
        guard (length recs == n_frames)
          (message "seams fingerprint returned another number of objects")
    push_records run_method tid 0 recs

  -- The loop over the trajectories.
  unfoldable pub fingerprint_all :
      ConCorpus db
      → Option Bytes
      → List (TrajId × TrajMeta)
      → Result (List (FrameKey × Bytes) × Option Bytes)
  fingerprint_all c run_method [] = ok ([], run_method)
  fingerprint_all c run_method ((tid, meta) ∷ metas) =
      let skip = fingerprint_all c run_method metas in
      let both = (do
        (pending, m) ← fingerprint_traj c run_method tid meta.n_frames
        (more, last) ← fingerprint_all c m metas
        ok (pending ++ more, last)) in
      if meta.n_frames == 0 then skip else both

  module _ (json : Json) (project : Bytes → Result FrameIndexProjection) where
    -- `None` is a run without a frame.
    unfoldable pub annotate_found :
        Table
        → Table
        → List (FrameKey × Bytes)
        → Option Bytes
        → Option TopologyParams
        → Float64
        → Bytes
        → ℕ
        → List (TrajId × TrajMeta)
        → ConCorpus db
        → Result (ConCorpus db × ℕ)
    annotate_found idx by pending none recorded cutoff graph hops metas c = ok (c, 0)
    annotate_found idx by pending (some method) recorded cutoff graph hops metas c = do
      same ← refuse_method recorded method
      annotate_body db json idx by pending cutoff graph hops method metas c

    unfoldable pub annotate_topology :
        ConCorpus db → Float64 → Bytes → ℕ → Result (ConCorpus db × ℕ)
    annotate_topology c cutoff graph hops = do
      (idx, by) ← require_topo_dbs db z xxh3_128 json project c
      recorded ← collected_topo_params db z xxh3_128 json project c
      same ← refuse_params recorded cutoff graph hops
      metas ← list_traj_metas db z xxh3_128 json project (iter c.traj_meta)
      (pending, run_method) ← fingerprint_all c none metas
      annotate_found idx by pending run_method recorded cutoff graph hops metas c

-- The keys of the frames `i`, `i + 1`, .., of which there are `count`.
abbrev pub frame_keys : TrajId → ℕ → ℕ → List FrameKey
frame_keys tid i zero = []
frame_keys tid i (suc count) = key_of tid i ∷ frame_keys tid (i + 1) count

abbrev pub all_frame_keys : List (TrajId × TrajMeta) → List FrameKey
all_frame_keys [] = []
all_frame_keys ((tid, meta) ∷ metas) = frame_keys tid 0 meta.n_frames ++ all_frame_keys metas

abbrev pub keys_of_pending : List (FrameKey × Bytes) → List FrameKey
keys_of_pending [] = []
keys_of_pending ((fk, hex) ∷ pending) = fk ∷ keys_of_pending pending

keys_of_pending-append :
    (p q : List (FrameKey × Bytes))
    → keys_of_pending (p ++ q) ≡ keys_of_pending p ++ keys_of_pending q
keys_of_pending-append [] q = refl
keys_of_pending-append ((fk, hex) ∷ p) q = ap (λ ks. fk ∷ ks) (keys_of_pending-append p q)

guarded : (b : Bool) (x : Error) → guard b x ≡ ok tt → b ≡ true
guarded true x s = refl
guarded false x s = cc s

push_records-frame_keys :
    (run_method : Option Bytes) (tid i : ℕ) (recs : List FingerprintRecord)
    (out : List (FrameKey × Bytes) × Option Bytes)
    → i + length recs ≤ 2 ^ 32
    → push_records run_method tid i recs ≡ ok out
    → keys_of_pending out.0 ≡ frame_keys tid i (length recs)
unfolding push_records
push_records-frame_keys run_method tid i [] out h e =
    ap (λ (q : List (FrameKey × Bytes) × Option Bytes). keys_of_pending q.0) (sym (ok_eq e))
push_records-frame_keys run_method tid i (rec ∷ recs) out h e =
    let (m, s, e1) = >>=-eq-ok (see_method run_method rec.method) _ e in
    let (more, r, e2) = >>=-eq-ok (push_records m tid (i + 1) recs) _ e1 in
    let small : i % 2 ^ 32 ≡ i = omega (arith, h) in
    ap (λ (q : List (FrameKey × Bytes) × Option Bytes). keys_of_pending q.0) (sym (ok_eq e2))
    ∙ ap (λ j. key_of tid j ∷ keys_of_pending more.0) small
    ∙ ap (λ ks. key_of tid i ∷ ks)
        (push_records-frame_keys m tid (i + 1) recs more (omega (arith, h)) r)

module _ (db : Heed) (z : Zstd) (xxh3_128 : Bytes → ℕ)
    (fingerprint : Bytes → Result (List FingerprintRecord)) where
  -- The run of the engine gives a key to each frame that the metadata counts, trajectory by
  -- trajectory and in the order of the frames, and to no other.
  pub fingerprint_all-all_frame_keys :
      (c : ConCorpus db) (run_method : Option Bytes) (metas : List (TrajId × TrajMeta))
      (out : List (FrameKey × Bytes) × Option Bytes)
      → All (λ m. m.1.n_frames < 2 ^ 32) metas
      → fingerprint_all db z xxh3_128 fingerprint c run_method metas ≡ ok out
      → keys_of_pending out.0 ≡ all_frame_keys metas
  unfolding fingerprint_all fingerprint_traj
  fingerprint_all-all_frame_keys c run_method [] out h e =
      ap (λ (q : List (FrameKey × Bytes) × Option Bytes). keys_of_pending q.0) (sym (ok_eq e))
  fingerprint_all-all_frame_keys c run_method ((tid, meta) ∷ metas) out h e =
      elim (Bool-cases (meta.n_frames == 0)) [
        | inl none_there ↦
            let zero_frames : meta.n_frames ≡ 0 =
              ground (arith, none_there, ==_iff meta.n_frames 0) in
            fingerprint_all-all_frame_keys c run_method metas out h.1 (rw none_there at e)
            ∙ ap (λ n. frame_keys tid 0 n ++ all_frame_keys metas) (sym zero_frames)
        | inr some_there ↦
            let (first, f, e1) =
              >>=-eq-ok (fingerprint_traj db z xxh3_128 fingerprint c run_method tid meta.n_frames)
                _ (rw some_there at e) in
            let (more, r, e2) =
              >>=-eq-ok (fingerprint_all db z xxh3_128 fingerprint c first.1 metas) _ e1 in
            ap (λ (q : List (FrameKey × Bytes) × Option Bytes). keys_of_pending q.0)
              (sym (ok_eq e2))
            ∙ keys_of_pending-append first.0 more.0
            ∙ ap (λ ks. ks ++ keys_of_pending more.0) (one first f)
            ∙ ap (λ ks. frame_keys tid 0 meta.n_frames ++ ks)
                (fingerprint_all-all_frame_keys c first.1 metas more h.1 r)
      ]
    where
      one :
          (first : List (FrameKey × Bytes) × Option Bytes)
          → fingerprint_traj db z xxh3_128 fingerprint c run_method tid meta.n_frames ≡ ok first
          → keys_of_pending first.0 ≡ frame_keys tid 0 meta.n_frames
      one first f =
          let (blob, b, f1) =
            >>=-eq-ok (traj_text db z xxh3_128 fingerprint c tid 0 meta.n_frames) _ f in
          let (recs, g, f2) = >>=-eq-ok (fingerprint blob) _ f1 in
          let (u, s, f3) = >>=-eq-ok (guard (length recs == meta.n_frames) _) _ f2 in
          let len : length recs ≡ meta.n_frames = ground (
            arith,
            guarded (length recs == meta.n_frames) _ s,
            ==_iff (length recs) meta.n_frames,
          ) in
          push_records-frame_keys run_method tid 0 recs first (omega (arith, len, h.0)) f3
          ∙ ap (frame_keys tid 0) len
