-- ===== src/Corpus/Repack.antt =====
-- src/corpus.rs `repack_traj`: the values of a trajectory are written anew in the current codec, and
-- every frame keeps its text.
use readcon_db.Base.{
  ℕ, ◌+◌, ◌<◌, ◌≡◌, refl, sym, ap, ◌∙◌, inl, inr, false, Option, none, some, List, [], ◌∷◌, ◌==◌,
  if◌then◌else◌, arith, Bool-cases, length,
}
use readcon_db.Base.Bytes.{Bytes, IsU32, IsU64, bytes_eq, bytes_eq_iff}
use readcon_db.Error.{Result, ok, missing_frame, ◌>>=◌, ok_or, >>=-eq-ok, ok_eq}
use mathlib.Core.Path.{subst}
use readcon_db.Zstd.{Zstd}
use readcon_db.Heed.{Heed}
use readcon_db.Heed.Tables.{put_self, put_other}
use readcon_db.Keys.{TrajId, to_bytes}
use readcon_db.Codec.{Frame, pack_aligned}
use readcon_db.Codec.Runs.{IsTrajectory}
use readcon_db.Codec.Split.{length-pack_aligned}
use readcon_db.Codec.Decodes.{Holds}
use readcon_db.Codec.RoundTrip.{pack_aligned-Decodes}
use readcon_db.Corpus.{ConCorpus}
use readcon_db.Corpus.Read.{stored_in, get_frame_text_txn}
use readcon_db.Corpus.Ingest.{key_of, key_of-differ, AllRead, Decodes-AllRead}

-- `filter_map(|(i, (key, next))| (next != old[i]).then_some((key, next)))`
unfoldable pub changed : List Frame → List Bytes → List Bytes → List (ℕ × Bytes)
changed [] packed old = []
changed (f ∷ fs) [] old = []
changed (f ∷ fs) (v ∷ packed) [] = []
changed ((k, text) ∷ fs) (v ∷ packed) (o ∷ old) =
    let rest = changed fs packed old in if bytes_eq v o then rest else (k, v) ∷ rest

module _ (db : Heed) (z : Zstd) (xxh3_128 : Bytes → ℕ) where
  open db use {Table, get, put}

  -- The loop over the keys: the text of each frame, and its value.
  unfoldable pub read_frames : ConCorpus db → TrajId → List ℕ → Result (List Frame × List Bytes)
  read_frames c traj [] = ok ([], [])
  read_frames c traj (k ∷ idxs) = do
    text ← get_frame_text_txn db z xxh3_128 c (key_of traj k)
    value ← stored_in db z xxh3_128 c (key_of traj k)
    (texts, old) ← read_frames c traj idxs
    ok ((k, text) ∷ texts, value ∷ old)

  abbrev pub put_value : ConCorpus db → TrajId → ℕ → Bytes → ConCorpus db
  put_value c traj k v = record c { frames = put c.frames (to_bytes (key_of traj k)) v }

  unfoldable pub put_values : ConCorpus db → TrajId → List (ℕ × Bytes) → ConCorpus db
  put_values c traj [] = c
  put_values c traj ((k, v) ∷ rows) = put_values (put_value c traj k v) traj rows

  -- `repack_traj` behind the list of the trajectory's keys.
  unfoldable pub repack_frames : ConCorpus db → TrajId → List ℕ → Result (ConCorpus db × ℕ)
  repack_frames c traj idxs = if length idxs == 0 then ok (c, 0) else do
    (texts, old) ← read_frames c traj idxs
    packed ← pack_aligned z texts
    let rows = changed texts packed old
    ok (put_values c traj rows, length rows)

  module _ (traj : TrajId) (ht : IsU64 traj) where
    -- The frames have these values.
    abbrev Stored : ConCorpus db → List Frame → List Bytes → Type 0
    Stored c [] old = Unit
    Stored c (f ∷ fs) [] = ⊥
    Stored c ((k, text) ∷ fs) (o ∷ old) =
        (get c.frames (to_bytes (key_of traj k)) ≡ some o) × Stored c fs old

    read_frames-Stored :
        (c : ConCorpus db) (idxs : List ℕ) (fs : List Frame) (old : List Bytes)
        → read_frames c traj idxs ≡ ok (fs, old)
        → Stored c fs old
    unfolding read_frames stored_in
    read_frames-Stored c [] fs old e =
        let same : ([], []) ≡ (fs, old) = ok_eq e in subst (λ q. Stored c q.0 q.1) same tt
    read_frames-Stored c (k ∷ idxs) fs old e =
        let (text, t, e1) = >>=-eq-ok (get_frame_text_txn db z xxh3_128 c (key_of traj k)) _ e in
        let (value, v, e2) = >>=-eq-ok (stored_in db z xxh3_128 c (key_of traj k)) _ e1 in
        let (both, r, e3) = >>=-eq-ok (read_frames c traj idxs) _ e2 in
        subst (λ q. Stored c q.0 q.1) (ok_eq e3)
          (
            some_of (get c.frames (to_bytes (key_of traj k))) value v,
            read_frames-Stored c idxs both.0 both.1 r,
          )
      where
        some_of :
            (o : Option Bytes) (value : Bytes)
            → ok_or o (missing_frame traj k) ≡ ok value
            → o ≡ some value
        some_of none value v = cc v
        some_of (some b) value v = ap some (ok_eq v)

    kept :
        (c : ConCorpus db) (j lo : ℕ) (fs : List Frame) (packed old : List Bytes)
        → IsU32 j
        → j < lo
        → IsTrajectory lo fs
        → get (put_values c traj (changed fs packed old)).frames (to_bytes (key_of traj j))
          ≡ get c.frames (to_bytes (key_of traj j))
    unfolding put_values changed
    kept c j lo [] packed old hj less t = refl
    kept c j lo (f ∷ fs) [] old hj less t = refl
    kept c j lo (f ∷ fs) (v ∷ packed) [] hj less t = refl
    kept c j lo ((k, text) ∷ fs) (v ∷ packed) (o ∷ old) hj less t =
        elim (Bool-cases (bytes_eq v o)) [
          | inl p ↦ rw p (kept c j (k + 1) fs packed old hj (omega (arith, t.0, less)) t.4)
          | inr p ↦ rw p (
              kept (put_value c traj k v) j (k + 1) fs packed old hj (omega (arith, t.0, less)) t.4
              ∙ put_other db c.frames (to_bytes (key_of traj k)) v (to_bytes (key_of traj j))
                  (key_of-differ traj j k ht hj t.1 (omega (arith, t.0, less))))
        ]

    Stored-put :
        (c : ConCorpus db) (k : ℕ) (v : Bytes) (lo : ℕ) (fs : List Frame) (old : List Bytes)
        → IsU32 k
        → k < lo
        → IsTrajectory lo fs
        → Stored c fs old
        → Stored (put_value c traj k v) fs old
    Stored-put c k v lo [] old hk less t s = tt
    Stored-put c k v lo (f ∷ fs) [] hk less t s = absurd s
    Stored-put c k v lo ((j, text) ∷ fs) (o ∷ old) hk less t s = (
      put_other db c.frames (to_bytes (key_of traj k)) v (to_bytes (key_of traj j))
            (λ e. key_of-differ traj k j ht hk t.1 (omega (arith, t.0, less)) (sym e))
          ∙ s.0,
      Stored-put c k v (j + 1) fs old hk (omega (arith, t.0, less)) t.4 s.1,
    )

    put_values-Holds :
        (c : ConCorpus db) (lo : ℕ) (fs : List Frame) (packed old : List Bytes)
        → IsTrajectory lo fs
        → Stored c fs old
        → length packed ≡ length fs
        → Holds
            (λ head.
              stored_in db z xxh3_128
                (put_values c traj (changed fs packed old))
                (key_of traj head))
            fs
            packed
    unfolding put_values changed stored_in
    put_values-Holds c lo [] packed old t s n = tt
    put_values-Holds c lo (f ∷ fs) [] old t s n = absurd (omega arith)
    put_values-Holds c lo (f ∷ fs) (v ∷ packed) [] t s n = absurd s
    put_values-Holds c lo ((k, text) ∷ fs) (v ∷ packed) (o ∷ old) t s n =
        elim (Bool-cases (bytes_eq v o)) [
          | inl p ↦
              let same : o ≡ v = sym ((bytes_eq_iff v o).0 p) in
              let at : changed ((k, text) ∷ fs) (v ∷ packed) (o ∷ old) ≡ changed fs packed old =
                rw p refl in
              subst Both (sym at) (
                ap (λ x. ok_or x (missing_frame traj k))
                    (kept c k (k + 1) fs packed old t.1 (omega arith) t.4 ∙ s.0 ∙ ap some same),
                put_values-Holds c (k + 1) fs packed old t.4 s.1 (omega (arith, n)),
              )
          | inr p ↦
              let at : changed ((k, text) ∷ fs) (v ∷ packed) (o ∷ old)
                  ≡ (k, v) ∷ changed fs packed old =
                rw p refl in
              subst Both (sym at) (
                ap (λ x. ok_or x (missing_frame traj k))
                    (kept (put_value c traj k v) k (k + 1) fs packed old t.1 (omega arith) t.4
                      ∙ put_self db c.frames (to_bytes (key_of traj k)) v),
                put_values-Holds (put_value c traj k v) (k + 1) fs packed old t.4
                    (Stored-put c k v (k + 1) fs old t.1 (omega arith) t.4 s.1) (omega (arith, n)),
              )
        ]
      where
        Both : List (ℕ × Bytes) → Type 0
        Both rows =
            (stored_in db z xxh3_128 (put_values c traj rows) (key_of traj k) ≡ ok v)
            × Holds (λ head. stored_in db z xxh3_128 (put_values c traj rows) (key_of traj head)) fs
                packed

    -- Writing the values of a trajectory anew loses nothing: when the texts of its frames are read
    -- and their indices ascend, every frame reads back as the text that was read, whether its value
    -- was changed or stayed.
    pub repack_frames-AllRead :
        (c c' : ConCorpus db) (idxs : List ℕ) (n : ℕ) (fs : List Frame) (old : List Bytes)
        → read_frames c traj idxs ≡ ok (fs, old)
        → IsTrajectory 0 fs
        → repack_frames c traj idxs ≡ ok (c', n)
        → AllRead db z xxh3_128 traj ht c' fs
    unfolding repack_frames read_frames
    repack_frames-AllRead c c' [] n fs old r t e =
        let none_read : ([], []) ≡ (fs, old) = ok_eq r in
        subst (AllRead db z xxh3_128 traj ht c')
          (ap (λ (q : List Frame × List Bytes). q.0) none_read) tt
    repack_frames-AllRead c c' (k ∷ idxs) n fs old r t e =
        let some_keys : (length (k ∷ idxs) == 0) ≡ false = ground arith in
        let (packed, p, e1) = >>=-eq-ok (pack_aligned z fs) _ (rw (some_keys, r) at e) in
        let same : put_values c traj (changed fs packed old) ≡ c' =
          ap (λ (q : ConCorpus db × ℕ). q.0) (ok_eq e1) in
        let holds =
          put_values-Holds c 0 fs packed old t (read_frames-Stored c (k ∷ idxs) fs old r)
            (length-pack_aligned z fs packed p) in
        subst (λ d. AllRead db z xxh3_128 traj ht d fs) same
          (Decodes-AllRead db z xxh3_128 traj ht (put_values c traj (changed fs packed old)) fs
            packed holds (pack_aligned-Decodes z _ fs packed t p holds))
