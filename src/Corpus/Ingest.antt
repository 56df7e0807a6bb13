-- ===== src/Corpus/Ingest.antt =====
-- src/corpus.rs `group_prepared`, and an ingest from end to end: the frames of a trajectory that
-- are stored, packed and put read back as their texts.
use readcon_db.Base.{
  ℕ, ◌+◌, ◌<◌, ◌≡◌, ◌≢◌, refl, sym, ap, ◌∙◌, inl, inr, true, Option, none, some, List, [], ◌∷◌, ltb,
  if◌then◌else◌, arith, Bool-cases, length,
}
use readcon_db.Base.Bytes.{Bytes, IsU32, IsU64}
use readcon_db.Error.{Result, ok, missing_frame, ◌>>=◌, ok_or, >>=-eq-ok}
use mathlib.Core.Path.{subst}
use readcon_db.Zstd.{Zstd}
use readcon_db.Heed.{Heed}
use readcon_db.Heed.Tables.{put_self, put_other}
use readcon_db.Keys.{FrameKey, TrajId, to_bytes, from_bytes}
use readcon_db.Keys.Layout.{from_bytes-to_bytes}
use readcon_db.Codec.{Frame, load_frame, store_frame, pack_aligned}
use readcon_db.Codec.Runs.{IsTrajectory}
use readcon_db.Codec.Decodes.{Fetch, Holds, Decodes, decode_frame-single}
use readcon_db.Codec.Single.{load_frame-store_frame}
use readcon_db.Codec.RoundTrip.{pack_aligned-Decodes}
use readcon_db.Corpus.{PreparedIndexPuts, ConCorpus, put_index_puts, put_all}
use readcon_db.Corpus.Read.{stored_in, get_frame_text_txn}

abbrev pub key_of : TrajId → ℕ → FrameKey
key_of traj k = record { traj_id = traj; frame_idx = k }

-- `for (p, stored) in prepared.iter_mut().zip(packed) { p.stored = stored }`
unfoldable pub set_stored : List PreparedIndexPuts → List Bytes → List PreparedIndexPuts
set_stored [] packed = []
set_stored (p ∷ ps) [] = p ∷ ps
set_stored (p ∷ ps) (v ∷ packed) = record p { stored = v } ∷ set_stored ps packed

-- The rows of the frames, in their order, and the values that they carry.
abbrev pub Keyed : TrajId → List Frame → List PreparedIndexPuts → Type 0
Keyed traj [] [] = Unit
Keyed traj [] (p ∷ ps) = ⊥
Keyed traj (f ∷ fs) [] = ⊥
Keyed traj ((k, text) ∷ fs) (p ∷ ps) = (p.fk ≡ key_of traj k) × Keyed traj fs ps

abbrev pub Carry : List Bytes → List PreparedIndexPuts → Type 0
Carry [] ps = Unit
Carry (v ∷ vs) [] = Unit
Carry (v ∷ vs) (p ∷ ps) = (p.stored ≡ v) × Carry vs ps

set_stored-Keyed :
    (traj : TrajId) (fs : List Frame) (ps : List PreparedIndexPuts) (vs : List Bytes)
    → Keyed traj fs ps
    → Keyed traj fs (set_stored ps vs)
unfolding set_stored
set_stored-Keyed traj [] [] vs h = tt
set_stored-Keyed traj [] (p ∷ ps) vs h = absurd h
set_stored-Keyed traj (f ∷ fs) [] vs h = absurd h
set_stored-Keyed traj (f ∷ fs) (p ∷ ps) [] h = h
set_stored-Keyed traj ((k, text) ∷ fs) (p ∷ ps) (v ∷ vs) h =
    (h.0, set_stored-Keyed traj fs ps vs h.1)

set_stored-Carry : (ps : List PreparedIndexPuts) (vs : List Bytes) → Carry vs (set_stored ps vs)
unfolding set_stored
set_stored-Carry [] [] = tt
set_stored-Carry [] (v ∷ vs) = tt
set_stored-Carry (p ∷ ps) [] = tt
set_stored-Carry (p ∷ ps) (v ∷ vs) = (refl, set_stored-Carry ps vs)

pub key_of-differ :
    (traj j k : ℕ)
    → IsU64 traj
    → IsU32 j
    → IsU32 k
    → j < k
    → to_bytes (key_of traj k) ≢ to_bytes (key_of traj j)
key_of-differ traj j k ht hj hk less e =
    let same : some (key_of traj k) ≡ some (key_of traj j) =
      sym (from_bytes-to_bytes (key_of traj k) (ht, hk))
      ∙ ap from_bytes e
      ∙ from_bytes-to_bytes (key_of traj j) (ht, hj) in
    let idx : k ≡ j = ap index same in omega arith
  where
    index : Option FrameKey → ℕ
    index none = 0
    index (some fk) = fk.frame_idx

module _ (z : Zstd) where
  unfoldable pub load_texts : List PreparedIndexPuts → Result (List Frame)
  load_texts [] = ok []
  load_texts (p ∷ ps) = do
    text ← load_frame z p.stored
    more ← load_texts ps
    ok ((p.fk.frame_idx, text) ∷ more)

  -- All but the early return of `group_prepared`.
  unfoldable pub group_texts : List PreparedIndexPuts → Result (List PreparedIndexPuts)
  group_texts prepared = do
    texts ← load_texts prepared
    packed ← pack_aligned z texts
    ok (set_stored prepared packed)

  unfoldable pub group_prepared : List PreparedIndexPuts → Result (List PreparedIndexPuts)
  group_prepared prepared = if ltb (length prepared) 2 then ok prepared else group_texts prepared

  -- The rows as `build_index_puts` makes them: each value is its frame's text, stored.
  abbrev pub Built : TrajId → List Frame → List PreparedIndexPuts → Type 0
  Built traj [] [] = Unit
  Built traj [] (p ∷ ps) = ⊥
  Built traj (f ∷ fs) [] = ⊥
  Built traj ((k, text) ∷ fs) (p ∷ ps) =
      (p.fk ≡ key_of traj k) × (store_frame z text true ≡ ok p.stored) × Built traj fs ps

  load_texts-Built :
      (traj : TrajId) (lo : ℕ) (fs : List Frame) (ps : List PreparedIndexPuts)
      → IsTrajectory lo fs
      → Built traj fs ps
      → load_texts ps ≡ ok fs
  unfolding load_texts
  load_texts-Built traj lo [] [] t b = refl
  load_texts-Built traj lo [] (p ∷ ps) t b = absurd b
  load_texts-Built traj lo (f ∷ fs) [] t b = absurd b
  load_texts-Built traj lo ((k, text) ∷ fs) (p ∷ ps) t b =
      let e = (load_frame-store_frame z text true p.stored t.2 t.3 b.1).0 in
      let idx : p.fk.frame_idx ≡ k = ap (λ q. q.frame_idx) b.0 in
      let ih = load_texts-Built traj (k + 1) fs ps t.4 b.2 in rw (e, ih, idx) refl

  Built-Keyed :
      (traj : TrajId) (fs : List Frame) (ps : List PreparedIndexPuts)
      → Built traj fs ps
      → Keyed traj fs ps
  Built-Keyed traj [] [] b = tt
  Built-Keyed traj [] (p ∷ ps) b = absurd b
  Built-Keyed traj (f ∷ fs) [] b = absurd b
  Built-Keyed traj ((k, text) ∷ fs) (p ∷ ps) b = (b.0, Built-Keyed traj fs ps b.2)

  -- Rows with values that decode to the frames, where `fetch` finds them.
  abbrev Readable : TrajId → List Frame → List PreparedIndexPuts → Type 0
  Readable traj fs ps' =
      (vs : List Bytes) × Keyed traj fs ps'
      × Carry vs ps'
      × ((fetch : Fetch) → Holds fetch fs vs → Decodes z fetch fs vs)

  abbrev stored_values : List PreparedIndexPuts → List Bytes
  stored_values [] = []
  stored_values (p ∷ ps) = p.stored ∷ stored_values ps

  stored_values-Carry : (ps : List PreparedIndexPuts) → Carry (stored_values ps) ps
  stored_values-Carry [] = tt
  stored_values-Carry (p ∷ ps) = (refl, stored_values-Carry ps)

  -- Values that `store_frame` made decode whatever `fetch` finds.
  singles-Decodes :
      (fetch : Fetch) (traj : TrajId) (lo : ℕ) (fs : List Frame) (ps : List PreparedIndexPuts)
      → IsTrajectory lo fs
      → Built traj fs ps
      → Decodes z fetch fs (stored_values ps)
  singles-Decodes fetch traj lo [] [] t b = tt
  singles-Decodes fetch traj lo [] (p ∷ ps) t b = absurd b
  singles-Decodes fetch traj lo (f ∷ fs) [] t b = absurd b
  singles-Decodes fetch traj lo ((k, text) ∷ fs) (p ∷ ps) t b = (
    decode_frame-single z fetch text p.stored t.2 t.3 b.1,
    singles-Decodes fetch traj (k + 1) fs ps t.4 b.2,
  )

  group_texts-Readable :
      (traj : TrajId) (fs : List Frame) (ps ps' : List PreparedIndexPuts)
      → IsTrajectory 0 fs
      → Built traj fs ps
      → group_texts ps ≡ ok ps'
      → Readable traj fs ps'
  unfolding group_texts
  group_texts-Readable traj fs ps ps' t b e =
      let loaded = load_texts-Built traj 0 fs ps t b in
      let (vs, packed, at) =
        >>=-eq-ok (pack_aligned z fs) (λ packed. ok (set_stored ps packed))
          (subst
            (λ r.
              (r >>= (λ texts. pack_aligned z texts >>= (λ packed. ok (set_stored ps packed))))
              ≡ ok ps')
            loaded e) in
      let same : set_stored ps vs ≡ ps' = grind arith in
      (
        vs,
        subst (Keyed traj fs) same (set_stored-Keyed traj fs ps vs (Built-Keyed traj fs ps b)),
        subst (Carry vs) same (set_stored-Carry ps vs),
        λ fetch h. pack_aligned-Decodes z fetch fs vs t packed h,
      )

  group_prepared-Readable :
      (traj : TrajId) (fs : List Frame) (ps ps' : List PreparedIndexPuts)
      → IsTrajectory 0 fs
      → Built traj fs ps
      → group_prepared ps ≡ ok ps'
      → Readable traj fs ps'
  unfolding group_prepared
  group_prepared-Readable traj fs ps ps' t b e = elim (Bool-cases (ltb (length ps) 2)) [
    | inl p ↦
        let same : ps ≡ ps' = ground arith in
        subst (Readable traj fs) same (
          stored_values ps,
          Built-Keyed traj fs ps b,
          stored_values-Carry ps,
          λ fetch h. singles-Decodes fetch traj 0 fs ps t b,
        )
    | inr p ↦ group_texts-Readable traj fs ps ps' t b (ground arith)
  ]

module _ (db : Heed) (z : Zstd) (xxh3_128 : Bytes → ℕ) (traj : TrajId) (ht : IsU64 traj) where
  open db use {Table, get, put}

  -- Rows of later frames leave an earlier key alone.
  earlier_kept :
      (c : ConCorpus db) (j lo : ℕ) (fs : List Frame) (ps : List PreparedIndexPuts)
      → j < lo
      → IsU32 j
      → IsTrajectory lo fs
      → Keyed traj fs ps
      → get (put_all db c ps).frames (to_bytes (key_of traj j))
        ≡ get c.frames (to_bytes (key_of traj j))
  unfolding put_all put_index_puts
  earlier_kept c j lo [] [] h hj t b = refl
  earlier_kept c j lo [] (p ∷ ps) h hj t b = absurd b
  earlier_kept c j lo (f ∷ fs) [] h hj t b = absurd b
  earlier_kept c j lo ((k, text) ∷ fs) (p ∷ ps) h hj t b =
      earlier_kept (put_index_puts db c p) j (k + 1) fs ps (omega (arith, t.0)) hj t.4 b.1
      ∙ put_other db c.frames (to_bytes p.fk) p.stored (to_bytes (key_of traj j))
          (rw b.0 (key_of-differ traj j k ht hj t.1 (omega (arith, t.0))))

  -- After the puts `fetch` finds every value.
  put_all-Holds :
      (c : ConCorpus db) (lo : ℕ) (fs : List Frame) (vs : List Bytes) (ps : List PreparedIndexPuts)
      → IsTrajectory lo fs
      → Keyed traj fs ps
      → Carry vs ps
      → Holds (λ head. stored_in db z xxh3_128 (put_all db c ps) (key_of traj head)) fs vs
  unfolding put_all put_index_puts stored_in
  put_all-Holds c lo [] vs ps t b d = tt
  put_all-Holds c lo (f ∷ fs) [] ps t b d = tt
  put_all-Holds c lo (f ∷ fs) (v ∷ vs) [] t b d = absurd b
  put_all-Holds c lo ((k, text) ∷ fs) (v ∷ vs) (p ∷ ps) t b d =
      let kept = earlier_kept (put_index_puts db c p) k (k + 1) fs ps (omega arith) t.1 t.4 b.1 in
      let at : get (put_index_puts db c p).frames (to_bytes (key_of traj k)) ≡ some v =
        rw (← b.0, ← d.0) (put_self db c.frames (to_bytes p.fk) p.stored) in
      (
        ap (λ o. ok_or o (missing_frame traj k)) (kept ∙ at),
        put_all-Holds (put_index_puts db c p) (k + 1) fs vs ps t.4 b.1 d.1,
      )

  -- Every frame reads back as its text.
  abbrev pub AllRead : ConCorpus db → List Frame → Type 0
  AllRead c [] = Unit
  AllRead c ((k, text) ∷ fs) =
      (get_frame_text_txn db z xxh3_128 c (key_of traj k) ≡ ok text) × AllRead c fs

  pub Decodes-AllRead :
      (c : ConCorpus db) (fs : List Frame) (vs : List Bytes)
      → Holds (λ head. stored_in db z xxh3_128 c (key_of traj head)) fs vs
      → Decodes z (λ head. stored_in db z xxh3_128 c (key_of traj head)) fs vs
      → AllRead c fs
  unfolding get_frame_text_txn
  Decodes-AllRead c [] [] h d = tt
  Decodes-AllRead c [] (v ∷ vs) h d = absurd d
  Decodes-AllRead c (f ∷ fs) [] h d = absurd d
  Decodes-AllRead c ((k, text) ∷ fs) (v ∷ vs) h d = (rw (h.0) d.0, Decodes-AllRead c fs vs h.1 d.1)

  -- An ingest from end to end: when the texts of a trajectory, whose indices ascend, are stored
  -- one by one, packed by `group_prepared`, and put into any corpus, each frame of the trajectory
  -- reads back as its text.
  pub put_all-AllRead :
      (c : ConCorpus db) (fs : List Frame) (ps ps' : List PreparedIndexPuts)
      → IsTrajectory 0 fs
      → Built z traj fs ps
      → group_prepared z ps ≡ ok ps'
      → AllRead (put_all db c ps') fs
  put_all-AllRead c fs ps ps' t b e =
      let (vs, keyed, carry, decodes) = group_prepared-Readable z traj fs ps ps' t b e in
      let h = put_all-Holds c 0 fs vs ps' t keyed carry in
      Decodes-AllRead (put_all db c ps') fs vs h (decodes _ h)
