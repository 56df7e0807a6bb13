-- ===== src/Corpus/Reindex/Exact.antt =====
-- What src/corpus.rs `reindex` promises: the secondary indexes are those of the frames, whatever was
-- in them.
use readcon_db.Base.{ℕ, ◌≡◌, refl, sym, ap, ◌∙◌, inl, inr, some, List, [], ◌∷◌}
use mathlib.Core.Path.{subst}
use readcon_db.Zstd.{Zstd}
use readcon_db.Heed.{Heed, Entry, In}
use readcon_db.Keys.{FrameKey, to_bytes}
use readcon_db.Keys.Layout.{IsFrameKey, to_bytes_injective}
use readcon_db.Corpus.{PreparedIndexPuts, as_slice, ConCorpus, put_keys}
use readcon_db.Corpus.HashIndex.{IsKey}
use readcon_db.Corpus.Rewrite.{HashesAgree}
use readcon_db.Corpus.Build.{FrameIndexProjection}
use readcon_db.Corpus.Commit.{Json}
use readcon_db.Corpus.Reindex.{put_rows, rebuild, cleared}
use readcon_db.Corpus.Reindex.Loop.{put_all_rows, Derived, Rebuilds, AreFrames}
use readcon_db.Corpus.Reindex.Rows.{put_all_rows-found, put_all_rows_only}
use readcon_db.Base.Bytes.{Bytes}
use readcon_db.Error.{Result, ok, ok_eq}

module _ (db : Heed) (z : Zstd) (xxh3_128 : Bytes → ℕ) (json : Json)
    (project : Bytes → Result FrameIndexProjection) where
  open db use {Table, empty, get, put, iter, get-empty, get-in, in-iter, iter-Ascends}

  -- The table has the keys of the frames of `c`, and no other.
  abbrev pub Exact :
      ConCorpus db
      → (ConCorpus db → Table)
      → (PreparedIndexPuts → List Bytes)
      → ConCorpus db
      → Type 0
  Exact c sel keys d =
      ((k v : Bytes)
        → get (sel d) k ≡ some v
        → (stored : Bytes) × (p : PreparedIndexPuts) × Derived db z xxh3_128 json project c stored p
          × In k (keys p))
      × ((stored : Bytes) (p : PreparedIndexPuts) (k : Bytes)
          → Derived db z xxh3_128 json project c stored p
          → In k (keys p)
          → (w : Bytes) × (get (sel d) k ≡ some w))

  -- `d` is the corpus `c` with its indexes rebuilt.
  pub record Rebuilt (c d : ConCorpus db) : Type 0 where
    pub same_frames : d.frames ≡ c.frames
    pub hashes : HashesAgree db d []
    pub derived :
        (fk : FrameKey) (stored : Bytes)
        → IsFrameKey fk
        → get c.frames (to_bytes fk) ≡ some stored
        → (p : PreparedIndexPuts) × (p.fk ≡ fk)
          × Derived db z xxh3_128 json project c stored p
          × (get d.hash_by_frame (to_bytes fk) ≡ some p.hash)
    pub natoms : Exact c (λ x. x.idx_natoms) (λ p. p.natoms_k ∷ []) d
    pub symbol : Exact c (λ x. x.idx_symbol) (λ p. p.symbol_keys) d
    pub elem_count : Exact c (λ x. x.idx_elem_count) (λ p. p.elem_count_keys) d
    pub formula : Exact c (λ x. x.idx_formula) (λ p. as_slice p.formula_k) d
    pub energy : Exact c (λ x. x.idx_energy) (λ p. as_slice p.energy_k) d
    pub flags : Exact c (λ x. x.idx_flags) (λ p. p.flag_keys) d
    pub fmax : Exact c (λ x. x.idx_fmax) (λ p. as_slice p.fmax_k) d
    pub mass : Exact c (λ x. x.idx_mass) (λ p. as_slice p.mass_k) d
    pub volume : Exact c (λ x. x.idx_volume) (λ p. as_slice p.volume_k) d
    pub pbc : Exact c (λ x. x.idx_pbc) (λ p. as_slice p.pbc_k) d
    pub meta : Exact c (λ x. x.idx_meta) (λ p. p.meta_keys) d

  pub AreFrames-iter :
      (c : ConCorpus db) (rows : List Entry)
      → ((k v : Bytes) → get c.frames k ≡ some v → IsKey k)
      → ((k v : Bytes) → In (k, v) rows → get c.frames k ≡ some v)
      → AreFrames db z xxh3_128 json project c rows
  AreFrames-iter c [] key at = tt
  AreFrames-iter c ((k, v) ∷ rows) key at =
      let here = at k v (inl refl) in
      (key k v here, here, AreFrames-iter c rows key (λ j w i. at j w (inr i)))

  -- The rows of an entry.
  pub Rebuilds-In :
      (c : ConCorpus db) (rows : List Entry) (ps : List PreparedIndexPuts) (k v : Bytes)
      → Rebuilds db z xxh3_128 json project c rows ps
      → In (k, v) rows
      → (p : PreparedIndexPuts) × In p ps
        × (k ≡ to_bytes p.fk)
        × Derived db z xxh3_128 json project c v p
  Rebuilds-In c [] ps k v r i = absurd i
  Rebuilds-In c (row ∷ rows) [] k v r i = absurd r
  Rebuilds-In c ((j, w) ∷ rows) (p ∷ ps) k v r (inl e) = (
    p,
    inl refl,
    ap (λ (q : Entry). q.0) e ∙ r.0,
    subst (λ x. Derived db z xxh3_128 json project c x p) (sym (ap (λ (q : Entry). q.1) e)) r.1,
  )
  Rebuilds-In c (row ∷ rows) (p ∷ ps) k v r (inr i) =
      let (q, j, e, h) = Rebuilds-In c rows ps k v r.2 i in (q, inr j, e, h)

  -- Rows that were made come from an entry.
  In-Rebuilds :
      (c : ConCorpus db) (rows : List Entry) (ps : List PreparedIndexPuts) (p : PreparedIndexPuts)
      → Rebuilds db z xxh3_128 json project c rows ps
      → In p ps
      → (v : Bytes) × Derived db z xxh3_128 json project c v p
  In-Rebuilds c rows [] p r i = absurd i
  In-Rebuilds c [] (q ∷ ps) p r i = absurd r
  In-Rebuilds c ((k, v) ∷ rows) (q ∷ ps) p r (inl e) =
      (v, subst (Derived db z xxh3_128 json project c v) (sym e) r.1)
  In-Rebuilds c ((k, v) ∷ rows) (q ∷ ps) p r (inr i) = In-Rebuilds c rows ps p r.2 i

  module _ (c : ConCorpus db) (ps : List PreparedIndexPuts)
      (r : Rebuilds db z xxh3_128 json project c (iter c.frames) ps) where
    -- What a frame gives was put.
    pub Derived-In :
        (stored : Bytes) (p : PreparedIndexPuts)
        → Derived db z xxh3_128 json project c stored p
        → In p ps
    Derived-In stored p d =
        let (q, i, e, h) =
          Rebuilds-In c (iter c.frames) ps (to_bytes p.fk) stored r
            (in-iter c.frames (to_bytes p.fk) stored d.1) in
        let fk : q.fk ≡ p.fk = to_bytes_injective q.fk p.fk h.0 d.0 (sym e) in
        let again : rebuild db z xxh3_128 json project c p.fk stored ≡ ok q =
          ap (λ x. rebuild db z xxh3_128 json project c x stored) (sym fk) ∙ h.2 in
        let same : q ≡ p = ok_eq (sym again ∙ d.2) in subst (λ x. In x ps) same i

    pub put_all_rows-Exact :
        (sel : ConCorpus db → Table) (keys : PreparedIndexPuts → List Bytes) (d : ConCorpus db)
        → ((e : ConCorpus db) (p : PreparedIndexPuts)
            → sel (put_rows db z xxh3_128 json project e p) ≡ put_keys db (sel e) (keys p))
        → sel (cleared db z xxh3_128 json project c) ≡ empty
        → sel d
          ≡ sel (put_all_rows db z xxh3_128 json project (cleared db z xxh3_128 json project c) ps)
        → Exact c sel keys d
    put_all_rows-Exact sel keys d step first last = (
      λ k v e.
          elim (put_all_rows_only db z xxh3_128 json project sel keys step
            (cleared db z xxh3_128 json project c) ps k v (sym (ap (λ t. get t k) last) ∙ e)) [
              | inl old ↦ cc (old, ap (λ t. get t k) first, get-empty k)
              | inr (p, i, j) ↦
                  let (stored, h) = In-Rebuilds c (iter c.frames) ps p r i in (stored, p, h, j)
            ],
      λ stored p k h j.
          let (w, g) =
            put_all_rows-found db z xxh3_128 json project sel keys step
              (cleared db z xxh3_128 json project c) ps p k (Derived-In stored p h) j in
          (w, ap (λ t. get t k) last ∙ g),
    )
