-- ===== src/Corpus/Reindex/Rows.antt =====
-- After src/corpus.rs `reindex`, the secondary indexes have the rows of the frames and no others.
use readcon_db.Base.{ℕ, ◌≡◌, ◌≢◌, refl, sym, ap, ◌∙◌, ◌⊎◌, inl, inr, true, some, List, [], ◌∷◌}
use mathlib.Core.Path.{subst}
use readcon_db.Zstd.{Zstd}
use readcon_db.Heed.{Heed, Entry, In, AllAbove, Ascends}
use readcon_db.Heed.Tables.{put_self, put_other}
use readcon_db.Keys.{to_bytes}
use readcon_db.Corpus.{PreparedIndexPuts, ConCorpus, put_keys}
use readcon_db.Corpus.HashIndex.{put-Agree}
use readcon_db.Corpus.Rewrite.{Apart, Distinct, Fresh, Fresh-put, HashesAgree}
use readcon_db.Corpus.Build.{FrameIndexProjection}
use readcon_db.Corpus.Commit.{Json}
use readcon_db.Query.Found.{put_keys-kept, put_keys-In}
use readcon_db.Corpus.Reindex.{put_rows}
use readcon_db.Corpus.Reindex.Loop.{bytes_ltb_irrefl, put_keys_cases, put_all_rows, Rebuilds}
use readcon_db.Base.Bytes.{Bytes}
use readcon_db.Base.Order.{bytes_ltb}
use readcon_db.Error.{Result}

module _ (db : Heed) (z : Zstd) (xxh3_128 : Bytes → ℕ) (json : Json)
    (project : Bytes → Result FrameIndexProjection) where
  open db use {Table, empty, get, put, iter, get-empty, get-in, in-iter, iter-Ascends}

  -- One of the index tables, and the keys that a frame has in it.
  module _ (sel : ConCorpus db → Table) (keys : PreparedIndexPuts → List Bytes)
      (step : (c : ConCorpus db) (p : PreparedIndexPuts)
        → sel (put_rows db z xxh3_128 json project c p) ≡ put_keys db (sel c) (keys p)) where
    put_all_rows-kept :
        (c : ConCorpus db) (ps : List PreparedIndexPuts) (k v : Bytes)
        → get (sel c) k ≡ some v
        → (w : Bytes) × (get (sel (put_all_rows db z xxh3_128 json project c ps)) k ≡ some w)
    put_all_rows-kept c [] k v e = (v, e)
    put_all_rows-kept c (p ∷ ps) k v e =
        let (w, h) = put_keys-kept db (sel c) (keys p) k v e in
        put_all_rows-kept (put_rows db z xxh3_128 json project c p) ps k w
          (ap (λ t. get t k) (step c p) ∙ h)

    pub put_all_rows-found :
        (c : ConCorpus db) (ps : List PreparedIndexPuts) (p : PreparedIndexPuts) (k : Bytes)
        → In p ps
        → In k (keys p)
        → (w : Bytes) × (get (sel (put_all_rows db z xxh3_128 json project c ps)) k ≡ some w)
    put_all_rows-found c [] p k i j = absurd i
    put_all_rows-found c (q ∷ ps) p k (inl e) j =
        let (w, h) = put_keys-In db (sel c) (keys q) k (subst (λ r. In k (keys r)) e j) in
        put_all_rows-kept (put_rows db z xxh3_128 json project c q) ps k w
          (ap (λ t. get t k) (step c q) ∙ h)
    put_all_rows-found c (q ∷ ps) p k (inr i) j =
        put_all_rows-found (put_rows db z xxh3_128 json project c q) ps p k i j

    pub put_all_rows_only :
        (c : ConCorpus db) (ps : List PreparedIndexPuts) (k v : Bytes)
        → get (sel (put_all_rows db z xxh3_128 json project c ps)) k ≡ some v
        → (get (sel c) k ≡ some v) ⊎ (p : PreparedIndexPuts) × In p ps × In k (keys p)
    put_all_rows_only c [] k v e = inl e
    put_all_rows_only c (q ∷ ps) k v e =
        elim (put_all_rows_only (put_rows db z xxh3_128 json project c q) ps k v e) [
          | inr (p, i, j) ↦ inr (p, inr i, j)
          | inl h ↦
              elim (put_keys_cases db (sel c) (keys q) k v
                (sym (ap (λ t. get t k) (step c q)) ∙ h)) [
                  | inl old ↦ inl old
                  | inr j ↦ inr (q, inl refl, j)
                ]
        ]

  pub put_all_rows-HashesAgree :
      (c : ConCorpus db) (ps : List PreparedIndexPuts)
      → HashesAgree db c []
      → Fresh db c.hash_by_frame ps
      → Distinct ps
      → HashesAgree db (put_all_rows db z xxh3_128 json project c ps) []
  unfolding put_rows
  put_all_rows-HashesAgree c [] a f d = a
  put_all_rows-HashesAgree c (p ∷ ps) a f d =
      put_all_rows-HashesAgree (put_rows db z xxh3_128 json project c p) ps
        (put-Agree db c.hash_by_frame c.frame_by_hash p.fk p.hash a f.0.0 f.0.1 f.1)
        (Fresh-put db c.hash_by_frame p ps d.0 f.2) d.1

  hash_kept :
      (c : ConCorpus db) (p : PreparedIndexPuts) (ps : List PreparedIndexPuts)
      → Apart p ps
      → get (put_all_rows db z xxh3_128 json project c ps).hash_by_frame (to_bytes p.fk)
        ≡ get c.hash_by_frame (to_bytes p.fk)
  unfolding put_rows
  hash_kept c p [] n = refl
  hash_kept c p (q ∷ ps) n =
      hash_kept (put_rows db z xxh3_128 json project c q) p ps n.1
      ∙ put_other db c.hash_by_frame (to_bytes q.fk) q.hash (to_bytes p.fk) (λ e. n.0 (sym e))

  pub hash_found :
      (c : ConCorpus db) (p : PreparedIndexPuts) (ps : List PreparedIndexPuts)
      → Distinct ps
      → In p ps
      → get (put_all_rows db z xxh3_128 json project c ps).hash_by_frame (to_bytes p.fk)
        ≡ some p.hash
  unfolding put_rows
  hash_found c p [] d i = absurd i
  hash_found c p (q ∷ ps) d (inr i) =
      hash_found (put_rows db z xxh3_128 json project c q) p ps d.1 i
  hash_found c p (q ∷ ps) d (inl e) =
      subst
        (λ r.
          get (put_all_rows db z xxh3_128 json project c (q ∷ ps)).hash_by_frame (to_bytes r.fk)
          ≡ some r.hash)
        (sym e)
        (hash_kept (put_rows db z xxh3_128 json project c q) q ps d.0
          ∙ put_self db c.hash_by_frame (to_bytes q.fk) q.hash)

  -- Keys that ascend are distinct.
  Rebuilds-Apart :
      (c : ConCorpus db) (k : Bytes) (p : PreparedIndexPuts) (rows : List Entry)
      (ps : List PreparedIndexPuts)
      → k ≡ to_bytes p.fk
      → AllAbove k rows
      → Rebuilds db z xxh3_128 json project c rows ps
      → Apart p ps
  Rebuilds-Apart c k p [] [] e a r = tt
  Rebuilds-Apart c k p [] (q ∷ ps) e a r = absurd r
  Rebuilds-Apart c k p (row ∷ rows) [] e a r = absurd r
  Rebuilds-Apart c k p ((j, v) ∷ rows) (q ∷ ps) e a r =
      (differ, Rebuilds-Apart c k p rows ps e a.1 r.2)
    where
      differ : to_bytes p.fk ≢ to_bytes q.fk
      differ same =
          let at : j ≡ k = r.0 ∙ sym same ∙ sym e in
          let less : bytes_ltb k k ≡ true = ap (bytes_ltb k) (sym at) ∙ a.0 in
          cc (less, bytes_ltb_irrefl k)

  pub Rebuilds-Distinct :
      (c : ConCorpus db) (rows : List Entry) (ps : List PreparedIndexPuts)
      → Ascends rows
      → Rebuilds db z xxh3_128 json project c rows ps
      → Distinct ps
  Rebuilds-Distinct c [] [] a r = tt
  Rebuilds-Distinct c [] (p ∷ ps) a r = absurd r
  Rebuilds-Distinct c (row ∷ rows) [] a r = absurd r
  Rebuilds-Distinct c ((k, v) ∷ rows) (p ∷ ps) a r =
      (Rebuilds-Apart c k p rows ps r.0 a.0 r.2, Rebuilds-Distinct c rows ps a.1 r.2)
