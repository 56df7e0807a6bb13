-- ===== src/Corpus/Reindex/Loop.antt =====
-- What src/corpus.rs `reindex` writes: the rows of `put_rows`, frame by frame.
use readcon_db.Base.{
  ℕ, ◌≡◌, refl, sym, ap, ◌∙◌, ◌⊎◌, inl, inr, false, some, List, [], ◌∷◌, arith, length,
}
use mathlib.Core.Path.{subst}
use readcon_db.Zstd.{Zstd}
use readcon_db.Heed.{Heed, Entry, In}
use readcon_db.Heed.Tables.{put_cases}
use readcon_db.Keys.{FrameKey, to_bytes, hash_frame_bytes}
use readcon_db.Keys.Layout.{IsFrameKey}
use readcon_db.Codec.{decode_frame}
use readcon_db.Corpus.{PreparedIndexPuts, ConCorpus, put_keys}
use readcon_db.Corpus.HashIndex.{IsKey, IsKey-from_bytes}
use readcon_db.Corpus.Build.{FrameIndexProjection, keys_of}
use readcon_db.Corpus.Read.{stored_in}
use readcon_db.Corpus.Commit.{Json}
use readcon_db.Corpus.Reindex.{rows_of, put_rows, rebuild, reindex_loop}
use readcon_db.Base.Bytes.{Bytes, length-to_le_bytes}
use readcon_db.Base.Order.{bytes_ltb}
use readcon_db.Error.{Result, ok, >>=-eq-ok, ok_eq}

pub bytes_ltb_irrefl : (k : Bytes) → bytes_ltb k k ≡ false
unfolding bytes_ltb
bytes_ltb_irrefl [] = refl
bytes_ltb_irrefl (b ∷ k) = ground (arith, bytes_ltb_irrefl k)

module _ (db : Heed) where
  open db use {Table, get, put}

  -- A key that is there after the puts was put, or was there before.
  pub put_keys_cases :
      (t : Table) (keys : List Bytes) (k v : Bytes)
      → get (put_keys db t keys) k ≡ some v
      → (get t k ≡ some v) ⊎ In k keys
  unfolding put_keys
  put_keys_cases t [] k v e = inl e
  put_keys_cases t (j ∷ keys) k v e = elim (put_keys_cases (put t j []) keys k v e) [
    | inr i ↦ inr (inr i)
    | inl h ↦ elim (put_cases db t j [] k v h) [
      | inl (same, w) ↦ inr (inl (sym same))
      | inr (n, old) ↦ inl old
    ]
  ]

module _ (db : Heed) (z : Zstd) (xxh3_128 : Bytes → ℕ) (json : Json)
    (project : Bytes → Result FrameIndexProjection) where
  open db use {Table, empty, get, put, iter, get-empty}

  abbrev pub put_all_rows : ConCorpus db → List PreparedIndexPuts → ConCorpus db
  put_all_rows c [] = c
  put_all_rows c (p ∷ ps) = put_all_rows (put_rows db z xxh3_128 json project c p) ps

  -- `p` has the rows that a frame with the value `stored` gives.
  abbrev pub Derived : ConCorpus db → Bytes → PreparedIndexPuts → Type 0
  Derived c stored p =
      IsFrameKey p.fk
      × (get c.frames (to_bytes p.fk) ≡ some stored)
      × (rebuild db z xxh3_128 json project c p.fk stored ≡ ok p)

  -- Each entry of `frames` has its rows.
  abbrev pub Rebuilds : ConCorpus db → List Entry → List PreparedIndexPuts → Type 0
  Rebuilds c [] [] = Unit
  Rebuilds c [] (p ∷ ps) = ⊥
  Rebuilds c (row ∷ rows) [] = ⊥
  Rebuilds c ((k, v) ∷ rows) (p ∷ ps) = (k ≡ to_bytes p.fk) × Derived c v p × Rebuilds c rows ps

  -- The entries have frame keys, and are those of `frames`.
  abbrev pub AreFrames : ConCorpus db → List Entry → Type 0
  AreFrames c [] = Unit
  AreFrames c ((k, v) ∷ rows) = IsKey k × (get c.frames k ≡ some v) × AreFrames c rows

  rebuild-fk :
      (c : ConCorpus db) (fk : FrameKey) (stored : Bytes) (p : PreparedIndexPuts)
      → rebuild db z xxh3_128 json project c fk stored ≡ ok p
      → (p.fk ≡ fk) × (length p.hash ≡ 16)
  unfolding rebuild rows_of keys_of hash_frame_bytes
  rebuild-fk c fk stored p e =
      let (text, t, e1) = >>=-eq-ok (decode_frame z stored _) _ e in
      let (proj, q, e2) = >>=-eq-ok (project text) _ e1 in
      let same = ok_eq e2 in
      (
        sym (ap (λ (r : PreparedIndexPuts). r.fk) same),
        sym (ap (λ (r : PreparedIndexPuts). length r.hash) same)
            ∙ length-to_le_bytes 16 (xxh3_128 text),
      )

  pub Derived_hash :
      (c : ConCorpus db) (stored : Bytes) (p : PreparedIndexPuts)
      → Derived c stored p
      → length p.hash ≡ 16
  Derived_hash c stored p d = (rebuild-fk c p.fk stored p d.2).1

  pub reindex_loop-Rebuilds :
      (c c' : ConCorpus db) (rows : List Entry) (n : ℕ)
      → AreFrames c rows
      → reindex_loop db z xxh3_128 json project c rows ≡ ok (c', n)
      → (ps : List PreparedIndexPuts) × (put_all_rows c ps ≡ c') × Rebuilds c rows ps
  unfolding reindex_loop put_rows rebuild stored_in
  reindex_loop-Rebuilds c c' [] n a e = ([], ap (λ (q : ConCorpus db × ℕ). q.0) (ok_eq e), tt)
  reindex_loop-Rebuilds c c' ((k, v) ∷ rows) n (key, at, a) e =
      let (p, r, e1) =
        >>=-eq-ok (rebuild db z xxh3_128 json project c key.fk v) _
          (rw (reindex_loop, IsKey-from_bytes k key, at) at e) in
      let (next, q, e2) =
        >>=-eq-ok
          (reindex_loop db z xxh3_128 json project (put_rows db z xxh3_128 json project c p) rows) _
          e1 in
      let (ps, same, more) =
        reindex_loop-Rebuilds (put_rows db z xxh3_128 json project c p) next.0 rows next.1 a q in
      let (fk, h16) = rebuild-fk c key.fk v p r in
      (
        p ∷ ps,
        same ∙ ap (λ (q : ConCorpus db × ℕ). q.0) (ok_eq e2),
        (
          key.at ∙ ap to_bytes (sym fk),
          (
            subst IsFrameKey (sym fk) key.fits,
            ap (get c.frames) (sym (key.at ∙ ap to_bytes (sym fk))) ∙ at,
            subst (λ x. rebuild db z xxh3_128 json project c x v ≡ ok p) (sym fk) r,
          ),
          more,
        ),
      )
