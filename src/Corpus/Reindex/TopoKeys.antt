-- ===== src/Corpus/Reindex/TopoKeys.antt =====
-- What src/corpus.rs `reindex` makes of `idx_topo`.
use readcon_db.Base.{ℕ, ◌≡◌, refl, sym, ap, ◌∙◌, ◌⊎◌, inl, inr, Option, none, some, List, [], ◌∷◌}
use mathlib.Core.Path.{subst}
use readcon_db.Zstd.{Zstd}
use readcon_db.Heed.{Heed, Entry, In}
use readcon_db.Heed.Tables.{put_cases, put_self}
use readcon_db.Keys.{FrameKey, from_bytes, topo_key}
use readcon_db.Topology.{TopologyParams, normalize_topo_hex}
use readcon_db.Corpus.{ConCorpus, put_keys}
use readcon_db.Corpus.Build.{FrameIndexProjection}
use readcon_db.Corpus.Commit.{Json}
use readcon_db.Query.Found.{put_keys-kept}
use readcon_db.Corpus.Reindex.{
  clear_topo, put_topo_keys, require_topo_dbs, rebuild_topo, rebuild_idx_topo_from_stored,
}
use readcon_db.Base.Bytes.{Bytes}
use readcon_db.Base.Utf8.{is_utf8}
use readcon_db.Error.{Error, Result, ok, err, utf8, guard, ok_or, >>=-eq-ok, ok_eq}

module _ (db : Heed) (z : Zstd) (xxh3_128 : Bytes → ℕ) (json : Json)
    (project : Bytes → Result FrameIndexProjection) where
  open db use {Table, empty, get, put, iter, get-empty, get-in, in-iter}

  -- The table has the keys of `by`, each in its normal form and with its frame, and no other.
  abbrev pub TopoIndexes : Table → Table → Type 0
  TopoIndexes by t =
      ((k v : Bytes)
        → get t k ≡ some v
        → (b : Bytes) × (raw : Bytes) × (fk : FrameKey) × (hex : Bytes) × (get by b ≡ some raw)
          × (from_bytes b ≡ some fk)
          × (normalize_topo_hex raw ≡ ok hex)
          × (k ≡ topo_key hex fk))
      × ((b raw : Bytes) (fk : FrameKey) (hex : Bytes)
          → get by b ≡ some raw
          → from_bytes b ≡ some fk
          → normalize_topo_hex raw ≡ ok hex
          → (w : Bytes) × (get t (topo_key hex fk) ≡ some w))

  -- `idx_topo` after a reindex: empty, or not there, where no trajectory was annotated.
  abbrev pub TopoReindexed : Option TopologyParams → ConCorpus db → ConCorpus db → Type 0
  TopoReindexed none c d =
      (d.idx_topo ≡ none) ⊎ (t : Table) × (d.idx_topo ≡ some t) × ((k : Bytes) → get t k ≡ none)
  TopoReindexed (some params) c d =
      (t : Table) × (by : Table) × (d.idx_topo ≡ some t)
      × (c.topo_by_frame ≡ some by)
      × TopoIndexes by t

  -- One more entry of `topo_by_frame`: skipped, or put with its key in normal form.
  put_topo_keys_step :
      (t u : Table) (b raw : Bytes) (pairs : List Entry)
      → put_topo_keys db z xxh3_128 json project t ((b, raw) ∷ pairs) ≡ ok u
      → ((from_bytes b ≡ none) × (put_topo_keys db z xxh3_128 json project t pairs ≡ ok u))
        ⊎ (fk : FrameKey) × (hex : Bytes) × (from_bytes b ≡ some fk)
          × (normalize_topo_hex raw ≡ ok hex)
          × (put_topo_keys db z xxh3_128 json project (put t (topo_key hex fk) []) pairs ≡ ok u)
  unfolding put_topo_keys
  put_topo_keys_step t u b raw pairs e = go (from_bytes b) refl
    where
      go :
          (o : Option FrameKey)
          → from_bytes b ≡ o
          → ((from_bytes b ≡ none) × (put_topo_keys db z xxh3_128 json project t pairs ≡ ok u))
            ⊎ (fk : FrameKey) × (hex : Bytes) × (from_bytes b ≡ some fk)
              × (normalize_topo_hex raw ≡ ok hex)
              × (put_topo_keys db z xxh3_128 json project (put t (topo_key hex fk) []) pairs ≡ ok u)
      go none q = inl (q, rw (put_topo_keys, q) at e)
      go (some fk) q =
          let (x, g, e1) = >>=-eq-ok (guard (is_utf8 raw) utf8) _ (rw (put_topo_keys, q) at e) in
          let (hex, m, e2) = >>=-eq-ok (normalize_topo_hex raw) _ e1 in inr (fk, hex, q, m, e2)

  -- The topology keys that are put, on top of those of `t`.
  put_topo_keys-kept :
      (t u : Table) (pairs : List Entry) (k v : Bytes)
      → put_topo_keys db z xxh3_128 json project t pairs ≡ ok u
      → get t k ≡ some v
      → (w : Bytes) × (get u k ≡ some w)
  unfolding put_topo_keys put_keys
  put_topo_keys-kept t u [] k v e h = (v, ap (λ x. get x k) (sym (ok_eq e)) ∙ h)
  put_topo_keys-kept t u ((b, raw) ∷ pairs) k v e h = elim (put_topo_keys_step t u b raw pairs e) [
    | inl (q, e1) ↦ put_topo_keys-kept t u pairs k v e1 h
    | inr (fk, hex, q, m, e1) ↦
        let (w, r) = put_keys-kept db t (topo_key hex fk ∷ []) k v h in
        put_topo_keys-kept (put t (topo_key hex fk) []) u pairs k w e1 r
  ]

  put_topo_keys-found :
      (t u : Table) (pairs : List Entry) (b raw : Bytes) (fk : FrameKey) (hex : Bytes)
      → put_topo_keys db z xxh3_128 json project t pairs ≡ ok u
      → In (b, raw) pairs
      → from_bytes b ≡ some fk
      → normalize_topo_hex raw ≡ ok hex
      → (w : Bytes) × (get u (topo_key hex fk) ≡ some w)
  put_topo_keys-found t u [] b raw fk hex e i q m = absurd i
  put_topo_keys-found t u ((c, rest) ∷ pairs) b raw fk hex e (inr i) q m =
      elim (put_topo_keys_step t u c rest pairs e) [
        | inl (r, e1) ↦ put_topo_keys-found t u pairs b raw fk hex e1 i q m
        | inr (gk, h, r, n, e1) ↦
            put_topo_keys-found (put t (topo_key h gk) []) u pairs b raw fk hex e1 i q m
      ]
  put_topo_keys-found t u ((c, rest) ∷ pairs) b raw fk hex e (inl w) q m =
      let key : b ≡ c = ap (λ (x : Entry). x.0) w in
      let val : raw ≡ rest = ap (λ (x : Entry). x.1) w in
      elim (put_topo_keys_step t u c rest pairs e) [
        | inl (r, e1) ↦ let bad : some fk ≡ none = sym q ∙ ap from_bytes key ∙ r in absurd (cc bad)
        | inr (gk, h, r, n, e1) ↦
            let frame : some gk ≡ some fk = sym r ∙ ap from_bytes (sym key) ∙ q in
            let norm : ok h ≡ ok hex = sym n ∙ ap normalize_topo_hex (sym val) ∙ m in
            let fks : gk ≡ fk = cc frame in
            let at : topo_key h gk ≡ topo_key hex fk =
              ap (λ x. topo_key x gk) (ok_eq norm) ∙ ap (topo_key hex) fks in
            put_topo_keys-kept (put t (topo_key h gk) []) u pairs (topo_key hex fk) [] e1
              (ap (get (put t (topo_key h gk) [])) (sym at) ∙ put_self db t (topo_key h gk) [])
      ]

  put_topo_keys_only :
      (t u : Table) (pairs : List Entry) (k v : Bytes)
      → put_topo_keys db z xxh3_128 json project t pairs ≡ ok u
      → get u k ≡ some v
      → (get t k ≡ some v)
        ⊎ (b : Bytes) × (raw : Bytes) × (fk : FrameKey) × (hex : Bytes) × In (b, raw) pairs
          × (from_bytes b ≡ some fk)
          × (normalize_topo_hex raw ≡ ok hex)
          × (k ≡ topo_key hex fk)
  unfolding put_topo_keys
  put_topo_keys_only t u [] k v e h = inl (ap (λ x. get x k) (ok_eq e) ∙ h)
  put_topo_keys_only t u ((c, rest) ∷ pairs) k v e h =
      elim (put_topo_keys_step t u c rest pairs e) [
        | inl (r, e1) ↦ elim (put_topo_keys_only t u pairs k v e1 h) [
          | inl old ↦ inl old
          | inr (b, raw, fk, hex, i, q, m, at) ↦ inr (b, raw, fk, hex, inr i, q, m, at)
        ]
        | inr (gk, g, r, n, e1) ↦
            elim (put_topo_keys_only (put t (topo_key g gk) []) u pairs k v e1 h) [
              | inr (b, raw, fk, hex, i, q, m, at) ↦ inr (b, raw, fk, hex, inr i, q, m, at)
              | inl old ↦ elim (put_cases db t (topo_key g gk) [] k v old) [
                | inl (same, w) ↦ inr (c, rest, gk, g, inl refl, r, n, sym same)
                | inr (apart, older) ↦ inl older
              ]
            ]
      ]

  pub topo_lem :
      (recorded : Option TopologyParams) (c c1 d : ConCorpus db)
      → c1.idx_topo ≡ clear_topo db z xxh3_128 json project c.idx_topo
      → c1.topo_by_frame ≡ c.topo_by_frame
      → rebuild_topo db z xxh3_128 json project recorded c1 ≡ ok d
      → TopoReindexed recorded c d
  unfolding rebuild_topo rebuild_idx_topo_from_stored require_topo_dbs clear_topo
  topo_lem none c c1 d i b e = go c.idx_topo refl
    where
      at : c1.idx_topo ≡ d.idx_topo
      at = ap (λ (x : ConCorpus db). x.idx_topo) (ok_eq e)

      go : (o : Option Table) → c.idx_topo ≡ o → TopoReindexed none c d
      go none q = inl (sym at ∙ i ∙ ap (clear_topo db z xxh3_128 json project) q)
      go (some t) q =
          inr (empty, sym at ∙ i ∙ ap (clear_topo db z xxh3_128 json project) q, get-empty)
  topo_lem (some params) c c1 d i b e =
      let (dbs, r, e1) = >>=-eq-ok (require_topo_dbs db z xxh3_128 json project c1) _ e in
      let (idx, r1, r2) = >>=-eq-ok (ok_or c1.idx_topo _) _ r in
      let (by, r3, r4) = >>=-eq-ok (ok_or c1.topo_by_frame _) _ r2 in
      let both : (idx, by) ≡ dbs = ok_eq r4 in
      let (t, u, e2) =
        >>=-eq-ok (put_topo_keys db z xxh3_128 json project dbs.0 (iter dbs.1)) _ e1 in
      let at : some t ≡ d.idx_topo = ap (λ (x : ConCorpus db). x.idx_topo) (ok_eq e2) in
      let bare : idx ≡ empty = cleared_empty c.idx_topo idx (sym i ∙ found c1.idx_topo idx _ r1) in
      let puts : put_topo_keys db z xxh3_128 json project empty (iter by) ≡ ok t =
        subst
          (λ (x : Table × Table). put_topo_keys db z xxh3_128 json project x.0 (iter x.1) ≡ ok t)
          (sym both ∙ ap (λ x. (x, by)) bare) u in
      (
        t,
        by,
        sym at,
        sym b ∙ found c1.topo_by_frame by _ r3,
        (
          λ k v h. elim (put_topo_keys_only empty t (iter by) k v puts h) [
            | inl old ↦ absurd (let bad : some v ≡ none = sym old ∙ get-empty k in cc bad)
            | inr (x, raw, fk, hex, j, q, m, w) ↦ (x, raw, fk, hex, get-in by x raw j, q, m, w)
          ],
          λ x raw fk hex h q m.
              put_topo_keys-found empty t (iter by) x raw fk hex puts (in-iter by x raw h) q m,
        ),
      )
    where
      found : (o : Option Table) (x : Table) (y : Error) → ok_or o y ≡ ok x → o ≡ some x
      found none x y s = let bad : err y ≡ ok x = s in cc bad
      found (some w) x y s = ap some (ok_eq s)

      cleared_empty :
          (o : Option Table) (x : Table)
          → clear_topo db z xxh3_128 json project o ≡ some x
          → x ≡ empty
      cleared_empty none x s = let bad : none ≡ some x = s in cc bad
      cleared_empty (some w) x s = let same : some empty ≡ some x = s in cc same
