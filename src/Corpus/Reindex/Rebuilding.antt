-- ===== src/Corpus/Reindex/Rebuilding.antt =====
-- The whole of src/corpus.rs `reindex`: its result has the indexes of its frames.
use readcon_db.Base.{ℕ, ◌≡◌, refl, sym, ap, ◌∙◌, Option, none, some, List, [], ◌∷◌}
use mathlib.Core.Path.{subst}
use readcon_db.Zstd.{Zstd}
use readcon_db.Heed.{Heed, Entry}
use readcon_db.Keys.{to_bytes}
use readcon_db.Corpus.{PreparedIndexPuts, as_slice, ConCorpus, put_keys}
use readcon_db.Corpus.HashIndex.{IsKey}
use readcon_db.Corpus.Rewrite.{Fresh, HashesAgree}
use readcon_db.Corpus.Build.{FrameIndexProjection}
use readcon_db.Keys.Layout.{to_bytes_injective}
use readcon_db.Corpus.Read.{stored_in}
use readcon_db.Corpus.Commit.{Json}
use readcon_db.Corpus.Reindex.{
  clear_topo, clear_secondary, put_rows, rebuild, reindex_loop, rebuild_topo,
  rebuild_idx_topo_from_stored, require_topo_dbs, put_topo_keys, collected_topo_params, cleared,
  reindex,
}
use readcon_db.Topology.{TopologyParams}
use readcon_db.Corpus.Reindex.Loop.{Derived_hash, put_all_rows, Rebuilds, reindex_loop-Rebuilds}
use readcon_db.Corpus.Reindex.Rows.{put_all_rows-HashesAgree, hash_found, Rebuilds-Distinct}
use readcon_db.Corpus.Reindex.Exact.{Rebuilt, AreFrames-iter, Rebuilds-In, put_all_rows-Exact}
use readcon_db.Base.Bytes.{Bytes}
use readcon_db.Error.{Result, ok, >>=-eq-ok, ok_eq}

module _ (db : Heed) (z : Zstd) (xxh3_128 : Bytes → ℕ) (json : Json)
    (project : Bytes → Result FrameIndexProjection) where
  open db use {Table, empty, get, put, iter, get-empty, get-in, in-iter, iter-Ascends}

  empty-HashesAgree : (c : ConCorpus db) → HashesAgree db (cleared db z xxh3_128 json project c) []
  unfolding cleared clear_secondary
  empty-HashesAgree c = record {
    row_key = λ k h e. cc (e, get-empty k);
    row_hash = λ k h e. cc (e, get-empty k);
    known = λ k h e. cc (e, get-empty k);
    posting_key = λ h b e. cc (e, get-empty h);
    posted = λ h b e. cc (e, get-empty h);
  }

  Rebuilds-Fresh :
      (c : ConCorpus db) (rows : List Entry) (ps : List PreparedIndexPuts)
      → Rebuilds db z xxh3_128 json project c rows ps
      → Fresh db (cleared db z xxh3_128 json project c).hash_by_frame ps
  unfolding cleared clear_secondary
  Rebuilds-Fresh c rows [] r = tt
  Rebuilds-Fresh c [] (p ∷ ps) r = absurd r
  Rebuilds-Fresh c ((k, v) ∷ rows) (p ∷ ps) r = (
    (r.1.0, Derived_hash db z xxh3_128 json project c v p r.1),
    get-empty (to_bytes p.fk),
    Rebuilds-Fresh c rows ps r.2,
  )

  put_all_rows_frames :
      (c : ConCorpus db) (ps : List PreparedIndexPuts)
      → (put_all_rows db z xxh3_128 json project c ps).frames ≡ c.frames
  unfolding put_rows
  put_all_rows_frames c [] = refl
  put_all_rows_frames c (p ∷ ps) = put_all_rows_frames (put_rows db z xxh3_128 json project c p) ps

  -- Only `idx_topo` changes when it is rebuilt.
  rebuild_topo_same :
      (params : Option TopologyParams) (c d : ConCorpus db)
      → rebuild_topo db z xxh3_128 json project params c ≡ ok d
      → (t : Option Table) × (record c { idx_topo = t } ≡ d)
  unfolding rebuild_topo rebuild_idx_topo_from_stored
  rebuild_topo_same none c d e = (c.idx_topo, ok_eq e)
  rebuild_topo_same (some params) c d e =
      let (dbs, q, e1) = >>=-eq-ok (require_topo_dbs db z xxh3_128 json project c) _ e in
      let (t, u, e2) =
        >>=-eq-ok (put_topo_keys db z xxh3_128 json project dbs.0 (iter dbs.1)) _ e1 in
      (some t, ok_eq e2)

  entries :
      (c c1 : ConCorpus db) (m : ℕ)
      → ((k v : Bytes) → get c.frames k ≡ some v → IsKey k)
      → reindex_loop db z xxh3_128 json project
          (cleared db z xxh3_128 json project c)
          (iter c.frames)
        ≡ ok (c1, m)
      → (ps : List PreparedIndexPuts) × (put_all_rows db z xxh3_128 json project
            (cleared db z xxh3_128 json project c)
            ps
          ≡ c1)
        × Rebuilds db z xxh3_128 json project c (iter c.frames) ps
  unfolding cleared clear_secondary rebuild stored_in
  entries c c1 m key q =
      reindex_loop-Rebuilds db z xxh3_128 json project (cleared db z xxh3_128 json project c) c1
        (iter c.frames) m
        (AreFrames-iter db z xxh3_128 json project c (iter c.frames) key
          (λ k v i. get-in c.frames k v i))
        q

  rebuilt :
      (c : ConCorpus db) (topo : Option Table) (ps : List PreparedIndexPuts)
      → Rebuilds db z xxh3_128 json project c (iter c.frames) ps
      → Rebuilt db z xxh3_128 json project c
          (record (put_all_rows db z xxh3_128 json project
            (cleared db z xxh3_128 json project c)
            ps) { idx_topo = topo })
  unfolding cleared clear_secondary put_rows put_keys
  rebuilt c topo ps r =
      let d : ConCorpus db =
        record (put_all_rows db z xxh3_128 json project (cleared db z xxh3_128 json project c) ps) {
          idx_topo = topo;
        } in
      let exact = put_all_rows-Exact db z xxh3_128 json project c ps r in
      let distinct =
        Rebuilds-Distinct db z xxh3_128 json project c (iter c.frames) ps (iter-Ascends c.frames)
          r in
      record {
        same_frames = put_all_rows_frames (cleared db z xxh3_128 json project c) ps;
        hashes =
            put_all_rows-HashesAgree db z xxh3_128 json project
              (cleared db z xxh3_128 json project c) ps (empty-HashesAgree c)
              (Rebuilds-Fresh c (iter c.frames) ps r) distinct;
        derived = λ fk stored fits at.
            let (p, i, w, h) =
              Rebuilds-In db z xxh3_128 json project c (iter c.frames) ps (to_bytes fk) stored r
                (in-iter c.frames (to_bytes fk) stored at) in
            let same = to_bytes_injective p.fk fk h.0 fits (sym w) in
            (
              p,
              same,
              h,
              ap (get d.hash_by_frame) w
                  ∙ hash_found db z xxh3_128 json project (cleared db z xxh3_128 json project c) p
                      ps distinct i,
            );
        natoms = exact (λ x. x.idx_natoms) (λ p. p.natoms_k ∷ []) d (λ y p. refl) refl refl;
        symbol = exact (λ x. x.idx_symbol) (λ p. p.symbol_keys) d (λ y p. refl) refl refl;
        elem_count =
            exact (λ x. x.idx_elem_count) (λ p. p.elem_count_keys) d (λ y p. refl) refl refl;
        formula = exact (λ x. x.idx_formula) (λ p. as_slice p.formula_k) d (λ y p. refl) refl refl;
        energy = exact (λ x. x.idx_energy) (λ p. as_slice p.energy_k) d (λ y p. refl) refl refl;
        flags = exact (λ x. x.idx_flags) (λ p. p.flag_keys) d (λ y p. refl) refl refl;
        fmax = exact (λ x. x.idx_fmax) (λ p. as_slice p.fmax_k) d (λ y p. refl) refl refl;
        mass = exact (λ x. x.idx_mass) (λ p. as_slice p.mass_k) d (λ y p. refl) refl refl;
        volume = exact (λ x. x.idx_volume) (λ p. as_slice p.volume_k) d (λ y p. refl) refl refl;
        pbc = exact (λ x. x.idx_pbc) (λ p. as_slice p.pbc_k) d (λ y p. refl) refl refl;
        meta = exact (λ x. x.idx_meta) (λ p. p.meta_keys) d (λ y p. refl) refl refl;
      }

  put_all_rows_topo :
      (c : ConCorpus db) (ps : List PreparedIndexPuts)
      → ((put_all_rows db z xxh3_128 json project c ps).idx_topo ≡ c.idx_topo)
        × ((put_all_rows db z xxh3_128 json project c ps).topo_by_frame ≡ c.topo_by_frame)
  unfolding put_rows
  put_all_rows_topo c [] = (refl, refl)
  put_all_rows_topo c (p ∷ ps) = put_all_rows_topo (put_rows db z xxh3_128 json project c p) ps

  -- What `reindex` comes to: tables that are exact, and a last step for the topology on a corpus in
  -- which `idx_topo` is cleared.
  pub reindex-Rebuilt :
      (c d : ConCorpus db) (n : ℕ)
      → ((k v : Bytes) → get c.frames k ≡ some v → IsKey k)
      → reindex db z xxh3_128 json project c ≡ ok (d, n)
      → Rebuilt db z xxh3_128 json project c d
        × (recorded : Option TopologyParams) × (c1 : ConCorpus db) × (collected_topo_params db z
              xxh3_128 json project c
            ≡ ok recorded)
        × (c1.idx_topo ≡ clear_topo db z xxh3_128 json project c.idx_topo)
        × (c1.topo_by_frame ≡ c.topo_by_frame)
        × (rebuild_topo db z xxh3_128 json project recorded c1 ≡ ok d)
  unfolding reindex cleared clear_secondary
  reindex-Rebuilt c d n key e =
      let (recorded, t, e1) = >>=-eq-ok (collected_topo_params db z xxh3_128 json project c) _ e in
      let (looped, q, e2) =
        >>=-eq-ok
          (reindex_loop db z xxh3_128 json project (cleared db z xxh3_128 json project c)
            (iter c.frames))
          _ e1 in
      let (d1, u, e3) =
        >>=-eq-ok (rebuild_topo db z xxh3_128 json project recorded looped.0) _ e2 in
      let (topo, same) = rebuild_topo_same recorded looped.0 d1 u in
      let (ps, built, r) = entries c looped.0 looped.1 key q in
      let last : d1 ≡ d = ap (λ (x : ConCorpus db × ℕ). x.0) (ok_eq e3) in
      let at : record (put_all_rows db z xxh3_128 json project
            (cleared db z xxh3_128 json project c) ps) { idx_topo = topo }
          ≡ d =
        ap (λ (x : ConCorpus db). record x { idx_topo = topo }) built ∙ same ∙ last in
      let (i, b) = put_all_rows_topo (cleared db z xxh3_128 json project c) ps in
      (
        subst (Rebuilt db z xxh3_128 json project c) at (rebuilt c topo ps r),
        recorded,
        looped.0,
        t,
        ap (λ (x : ConCorpus db). x.idx_topo) (sym built) ∙ i,
        ap (λ (x : ConCorpus db). x.topo_by_frame) (sym built) ∙ b,
        u ∙ ap ok last,
      )
