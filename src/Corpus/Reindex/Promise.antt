-- ===== src/Corpus/Reindex/Promise.antt =====
-- What src/corpus.rs `reindex` promises, said of the frames alone: every index has the keys of the
-- frames and no other, and so has `idx_topo` of the keys that are stored by frame.
use readcon_db.Base.{ℕ, ◌≡◌, refl, sym, ap, ◌∙◌, ◌↔◌, Option, none, some, List, [], ◌∷◌}
use mathlib.Core.Path.{subst}
use readcon_db.Zstd.{Zstd}
use readcon_db.Heed.{Heed, In}
use readcon_db.Keys.{FrameKey, to_bytes, hash_frame_bytes, natoms_key, pbc_key, pbc_mask_from_bools}
use readcon_db.Keys.Float.{energy_bin_key, mass_bin_key, volume_bin_key}
use readcon_db.Keys.Layout.{IsFrameKey}
use readcon_db.Topology.{TopologyParams}
use readcon_db.Codec.{decode_frame}
use readcon_db.Corpus.{PreparedIndexPuts, as_slice, ConCorpus}
use readcon_db.Corpus.HashIndex.{IsKey}
use readcon_db.Corpus.Rewrite.{HashesAgree}
use readcon_db.Corpus.Build.{FrameIndexProjection, keys_of}
use readcon_db.Corpus.Read.{stored_in, get_frame_text_txn}
use readcon_db.Corpus.Commit.{Json}
use readcon_db.Corpus.Reindex.{rows_of, rebuild, collected_topo_params, reindex}
use readcon_db.Corpus.Reindex.Loop.{Derived}
use readcon_db.Corpus.Reindex.Exact.{Exact}
use readcon_db.Corpus.Reindex.Rebuilding.{reindex-Rebuilt}
use readcon_db.Corpus.Reindex.TopoKeys.{TopoReindexed, topo_lem}
use readcon_db.Corpus.Reindex.Keys.{
  NatomsKey, SymbolKey, ElemCountKey, FormulaKey, EnergyKey, FmaxKey, MassKey, VolumeKey, PbcKey,
  FlagKey, MetaKey, single_iff, option_iff, symbols_iff, counts_iff, formula_iff, fmax_iff,
  flags_iff, metas_iff,
}
use readcon_db.Base.Bytes.{Bytes}
use readcon_db.Error.{Error, Result, ok, err, ok_or, >>=-eq-ok, ok_eq}

module _ (db : Heed) (z : Zstd) (xxh3_128 : Bytes → ℕ) (json : Json)
    (project : Bytes → Result FrameIndexProjection) where
  open db use {Table, empty, get, put, iter, get-empty, get-in, in-iter}

  -- A frame of the corpus, its text and its scalars.
  abbrev pub FrameOf : ConCorpus db → FrameKey → Bytes → FrameIndexProjection → Type 0
  FrameOf c fk text proj =
      IsFrameKey fk × (get_frame_text_txn db z xxh3_128 c fk ≡ ok text) × (project text ≡ ok proj)

  -- The table has the keys that `wanted` says of the frames, and no other.
  abbrev pub Indexes :
      ConCorpus db → (FrameIndexProjection → FrameKey → Bytes → Type 0) → Table → Type 0
  Indexes c wanted t =
      ((k v : Bytes)
        → get t k ≡ some v
        → (fk : FrameKey) × (text : Bytes) × (proj : FrameIndexProjection) × FrameOf c fk text proj
          × wanted proj fk k)
      × ((fk : FrameKey) (text : Bytes) (proj : FrameIndexProjection) (k : Bytes)
          → FrameOf c fk text proj
          → wanted proj fk k
          → (w : Bytes) × (get t k ≡ some w))

  pub record Reindexed (c d : ConCorpus db) : Type 0 where
    pub same_frames : d.frames ≡ c.frames
    pub hashes : HashesAgree db d []
    pub readable :
        (fk : FrameKey) (stored : Bytes)
        → IsFrameKey fk
        → get c.frames (to_bytes fk) ≡ some stored
        → (text : Bytes) × (proj : FrameIndexProjection) × FrameOf c fk text proj
          × (get d.hash_by_frame (to_bytes fk) ≡ some (hash_frame_bytes xxh3_128 text))
    pub natoms : Indexes c NatomsKey d.idx_natoms
    pub symbol : Indexes c SymbolKey d.idx_symbol
    pub elem_count : Indexes c ElemCountKey d.idx_elem_count
    pub formula : Indexes c FormulaKey d.idx_formula
    pub energy : Indexes c EnergyKey d.idx_energy
    pub flags : Indexes c FlagKey d.idx_flags
    pub fmax : Indexes c FmaxKey d.idx_fmax
    pub mass : Indexes c MassKey d.idx_mass
    pub volume : Indexes c VolumeKey d.idx_volume
    pub pbc : Indexes c PbcKey d.idx_pbc
    pub meta : Indexes c MetaKey d.idx_meta

  abbrev derived_rows : FrameKey → FrameIndexProjection → Bytes → Bytes → PreparedIndexPuts
  derived_rows fk proj stored text = rows_of fk proj stored (hash_frame_bytes xxh3_128 text)

  Derived-FrameOf :
      (c : ConCorpus db) (stored : Bytes) (p : PreparedIndexPuts)
      → Derived db z xxh3_128 json project c stored p
      → (text : Bytes) × (proj : FrameIndexProjection) × FrameOf c p.fk text proj
        × (derived_rows p.fk proj stored text ≡ p)
  unfolding rebuild get_frame_text_txn stored_in
  Derived-FrameOf c stored p (fits, at, r) =
      let (text, t, r1) = >>=-eq-ok (decode_frame z stored _) _ r in
      let (proj, q, r2) = >>=-eq-ok (project text) _ r1 in
      (text, proj, (fits, rw at t, q), ok_eq r2)

  FrameOf-Derived :
      (c : ConCorpus db) (fk : FrameKey) (text : Bytes) (proj : FrameIndexProjection)
      → FrameOf c fk text proj
      → (stored : Bytes) × Derived db z xxh3_128 json project c stored
          (derived_rows fk proj stored text)
  unfolding rebuild get_frame_text_txn stored_in rows_of keys_of
  FrameOf-Derived c fk text proj (fits, t, q) =
      let (stored, s, t1) = >>=-eq-ok (ok_or (get c.frames (to_bytes fk)) _) _ t in
      (stored, (fits, found (get c.frames (to_bytes fk)) stored _ s, rw (t1, q) refl))
    where
      found : (o : Option Bytes) (b : Bytes) (e : Error) → ok_or o e ≡ ok b → o ≡ some b
      found none b e s = let bad : err e ≡ ok b = s in cc bad
      found (some x) b e s = ap some (ok_eq s)

  Exact-Indexes :
      (c d : ConCorpus db) (sel : ConCorpus db → Table) (keys : PreparedIndexPuts → List Bytes)
      (wanted : FrameIndexProjection → FrameKey → Bytes → Type 0)
      → ((fk : FrameKey) (proj : FrameIndexProjection) (stored text k : Bytes)
          → In k (keys (derived_rows fk proj stored text)) ↔ wanted proj fk k)
      → Exact db z xxh3_128 json project c sel keys d
      → Indexes c wanted (sel d)
  Exact-Indexes c d sel keys wanted same (only, all) = (
    λ k v e.
        let (stored, p, h, i) = only k v e in
        let (text, proj, f, at) = Derived-FrameOf c stored p h in
        (
          p.fk,
          text,
          proj,
          f,
          (same p.fk proj stored text k).0 (subst (λ r. In k (keys r)) (sym at) i),
        ),
    λ fk text proj k f w.
        let (stored, h) = FrameOf-Derived c fk text proj f in
        all stored (derived_rows fk proj stored text) k h ((same fk proj stored text k).1 w),
  )

  -- A reindex puts the indexes right, whatever was in them: where the keys of `frames` are frame
  -- keys and `reindex` succeeds, it leaves the frames as they are; every frame was read and has its
  -- hash, and the two hash tables agree; each of the eleven index tables has, for every frame, the
  -- keys that its scalars give, and no other key; and `idx_topo` has the keys that are stored by
  -- frame and no other where a trajectory was annotated, and none where none was.
  pub reindex-Reindexed :
      (c d : ConCorpus db) (n : ℕ)
      → ((k v : Bytes) → get c.frames k ≡ some v → IsKey k)
      → reindex db z xxh3_128 json project c ≡ ok (d, n)
      → Reindexed c d
        × (recorded : Option TopologyParams) × (collected_topo_params db z xxh3_128 json project c
            ≡ ok recorded)
        × TopoReindexed db z xxh3_128 json project recorded c d
  unfolding rows_of keys_of
  reindex-Reindexed c d n key e =
      let (r, recorded, c1, p, i, b, u) = reindex-Rebuilt db z xxh3_128 json project c d n key e in
      (
        record {
          same_frames = r.same_frames;
          hashes = r.hashes;
          readable = λ fk stored fits at.
              let (p, same, h, row) = r.derived fk stored fits at in
              let (text, proj, f, w) = Derived-FrameOf c stored p h in
              (
                text,
                proj,
                subst (λ x. FrameOf c x text proj) same f,
                row ∙ ap (λ (x : PreparedIndexPuts). some x.hash) (sym w),
              );
          natoms =
              Exact-Indexes c d (λ x. x.idx_natoms) (λ p. p.natoms_k ∷ []) NatomsKey
                (λ fk proj s t k. single_iff k (natoms_key proj.n_atoms fk)) r.natoms;
          symbol =
              Exact-Indexes c d (λ x. x.idx_symbol) (λ p. p.symbol_keys) SymbolKey
                (λ fk proj s t k. symbols_iff fk proj.species_counts k) r.symbol;
          elem_count =
              Exact-Indexes c d (λ x. x.idx_elem_count) (λ p. p.elem_count_keys) ElemCountKey
                (λ fk proj s t k. counts_iff fk proj.species_counts k) r.elem_count;
          formula =
              Exact-Indexes c d (λ x. x.idx_formula) (λ p. as_slice p.formula_k) FormulaKey
                (λ fk proj s t k. formula_iff fk proj.formula k) r.formula;
          energy =
              Exact-Indexes c d (λ x. x.idx_energy) (λ p. as_slice p.energy_k) EnergyKey
                (λ fk proj s t k. option_iff proj.energy (λ e. energy_bin_key e fk) k) r.energy;
          flags =
              Exact-Indexes c d (λ x. x.idx_flags) (λ p. p.flag_keys) FlagKey
                (λ fk proj s t k. flags_iff fk proj k) r.flags;
          fmax =
              Exact-Indexes c d (λ x. x.idx_fmax) (λ p. as_slice p.fmax_k) FmaxKey
                (λ fk proj s t k. fmax_iff proj.has_forces proj.fmax fk k) r.fmax;
          mass =
              Exact-Indexes c d (λ x. x.idx_mass) (λ p. as_slice p.mass_k) MassKey
                (λ fk proj s t k. option_iff proj.total_mass (λ m. mass_bin_key m fk) k) r.mass;
          volume =
              Exact-Indexes c d (λ x. x.idx_volume) (λ p. as_slice p.volume_k) VolumeKey
                (λ fk proj s t k. option_iff proj.cell_volume (λ v. volume_bin_key v fk) k)
                r.volume;
          pbc =
              Exact-Indexes c d (λ x. x.idx_pbc) (λ p. as_slice p.pbc_k) PbcKey
                (λ fk proj s t k.
                  option_iff proj.pbc (λ m. some (pbc_key (pbc_mask_from_bools m) fk)) k)
                r.pbc;
          meta =
              Exact-Indexes c d (λ x. x.idx_meta) (λ p. p.meta_keys) MetaKey
                (λ fk proj s t k. metas_iff fk proj k) r.meta;
        },
        recorded,
        p,
        topo_lem db z xxh3_128 json project recorded c c1 d i b u,
      )
