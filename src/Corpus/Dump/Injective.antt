-- ===== src/Corpus/Dump/Injective.antt =====
-- The dump of src/corpus.rs `canonical_dump` tells corpora apart.
use readcon_db.Base.{
  ◌≡◌, ◌≢◌, refl, sym, ap, ◌∙◌, Bool, true, false, ◌&&◌, ◌||◌, Option, none, some, List, [], ◌∷◌,
  ◌++◌, arith, length, take, drop, All, length-append, take-append, drop-append,
}
use mathlib.Core.List.{append_assoc}
use readcon_db.Base.Bytes.{
  Bytes, IsU64, to_le_bytes, from_le_bytes, length-to_le_bytes, from_le_bytes-to_le_bytes, bytes_eq,
}
use mathlib.Core.Path.{subst}
use readcon_db.Heed.{Heed, Entry}
use readcon_db.Corpus.{ConCorpus}
use readcon_db.Corpus.Dump.{
  Name, Named, dump_part, dump_rows, dump_tables, push_table, tables, canonical_dump, n_frames,
  n_traj_meta, n_idx_natoms, n_idx_symbol, n_idx_energy, n_idx_flags, n_idx_elem_count,
  n_idx_formula, n_idx_fmax, n_idx_mass, n_idx_volume, n_idx_pbc, n_idx_meta, n_frame_by_hash,
  n_hash_by_frame, n_frames_soa, n_idx_topo, n_topo_by_frame,
}

-- The parts of a dump, each under its length.
unfoldable pub row_parts : List Entry → List Bytes → List Bytes
row_parts [] rest = rest
row_parts ((k, v) ∷ rows) rest = k ∷ v ∷ row_parts rows rest

unfoldable pub parts : List Named → List Bytes
parts [] = []
parts ((name, rows) ∷ ts) = name ∷ row_parts rows (parts ts)

unfoldable dump_parts : List Bytes → Bytes
dump_parts [] = []
dump_parts (p ∷ ps) = dump_part p ++ dump_parts ps

dump_rows-row_parts :
    (rows : List Entry) (rest : List Bytes)
    → dump_rows rows ++ dump_parts rest ≡ dump_parts (row_parts rows rest)
unfolding dump_rows dump_parts row_parts
dump_rows-row_parts [] rest = refl
dump_rows-row_parts ((k, v) ∷ rows) rest =
    append_assoc (dump_part k) (dump_part v ++ dump_rows rows) (dump_parts rest)
    ∙ ap (λ t. dump_part k ++ t)
        (append_assoc (dump_part v) (dump_rows rows) (dump_parts rest)
          ∙ ap (λ t. dump_part v ++ t) (dump_rows-row_parts rows rest))

dump_tables-parts : (ts : List Named) → dump_tables ts ≡ dump_parts (parts ts)
unfolding dump_tables dump_parts parts
dump_tables-parts [] = refl
dump_tables-parts ((name, rows) ∷ ts) =
    ap (λ t. dump_part name ++ t)
      (ap (λ t. dump_rows rows ++ t) (dump_tables-parts ts) ∙ dump_rows-row_parts rows (parts ts))

-- Lengths fit the eight bytes.
abbrev pub Fit : List Bytes → Type 0
Fit ps = All (λ p. IsU64 (length p)) ps

part_not_nil : (p : Bytes) (rest : Bytes) → dump_part p ++ rest ≢ []
unfolding dump_part
part_not_nil p rest e = omega (
  arith,
  ap length e,
  length-append (to_le_bytes 8 (length p) ++ p) rest,
  length-append (to_le_bytes 8 (length p)) p,
  length-to_le_bytes 8 (length p),
)

split_part :
    (p : Bytes) (rest : Bytes)
    → IsU64 (length p)
    → (from_le_bytes (take 8 (dump_part p ++ rest)) ≡ length p)
      × (drop 8 (dump_part p ++ rest) ≡ p ++ rest)
unfolding dump_part
split_part p rest u =
    let e = append_assoc (to_le_bytes 8 (length p)) p rest in
    let len = length-to_le_bytes 8 (length p) in
    (
      rw (e, take-append (to_le_bytes 8 (length p)) (p ++ rest) 8 len)
          (from_le_bytes-to_le_bytes 8 (length p) (omega (arith, u))),
      rw e (drop-append (to_le_bytes 8 (length p)) (p ++ rest) 8 len),
    )

dump_parts_injective :
    (ps qs : List Bytes) → Fit ps → Fit qs → dump_parts ps ≡ dump_parts qs → ps ≡ qs
unfolding dump_parts
dump_parts_injective [] [] f g e = refl
dump_parts_injective [] (q ∷ qs) f g e = absurd (part_not_nil q (dump_parts qs) (sym e))
dump_parts_injective (p ∷ ps) [] f g e = absurd (part_not_nil p (dump_parts ps) e)
dump_parts_injective (p ∷ ps) (q ∷ qs) f g e =
    let (lp, dp) = split_part p (dump_parts ps) f.0 in
    let (lq, dq) = split_part q (dump_parts qs) g.0 in
    let len : length p ≡ length q = sym lp ∙ ap (λ b. from_le_bytes (take 8 b)) e ∙ lq in
    let body : p ++ dump_parts ps ≡ q ++ dump_parts qs = sym dp ∙ ap (drop 8) e ∙ dq in
    let head : p ≡ q =
      sym (take-append p (dump_parts ps) (length p) refl)
      ∙ ap (take (length p)) body
      ∙ take-append q (dump_parts qs) (length p) (sym len) in
    let tail : dump_parts ps ≡ dump_parts qs =
      sym (drop-append p (dump_parts ps) (length p) refl)
      ∙ ap (drop (length p)) body
      ∙ drop-append q (dump_parts qs) (length p) (sym len) in
    cc (head, dump_parts_injective ps qs f.1 g.1 tail)

-- No key is the name of a table that may come next, and the tables are in an order.
module _ (after : Name → Bytes → Bool) where
  abbrev pub NoName : Name → List Entry → Type 0
  NoName name [] = Unit
  NoName name ((k, v) ∷ rows) = (after name k ≡ false) × NoName name rows

  abbrev NextOf : Name → List Named → Type 0
  NextOf name [] = Unit
  NextOf name ((next, rows) ∷ ts) = after name next ≡ true

  abbrev pub Told : List Named → Type 0
  Told [] = Unit
  Told ((name, rows) ∷ ts) = NoName name rows × Told ts

  abbrev InOrder : List Named → Type 0
  InOrder [] = Unit
  InOrder ((name, rows) ∷ ts) = NextOf name ts × InOrder ts

  not_row :
      (name : Name) (k v : Bytes) (rows : List Entry) (ts : List Named) (rest : List Bytes)
      → after name k ≡ false
      → NextOf name ts
      → parts ts ≢ k ∷ rest
  unfolding parts
  not_row name k v rows [] rest h n e = cc e
  not_row name k v rows ((next, r) ∷ ts) rest h n e = let same : next ≡ k = cc e in cc (same, h, n)

  rows_injective :
      (name : Name) (rows rows' : List Entry) (ts ts' : List Named)
      → NoName name rows
      → NoName name rows'
      → NextOf name ts
      → NextOf name ts'
      → row_parts rows (parts ts) ≡ row_parts rows' (parts ts')
      → (rows ≡ rows') × (parts ts ≡ parts ts')
  unfolding row_parts
  rows_injective name [] [] ts ts' a b n m e = (refl, e)
  rows_injective name [] ((k, v) ∷ rows') ts ts' a b n m e =
      absurd (not_row name k v rows' ts (v ∷ row_parts rows' (parts ts')) b.0 n e)
  rows_injective name ((k, v) ∷ rows) [] ts ts' a b n m e =
      absurd (not_row name k v rows ts' (v ∷ row_parts rows (parts ts)) a.0 m (sym e))
  rows_injective name ((k, v) ∷ rows) ((j, w) ∷ rows') ts ts' a b n m e =
      let key : k ≡ j = cc e in
      let value : v ≡ w = cc e in
      let rest : row_parts rows (parts ts) ≡ row_parts rows' (parts ts') = cc e in
      let (p, q) = rows_injective name rows rows' ts ts' a.1 b.1 n m rest in (cc (key, value, p), q)

  parts_injective :
      (ts ts' : List Named)
      → Told ts
      → Told ts'
      → InOrder ts
      → InOrder ts'
      → parts ts ≡ parts ts'
      → ts ≡ ts'
  unfolding parts
  parts_injective [] [] a b n m e = refl
  parts_injective [] ((name, rows) ∷ ts') a b n m e = cc e
  parts_injective ((name, rows) ∷ ts) [] a b n m e = cc e
  parts_injective ((name, rows) ∷ ts) ((name', rows') ∷ ts') a b n m e =
      let same : name ≡ name' = cc e in
      let rest : row_parts rows (parts ts) ≡ row_parts rows' (parts ts') = cc e in
      let (p, q) =
        rows_injective name rows rows' ts ts' a.0 (subst (λ x. NoName x rows') (sym same) b.0) n.0
          (subst (λ x. NextOf x ts') (sym same) m.0) rest in
      cc (same, p, parts_injective ts ts' a.1 b.1 n.1 m.1 q)

-- A table and one that may come next: the two of the topology may be missing.
abbrev next_pairs : List (Name × Name)
next_pairs =
    (n_frames, n_traj_meta)
    ∷ (n_traj_meta, n_idx_natoms)
    ∷ (n_idx_natoms, n_idx_symbol)
    ∷ (n_idx_symbol, n_idx_energy)
    ∷ (n_idx_energy, n_idx_flags)
    ∷ (n_idx_flags, n_idx_elem_count)
    ∷ (n_idx_elem_count, n_idx_formula)
    ∷ (n_idx_formula, n_idx_fmax)
    ∷ (n_idx_fmax, n_idx_mass)
    ∷ (n_idx_mass, n_idx_volume)
    ∷ (n_idx_volume, n_idx_pbc)
    ∷ (n_idx_pbc, n_idx_meta)
    ∷ (n_idx_meta, n_frame_by_hash)
    ∷ (n_frame_by_hash, n_hash_by_frame)
    ∷ (n_hash_by_frame, n_frames_soa)
    ∷ (n_frames_soa, n_idx_topo)
    ∷ (n_idx_topo, n_topo_by_frame)
    ∷ (n_frames_soa, n_topo_by_frame)
    ∷ []

abbrev pair_in : List (Name × Name) → Name → Bytes → Bool
pair_in [] name key = false
pair_in ((a, b) ∷ more) name key = (bytes_eq a name && bytes_eq b key) || pair_in more name key

unfoldable pub follows : Name → Bytes → Bool
follows = pair_in next_pairs

module _ (db : Heed) where
  last_tables :
      (o u : Option (db.Table))
      → NextOf follows n_frames_soa (push_table db n_idx_topo o ++ push_table db n_topo_by_frame u)
        × InOrder follows (push_table db n_idx_topo o ++ push_table db n_topo_by_frame u)
  unfolding push_table follows bytes_eq
  last_tables none none = (tt, tt)
  last_tables none (some u) = (refl, (tt, tt))
  last_tables (some t) none = (refl, (tt, tt))
  last_tables (some t) (some u) = (refl, (refl, (tt, tt)))

  tables-InOrder : (c : ConCorpus db) → InOrder follows (tables db c)
  unfolding tables push_table follows bytes_eq
  tables-InOrder c = (
    refl,
    (
      refl,
      (
        refl,
        (
          refl,
          (
            refl,
            (
              refl,
              (
                refl,
                (
                  refl,
                  (
                    refl,
                    (
                      refl,
                      (
                        refl,
                        (refl, (refl, (refl, (refl, last_tables c.idx_topo c.topo_by_frame)))),
                      ),
                    ),
                  ),
                ),
              ),
            ),
          ),
        ),
      ),
    ),
  )

  -- Two corpora whose dumps are the same bytes have the same tables, row by row: under lengths of
  -- 64 bits, and where no key of a table is the name of a table that may come next. So a digest
  -- of the dump compares corpora.
  pub canonical_dump_injective :
      (c c' : ConCorpus db)
      → Fit (parts (tables db c))
      → Fit (parts (tables db c'))
      → Told follows (tables db c)
      → Told follows (tables db c')
      → canonical_dump db c ≡ canonical_dump db c'
      → tables db c ≡ tables db c'
  unfolding canonical_dump
  canonical_dump_injective c c' f g a b e =
      parts_injective follows (tables db c) (tables db c') a b (tables-InOrder c)
        (tables-InOrder c')
        (dump_parts_injective (parts (tables db c)) (parts (tables db c')) f g
          (sym (dump_tables-parts (tables db c)) ∙ e ∙ dump_tables-parts (tables db c')))
