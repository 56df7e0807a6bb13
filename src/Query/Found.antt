-- ===== src/Query/Found.antt =====
-- The rows of a frame that `build_index_puts` and `put_index_puts` of src/corpus.rs made are those
-- that `select` looks for.
use readcon_db.Base.{
  ℕ, ◌≤◌, ◌≡◌, refl, sym, ap, ◌∙◌, inl, inr, Bool, true, false, some, List, [], ◌∷◌, ◌++◌, arith,
  Bool-cases, length, length-append, take-append, drop-append, take_all,
}
use readcon_db.Base.Bytes.{
  Bytes, IsU32, to_be_bytes, length-to_be_bytes, from_be_bytes-to_be_bytes, starts_with-append,
  bytes_eq, bytes_eq_iff,
}
use readcon_db.Heed.{Heed, Entry, In}
use readcon_db.Heed.Tables.{put_self, put_other}
use readcon_db.Keys.{
  FrameKey, to_bytes, from_bytes, natoms_key, symbol_key, symbol_prefix, elem_count_key,
  elem_count_symbol_prefix,
}
use readcon_db.Keys.Layout.{
  IsFrameKey, from_bytes-to_bytes, length-to_bytes, last_twelve-append,
  parse_elem_count_key-elem_count_key,
}
use readcon_db.Corpus.{ConCorpus, put_keys, put_index_puts}
use readcon_db.Corpus.Build.{
  FrameIndexProjection, keys_of, symbol_keys_of, elem_count_keys_of, has_seen,
}
use readcon_db.Query.Scans.{has_row}
use readcon_db.Query.Sets.{frame_key_eq_iff}
use readcon_db.Query.Spec.{reads, range_row, text_row, count_row, counted}

module _ (db : Heed) where
  open db use {Table, get, put, iter, in-iter}

  has_row-In :
      (test : Bytes → Bool) (k v : Bytes) (rows : List Entry)
      → In (k, v) rows
      → test k ≡ true
      → has_row test rows ≡ true
  unfolding has_row
  has_row-In test k v [] i h = absurd i
  has_row-In test k v ((j, w) ∷ rows) (inl e) h =
      let same : k ≡ j = ap (λ (p : Entry). p.0) e in
      let at : test j ≡ true = rw (← same) h in rw at refl
  has_row-In test k v ((j, w) ∷ rows) (inr i) h = ground (arith, has_row-In test k v rows i h)

  has_row-get :
      (test : Bytes → Bool) (t : Table) (k v : Bytes)
      → get t k ≡ some v
      → test k ≡ true
      → has_row test (iter t) ≡ true
  has_row-get test t k v e h = has_row-In test k v (iter t) (in-iter t k v e) h

  -- A key that is put is there, and stays there.
  pub put_keys-kept :
      (t : Table) (keys : List Bytes) (k v : Bytes)
      → get t k ≡ some v
      → (w : Bytes) × (get (put_keys db t keys) k ≡ some w)
  unfolding put_keys
  put_keys-kept t [] k v e = (v, e)
  put_keys-kept t (j ∷ keys) k v e = elim (Bool-cases (bytes_eq j k)) [
    | inl q ↦
        let same = (bytes_eq_iff j k).0 q in
        put_keys-kept (put t j []) keys k [] (rw (← same) (put_self db t j []))
    | inr q ↦
        put_keys-kept (put t j []) keys k v
          (put_other db t j [] k (λ w. ground (arith, q, bytes_eq_iff j k)) ∙ e)
  ]

  pub put_keys-In :
      (t : Table) (keys : List Bytes) (k : Bytes)
      → In k keys
      → (w : Bytes) × (get (put_keys db t keys) k ≡ some w)
  unfolding put_keys
  put_keys-In t [] k i = absurd i
  put_keys-In t (j ∷ keys) k (inl e) =
      put_keys-kept (put t j []) keys k [] (rw e (put_self db t j []))
  put_keys-In t (j ∷ keys) k (inr i) = put_keys-In (put t j []) keys k i

reads-to_bytes : (fk : FrameKey) → IsFrameKey fk → reads (from_bytes (to_bytes fk)) fk ≡ true
unfolding reads
reads-to_bytes fk h = rw (from_bytes-to_bytes fk h) ((frame_key_eq_iff fk fk).1 refl)

natoms_row :
    (n lo hi : ℕ) (fk : FrameKey)
    → IsU32 n
    → IsFrameKey fk
    → lo ≤ n
    → n ≤ hi
    → range_row 0 4 lo hi fk (natoms_key n fk) ≡ true
unfolding range_row natoms_key
natoms_row n lo hi fk u h a b =
    let front : length (to_be_bytes 4 n) ≡ 4 = length-to_be_bytes 4 n in
    rw
      (
        take-append (to_be_bytes 4 n) (to_bytes fk) 4 front,
        drop-append (to_be_bytes 4 n) (to_bytes fk) 4 front,
        take_all (to_bytes fk) 12 (length-to_bytes fk),
        from_be_bytes-to_be_bytes 4 n u,
        reads-to_bytes fk h,
        length-append (to_be_bytes 4 n) (to_bytes fk),
        front,
        length-to_bytes fk,
      )
      (ground arith)

symbol_row :
    (s : Bytes) (fk : FrameKey)
    → IsFrameKey fk
    → text_row (symbol_prefix s) fk (symbol_key s fk) ≡ true
unfolding text_row symbol_key symbol_prefix
symbol_row s fk h =
    rw
      (
        last_twelve-append (s ++ (0xff ∷ [])) fk,
        starts_with-append (s ++ (0xff ∷ [])) (to_bytes fk),
        reads-to_bytes fk h,
        length-append (s ++ (0xff ∷ [])) (to_bytes fk),
        length-to_bytes fk,
      )
      (ground arith)

elem_count_row :
    (wanted : ℕ → Bool) (s : Bytes) (n : ℕ) (fk : FrameKey)
    → IsU32 n
    → IsFrameKey fk
    → wanted n ≡ true
    → count_row wanted s fk (elem_count_key s n fk) ≡ true
unfolding count_row counted elem_count_symbol_prefix
elem_count_row wanted s n fk u h w =
    rw (parse_elem_count_key-elem_count_key s n fk u h, w, (frame_key_eq_iff fk fk).1 refl)
      (unfold elem_count_key in
        rw (starts_with-append (s ++ (0xff ∷ [])) (to_be_bytes 4 n ++ to_bytes fk)) refl)

has_seen-In : (seen : List Bytes) (s : Bytes) → has_seen seen s ≡ true → In s seen
unfolding has_seen
has_seen-In [] s h = cc
has_seen-In (t ∷ seen) s h = elim (Bool-cases (bytes_eq t s)) [
  | inl q ↦ inl (sym ((bytes_eq_iff t s).0 q))
  | inr q ↦ inr (has_seen-In seen s (ground arith))
]

-- A symbol's key is among the keys, unless the symbol was seen before.
symbol_keys_of-In :
    (fk : FrameKey) (seen : List Bytes) (counts : List (Bytes × ℕ)) (s : Bytes) (n : ℕ)
    → In (s, n) counts
    → has_seen seen s ≡ false
    → In (symbol_key s fk) (symbol_keys_of fk seen counts)
unfolding symbol_keys_of has_seen
symbol_keys_of-In fk seen [] s n i f = absurd i
symbol_keys_of-In fk seen ((t, m) ∷ counts) s n i f = elim (Bool-cases (bytes_eq t s)) [
  | inl q ↦
      let same = (bytes_eq_iff t s).0 q in
      let new : has_seen seen t ≡ false = rw same f in
      rw new (inl (ap (λ u. symbol_key u fk) (sym same)))
  | inr q ↦
      let later : In (s, n) counts = elim i [
        | inl e ↦ absurd (ground (arith, q, bytes_eq_iff t s, ap (λ (p : Bytes × ℕ). p.0) e))
        | inr i' ↦ i'
      ] in
      let rest =
        symbol_keys_of-In fk (t ∷ seen) counts s n later
          (unfold has_seen in ground (arith, q, f)) in
      elim (Bool-cases (has_seen seen t)) [ inl old ↦ rw old rest | inr new ↦ rw new (inr rest) ]
]

elem_count_keys_of-In :
    (fk : FrameKey) (counts : List (Bytes × ℕ)) (s : Bytes) (n : ℕ)
    → In (s, n) counts
    → In (elem_count_key s n fk) (elem_count_keys_of fk counts)
unfolding elem_count_keys_of
elem_count_keys_of-In fk [] s n i = absurd i
elem_count_keys_of-In fk ((t, m) ∷ counts) s n (inl e) =
    let p : s ≡ t = ap (λ (q : Bytes × ℕ). q.0) e in
    let q : n ≡ m = ap (λ (q : Bytes × ℕ). q.1) e in inl (cc (p, q))
elem_count_keys_of-In fk ((t, m) ∷ counts) s n (inr i) = inr (elem_count_keys_of-In fk counts s n i)

module _ (db : Heed) where
  open db use {Table, get, put, iter}

  -- The rows that `build_index_puts` derives and `put_index_puts` writes are those that the scans
  -- of `select` look for: a frame is found by its number of atoms, by each of its symbols, and by
  -- the count of each symbol.
  pub put_index_puts_found :
      (c : ConCorpus db) (fk : FrameKey) (proj : FrameIndexProjection) (stored hash : Bytes)
      (lo hi : ℕ) (s : Bytes) (n : ℕ) (wanted : ℕ → Bool)
      → IsFrameKey fk
      → IsU32 proj.n_atoms
      → lo ≤ proj.n_atoms
      → proj.n_atoms ≤ hi
      → In (s, n) proj.species_counts
      → IsU32 n
      → wanted n ≡ true
      → (has_row
            (range_row 0 4 lo hi fk)
            (iter (put_index_puts db c (keys_of fk proj stored hash)).idx_natoms)
          ≡ true)
        × (has_row
              (text_row (symbol_prefix s) fk)
              (iter (put_index_puts db c (keys_of fk proj stored hash)).idx_symbol)
            ≡ true)
        × (has_row
              (count_row wanted s fk)
              (iter (put_index_puts db c (keys_of fk proj stored hash)).idx_elem_count)
            ≡ true)
  unfolding put_index_puts keys_of
  put_index_puts_found c fk proj stored hash lo hi s n wanted h u a b i un w =
      let (v, e) =
        put_keys-In db c.idx_symbol (symbol_keys_of fk [] proj.species_counts) (symbol_key s fk)
          (symbol_keys_of-In fk [] proj.species_counts s n i (unfold has_seen in refl)) in
      let (v', e') =
        put_keys-In db c.idx_elem_count (elem_count_keys_of fk proj.species_counts)
          (elem_count_key s n fk) (elem_count_keys_of-In fk proj.species_counts s n i) in
      (
        has_row-get db _ _ (natoms_key proj.n_atoms fk) [] (put_self db c.idx_natoms _ [])
            (natoms_row proj.n_atoms lo hi fk u h a b),
        has_row-get db _ _ (symbol_key s fk) v e (symbol_row s fk h),
        has_row-get db _ _ (elem_count_key s n fk) v' e' (elem_count_row wanted s n fk un h w),
      )
