-- ===== src/Corpus/EncodedKeys.antt =====
-- src/corpus.rs `encode_frame_keys` and the reader of `IngestSession::put_encoded`: a frame's index
-- keys on their way from the rank that derives them to the rank that writes them.
use readcon_db.Base.{
  ℕ, zero, suc, ◌^◌, ◌≡◌, refl, sym, ap, ◌∙◌, inl, inr, Bool, true, false, ◌&&◌, Option, none, some,
  List, [], ◌∷◌, ◌++◌, ltb, ◌==◌, if◌then◌else◌, arith, Bool-cases, ==_iff, length, take, drop,
  length-append, take-append, drop-append,
}
use mathlib.Core.List.{append-nil, append_assoc}
use readcon_db.Base.Bytes.{
  Bytes, IsU32, to_le_bytes, from_le_bytes, length-to_le_bytes, from_le_bytes-to_le_bytes,
}
use readcon_db.Error.{Result, ok, err, message, ◌>>=◌, guard, >>=-eq-ok, ok_eq}
use mathlib.Core.Path.{subst}
use readcon_db.Keys.{FrameKey}
use readcon_db.Corpus.{PreparedIndexPuts, as_slice}

-- `put_u32`: a length, and the bytes.
unfoldable pub put_u32 : Bytes → Result Bytes
put_u32 b =
    if ltb (length b) (2 ^ 32)
    then ok (to_le_bytes 4 (length b) ++ b)
    else err (message "encoded key length exceeds u32::MAX")

unfoldable pub put_items : List Bytes → Result Bytes
put_items [] = ok []
put_items (x ∷ xs) = do a ← put_u32 x; more ← put_items xs; ok (a ++ more)

-- `list`
unfoldable pub put_list : List Bytes → Result Bytes
put_list xs =
    if ltb (length xs) (2 ^ 32)
    then put_items xs >>= (λ items. ok (to_le_bytes 4 (length xs) ++ items))
    else err (message "encoded key list length exceeds u32::MAX")

-- The keys of the row that `build_index_puts` makes, without `fk` and `stored`.
unfoldable pub encode_frame_keys : PreparedIndexPuts → Result Bytes
encode_frame_keys p = do
  symbols ← put_list p.symbol_keys
  counts ← put_list p.elem_count_keys
  formula ← put_list (as_slice p.formula_k)
  energy ← put_list (as_slice p.energy_k)
  fmax ← put_list (as_slice p.fmax_k)
  mass ← put_list (as_slice p.mass_k)
  volume ← put_list (as_slice p.volume_k)
  pbc ← put_list (as_slice p.pbc_k)
  flags ← put_list p.flag_keys
  metas ← put_list p.meta_keys
  ok (
      p.hash
      ++ (p.natoms_k
          ++ (symbols
              ++ (counts
                  ++ (formula
                      ++ (energy ++ (fmax ++ (mass ++ (volume ++ (pbc ++ (flags ++ metas)))))))))))

-- `Rd::take`; a reader is the rest of its bytes.
unfoldable pub take_bytes : ℕ → Bytes → Result (Bytes × Bytes)
take_bytes n rd =
    if ltb (length rd) n
    then err (message "truncated MPI frame record")
    else ok (take n rd, drop n rd)

unfoldable pub read_u32 : Bytes → Result (ℕ × Bytes)
read_u32 rd = do (b, rest) ← take_bytes 4 rd; ok (from_le_bytes b, rest)

unfoldable pub read_items : ℕ → Bytes → Result (List Bytes × Bytes)
read_items zero rd = ok ([], rd)
read_items (suc n) rd = do
  (l, rest) ← read_u32 rd
  (x, rest1) ← take_bytes l rest
  (xs, rest2) ← read_items n rest1
  ok (x ∷ xs, rest2)

unfoldable pub read_list : Bytes → Result (List Bytes × Bytes)
read_list rd = do (n, rest) ← read_u32 rd; read_items n rest

unfoldable pub all_wide : ℕ → List Bytes → Bool
all_wide n [] = true
all_wide n (x ∷ xs) = length x == n && all_wide n xs

-- `fixed::<N>`
unfoldable pub read_fixed : ℕ → Bytes → Result (List Bytes × Bytes)
read_fixed n rd = do
  (xs, rest) ← read_list rd
  wide ← guard (all_wide n xs) (message "bad MPI key width")
  ok (xs, rest)

-- `Vec::pop`
unfoldable pub pop : List Bytes → Option Bytes
pop [] = none
pop (x ∷ []) = some x
pop (x ∷ y ∷ xs) = pop (y ∷ xs)

unfoldable pub decode_frame_keys : FrameKey → Bytes → Bytes → Result PreparedIndexPuts
decode_frame_keys fk enc stored = do
  (hash, r0) ← take_bytes 16 enc
  (natoms_k, r1) ← take_bytes 16 r0
  (symbols, r2) ← read_list r1
  (counts, r3) ← read_list r2
  (formula, r4) ← read_list r3
  (energy, r5) ← read_fixed 20 r4
  (fmax, r6) ← read_fixed 20 r5
  (mass, r7) ← read_fixed 20 r6
  (volume, r8) ← read_fixed 20 r7
  (pbc, r9) ← read_fixed 13 r8
  (flags, r10) ← read_fixed 13 r9
  (metas, r11) ← read_fixed 21 r10
  ok record {
    fk = fk;
    stored = stored;
    hash = hash;
    natoms_k = natoms_k;
    symbol_keys = symbols;
    elem_count_keys = counts;
    formula_k = pop formula;
    energy_k = pop energy;
    fmax_k = pop fmax;
    mass_k = pop mass;
    volume_k = pop volume;
    pbc_k = pop pbc;
    flag_keys = flags;
    meta_keys = metas;
  }

-- What `put_encoded` puts: the rows in their order.
unfoldable pub decode_rows : List (FrameKey × Bytes × Bytes) → Result (List PreparedIndexPuts)
decode_rows [] = ok []
decode_rows ((fk, enc, stored) ∷ rows) = do
  p ← decode_frame_keys fk enc stored
  ps ← decode_rows rows
  ok (p ∷ ps)

take_bytes-append :
    (n : ℕ) (b rest : Bytes) → length b ≡ n → take_bytes n (b ++ rest) ≡ ok (b, rest)
unfolding take_bytes
take_bytes-append n b rest h =
    let enough : ltb (length (b ++ rest)) n ≡ false = ground (arith, length-append b rest) in
    rw (enough, take-append b rest n h, drop-append b rest n h) refl

read_u32-to_le_bytes :
    (n : ℕ) (rest : Bytes) → IsU32 n → read_u32 (to_le_bytes 4 n ++ rest) ≡ ok (n, rest)
unfolding read_u32
read_u32-to_le_bytes n rest u =
    rw
      (
        take_bytes-append 4 (to_le_bytes 4 n) rest (length-to_le_bytes 4 n),
        from_le_bytes-to_le_bytes 4 n (omega (arith, u)),
      )
      refl

put_u32-ok :
    (x v : Bytes) → put_u32 x ≡ ok v → IsU32 (length x) × (v ≡ to_le_bytes 4 (length x) ++ x)
unfolding put_u32
put_u32-ok x v e = elim (Bool-cases (ltb (length x) (2 ^ 32))) [
  | inl p ↦
      let same : ok (to_le_bytes 4 (length x) ++ x) ≡ ok v = rw p at e in
      (ground arith, sym (cc same))
  | inr p ↦
      let bad : err (message "encoded key length exceeds u32::MAX") ≡ ok v = rw p at e in
      absurd (cc bad)
]

read_items-put_items :
    (xs : List Bytes) (v rest : Bytes)
    → put_items xs ≡ ok v
    → read_items (length xs) (v ++ rest) ≡ ok (xs, rest)
unfolding read_items put_items
read_items-put_items [] v rest e = let same : [] ≡ v = cc e in rw (← same) refl
read_items-put_items (x ∷ xs) v rest e =
    let (a, p, e1) = >>=-eq-ok (put_u32 x) _ e in
    let (more, q, e2) = >>=-eq-ok (put_items xs) _ e1 in
    let (u, at) = put_u32-ok x a p in
    let whole : v ++ rest ≡ to_le_bytes 4 (length x) ++ (x ++ (more ++ rest)) =
      ap (λ t. t ++ rest) (sym (cc e2) ∙ ap (λ t. t ++ more) at)
      ∙ append_assoc (to_le_bytes 4 (length x) ++ x) more rest
      ∙ append_assoc (to_le_bytes 4 (length x)) x (more ++ rest) in
    rw
      (
        whole,
        read_u32-to_le_bytes (length x) (x ++ (more ++ rest)) u,
        take_bytes-append (length x) x (more ++ rest) refl,
        read_items-put_items xs more rest q,
      )
      refl

read_list-put_list :
    (xs : List Bytes) (v rest : Bytes) → put_list xs ≡ ok v → read_list (v ++ rest) ≡ ok (xs, rest)
unfolding read_list put_list
read_list-put_list xs v rest e = elim (Bool-cases (ltb (length xs) (2 ^ 32))) [
  | inl p ↦
      let (items, q, e1) = >>=-eq-ok (put_items xs) _ (rw p at e) in
      let whole : v ++ rest ≡ to_le_bytes 4 (length xs) ++ (items ++ rest) =
        ap (λ t. t ++ rest) (sym (cc e1)) ∙ append_assoc (to_le_bytes 4 (length xs)) items rest in
      rw
        (
          whole,
          read_u32-to_le_bytes (length xs) (items ++ rest) (ground arith),
          read_items-put_items xs items rest q,
        )
        refl
  | inr p ↦
      let bad : err (message "encoded key list length exceeds u32::MAX") ≡ ok v = rw p at e in
      absurd (cc bad)
]

-- Every key is `n` bytes wide.
abbrev pub AreWide : ℕ → List Bytes → Type 0
AreWide n [] = Unit
AreWide n (x ∷ xs) = (length x ≡ n) × AreWide n xs

all_wide-AreWide : (n : ℕ) (xs : List Bytes) → AreWide n xs → all_wide n xs ≡ true
unfolding all_wide
all_wide-AreWide n [] h = refl
all_wide-AreWide n (x ∷ xs) h =
    ground (arith, (==_iff (length x) n).1 h.0, all_wide-AreWide n xs h.1)

read_fixed-put_list :
    (n : ℕ) (xs : List Bytes) (v rest : Bytes)
    → AreWide n xs
    → put_list xs ≡ ok v
    → read_fixed n (v ++ rest) ≡ ok (xs, rest)
unfolding read_fixed
read_fixed-put_list n xs v rest w e =
    rw (read_list-put_list xs v rest e, all_wide-AreWide n xs w) refl

pop-as_slice : (o : Option Bytes) → pop (as_slice o) ≡ o
unfolding pop
pop-as_slice none = refl
pop-as_slice (some k) = refl

-- The widths that the types of the fields give.
pub record AreKeys (p : PreparedIndexPuts) : Type 0 where
  pub hash : length p.hash ≡ 16
  pub natoms : length p.natoms_k ≡ 16
  pub energy : AreWide 20 (as_slice p.energy_k)
  pub fmax : AreWide 20 (as_slice p.fmax_k)
  pub mass : AreWide 20 (as_slice p.mass_k)
  pub volume : AreWide 20 (as_slice p.volume_k)
  pub pbc : AreWide 13 (as_slice p.pbc_k)
  pub flags : AreWide 13 p.flag_keys
  pub metas : AreWide 21 p.meta_keys

-- The steps of the reader, from what each of them reads.
decode_steps :
    (p : PreparedIndexPuts) (enc r0 r1 r2 r3 r4 r5 r6 r7 r8 r9 r10 r11 : Bytes)
    → take_bytes 16 enc ≡ ok (p.hash, r0)
    → take_bytes 16 r0 ≡ ok (p.natoms_k, r1)
    → read_list r1 ≡ ok (p.symbol_keys, r2)
    → read_list r2 ≡ ok (p.elem_count_keys, r3)
    → read_list r3 ≡ ok (as_slice p.formula_k, r4)
    → read_fixed 20 r4 ≡ ok (as_slice p.energy_k, r5)
    → read_fixed 20 r5 ≡ ok (as_slice p.fmax_k, r6)
    → read_fixed 20 r6 ≡ ok (as_slice p.mass_k, r7)
    → read_fixed 20 r7 ≡ ok (as_slice p.volume_k, r8)
    → read_fixed 13 r8 ≡ ok (as_slice p.pbc_k, r9)
    → read_fixed 13 r9 ≡ ok (p.flag_keys, r10)
    → read_fixed 21 r10 ≡ ok (p.meta_keys, r11)
    → decode_frame_keys p.fk enc p.stored ≡ ok p
unfolding decode_frame_keys
decode_steps p enc r0 r1 r2 r3 r4 r5 r6 r7 r8 r9 r10 r11 h0 h1 h2 h3 h4 h5 h6 h7 h8 h9 h10 h11 =
    rw
      (
        h0,
        h1,
        h2,
        h3,
        h4,
        h5,
        h6,
        h7,
        h8,
        h9,
        h10,
        h11,
        pop-as_slice p.formula_k,
        pop-as_slice p.energy_k,
        pop-as_slice p.fmax_k,
        pop-as_slice p.mass_k,
        pop-as_slice p.volume_k,
        pop-as_slice p.pbc_k,
      )
      refl

-- The index keys of a frame are decoded on the writing rank as they were on the rank that encoded
-- them: with the frame key and the stored value they make the same row.
pub decode_frame_keys-encode_frame_keys :
    (p : PreparedIndexPuts) (enc : Bytes)
    → AreKeys p
    → encode_frame_keys p ≡ ok enc
    → decode_frame_keys p.fk enc p.stored ≡ ok p
unfolding encode_frame_keys
decode_frame_keys-encode_frame_keys p enc w e =
    let (symbols, s1, e1) = >>=-eq-ok (put_list p.symbol_keys) _ e in
    let (counts, s2, e2) = >>=-eq-ok (put_list p.elem_count_keys) _ e1 in
    let (formula, s3, e3) = >>=-eq-ok (put_list (as_slice p.formula_k)) _ e2 in
    let (energy, s4, e4) = >>=-eq-ok (put_list (as_slice p.energy_k)) _ e3 in
    let (fmax, s5, e5) = >>=-eq-ok (put_list (as_slice p.fmax_k)) _ e4 in
    let (mass, s6, e6) = >>=-eq-ok (put_list (as_slice p.mass_k)) _ e5 in
    let (volume, s7, e7) = >>=-eq-ok (put_list (as_slice p.volume_k)) _ e6 in
    let (pbc, s8, e8) = >>=-eq-ok (put_list (as_slice p.pbc_k)) _ e7 in
    let (flags, s9, e9) = >>=-eq-ok (put_list p.flag_keys) _ e8 in
    let (metas, s10, e10) = >>=-eq-ok (put_list p.meta_keys) _ e9 in
    let last : read_fixed 21 metas ≡ ok (p.meta_keys, []) =
      subst (λ m. read_fixed 21 m ≡ ok (p.meta_keys, [])) (append-nil metas)
        (read_fixed-put_list 21 p.meta_keys metas [] w.metas s10) in
    let at : p.hash
          ++ (p.natoms_k
              ++ (symbols
                  ++ (counts
                      ++ (formula
                          ++ (energy
                              ++ (fmax ++ (mass ++ (volume ++ (pbc ++ (flags ++ metas))))))))))
        ≡ enc =
      ok_eq e10 in
    subst (λ b. decode_frame_keys p.fk b p.stored ≡ ok p) at
      (decode_steps p _ _ _ _ _ _ _ _ _ _ _ _ _ (take_bytes-append 16 p.hash _ w.hash)
        (take_bytes-append 16 p.natoms_k _ w.natoms) (read_list-put_list p.symbol_keys symbols _ s1)
        (read_list-put_list p.elem_count_keys counts _ s2)
        (read_list-put_list (as_slice p.formula_k) formula _ s3)
        (read_fixed-put_list 20 (as_slice p.energy_k) energy _ w.energy s4)
        (read_fixed-put_list 20 (as_slice p.fmax_k) fmax _ w.fmax s5)
        (read_fixed-put_list 20 (as_slice p.mass_k) mass _ w.mass s6)
        (read_fixed-put_list 20 (as_slice p.volume_k) volume _ w.volume s7)
        (read_fixed-put_list 13 (as_slice p.pbc_k) pbc _ w.pbc s8)
        (read_fixed-put_list 13 p.flag_keys flags _ w.flags s9) last)
