-- ===== src/Query/Scans.antt =====
-- The scans of src/corpus.rs `select` against a test of every row: a `break` at a number above the
-- range passes over no row that counts, since the keys ascend.
use readcon_db.Base.{
  ℕ, zero, suc, ◌+◌, ◌*◌, ◌<◌, ◌≤◌, ◌≡◌, ◌≢◌, refl, inl, inr, Bool, true, false, ◌||◌, Option, none,
  some, List, [], ◌∷◌, ltb, arith, Bool-cases, length, take, slice, All,
}
use readcon_db.Base.Bytes.{Bytes, IsByte, from_be_bytes}
use readcon_db.Base.Order.{bytes_ltb}
use readcon_db.Keys.{FrameKey, TrajId, from_bytes, frame_key_eq}
use readcon_db.Scan.{
  Step, continue, break, found, scan, KeySet, insert, contains, insert_if_some, range_step,
}
use readcon_db.Query.Sets.{contains-insert}
use readcon_db.Heed.{Entry, Ascends, AllAbove}
use readcon_db.Base.Bytes.{be_onto}

unfoldable pub has_row : (Bytes → Bool) → List Entry → Bool
has_row test [] = false
has_row test ((k, v) ∷ rest) = test k || has_row test rest

abbrev pub AllKeys : List Entry → Type 0
AllKeys [] = Unit
AllKeys ((k, v) ∷ rest) = All IsByte k × AllKeys rest

unfoldable pub step_names : Step → FrameKey → Bool
step_names continue x = false
step_names break x = false
step_names (found fk) x = frame_key_eq fk x

-- After a `break` no row counts.
abbrev pub Harmless : (Bytes → Step) → List Entry → Type 0
Harmless body [] = Unit
Harmless body ((k, v) ∷ rest) =
    (body k ≡ break → (x : FrameKey) → has_row (λ j. step_names (body j) x) rest ≡ false)
    × Harmless body rest

pub contains-scan :
    (body : Bytes → Step) (rows : List Entry) (s : KeySet) (x : FrameKey)
    → Harmless body rows
    → contains (scan body rows s) x ≡ (contains s x || has_row (λ j. step_names (body j) x) rows)
unfolding scan has_row
contains-scan body [] s x h = ground arith
contains-scan body ((k, v) ∷ rest) s x h =
    go (body k) refl (contains-scan body rest s x h.1)
      (λ fk. contains-scan body rest (insert fk s) x h.1)
  where
    go :
        (o : Step)
        → body k ≡ o
        → contains (scan body rest s) x
          ≡ (contains s x || has_row (λ j. step_names (body j) x) rest)
        → ((fk : FrameKey)
            → contains (scan body rest (insert fk s)) x
              ≡ (contains (insert fk s) x || has_row (λ j. step_names (body j) x) rest))
        → contains (scan body ((k, v) ∷ rest) s) x
          ≡ (contains s x || has_row (λ j. step_names (body j) x) ((k, v) ∷ rest))
    go continue e same more = rw (e, scan) (unfold step_names in same)
    go break e same more = rw (e, scan) (unfold step_names in ground (arith, h.0 e x))
    go (found fk) e same more =
        rw (e, scan) (unfold step_names in ground (arith, more fk, contains-insert fk s x))

-- The numbers in front of keys that ascend do not descend.
be_onto_lt :
    (w a b : ℕ) (xs ys : Bytes)
    → All IsByte xs
    → All IsByte ys
    → w ≤ length xs
    → w ≤ length ys
    → a < b
    → be_onto a (take w xs) < be_onto b (take w ys)
unfolding be_onto
be_onto_lt zero a b xs ys hx hy lx ly h = h
be_onto_lt (suc w) a b [] ys hx hy lx ly h = absurd (omega arith)
be_onto_lt (suc w) a b (x ∷ xs) [] hx hy lx ly h = absurd (omega arith)
be_onto_lt (suc w) a b (x ∷ xs) (y ∷ ys) hx hy lx ly h =
    let hx0 = hx.0 in
    be_onto_lt w (a * 256 + x) (b * 256 + y) xs ys hx.1 hy.1 (omega arith) (omega arith)
      (omega arith)

be_onto_le :
    (w a : ℕ) (xs ys : Bytes)
    → All IsByte xs
    → All IsByte ys
    → w ≤ length xs
    → w ≤ length ys
    → bytes_ltb xs ys ≡ true
    → be_onto a (take w xs) ≤ be_onto a (take w ys)
unfolding be_onto bytes_ltb
be_onto_le zero a xs ys hx hy lx ly h = omega arith
be_onto_le (suc w) a [] ys hx hy lx ly h = absurd (omega arith)
be_onto_le (suc w) a (x ∷ xs) [] hx hy lx ly h = absurd (omega arith)
be_onto_le (suc w) a (x ∷ xs) (y ∷ ys) hx hy lx ly h = elim (Bool-cases (ltb x y)) [
  | inl p ↦
      let less =
        be_onto_lt w (a * 256 + x) (a * 256 + y) xs ys hx.1 hy.1 (omega arith) (omega arith)
          (ground arith) in
      omega (arith, less)
  | inr p ↦
      let e : x ≡ y = ground arith in
      let tail : bytes_ltb xs ys ≡ true = ground arith in
      rw e (be_onto_le w (a * 256 + y) xs ys hx.1 hy.1 (omega arith) (omega arith) tail)
]

pub front_le :
    (w : ℕ) (xs ys : Bytes)
    → All IsByte xs
    → All IsByte ys
    → w ≤ length xs
    → w ≤ length ys
    → bytes_ltb xs ys ≡ true
    → from_be_bytes (take w xs) ≤ from_be_bytes (take w ys)
unfolding from_be_bytes
front_le w xs ys hx hy lx ly h = be_onto_le w 0 xs ys hx hy lx ly h

module _ (w lo hi : ℕ) (traj : Option TrajId) where
  -- The last row of the range is behind a key above it.
  past_range :
      (k : Bytes) (rows : List Entry) (x : FrameKey)
      → All IsByte k
      → w ≤ length k
      → hi < from_be_bytes (take w k)
      → AllAbove k rows
      → AllKeys rows
      → has_row (λ j. step_names (range_step w lo hi traj j) x) rows ≡ false
  unfolding has_row range_step step_names
  past_range k [] x hk lk above ab ks = refl
  past_range k ((j, v) ∷ rows) x hk lk above ab ks =
      let ih = past_range k rows x hk lk above ab.1 ks.1 in
      elim (Bool-cases (ltb (length j) (w + 12))) [
        | inl p ↦ rw p ih
        | inr p ↦
            let le = front_le w k j hk ks.0 lk (ground arith) ab.0 in
            let q : ltb hi (from_be_bytes (take w j)) ≡ true = ground (arith, le) in rw (p, q) ih
      ]

  insert_not_break : (o : Option FrameKey) → insert_if_some traj o ≢ break
  unfolding insert_if_some
  insert_not_break none h = cc
  insert_not_break (some fk) h = ground arith

  break_iff :
      (k : Bytes)
      → range_step w lo hi traj k ≡ break
      → (w ≤ length k) × (hi < from_be_bytes (take w k))
  unfolding range_step
  break_iff k h = ground (arith, insert_not_break (from_bytes (slice w (w + 12) k)))

  pub range_step-Harmless :
      (rows : List Entry) → Ascends rows → AllKeys rows → Harmless (range_step w lo hi traj) rows
  range_step-Harmless [] h ks = tt
  range_step-Harmless ((k, v) ∷ rows) h ks = (
    λ e x. let b = break_iff k e in past_range k rows x ks.0 b.0 b.1 h.0 ks.1,
    range_step-Harmless rows h.1 ks.1,
  )
