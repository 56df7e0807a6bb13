-- ===== src/Query/Rows.antt =====
-- One step of each scan of src/corpus.rs `select` against the test of Query/Spec for its row, and
-- a whole set against the test of all rows.
use readcon_db.Base.{
  ℕ, ◌+◌, ◌-◌, ◌≡◌, ◌≢◌, refl, ap, inl, inr, Bool, ◌&&◌, Option, none, some, List, [], ◌∷◌, arith,
  Bool-cases, length, drop, slice,
}
use readcon_db.Base.Bytes.{Bytes, starts_with}
use readcon_db.Keys.{
  FrameKey, TrajId, from_bytes, frame_key_eq, parse_elem_count_key, elem_count_symbol_prefix,
}
use readcon_db.Heed.{Entry, Ascends, with_prefix}
use readcon_db.Scan.{
  Step, break, scan, contains, is_of_traj, insert_if_some, range_step, meta_step, text_step,
  byte_step, count_step, frame_step,
}
use readcon_db.Query.Sets.{frame_key_eq_iff}
use readcon_db.Query.Scans.{
  has_row, AllKeys, step_names, Harmless, contains-scan, range_step-Harmless,
}
use readcon_db.Query.Spec.{reads, range_row, text_row, byte_row, counted, count_row}

-- With one test of the frame in front of the test of the row.
pub has_row-split :
    (f g : Bytes → Bool) (b : Bool) (rows : List Entry)
    → ((k : Bytes) → f k ≡ (b && g k))
    → has_row f rows ≡ (b && has_row g rows)
unfolding has_row
has_row-split f g b [] h = ground arith
has_row-split f g b ((k, v) ∷ rows) h = ground (arith, h k, has_row-split f g b rows h)

pub has_row-with_prefix :
    (f g : Bytes → Bool) (b : Bool) (prefix : Bytes) (rows : List Entry)
    → ((k : Bytes) → (f k && starts_with k prefix) ≡ (b && g k))
    → has_row f (with_prefix prefix rows) ≡ (b && has_row g rows)
unfolding has_row
has_row-with_prefix f g b prefix [] h = ground arith
has_row-with_prefix f g b prefix ((k, v) ∷ rows) h =
    let ih = has_row-with_prefix f g b prefix rows h in
    elim (Bool-cases (starts_with k prefix)) [
      | inl q ↦ rw q (ground (arith, h k, ih))
      | inr q ↦ rw q (ground (arith, h k, ih))
    ]

module _ (traj : Option TrajId) (x : FrameKey) where
  pub names-insert_if_some :
      (o : Option FrameKey)
      → step_names (insert_if_some traj o) x ≡ (is_of_traj traj x && reads o x)
  unfolding step_names insert_if_some reads
  names-insert_if_some none = ground arith
  names-insert_if_some (some fk) = elim (Bool-cases (frame_key_eq fk x)) [
    | inl q ↦ let e = ap (is_of_traj traj) ((frame_key_eq_iff fk x).0 q) in ground (arith, e)
    | inr q ↦ ground arith
  ]

  names-range_step :
      (w lo hi : ℕ) (k : Bytes)
      → step_names (range_step w lo hi traj k) x ≡ (is_of_traj traj x && range_row 0 w lo hi x k)
  unfolding range_step range_row step_names
  names-range_step w lo hi k =
      ground (arith, names-insert_if_some (from_bytes (slice w (w + 12) k)))

  names-meta_step :
      (lo hi ch : ℕ) (k : Bytes)
      → (step_names (meta_step lo hi traj k) x && starts_with k (ch ∷ []))
        ≡ (is_of_traj traj x && (starts_with k (ch ∷ []) && range_row 1 8 lo hi x k))
  unfolding meta_step range_row step_names
  names-meta_step lo hi ch k = ground (arith, names-insert_if_some (from_bytes (slice 9 21 k)))

  names-text_step :
      (prefix k : Bytes)
      → (step_names (text_step traj k) x && starts_with k prefix)
        ≡ (is_of_traj traj x && text_row prefix x k)
  unfolding text_step text_row step_names
  names-text_step prefix k =
      ground (arith, names-insert_if_some (from_bytes (drop (length k - 12) k)))

  names-byte_step :
      (b : ℕ) (k : Bytes)
      → (step_names (byte_step traj k) x && starts_with k (b ∷ []))
        ≡ (is_of_traj traj x && byte_row b x k)
  unfolding byte_step byte_row step_names
  names-byte_step b k = ground (arith, names-insert_if_some (from_bytes (slice 1 13 k)))

  names-count_step :
      (wanted : ℕ → Bool) (symbol k : Bytes)
      → (step_names (count_step wanted symbol traj k) x
          && starts_with k (elem_count_symbol_prefix symbol))
        ≡ (is_of_traj traj x && count_row wanted symbol x k)
  unfolding count_step count_row step_names counted
  names-count_step wanted symbol k = go (parse_elem_count_key k symbol) refl
    where
      go :
          (o : Option (ℕ × FrameKey))
          → parse_elem_count_key k symbol ≡ o
          → (step_names (count_step wanted symbol traj k) x
              && starts_with k (elem_count_symbol_prefix symbol))
            ≡ (is_of_traj traj x && count_row wanted symbol x k)
      go none e = rw (e, count_step, count_row) (ground arith)
      go (some (n, fk)) e =
          rw (e, count_step, count_row)
            (elim (Bool-cases (frame_key_eq fk x)) [
              | inl q ↦
                  let p = ap (is_of_traj traj) ((frame_key_eq_iff fk x).0 q) in ground (arith, p)
              | inr q ↦ ground arith
            ])

-- A set that a loop builds holds the frames for which a row counts, in the trajectory asked for.
module _ (traj : Option TrajId) (x : FrameKey) where
  -- Scans without a `break`.
  steady :
      (body : Bytes → Step) (rows : List Entry)
      → ((k : Bytes) → body k ≢ break)
      → Harmless body rows
  steady body [] h = tt
  steady body ((k, v) ∷ rest) h = ((λ e. absurd (h k e)), steady body rest h)

  pub contains-steady_scan :
      (body : Bytes → Step) (test : Bytes → Bool) (prefix : Bytes) (rows : List Entry)
      → ((k : Bytes) → body k ≢ break)
      → ((k : Bytes)
          → (step_names (body k) x && starts_with k prefix) ≡ (is_of_traj traj x && test k))
      → contains (scan body (with_prefix prefix rows) []) x
        ≡ (is_of_traj traj x && has_row test rows)
  unfolding contains
  contains-steady_scan body test prefix rows h e = ground (
    arith,
    contains-scan body (with_prefix prefix rows) [] x (steady body (with_prefix prefix rows) h),
    has_row-with_prefix (λ k. step_names (body k) x) test (is_of_traj traj x) prefix rows e,
  )

  pub contains-range_scan :
      (w lo hi : ℕ) (rows : List Entry)
      → Ascends rows
      → AllKeys rows
      → contains (scan (range_step w lo hi traj) rows []) x
        ≡ (is_of_traj traj x && has_row (range_row 0 w lo hi x) rows)
  unfolding contains
  contains-range_scan w lo hi rows h ks = ground (
    arith,
    contains-scan (range_step w lo hi traj) rows [] x (range_step-Harmless w lo hi traj rows h ks),
    has_row-split (λ k. step_names (range_step w lo hi traj k) x) (range_row 0 w lo hi x)
        (is_of_traj traj x) rows (names-range_step traj x w lo hi),
  )

  insert_not_break : (o : Option FrameKey) → insert_if_some traj o ≢ break
  unfolding insert_if_some
  insert_not_break none h = cc
  insert_not_break (some fk) h = ground arith

  module _ (rows : List Entry) where
    pub contains-text_scan :
        (prefix : Bytes)
        → contains (scan (text_step traj) (with_prefix prefix rows) []) x
          ≡ (is_of_traj traj x && has_row (text_row prefix x) rows)
    unfolding text_step
    contains-text_scan prefix =
        contains-steady_scan (text_step traj) (text_row prefix x) prefix rows
          (λ k e. ground (arith, insert_not_break (from_bytes (drop (length k - 12) k))))
          (names-text_step traj x prefix)

    pub contains-byte_scan :
        (b : ℕ)
        → contains (scan (byte_step traj) (with_prefix (b ∷ []) rows) []) x
          ≡ (is_of_traj traj x && has_row (byte_row b x) rows)
    unfolding byte_step
    contains-byte_scan b =
        contains-steady_scan (byte_step traj) (byte_row b x) (b ∷ []) rows
          (λ k e. ground (arith, insert_not_break (from_bytes (slice 1 13 k))))
          (names-byte_step traj x b)

    pub contains-meta_scan :
        (lo hi ch : ℕ)
        → contains (scan (meta_step lo hi traj) (with_prefix (ch ∷ []) rows) []) x ≡ (
            is_of_traj traj x
            && has_row (λ k. starts_with k (ch ∷ []) && range_row 1 8 lo hi x k) rows)
    unfolding meta_step
    contains-meta_scan lo hi ch =
        contains-steady_scan (meta_step lo hi traj)
          (λ k. starts_with k (ch ∷ []) && range_row 1 8 lo hi x k) (ch ∷ []) rows
          (λ k e. ground (arith, insert_not_break (from_bytes (slice 9 21 k))))
          (names-meta_step traj x lo hi ch)

    count_not_break :
        (wanted : ℕ → Bool) (symbol k : Bytes) → count_step wanted symbol traj k ≢ break
    unfolding count_step
    count_not_break wanted symbol k = go (parse_elem_count_key k symbol) refl
      where
        go :
            (o : Option (ℕ × FrameKey))
            → parse_elem_count_key k symbol ≡ o
            → count_step wanted symbol traj k ≢ break
        go none e q = ground arith
        go (some (n, fk)) e q = ground arith

    pub contains-count_scan :
        (wanted : ℕ → Bool) (symbol : Bytes)
        → contains
            (scan
              (count_step wanted symbol traj)
              (with_prefix (elem_count_symbol_prefix symbol) rows)
              [])
            x
          ≡ (is_of_traj traj x && has_row (count_row wanted symbol x) rows)
    contains-count_scan wanted symbol =
        contains-steady_scan (count_step wanted symbol traj) (count_row wanted symbol x)
          (elem_count_symbol_prefix symbol) rows (count_not_break wanted symbol)
          (names-count_step traj x wanted symbol)

    pub contains-frame_scan :
        contains (scan (frame_step traj) rows []) x
        ≡ (is_of_traj traj x && has_row (λ k. reads (from_bytes k) x) rows)
    unfolding contains frame_step
    contains-frame_scan = ground (
      arith,
      contains-scan (frame_step traj) rows [] x
          (steady (frame_step traj) rows (λ k. insert_not_break (from_bytes k))),
      has_row-split (λ k. step_names (frame_step traj k) x) (λ k. reads (from_bytes k) x)
          (is_of_traj traj x) rows (λ k. names-insert_if_some traj x (from_bytes k)),
    )
