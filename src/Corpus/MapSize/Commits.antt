-- ===== src/Corpus/MapSize/Commits.antt =====
-- A write transaction of src/corpus.rs that fits a map within reach commits.
use readcon_db.Base.{
  ℕ, zero, suc, ◌+◌, ◌*◌, ◌^◌, ◌≤◌, ◌≡◌, ◌≢◌, refl, ◌<◌, Bool, leb→le, inl, inr, ltb, leb, arith,
  Bool-cases, saturating_add, saturating_mul, max,
}
use readcon_db.Base.Bytes.{IsU64}
use readcon_db.Error.{Error, Result, ok, message}
use readcon_db.Corpus.MapSize.{
  align_map, grown_size, resized, grow_after_map_full, grow_before, Attempt, committed, full,
  failed, attempt, retry, with_write,
}
use readcon_db.Corpus.MapSize.Sizes.{
  align_map-bounds, grown_size-IsU64, grown_size-min, room_after, align_map_above, grown_size_above,
}
use readcon_db.Corpus.MapSize.Committed.{Done}

module _ {ℓ} {A : Type ℓ} (resize : ℕ → Result (Unit {0})) (is_map_full : Error → Bool)
    (write_txn : ℕ → Result (Unit {0})) (body : ℕ → Result A) (commit : ℕ → Result (Unit {0}))
    (used : ℕ → ℕ) (input_bytes need limit : ℕ)
    (room : (m : ℕ)
      → need ≤ m
      → (value : A) × Done resize is_map_full write_txn body commit used input_bytes m value)
    (only_full : (m : ℕ) (e : Error)
      → attempt resize is_map_full write_txn body commit used input_bytes m ≢ failed e)
    (resizable : (n : ℕ) → n ≤ limit → resize n ≡ ok tt) (small : limit ≤ 2 ^ 62)
    (spare : (m : ℕ) → used m + 2 * input_bytes + 2 ^ 20 ≤ limit)
    (twice : 2 * need + 2 ^ 20 ≤ limit) where
  abbrev run : ℕ → Error → ℕ → Result A × ℕ
  run = retry resize is_map_full write_txn body commit used input_bytes

  abbrev step : ℕ → Attempt A
  step = attempt resize is_map_full write_txn body commit used input_bytes

  enough : (m : ℕ) → need ≤ m → (value : A) × (step m ≡ committed value)
  unfolding attempt
  enough m h = let (value, (w, b, c)) = room m h in (value, rw (attempt, w, b, c) refl)

  grows :
      (cur : ℕ)
      → cur < need
      → grow_after_map_full resize (used cur) cur input_bytes
        ≡ ok (grown_size (used cur) cur input_bytes)
  unfolding grow_after_map_full resized
  grows cur h =
      let top =
        grown_size_above (used cur) cur input_bytes (omega (arith, small, twice, h))
          (omega (arith, small, spare cur)) in
      let fine : grown_size (used cur) cur input_bytes ≤ limit =
        ground (arith, top, spare cur, twice, h) in
      rw (resizable (grown_size (used cur) cur input_bytes) fine) refl

  grows_before :
      (cur : ℕ)
      → 2 * cur + 2 ^ 20 ≤ limit
      → (grown : ℕ) × (grow_before resize (used cur) cur input_bytes ≡ ok grown)
        × (cur ≤ grown)
        × IsU64 grown
  unfolding grow_before resized
  grows_before cur c =
      let times : saturating_mul input_bytes 2 ≡ input_bytes * 2 =
        ground (arith, spare cur, small) in
      let plus : saturating_add (used cur) (input_bytes * 2) ≡ used cur + input_bytes * 2 =
        ground (arith, spare cur, small) in
      let double : saturating_mul cur 2 ≡ cur * 2 = ground (arith, c, small) in
      let top : ℕ = max (used cur + input_bytes * 2) (cur * 2) in
      let high : top ≤ 2 ^ 63 = ground (arith, spare cur, c, small) in
      let above : align_map top ≤ limit = ground (arith, align_map_above top high, spare cur, c) in
      let (a, b, d) = align_map-bounds top high in
      let big : cur ≤ align_map top = ground (arith, a) in
      elim (Bool-cases (ltb cur (used cur + input_bytes * 2))) [
        | inl q ↦ (
          align_map top,
          rw (times, plus, double, q, resizable (align_map top) above) refl,
          big,
          omega (arith, b),
        )
        | inr q ↦ (cur, rw (times, plus, q) refl, omega arith, omega (arith, c, small))
      ]

  retry_commits :
      (n : ℕ) (last : Error) (cur : ℕ)
      → IsU64 cur
      → need ≤ cur * 2 ^ n
      → (value : A) × (m : ℕ) × (run (suc n) last cur ≡ (ok value, m))
  unfolding retry
  retry_commits zero last cur u h =
      let (value, e) = enough cur (omega (arith, h)) in (value, cur, rw (e, retry) refl)
  retry_commits (suc n) last cur u h = elim (Bool-cases (leb need cur)) [
    | inl q ↦ let (value, e) = enough cur (leb→le need cur q) in (value, cur, rw (e, retry) refl)
    | inr q ↦
        let less : cur < need = ground (arith, q) in
        go less (step cur) refl (λ e.
          retry_commits n e (grown_size (used cur) cur input_bytes)
            (grown_size-IsU64 (used cur) cur input_bytes)
            (room_after need cur (grown_size (used cur) cur input_bytes) n h
              (omega (arith, twice, small)) (grown_size-min (used cur) cur input_bytes u)))
  ]
    where
      go :
          cur < need
          → (o : Attempt A) → step cur ≡ o
          → ((e : Error)
              → (value : A) × (m : ℕ) × (run (suc n) e (grown_size (used cur) cur input_bytes)
                  ≡ (ok value, m)))
          → (value : A) × (m : ℕ) × (run (suc (suc n)) last cur ≡ (ok value, m))
      go less (committed value) q ih = (value, cur, rw (q, retry) refl)
      go less (full e) q ih =
          let (value, m, r) = ih e in (value, m, rw (q, retry, grows cur less) r)
      go less (failed e) q ih = absurd (only_full cur e q)

  -- A write transaction that goes through in a map of `need` bytes, and fails for no other reason
  -- than a full map, commits: seven growths reach 128 times the size at the start. The map can be
  -- resized up to `limit`, which is at most 2 ^ 62 and leaves room for twice `need`, twice the size
  -- at the start, and the data with twice the input, each with 1 MiB more.
  pub with_write_commits :
      (cur : ℕ)
      → 2 * cur + 2 ^ 20 ≤ limit
      → need ≤ 128 * cur
      → (value : A) × (m : ℕ) × (with_write resize is_map_full write_txn body commit used
            input_bytes cur
          ≡ (ok value, m))
  unfolding with_write
  with_write_commits cur c h =
      let (grown, e, le, u) = grows_before cur c in
      let (value, m, r) =
        retry_commits 7 (message "LMDB map stayed full after growing it") grown u
          (omega (arith, le, h)) in
      (value, m, rw (e, with_write) r)
