-- ===== src/Corpus/MapSize/Committed.antt =====
-- What a write transaction of src/corpus.rs returns was committed.
use readcon_db.Base.{
  ℕ, zero, suc, ◌≤◌, ◌≡◌, ◌≢◌, refl, ap, sym, ◌∙◌, Bool, inl, inr, ltb, arith, Bool-cases,
  saturating_add, saturating_mul, max,
}
use readcon_db.Base.Bytes.{IsU64}
use readcon_db.Error.{Error, Result, ok, err, message, >>=-eq-ok, ok_eq}
use mathlib.Core.Path.{subst}
use readcon_db.Corpus.MapSize.{
  map_grow_retries, align_map, grown_size, resized, grow_after_map_full, grow_before, Attempt,
  committed, full, failed, classify, attempt, retry, with_write,
}
use readcon_db.Corpus.MapSize.Sizes.{not_smaller, grown_size_le, grown_size-IsU64}

module _ {ℓ} {A : Type ℓ} (resize : ℕ → Result (Unit {0})) (is_map_full : Error → Bool)
    (write_txn : ℕ → Result (Unit {0})) (body : ℕ → Result A) (commit : ℕ → Result (Unit {0}))
    (used : ℕ → ℕ) (input_bytes : ℕ) where
  abbrev round : ℕ → Attempt A
  round = attempt resize is_map_full write_txn body commit used input_bytes

  abbrev rounds : ℕ → Error → ℕ → Result A × ℕ
  rounds = retry resize is_map_full write_txn body commit used input_bytes

  -- The three steps of a transaction have succeeded.
  abbrev pub Done : ℕ → A → Type ℓ
  Done m value = (write_txn m ≡ ok tt) × (body m ≡ ok value) × (commit m ≡ ok tt)

  classified :
      (e : Error) (value : A)
      → classify resize is_map_full write_txn body commit used input_bytes e ≢ committed value
  unfolding classify
  classified e value h = elim (Bool-cases (is_map_full e)) [
    | inl q ↦ let bad : full e ≡ committed value = rw q at h in cc bad
    | inr q ↦ let bad : failed e ≡ committed value = rw q at h in cc bad
  ]

  attempt-Done : (m : ℕ) (value : A) → round m ≡ committed value → Done m value
  unfolding attempt
  attempt-Done m value h = go (write_txn m) (body m) (commit m) refl refl refl h
    where
      go :
          (w : Result (Unit {0})) (b : Result A) (c : Result (Unit {0}))
          → write_txn m ≡ w
          → body m ≡ b
          → commit m ≡ c
          → elim w as (λ x. Attempt A) [
            | err e ↦ classify resize is_map_full write_txn body commit used input_bytes e
            | ok txn ↦ elim b as (λ x. Attempt A) [
              | err e ↦ classify resize is_map_full write_txn body commit used input_bytes e
              | ok v ↦ elim c as (λ x. Attempt A) [
                | err e ↦ classify resize is_map_full write_txn body commit used input_bytes e
                | ok done ↦ committed v
              ]
            ]
          ]
            ≡ committed value
          → Done m value
      go (err e) b c p q r h = absurd (classified e value h)
      go (ok txn) (err e) c p q r h = absurd (classified e value h)
      go (ok txn) (ok v) (err e) p q r h = absurd (classified e value h)
      go (ok x) (ok v) (ok y) p q r h = (p, q ∙ ap ok (let same : v ≡ value = cc h in same), r)

  resized_size : (want grown : ℕ) → resized resize want ≡ ok grown → grown ≡ want
  unfolding resized
  resized_size want grown h = let (done, a, b) = >>=-eq-ok (resize want) _ h in sym (ok_eq b)

  retry_ok :
      (n : ℕ) (last : Error) (cur m : ℕ) (value : A)
      → IsU64 cur
      → rounds n last cur ≡ (ok value, m)
      → (round m ≡ committed value) × (cur ≤ m)
  unfolding retry grow_after_map_full
  retry_ok zero last cur m value u h =
      let e : err last ≡ ok value = ap (λ (r : Result A × ℕ). r.0) h in cc
  retry_ok (suc n) last cur m value u h =
      go (round cur) (resized resize (grown_size (used cur) cur input_bytes)) refl refl h
        (λ e grown. retry_ok n e grown m value)
    where
      go :
          (o : Attempt A) (g : Result ℕ)
          → round cur ≡ o
          → resized resize (grown_size (used cur) cur input_bytes) ≡ g
          → elim o as (λ x. Result A × ℕ) [
            | committed w ↦ (ok w, cur)
            | full e ↦ elim g as (λ x. Result A × ℕ) [
              | err x ↦ (err x, cur)
              | ok grown ↦ rounds n e grown
            ]
            | failed e ↦ (err e, cur)
          ]
            ≡ (ok value, m)
          → ((e : Error) (grown : ℕ)
              → IsU64 grown
              → rounds n e grown ≡ (ok value, m)
              → (round m ≡ committed value) × (grown ≤ m))
          → (round m ≡ committed value) × (cur ≤ m)
      go (committed w) g q r h ih =
          let e : ok w ≡ ok value = ap (λ (x : Result A × ℕ). x.0) h in
          let same : cur ≡ m = ap (λ (x : Result A × ℕ). x.1) h in (cc (q, e, same), omega arith)
      go (full e) (err x) q r h ih =
          let bad : err x ≡ ok value = ap (λ (y : Result A × ℕ). y.0) h in cc bad
      go (full e) (ok grown) q r h ih =
          let at = resized_size (grown_size (used cur) cur input_bytes) grown r in
          let (a, b) =
            ih e grown (subst IsU64 (sym at) (grown_size-IsU64 (used cur) cur input_bytes)) h in
          (a, omega (arith, b, at, grown_size_le (used cur) cur input_bytes u))
      go (failed e) g q r h ih =
          let bad : err e ≡ ok value = ap (λ (x : Result A × ℕ). x.0) h in cc bad

  grow_before_ok :
      (cur grown : ℕ)
      → IsU64 cur
      → grow_before resize (used cur) cur input_bytes ≡ ok grown
      → (cur ≤ grown) × IsU64 grown
  unfolding grow_before align_map
  grow_before_ok cur grown u h =
      elim (Bool-cases (ltb cur (saturating_add (used cur) (saturating_mul input_bytes 2)))) [
        | inr q ↦
            let same : cur ≡ grown = ok_eq (rw q at h) in (omega (arith, same), subst IsU64 same u)
        | inl q ↦
            let at =
              resized_size
                (align_map (
                  max (saturating_add (used cur) (saturating_mul input_bytes 2))
                    (saturating_mul cur 2)))
                grown (rw q at h) in
            (
              ground (
                arith,
                at,
                not_smaller
                    (max (saturating_add (used cur) (saturating_mul input_bytes 2))
                      (saturating_mul cur 2))
                    cur,
              ),
              ground (arith, at),
            )
      ]

  -- When a write transaction returns a value, it is the value of the body in a transaction that was
  -- opened and committed, in the map as large as it is then, and the map did not shrink.
  pub with_write_committed :
      (cur m : ℕ) (value : A)
      → IsU64 cur
      → with_write resize is_map_full write_txn body commit used input_bytes cur ≡ (ok value, m)
      → Done m value × (cur ≤ m)
  unfolding with_write
  with_write_committed cur m value u = go (grow_before resize (used cur) cur input_bytes) refl
    where
      go :
          (g : Result ℕ)
          → grow_before resize (used cur) cur input_bytes ≡ g
          → elim g as (λ x. Result A × ℕ) [
            | err e ↦ (err e, cur)
            | ok grown ↦
                rounds map_grow_retries (message "LMDB map stayed full after growing it") grown
          ]
            ≡ (ok value, m)
          → Done m value × (cur ≤ m)
      go (err e) q h = let bad : err e ≡ ok value = ap (λ (x : Result A × ℕ). x.0) h in cc bad
      go (ok grown) q h =
          let (le, small) = grow_before_ok cur grown u q in
          let (a, b) = retry_ok map_grow_retries _ grown m value small h in
          (attempt-Done m value a, omega (arith, le, b))
