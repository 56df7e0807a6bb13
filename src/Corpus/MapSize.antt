-- ===== src/Corpus/MapSize.antt =====
-- src/corpus.rs: the size of the LMDB map, and the write transaction that grows it and starts
-- over. What a transaction comes to, for the size that the map has, and the length of `data.mdb`
-- are parameters: they are LMDB's.
pub mod Sizes
pub mod Committed
pub mod Commits
use readcon_db.Base.{
  ℕ, zero, suc, ◌+◌, ◌-◌, ◌*◌, ◌/◌, ◌%◌, ◌^◌, ◌≤◌, ◌≡◌, ◌≢◌, refl, ap, sym, ◌∙◌, ◌<◌, Bool, leb→le,
  inl, inr, false, ltb, leb, if◌then◌else◌, arith, Bool-cases, usize_max, saturating_add,
  saturating_mul, min, max,
}
use native.Mathlib.Nat.{one-le-pow, mul-le-mul_right, mul-le-mul_left}
use readcon_db.Base.Bytes.{IsU64}
use readcon_db.Error.{Error, Result, ok, err, message, ◌>>=◌, >>=-eq-ok, ok_eq}
use mathlib.Core.Path.{subst}

abbrev pub map_align : ℕ
map_align = 2 ^ 20

abbrev pub map_grow_retries : ℕ
map_grow_retries = 8

-- `n.div_ceil(MAP_ALIGN)` does not overflow.
unfoldable pub align_map : ℕ → ℕ
align_map n = saturating_mul ((n + (map_align - 1)) / map_align) map_align

-- The size that `grow_after_map_full` asks for; `used` is the length of `data.mdb`.
unfoldable pub grown_size : ℕ → ℕ → ℕ → ℕ
grown_size used cur input_bytes =
    let want = align_map (max (saturating_mul cur 2) (saturating_add used input_bytes)) in
    if leb want cur then align_map (saturating_add cur map_align) else want

-- `self.env.resize(want)?`: the new size of the map, or the error.
unfoldable pub resized : (ℕ → Result (Unit {0})) → ℕ → Result ℕ
resized resize want = do done ← resize want; ok want

unfoldable pub grow_after_map_full : (ℕ → Result (Unit {0})) → ℕ → ℕ → ℕ → Result ℕ
grow_after_map_full resize used cur input_bytes = resized resize (grown_size used cur input_bytes)

-- The growth in front of the first transaction of `with_write`.
unfoldable pub grow_before : (ℕ → Result (Unit {0})) → ℕ → ℕ → ℕ → Result ℕ
grow_before resize used cur input_bytes =
    let need = saturating_add used (saturating_mul input_bytes 2) in
    let grown = resized resize (align_map (max need (saturating_mul cur 2))) in
    if ltb cur need then grown else ok cur

-- How a round of the loop ends: it returns the value, grows the map and goes on, or returns an error.
pub data Attempt {ℓ} (A : Type ℓ) : Type ℓ where
  committed : A → Attempt A
  full : Error → Attempt A
  failed : Error → Attempt A

module _ {ℓ} {A : Type ℓ} (resize : ℕ → Result (Unit {0})) (is_map_full : Error → Bool)
    (write_txn : ℕ → Result (Unit {0})) (body : ℕ → Result A) (commit : ℕ → Result (Unit {0}))
    (used : ℕ → ℕ) (input_bytes : ℕ) where
  unfoldable pub classify : Error → Attempt A
  classify e = if is_map_full e then full e else failed e

  -- The transaction is opened, the body runs, and the transaction is committed, in a map of `cur`
  -- bytes.
  unfoldable pub attempt : ℕ → Attempt A
  attempt cur = elim (write_txn cur) [
    | err e ↦ classify e
    | ok txn ↦ elim (body cur) [
      | err e ↦ classify e
      | ok value ↦ elim (commit cur) [ err e ↦ classify e | ok done ↦ committed value ]
    ]
  ]

  -- The loop over the retries. The size of the map comes back too.
  unfoldable pub retry : ℕ → Error → ℕ → Result A × ℕ
  retry zero last cur = (err last, cur)
  retry (suc n) last cur = elim (attempt cur) [
    | committed value ↦ (ok value, cur)
    | full e ↦ elim (grow_after_map_full resize (used cur) cur input_bytes) [
      | err x ↦ (err x, cur)
      | ok grown ↦ retry n e grown
    ]
    | failed e ↦ (err e, cur)
  ]

  unfoldable pub with_write : ℕ → Result A × ℕ
  with_write cur = elim (grow_before resize (used cur) cur input_bytes) [
    | err e ↦ (err e, cur)
    | ok grown ↦ retry map_grow_retries (message "LMDB map stayed full after growing it") grown
  ]
