-- ===== src/Heed/Tables.antt =====
-- What a lookup finds after a put or a delete, as cases.
use readcon_db.Base.{
  ◌≡◌, ◌≢◌, refl, ◌⊎◌, inl, inr, none, some, List, [], ◌∷◌, ◌++◌, arith, Bool-cases,
}
use readcon_db.Base.Bytes.{Bytes, bytes_eq, bytes_eq_iff}
use readcon_db.Heed.{Heed, In}

pub In-append_left : {A : Type 0} (x : A) (xs ys : List A) → In x xs → In x (xs ++ ys)
In-append_left x [] ys h = absurd h
In-append_left x (y ∷ xs) ys (inl e) = inl e
In-append_left x (y ∷ xs) ys (inr h) = inr (In-append_left x xs ys h)

pub In-append_last : {A : Type 0} (x : A) (xs : List A) → In x (xs ++ (x ∷ []))
In-append_last x [] = inl refl
In-append_last x (y ∷ xs) = inr (In-append_last x xs)

module _ (db : Heed) where
  open db use {Table, get, put, delete, get-put, get-delete}

  pub put_cases :
      (t : Table) (k v j h : Bytes)
      → get (put t k v) j ≡ some h
      → ((k ≡ j) × (v ≡ h)) ⊎ ((k ≢ j) × (get t j ≡ some h))
  put_cases t k v j h e = elim (Bool-cases (bytes_eq k j)) [
    | inl q ↦ inl ((bytes_eq_iff k j).0 q, ground (arith, get-put t k v j))
    | inr q ↦ inr (λ w. ground (arith, bytes_eq_iff k j), ground (arith, get-put t k v j))
  ]

  pub put_self : (t : Table) (k v : Bytes) → get (put t k v) k ≡ some v
  put_self t k v = ground (arith, get-put t k v k, bytes_eq_iff k k)

  pub put_other : (t : Table) (k v j : Bytes) → k ≢ j → get (put t k v) j ≡ get t j
  put_other t k v j n = elim (Bool-cases (bytes_eq k j)) [
    | inl q ↦ absurd (n ((bytes_eq_iff k j).0 q))
    | inr q ↦ ground (arith, get-put t k v j)
  ]

  pub delete_cases :
      (t : Table) (k j h : Bytes) → get (delete t k) j ≡ some h → (k ≢ j) × (get t j ≡ some h)
  delete_cases t k j h e =
      (λ w. ground (arith, get-delete t k j, bytes_eq_iff k j), ground (arith, get-delete t k j))

  pub delete_self : (t : Table) (k : Bytes) → get (delete t k) k ≡ none
  delete_self t k = ground (arith, get-delete t k k, bytes_eq_iff k k)

  pub delete_other : (t : Table) (k j : Bytes) → k ≢ j → get (delete t k) j ≡ get t j
  delete_other t k j n = elim (Bool-cases (bytes_eq k j)) [
    | inl q ↦ absurd (n ((bytes_eq_iff k j).0 q))
    | inr q ↦ ground (arith, get-delete t k j)
  ]
