-- ===== src/Examples/Sorted.antt =====
-- A table as the ascending list of its entries, for the runs on concrete input: an instance of the
-- interface of Heed.antt.
use readcon_db.Base.{
  ◌≡◌, refl, sym, ap, inl, inr, true, false, Option, none, some, List, [], ◌∷◌, if◌then◌else◌,
  arith, Bool-cases,
}
use readcon_db.Base.Bytes.{Bytes, bytes_eq, bytes_eq_iff}
use readcon_db.Base.Order.{bytes_ltb}
use mathlib.Core.Path.{subst}
use readcon_db.Heed.{Heed, Entry, In, AllAbove, Ascends, with_prefix}

bytes_ltb_irrefl : (a : Bytes) → bytes_ltb a a ≡ false
unfolding bytes_ltb
bytes_ltb_irrefl [] = refl
bytes_ltb_irrefl (x ∷ a) = ground (arith, bytes_ltb_irrefl a)

bytes_ltb_trans :
    (a b c : Bytes) → bytes_ltb a b ≡ true → bytes_ltb b c ≡ true → bytes_ltb a c ≡ true
unfolding bytes_ltb
bytes_ltb_trans a [] c h k = cc
bytes_ltb_trans a (y ∷ b) [] h k = cc
bytes_ltb_trans [] (y ∷ b) (z ∷ c) h k = refl
bytes_ltb_trans (x ∷ a) (y ∷ b) (z ∷ c) h k = ground (arith, bytes_ltb_trans a b c)

bytes_ltb_total :
    (a b : Bytes) → bytes_ltb a b ≡ false → bytes_eq a b ≡ false → bytes_ltb b a ≡ true
unfolding bytes_ltb bytes_eq
bytes_ltb_total [] [] h k = cc
bytes_ltb_total [] (y ∷ b) h k = cc
bytes_ltb_total (x ∷ a) [] h k = refl
bytes_ltb_total (x ∷ a) (y ∷ b) h k = ground (arith, bytes_ltb_total a b)

abbrev pub look_up : List Entry → Bytes → Option Bytes
look_up [] j = none
look_up ((k, v) ∷ rest) j = if bytes_eq k j then some v else look_up rest j

abbrev pub put_row : List Entry → Bytes → Bytes → List Entry
put_row [] k v = (k, v) ∷ []
put_row ((j, w) ∷ rest) k v =
    let later = put_row rest k v in
    if bytes_ltb k j
    then (k, v) ∷ (j, w) ∷ rest
    else if bytes_eq k j
    then (k, v) ∷ rest
    else (j, w) ∷ later

abbrev pub delete_row : List Entry → Bytes → List Entry
delete_row [] k = []
delete_row ((j, w) ∷ rest) k =
    let later = delete_row rest k in if bytes_eq k j then later else (j, w) ∷ later

pub look_up-put_row :
    (rows : List Entry) (k v j : Bytes)
    → look_up (put_row rows k v) j ≡ (if bytes_eq k j then some v else look_up rows j)
look_up-put_row [] k v j = refl
look_up-put_row ((i, w) ∷ rest) k v j =
    ground (arith, look_up-put_row rest k v j, bytes_eq_iff k i, bytes_eq_iff i j, bytes_eq_iff k j)

pub look_up-delete_row :
    (rows : List Entry) (k j : Bytes)
    → look_up (delete_row rows k) j ≡ (if bytes_eq k j then none else look_up rows j)
look_up-delete_row [] k j = ground arith
look_up-delete_row ((i, w) ∷ rest) k j =
    ground
      (arith, look_up-delete_row rest k j, bytes_eq_iff k i, bytes_eq_iff i j, bytes_eq_iff k j)

AllAbove-trans :
    (a b : Bytes) (rows : List Entry) → bytes_ltb a b ≡ true → AllAbove b rows → AllAbove a rows
AllAbove-trans a b [] h k = tt
AllAbove-trans a b ((j, w) ∷ rows) h k =
    (bytes_ltb_trans a b j h k.0, AllAbove-trans a b rows h k.1)

AllAbove-put_row :
    (a k v : Bytes) (rows : List Entry)
    → bytes_ltb a k ≡ true
    → AllAbove a rows
    → AllAbove a (put_row rows k v)
AllAbove-put_row a k v [] h q = (h, tt)
AllAbove-put_row a k v ((j, w) ∷ rows) h q = elim (Bool-cases (bytes_ltb k j)) [
  | inl p ↦ rw p (h, q)
  | inr p ↦ elim (Bool-cases (bytes_eq k j)) [
    | inl e ↦ rw (p, e) (h, q.1)
    | inr e ↦ rw (p, e) (q.0, AllAbove-put_row a k v rows h q.1)
  ]
]

pub put_row-Ascends : (rows : List Entry) (k v : Bytes) → Ascends rows → Ascends (put_row rows k v)
put_row-Ascends [] k v h = (tt, tt)
put_row-Ascends ((j, w) ∷ rows) k v h = elim (Bool-cases (bytes_ltb k j)) [
  | inl p ↦ rw p ((p, AllAbove-trans k j rows p h.0), h)
  | inr p ↦ elim (Bool-cases (bytes_eq k j)) [
    | inl e ↦
        let same : j ≡ k = sym ((bytes_eq_iff k j).0 e) in
        rw (p, e) (subst (λ i. AllAbove i rows) same h.0, h.1)
    | inr e ↦
        rw (p, e)
          (AllAbove-put_row j k v rows (bytes_ltb_total k j p e) h.0, put_row-Ascends rows k v h.1)
  ]
]

AllAbove-delete_row :
    (a k : Bytes) (rows : List Entry) → AllAbove a rows → AllAbove a (delete_row rows k)
AllAbove-delete_row a k [] h = tt
AllAbove-delete_row a k ((j, w) ∷ rows) h = elim (Bool-cases (bytes_eq k j)) [
  | inl e ↦ rw e (AllAbove-delete_row a k rows h.1)
  | inr e ↦ rw e (h.0, AllAbove-delete_row a k rows h.1)
]

pub delete_row-Ascends :
    (rows : List Entry) (k : Bytes) → Ascends rows → Ascends (delete_row rows k)
delete_row-Ascends [] k h = tt
delete_row-Ascends ((j, w) ∷ rows) k h = elim (Bool-cases (bytes_eq k j)) [
  | inl e ↦ rw e (delete_row-Ascends rows k h.1)
  | inr e ↦ rw e (AllAbove-delete_row j k rows h.0, delete_row-Ascends rows k h.1)
]

pub look_up-In : (rows : List Entry) (k v : Bytes) → look_up rows k ≡ some v → In (k, v) rows
look_up-In [] k v h = cc
look_up-In ((j, w) ∷ rows) k v h = elim (Bool-cases (bytes_eq j k)) [
  | inl e ↦
      let same = (bytes_eq_iff j k).0 e in
      let value : w ≡ v = ground arith in inl (cc (same, value))
  | inr e ↦ inr (look_up-In rows k v (ground arith))
]

above_In :
    (a : Bytes) (rows : List Entry) (k v : Bytes)
    → AllAbove a rows
    → In (k, v) rows
    → bytes_ltb a k ≡ true
above_In a [] k v h i = absurd i
above_In a ((j, w) ∷ rows) k v h (inl e) = let same : j ≡ k = cc in rw (← same) h.0
above_In a ((j, w) ∷ rows) k v h (inr i) = above_In a rows k v h.1 i

pub In-look_up :
    (rows : List Entry) (k v : Bytes) → Ascends rows → In (k, v) rows → look_up rows k ≡ some v
In-look_up [] k v h i = absurd i
In-look_up ((j, w) ∷ rows) k v h (inl e) =
    let same : j ≡ k = cc in let value : w ≡ v = cc in ground (arith, bytes_eq_iff j k)
In-look_up ((j, w) ∷ rows) k v h (inr i) =
    let less = above_In j rows k v h.0 i in
    ground
      (arith, In-look_up rows k v h.1 i, bytes_eq_iff j k, bytes_ltb_irrefl j, ap (bytes_ltb j))

pub record Sorted : Type 0 where
  pub rows : List Entry
  pub ascends : Ascends rows

abbrev pub sorted_tables : Heed
sorted_tables = record {
  Table = Sorted;
  empty = record { rows = []; ascends = tt };
  get = λ t k. look_up t.rows k;
  put =
      λ t k v. record { rows = put_row t.rows k v; ascends = put_row-Ascends t.rows k v t.ascends };
  delete =
      λ t k. record { rows = delete_row t.rows k; ascends = delete_row-Ascends t.rows k t.ascends };
  iter = λ t. t.rows;
  prefix_iter = λ t prefix. with_prefix prefix t.rows;
  get-empty = λ k. refl;
  get-put = λ t k v j. look_up-put_row t.rows k v j;
  get-delete = λ t k j. look_up-delete_row t.rows k j;
  in-iter = λ t k v h. look_up-In t.rows k v h;
  get-in = λ t k v i. In-look_up t.rows k v t.ascends i;
  iter-Ascends = λ t. t.ascends;
  prefix_iter-iter = λ t prefix. refl;
}
