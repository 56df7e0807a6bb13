-- ===== src/Heed.antt =====
-- The heed crate (LMDB) as src/corpus.rs uses it inside one transaction: ordered tables of byte
-- strings. `Database<Bytes, Unit>` stores the empty string as value.
pub mod Tables
use readcon_db.Base.{
  ◌≡◌, ◌↔◌, ◌⊎◌, Bool, true, false, Option, none, some, List, [], ◌∷◌, if◌then◌else◌,
}
use readcon_db.Base.Bytes.{Bytes, bytes_eq, starts_with}
use readcon_db.Base.Order.{bytes_ltb}

abbrev pub Entry : Type 0
Entry = Bytes × Bytes

-- An entry of a list.
abbrev pub In : {A : Type 0} → A → List A → Type 0
In x [] = ⊥
In x (y ∷ ys) = (x ≡ y) ⊎ In x ys

-- Keys that ascend in the order of LMDB.
abbrev pub AllAbove : Bytes → List Entry → Type 0
AllAbove k [] = Unit
AllAbove k ((j, v) ∷ rest) = (bytes_ltb k j ≡ true) × AllAbove k rest

abbrev pub Ascends : List Entry → Type 0
Ascends [] = Unit
Ascends ((k, v) ∷ rest) = AllAbove k rest × Ascends rest

-- The entries whose key begins with `prefix`.
abbrev pub with_prefix : Bytes → List Entry → List Entry
with_prefix prefix [] = []
with_prefix prefix ((k, v) ∷ rest) =
    if starts_with k prefix then (k, v) ∷ with_prefix prefix rest else with_prefix prefix rest

pub record Heed : Type 1 where
  pub Table : Type 0
  pub empty : Table
  pub get : Table → Bytes → Option Bytes
  pub put : Table → Bytes → Bytes → Table
  pub delete : Table → Bytes → Table
  pub iter : Table → List Entry
  pub prefix_iter : Table → Bytes → List Entry
  pub get-empty : (k : Bytes) → get empty k ≡ none
  pub get-put :
      (t : Table) (k v j : Bytes) → get (put t k v) j ≡ (if bytes_eq k j then some v else get t j)
  pub get-delete :
      (t : Table) (k j : Bytes) → get (delete t k) j ≡ (if bytes_eq k j then none else get t j)
  pub in-iter : (t : Table) (k v : Bytes) → get t k ≡ some v → In (k, v) (iter t)
  pub get-in : (t : Table) (k v : Bytes) → In (k, v) (iter t) → get t k ≡ some v
  pub iter-Ascends : (t : Table) → Ascends (iter t)
  pub prefix_iter-iter :
      (t : Table) (prefix : Bytes) → prefix_iter t prefix ≡ with_prefix prefix (iter t)
