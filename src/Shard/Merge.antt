-- ===== src/Shard/Merge.antt =====
-- Sorted lists of frame keys under insertion, for src/shard.rs `select`: the first `n` keys of a
-- sorted union depend on the first `n` keys of each part.
use readcon_db.Base.{
  ℕ, zero, suc, ◌+◌, ◌≤◌, ◌≡◌, refl, sym, ap, ◌∙◌, inl, inr, true, false, Option, none, some, [],
  ◌∷◌, ◌++◌, if◌then◌else◌, arith, Bool-cases, take, All,
}
use readcon_db.Keys.{FrameKey, frame_key_ltb}
use readcon_db.Scan.{KeySet, sort_by, insert_by, frame_key_leb, truncate}
use readcon_db.Query.Order.{AllAfter, Ascending}

-- Insertion of the keys of one list into another, that is sorted.
unfoldable pub insert_all : KeySet → KeySet → KeySet
insert_all [] t = t
insert_all (x ∷ xs) t = insert_by frame_key_leb x (insert_all xs t)

pub sort_by-append :
    (xs ys : KeySet) → sort_by frame_key_leb (xs ++ ys) ≡ insert_all xs (sort_by frame_key_leb ys)
unfolding sort_by insert_all
sort_by-append [] ys = refl
sort_by-append (x ∷ xs) ys = rw (sort_by-append xs ys) refl

-- The first keys after an insertion come from the first keys before it.
take-insert_by :
    (n : ℕ) (x : FrameKey) (s : KeySet)
    → take n (insert_by frame_key_leb x (take n s)) ≡ take n (insert_by frame_key_leb x s)
unfolding insert_by
take-insert_by zero x s = refl
take-insert_by (suc n) x [] = refl
take-insert_by (suc n) x (y ∷ s) = elim (Bool-cases (frame_key_leb x y)) [
  | inl p ↦ rw p (ap (λ t. x ∷ t) (take_shorter n y s))
  | inr p ↦ rw p (ap (λ t. y ∷ t) (take-insert_by n x s))
]
  where
    take_shorter : (n : ℕ) (y : FrameKey) (s : KeySet) → take n (y ∷ take n s) ≡ take n (y ∷ s)
    take_shorter zero y s = refl
    take_shorter (suc n) y [] = refl
    take_shorter (suc n) y (z ∷ s) = ap (λ t. y ∷ t) (take_shorter n z s)

take-insert_all :
    (n : ℕ) (xs s t : KeySet)
    → take n s ≡ take n t
    → take n (insert_all xs s) ≡ take n (insert_all xs t)
unfolding insert_all
take-insert_all n [] s t e = e
take-insert_all n (x ∷ xs) s t e =
    sym (take-insert_by n x (insert_all xs s))
    ∙ ap (λ u. take n (insert_by frame_key_leb x u)) (take-insert_all n xs s t e)
    ∙ take-insert_by n x (insert_all xs t)

frame_key_leb_antisym :
    (x y : FrameKey) → frame_key_leb x y ≡ true → frame_key_leb y x ≡ true → x ≡ y
unfolding frame_key_leb frame_key_ltb
frame_key_leb_antisym x y h k =
    let e : x.traj_id ≡ y.traj_id = ground arith in
    let f : x.frame_idx ≡ y.frame_idx = ground arith in cc (e, f)

frame_key_leb_total : (x y : FrameKey) → frame_key_leb x y ≡ false → frame_key_leb y x ≡ true
unfolding frame_key_leb frame_key_ltb
frame_key_leb_total x y h = ground arith

pub frame_key_leb_trans :
    (x y z : FrameKey)
    → frame_key_leb x y ≡ true
    → frame_key_leb y z ≡ true
    → frame_key_leb x z ≡ true
unfolding frame_key_leb frame_key_ltb
frame_key_leb_trans x y z h k = ground arith

insert_by_comm :
    (x y : FrameKey) (s : KeySet)
    → insert_by frame_key_leb x (insert_by frame_key_leb y s)
      ≡ insert_by frame_key_leb y (insert_by frame_key_leb x s)
unfolding insert_by
insert_by_comm x y [] =
    ground (arith, frame_key_leb_antisym x y, frame_key_leb_total x y, frame_key_leb_total y x)
insert_by_comm x y (z ∷ s) = ground (
  arith,
  insert_by_comm x y s,
  frame_key_leb_antisym x y,
  frame_key_leb_total x y,
  frame_key_leb_total y x,
  frame_key_leb_trans x y z,
  frame_key_leb_trans y x z,
)

insert_by-insert_all :
    (x : FrameKey) (xs t : KeySet)
    → insert_by frame_key_leb x (insert_all xs t) ≡ insert_all xs (insert_by frame_key_leb x t)
unfolding insert_all
insert_by-insert_all x [] t = refl
insert_by-insert_all x (y ∷ xs) t =
    insert_by_comm x y (insert_all xs t)
    ∙ ap (insert_by frame_key_leb y) (insert_by-insert_all x xs t)

-- Weakly ascending.
abbrev pub AllFrom : FrameKey → KeySet → Type 0
AllFrom x [] = Unit
AllFrom x (y ∷ s) = (frame_key_leb x y ≡ true) × AllFrom x s

abbrev pub Rising : KeySet → Type 0
Rising [] = Unit
Rising (x ∷ s) = AllFrom x s × Rising s

frame_key_ltb-leb : (x y : FrameKey) → frame_key_ltb x y ≡ true → frame_key_leb x y ≡ true
unfolding frame_key_leb frame_key_ltb
frame_key_ltb-leb x y h = ground arith

AllAfter-AllFrom : (x : FrameKey) (s : KeySet) → AllAfter x s → AllFrom x s
AllAfter-AllFrom x [] h = tt
AllAfter-AllFrom x (y ∷ s) h = (frame_key_ltb-leb x y h.0, AllAfter-AllFrom x s h.1)

pub Ascending-Rising : (s : KeySet) → Ascending s → Rising s
Ascending-Rising [] h = tt
Ascending-Rising (x ∷ s) h = (AllAfter-AllFrom x s h.0, Ascending-Rising s h.1)

AllFrom-trans : (x y : FrameKey) (s : KeySet) → frame_key_leb x y ≡ true → AllFrom y s → AllFrom x s
AllFrom-trans x y [] h k = tt
AllFrom-trans x y (z ∷ s) h k = (frame_key_leb_trans x y z h k.0, AllFrom-trans x y s h k.1)

AllFrom-insert_by :
    (a x : FrameKey) (s : KeySet)
    → frame_key_leb a x ≡ true
    → AllFrom a s
    → AllFrom a (insert_by frame_key_leb x s)
unfolding insert_by
AllFrom-insert_by a x [] h k = (h, tt)
AllFrom-insert_by a x (y ∷ s) h k = elim (Bool-cases (frame_key_leb x y)) [
  | inl p ↦ rw p (h, k)
  | inr p ↦ rw p (k.0, AllFrom-insert_by a x s h k.1)
]

insert_by-Rising : (x : FrameKey) (s : KeySet) → Rising s → Rising (insert_by frame_key_leb x s)
unfolding insert_by
insert_by-Rising x [] h = (tt, tt)
insert_by-Rising x (y ∷ s) h = elim (Bool-cases (frame_key_leb x y)) [
  | inl p ↦ rw p ((p, AllFrom-trans x y s p h.0), h)
  | inr p ↦ rw p (AllFrom-insert_by y x s (frame_key_leb_total x y p) h.0, insert_by-Rising x s h.1)
]

insert_all-Rising : (xs t : KeySet) → Rising t → Rising (insert_all xs t)
unfolding insert_all
insert_all-Rising [] t h = h
insert_all-Rising (x ∷ xs) t h = insert_by-Rising x (insert_all xs t) (insert_all-Rising xs t h)

-- How many keys of the list are below the key.
unfoldable below : FrameKey → KeySet → ℕ
below y [] = 0
below y (x ∷ s) = (if frame_key_ltb x y then 1 else 0) + below y s

below-AllFrom :
    (x y : FrameKey) (s : KeySet) → frame_key_leb y x ≡ true → AllFrom x s → below y s ≡ 0
unfolding below
below-AllFrom x y [] h k = refl
below-AllFrom x y (z ∷ s) h k =
    let later : frame_key_leb y z ≡ true = frame_key_leb_trans y x z h k.0 in
    let none_here : frame_key_ltb z y ≡ false = unfold frame_key_leb in ground arith in
    ground (arith, below-AllFrom x y s h k.1, none_here)

below-insert_by :
    (y x : FrameKey) (s : KeySet)
    → below y (insert_by frame_key_leb x s) ≡ (if frame_key_ltb x y then 1 else 0) + below y s
unfolding below insert_by
below-insert_by y x [] = refl
below-insert_by y x (z ∷ s) = ground (arith, below-insert_by y x s)

below-insert_all : (y : FrameKey) (xs t : KeySet) → below y t ≤ below y (insert_all xs t)
unfolding insert_all
below-insert_all y [] t = omega arith
below-insert_all y (x ∷ xs) t =
    ground (arith, below-insert_all y xs t, below-insert_by y x (insert_all xs t))

-- A key with `n` keys below it does not come among the first `n`.
take-insert_by_high :
    (n : ℕ) (y : FrameKey) (s : KeySet)
    → Rising s
    → n ≤ below y s
    → take n (insert_by frame_key_leb y s) ≡ take n s
unfolding insert_by below
take-insert_by_high zero y s r h = refl
take-insert_by_high (suc n) y [] r h = absurd (omega arith)
take-insert_by_high (suc n) y (x ∷ s) r h = elim (Bool-cases (frame_key_leb y x)) [
  | inl p ↦
      let none_here : frame_key_ltb x y ≡ false = unfold frame_key_leb in ground arith in
      absurd (ground (arith, below-AllFrom x y s p r.0, none_here, h))
  | inr p ↦
      let rest : n ≤ below y s = ground arith in
      rw p (ap (λ t. x ∷ t) (take-insert_by_high n y s r.1 rest))
]

take-insert_all_high :
    (n : ℕ) (f t : KeySet)
    → Rising t
    → All (λ y. n ≤ below y t) f
    → take n (insert_all f t) ≡ take n t
unfolding insert_all
take-insert_all_high n [] t r h = refl
take-insert_all_high n (y ∷ f) t r h =
    let many : n ≤ below y (insert_all f t) = omega (arith, h.0, below-insert_all y f t) in
    take-insert_by_high n y (insert_all f t) (insert_all-Rising f t r) many
    ∙ take-insert_all_high n f t r h.1

below_one_more :
    (c : ℕ) (x : FrameKey) (f t : KeySet)
    → AllAfter x f
    → All (λ y. c ≤ below y t) f
    → All (λ y. suc c ≤ below y (insert_by frame_key_leb x t)) f
below_one_more c x [] t a h = tt
below_one_more c x (y ∷ f) t a h =
    (ground (arith, below-insert_by y x t, a.0, h.0), below_one_more c x f t a.1 h.1)

take-insert_all-take :
    (n m c : ℕ) (f t : KeySet)
    → Ascending f
    → Rising t
    → n ≤ m + c
    → All (λ y. c ≤ below y t) f
    → take n (insert_all (take m f) t) ≡ take n (insert_all f t)
unfolding insert_all
take-insert_all-take n zero c f t a r h k = sym (take-insert_all_high n f t r (weaken f k))
  where
    weaken : (f : KeySet) → All (λ y. c ≤ below y t) f → All (λ y. n ≤ below y t) f
    weaken [] k = tt
    weaken (y ∷ f) k = (omega (arith, k.0, h), weaken f k.1)
take-insert_all-take n (suc m) c [] t a r h k = refl
take-insert_all-take n (suc m) c (x ∷ f) t a r h k =
    let t' = insert_by frame_key_leb x t in
    ap (take n) (insert_by-insert_all x (take m f) t)
    ∙ take-insert_all-take n m (suc c) f t' a.1 (insert_by-Rising x t r) (omega arith)
        (below_one_more c x f t a.0 k.1)
    ∙ sym (ap (take n) (insert_by-insert_all x f t))

-- Only the first keys of an ascending list count for the first keys of the union.
pub truncate-insert_all :
    (limit : Option ℕ) (f s t : KeySet)
    → Ascending f
    → Rising t
    → truncate limit s ≡ truncate limit t
    → truncate limit (insert_all (truncate limit f) s) ≡ truncate limit (insert_all f t)
unfolding truncate
truncate-insert_all none f s t a r e = ap (insert_all f) e
truncate-insert_all (some n) f s t a r e =
    take-insert_all n (take n f) s t e ∙ take-insert_all-take n n 0 f t a r (omega arith) (each f)
  where
    each : (f : KeySet) → All (λ y. 0 ≤ below y t) f
    each [] = tt
    each (y ∷ f) = (omega arith, each f)
