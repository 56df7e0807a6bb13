-- ===== src/Query/Order.antt =====
-- The sets of src/corpus.rs `select` ascend, so that the answer does.
use readcon_db.Base.{
  ◌≡◌, refl, inl, inr, Bool, true, false, some, List, [], ◌∷◌, ltb, ◌==◌, arith, Bool-cases, length,
  All,
}
use readcon_db.Base.Bytes.{Bytes}
use readcon_db.Keys.{FrameKey, frame_key_ltb, frame_key_eq}
use readcon_db.Scan.{
  Step, continue, break, found, scan, KeySet, insert, contains, retain, intersection, sort_by,
  insert_by, not_longer, frame_key_leb, intersect_loop, intersect_first, intersect_sets,
}
use readcon_db.Heed.{Entry}
use mathlib.Core.Path.{subst}

-- Ascending, without a repetition.
abbrev pub AllAfter : FrameKey → KeySet → Type 0
AllAfter fk [] = Unit
AllAfter fk (x ∷ s) = (frame_key_ltb fk x ≡ true) × AllAfter fk s

abbrev pub Ascending : KeySet → Type 0
Ascending [] = Unit
Ascending (x ∷ s) = AllAfter x s × Ascending s

frame_key_ltb_trans :
    (a b c : FrameKey)
    → frame_key_ltb a b ≡ true
    → frame_key_ltb b c ≡ true
    → frame_key_ltb a c ≡ true
unfolding frame_key_ltb
frame_key_ltb_trans a b c h k = ground arith

frame_key_ltb_total :
    (a b : FrameKey)
    → frame_key_ltb a b ≡ false
    → frame_key_eq a b ≡ false
    → frame_key_ltb b a ≡ true
unfolding frame_key_ltb frame_key_eq
frame_key_ltb_total a b h k = ground arith

AllAfter-trans :
    (a b : FrameKey) (s : KeySet) → frame_key_ltb a b ≡ true → AllAfter b s → AllAfter a s
AllAfter-trans a b [] h k = tt
AllAfter-trans a b (x ∷ s) h k = (frame_key_ltb_trans a b x h k.0, AllAfter-trans a b s h k.1)

AllAfter-insert :
    (a fk : FrameKey) (s : KeySet)
    → frame_key_ltb a fk ≡ true
    → AllAfter a s
    → AllAfter a (insert fk s)
unfolding insert
AllAfter-insert a fk [] h k = (h, tt)
AllAfter-insert a fk (x ∷ s) h k = elim (Bool-cases (frame_key_ltb fk x)) [
  | inl p ↦ rw p (h, k)
  | inr p ↦ elim (Bool-cases (frame_key_eq fk x)) [
    | inl q ↦ rw (p, q) k
    | inr q ↦ rw (p, q) (k.0, AllAfter-insert a fk s h k.1)
  ]
]

pub insert-Ascending : (fk : FrameKey) (s : KeySet) → Ascending s → Ascending (insert fk s)
unfolding insert
insert-Ascending fk [] h = (tt, tt)
insert-Ascending fk (x ∷ s) h = elim (Bool-cases (frame_key_ltb fk x)) [
  | inl p ↦ rw p ((p, AllAfter-trans fk x s p h.0), h)
  | inr p ↦ elim (Bool-cases (frame_key_eq fk x)) [
    | inl q ↦ rw (p, q) h
    | inr q ↦
        rw (p, q)
          (AllAfter-insert x fk s (frame_key_ltb_total fk x p q) h.0, insert-Ascending fk s h.1)
  ]
]

AllAfter-retain :
    (a : FrameKey) (keep : FrameKey → Bool) (s : KeySet) → AllAfter a s → AllAfter a (retain keep s)
unfolding retain
AllAfter-retain a keep [] h = tt
AllAfter-retain a keep (x ∷ s) h = elim (Bool-cases (keep x)) [
  | inl q ↦ rw q (h.0, AllAfter-retain a keep s h.1)
  | inr q ↦ rw q (AllAfter-retain a keep s h.1)
]

pub retain-Ascending :
    (keep : FrameKey → Bool) (s : KeySet) → Ascending s → Ascending (retain keep s)
unfolding retain
retain-Ascending keep [] h = tt
retain-Ascending keep (x ∷ s) h = elim (Bool-cases (keep x)) [
  | inl q ↦ rw q (AllAfter-retain x keep s h.0, retain-Ascending keep s h.1)
  | inr q ↦ rw q (retain-Ascending keep s h.1)
]

pub scan-Ascending :
    (body : Bytes → Step) (rows : List Entry) (s : KeySet)
    → Ascending s
    → Ascending (scan body rows s)
unfolding scan
scan-Ascending body [] s h = h
scan-Ascending body ((k, v) ∷ rest) s h =
    go (body k) refl (scan-Ascending body rest s h)
      (λ fk. scan-Ascending body rest (insert fk s) (insert-Ascending fk s h))
  where
    go :
        (o : Step)
        → body k ≡ o
        → Ascending (scan body rest s)
        → ((fk : FrameKey) → Ascending (scan body rest (insert fk s)))
        → Ascending (scan body ((k, v) ∷ rest) s)
    go continue e same more = rw (e, scan) same
    go break e same more = rw (e, scan) h
    go (found fk) e same more = rw (e, scan) (more fk)

intersect_loop-Ascending :
    (acc : KeySet) (sets : List KeySet)
    → Ascending acc
    → All Ascending sets
    → Ascending (intersect_loop acc sets)
unfolding intersect_loop intersection
intersect_loop-Ascending acc [] h k = h
intersect_loop-Ascending acc (s ∷ sets) h k =
    let smaller =
      intersect_loop-Ascending (intersection s acc) sets (retain-Ascending (contains acc) s k.0)
        k.1 in
    let larger =
      intersect_loop-Ascending (intersection acc s) sets (retain-Ascending (contains s) acc h)
        k.1 in
    elim (Bool-cases (length acc == 0)) [
      | inl p ↦ rw p h
      | inr p ↦ elim (Bool-cases (ltb (length s) (length acc))) [
        | inl q ↦ rw (p, q) smaller
        | inr q ↦ rw (p, q) larger
      ]
    ]

All-insert_by :
    (s : KeySet) (sets : List KeySet)
    → Ascending s
    → All Ascending sets
    → All Ascending (insert_by not_longer s sets)
unfolding insert_by
All-insert_by s [] h k = (h, tt)
All-insert_by s (t ∷ sets) h k = elim (Bool-cases (not_longer s t)) [
  | inl q ↦ rw q (h, k)
  | inr q ↦ rw q (k.0, All-insert_by s sets h k.1)
]

All-sort_by : (sets : List KeySet) → All Ascending sets → All Ascending (sort_by not_longer sets)
unfolding sort_by
All-sort_by [] h = tt
All-sort_by (s ∷ sets) h = All-insert_by s (sort_by not_longer sets) h.0 (All-sort_by sets h.1)

insert_by_not_nil :
    (s : KeySet) (sets : List KeySet)
    → (t : KeySet) × (rest : List KeySet) × (insert_by not_longer s sets ≡ t ∷ rest)
unfolding insert_by
insert_by_not_nil s [] = (s, [], refl)
insert_by_not_nil s (t ∷ sets) = elim (Bool-cases (not_longer s t)) [
  | inl q ↦ (s, t ∷ sets, rw q refl)
  | inr q ↦ (t, insert_by not_longer s sets, rw q refl)
]

-- There is a first set, and the intersection ascends as the sets do.
pub intersect_sets_total :
    (s : KeySet) (sets : List KeySet)
    → All Ascending (s ∷ sets)
    → (acc : KeySet) × (intersect_sets (s ∷ sets) ≡ some acc) × Ascending acc
unfolding intersect_sets intersect_first sort_by
intersect_sets_total s sets h =
    let (t, rest, e) = insert_by_not_nil s (sort_by not_longer sets) in
    let sorted : All Ascending (t ∷ rest) = subst (All Ascending) e (All-sort_by (s ∷ sets) h) in
    (intersect_loop t rest, rw e refl, intersect_loop-Ascending t rest sorted.0 sorted.1)

-- Sorting keys that ascend changes nothing.
insert_by_first : (x : FrameKey) (s : KeySet) → AllAfter x s → insert_by frame_key_leb x s ≡ x ∷ s
unfolding insert_by frame_key_leb frame_key_ltb
insert_by_first x [] h = refl
insert_by_first x (y ∷ s) h = ground (arith, h.0)

pub sort_by-Ascending : (s : KeySet) → Ascending s → sort_by frame_key_leb s ≡ s
unfolding sort_by
sort_by-Ascending [] h = refl
sort_by-Ascending (x ∷ s) h = rw (sort_by-Ascending s h.1) (insert_by_first x s h.0)
