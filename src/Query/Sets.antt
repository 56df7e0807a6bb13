-- ===== src/Query/Sets.antt =====
-- The sets of src/corpus.rs `select`: what they contain, and that they ascend.
use readcon_db.Base.{
  ◌≡◌, refl, ap, ◌↔◌, inl, inr, Bool, true, false, ◌&&◌, ◌||◌, some, List, [], ◌∷◌, ◌==◌, arith,
  Bool-cases, ==_iff, length,
}
use readcon_db.Keys.{FrameKey, frame_key_eq}
use readcon_db.Scan.{
  KeySet, insert, contains, retain, intersection, sort_by, insert_by, not_longer, intersect_loop,
  intersect_first, intersect_sets,
}

pub frame_key_eq_iff : (a b : FrameKey) → (frame_key_eq a b ≡ true) ↔ (a ≡ b)
unfolding frame_key_eq
frame_key_eq_iff a b = (
  λ h.
      let e : a.traj_id ≡ b.traj_id = ground (arith, ==_iff a.traj_id b.traj_id) in
      let f : a.frame_idx ≡ b.frame_idx = ground (arith, ==_iff a.frame_idx b.frame_idx) in
      cc (e, f),
  λ p. rw p (ground arith),
)

pub contains-insert :
    (fk : FrameKey) (s : KeySet) (x : FrameKey)
    → contains (insert fk s) x ≡ (frame_key_eq fk x || contains s x)
unfolding contains insert
contains-insert fk [] x = refl
contains-insert fk (y ∷ s) x = ground (arith, contains-insert fk s x, frame_key_eq_iff fk y)

pub contains-retain :
    (keep : FrameKey → Bool) (s : KeySet) (x : FrameKey)
    → contains (retain keep s) x ≡ (contains s x && keep x)
unfolding contains retain
contains-retain keep [] x = refl
contains-retain keep (y ∷ s) x =
    let ih = contains-retain keep s x in
    elim (Bool-cases (frame_key_eq y x)) [
      | inl q ↦ let e = (frame_key_eq_iff y x).0 q in ground (arith, ih, ap keep e)
      | inr q ↦ ground (arith, ih)
    ]

contains-intersection :
    (a b : KeySet) (x : FrameKey) → contains (intersection a b) x ≡ (contains a x && contains b x)
unfolding intersection
contains-intersection a b x = contains-retain (contains b) a x

unfoldable pub in_all : List KeySet → FrameKey → Bool
in_all [] x = true
in_all (s ∷ sets) x = contains s x && in_all sets x

in_all-insert_by :
    (s : KeySet) (sets : List KeySet) (x : FrameKey)
    → in_all (insert_by not_longer s sets) x ≡ (contains s x && in_all sets x)
unfolding in_all insert_by
in_all-insert_by s [] x = refl
in_all-insert_by s (t ∷ sets) x = ground (arith, in_all-insert_by s sets x)

pub in_all-sort_by :
    (sets : List KeySet) (x : FrameKey) → in_all (sort_by not_longer sets) x ≡ in_all sets x
unfolding in_all sort_by
in_all-sort_by [] x = refl
in_all-sort_by (s ∷ sets) x =
    ground (arith, in_all-insert_by s (sort_by not_longer sets) x, in_all-sort_by sets x)

contains-empty : (acc : KeySet) (x : FrameKey) → (length acc == 0) ≡ true → contains acc x ≡ false
unfolding contains
contains-empty [] x h = refl
contains-empty (y ∷ s) x h = ground arith

pub contains-intersect_loop :
    (acc : KeySet) (sets : List KeySet) (x : FrameKey)
    → contains (intersect_loop acc sets) x ≡ (contains acc x && in_all sets x)
unfolding intersect_loop in_all
contains-intersect_loop acc [] x = ground arith
contains-intersect_loop acc (s ∷ sets) x = ground (
  arith,
  contains-intersect_loop (intersection s acc) sets x,
  contains-intersect_loop (intersection acc s) sets x,
  contains-intersection s acc x,
  contains-intersection acc s x,
  contains-empty acc x,
)

-- The elements of the intersection are those that every set contains.
pub contains-intersect_sets :
    (sets : List KeySet) (acc : KeySet)
    → intersect_sets sets ≡ some acc
    → (x : FrameKey) → contains acc x ≡ in_all sets x
unfolding intersect_sets intersect_first in_all
contains-intersect_sets sets acc h x = go (sort_by not_longer sets) refl h
  where
    go :
        (sorted : List KeySet)
        → sort_by not_longer sets ≡ sorted
        → intersect_first sorted ≡ some acc
        → contains acc x ≡ in_all sets x
    go [] e h = ground arith
    go (s ∷ rest) e h =
        ground
          (arith, contains-intersect_loop s rest x, in_all-sort_by sets x, ap (λ l. in_all l x) e)
