-- ===== src/Scan.antt =====
-- src/corpus.rs, the parts of `select` that one condition uses: sets of frame keys, the body of each
-- scanning loop, and the intersection of the sets. A `BTreeSet` is the ascending list of its
-- elements.
use readcon_db.Base.{
  ℕ, ◌+◌, ◌-◌, ◌^◌, Bool, true, false, not, ◌&&◌, ◌||◌, Option, none, some, List, [], ◌∷◌, ltb, leb,
  ◌==◌, if◌then◌else◌, length, take, drop, slice,
}
use readcon_db.Base.Bytes.{Bytes, from_be_bytes}
use readcon_db.Heed.{Entry}
use readcon_db.Keys.{
  FrameKey, TrajId, from_bytes, frame_key_ltb, frame_key_eq, parse_elem_count_key,
}
use readcon_db.Keys.Float.{Float64, ordered_f64_bits, infinity}

abbrev pub KeySet : Type 0
KeySet = List FrameKey

unfoldable pub insert : FrameKey → KeySet → KeySet
insert fk [] = fk ∷ []
insert fk (x ∷ s) =
    let rest = insert fk s in
    if frame_key_ltb fk x then fk ∷ x ∷ s else if frame_key_eq fk x then x ∷ s else x ∷ rest

unfoldable pub contains : KeySet → FrameKey → Bool
contains [] fk = false
contains (x ∷ s) fk = frame_key_eq x fk || contains s fk

unfoldable pub retain : (FrameKey → Bool) → KeySet → KeySet
retain keep [] = []
retain keep (x ∷ s) = if keep x then x ∷ retain keep s else retain keep s

-- `a.intersection(&b)`, ascending as `a` is.
unfoldable pub intersection : KeySet → KeySet → KeySet
intersection a b = retain (contains b) a

-- What the body of a scanning loop does with one key: `continue`, `break`, or an insertion.
pub data Step : Type 0 where
  continue : Step
  break : Step
  found : FrameKey → Step

unfoldable pub scan : (Bytes → Step) → List Entry → KeySet → KeySet
scan body [] s = s
scan body ((k, v) ∷ rest) s = elim (body k) [
  | continue ↦ scan body rest s
  | break ↦ s
  | found fk ↦ scan body rest (insert fk s)
]

-- `sel.traj_id.is_none_or(|t| t == fk.traj_id)`
unfoldable pub is_of_traj : Option TrajId → FrameKey → Bool
is_of_traj none fk = true
is_of_traj (some t) fk = t == fk.traj_id

unfoldable pub insert_if_some : Option TrajId → Option FrameKey → Step
insert_if_some traj none = continue
insert_if_some traj (some fk) = if is_of_traj traj fk then found fk else continue

unfoldable pub unwrap_or {ℓ} : {A : Type ℓ} → Option A → A → A
unwrap_or none d = d
unwrap_or (some a) d = a

unfoldable pub is_some {ℓ} : {A : Type ℓ} → Option A → Bool
is_some none = false
is_some (some a) = true

-- The bodies of the loops. The first: over the keys with a number of `w` bytes at `from`, in the
-- range from `lo` to `hi`, and the frame key behind it.
unfoldable pub range_step : ℕ → ℕ → ℕ → Option TrajId → Bytes → Step
range_step w lo hi traj k =
    if ltb (length k) (w + 12)
    then continue
    else if ltb hi (from_be_bytes (take w k))
    then break
    else if leb lo (from_be_bytes (take w k))
    then insert_if_some traj (from_bytes (slice w (w + 12) k))
    else continue

unfoldable pub meta_step : ℕ → ℕ → Option TrajId → Bytes → Step
meta_step lo hi traj k =
    if ltb (length k) 21
    then continue
    else if ltb hi (from_be_bytes (slice 1 9 k))
    then continue
    else if leb lo (from_be_bytes (slice 1 9 k))
    then insert_if_some traj (from_bytes (slice 9 21 k))
    else continue

-- The last twelve bytes, for the keys that begin with a text.
unfoldable pub text_step : Option TrajId → Bytes → Step
text_step traj k =
    if ltb (length k) 12
    then continue
    else insert_if_some traj (from_bytes (drop (length k - 12) k))

-- A byte and then the frame key.
unfoldable pub byte_step : Option TrajId → Bytes → Step
byte_step traj k =
    if ltb (length k) 13 then continue else insert_if_some traj (from_bytes (slice 1 13 k))

unfoldable pub count_step : (ℕ → Bool) → Bytes → Option TrajId → Bytes → Step
count_step wanted symbol traj k = elim (parse_elem_count_key k symbol) [
  | none ↦ continue
  | some (c, fk) ↦ if wanted c && is_of_traj traj fk then found fk else continue
]

unfoldable pub frame_step : Option TrajId → Bytes → Step
frame_step traj k = insert_if_some traj (from_bytes k)

-- `slice.sort_by_key`, and `sort_unstable` for keys that differ: `le` says which may stand first.
unfoldable pub insert_by {ℓ} : {A : Type ℓ} → (A → A → Bool) → A → List A → List A
insert_by le a [] = a ∷ []
insert_by le a (x ∷ xs) = let rest = insert_by le a xs in if le a x then a ∷ x ∷ xs else x ∷ rest

unfoldable pub sort_by {ℓ} : {A : Type ℓ} → (A → A → Bool) → List A → List A
sort_by le [] = []
sort_by le (x ∷ xs) = insert_by le x (sort_by le xs)

unfoldable pub not_longer : KeySet → KeySet → Bool
not_longer a b = leb (length a) (length b)

unfoldable pub frame_key_leb : FrameKey → FrameKey → Bool
frame_key_leb a b = not (frame_key_ltb b a)

-- The loop over the sorted sets.
unfoldable pub intersect_loop : KeySet → List KeySet → KeySet
intersect_loop acc [] = acc
intersect_loop acc (s ∷ sets) =
    let smaller = intersect_loop (intersection s acc) sets in
    let larger = intersect_loop (intersection acc s) sets in
    if length acc == 0 then acc else if ltb (length s) (length acc) then smaller else larger

-- `none` is the panic of `sets.remove(0)`.
unfoldable pub intersect_first : List KeySet → Option KeySet
intersect_first [] = none
intersect_first (acc ∷ sets) = some (intersect_loop acc sets)

unfoldable pub intersect_sets : List KeySet → Option KeySet
intersect_sets sets = intersect_first (sort_by not_longer sets)

unfoldable pub truncate : Option ℕ → KeySet → KeySet
truncate none out = out
truncate (some lim) out = take lim out

-- `if cond { sets.push(s) }`
unfoldable pub push_if : Bool → KeySet → List KeySet
push_if cond s = if cond then s ∷ [] else []

-- `if let Some(a) = o { sets.push(s(a)) }`
unfoldable pub push_some {ℓ} : {A : Type ℓ} → Option A → (A → KeySet) → List KeySet
push_some none s = []
push_some (some a) s = s a ∷ []

unfoldable pub lo_bits : Option Float64 → Float64 → ℕ
lo_bits lo default = unwrap_or (ordered_f64_bits (unwrap_or lo default)) 0

unfoldable pub hi_bits : Option Float64 → ℕ
hi_bits hi = unwrap_or (ordered_f64_bits (unwrap_or hi infinity)) (2 ^ 64 - 1)

unfoldable pub retain_all : TrajId → List KeySet → List KeySet
retain_all tid [] = []
retain_all tid (s ∷ sets) = retain (λ fk. fk.traj_id == tid) s ∷ retain_all tid sets

-- The set of one key, from the value under a hash.
unfoldable pub inserted : Step → KeySet
inserted continue = []
inserted break = []
inserted (found fk) = insert fk []

unfoldable pub posted_set : Option TrajId → Option Bytes → KeySet
posted_set traj none = []
posted_set traj (some b) = inserted (insert_if_some traj (from_bytes b))
