-- ===== src/Keys/Layout.antt =====
-- The frame key at the end of each index key is the one that was put there.
use readcon_db.Base.{
  ℕ, ◌+◌, ◌-◌, ◌≡◌, refl, sym, ap, ◌∙◌, false, ◌&&◌, ◌||◌, some, [], ◌∷◌, ◌++◌, ltb, ◌==◌, length,
  drop, slice, arith, length-append, slice-append, slice-append_end, take-append, drop-append,
}
use mathlib.Core.List.{append-nil, append_assoc}
use readcon_db.Base.Bytes.{
  Bytes, IsU32, IsU64, to_be_bytes, length-to_be_bytes, from_be_bytes-to_be_bytes,
  starts_with-append,
}
use readcon_db.Base.Order.{bytes_ltb, bytes_ltb-to_be_bytes}
use readcon_db.Keys.{
  FrameKey, to_bytes, from_bytes, frame_key_ltb, elem_count_key, parse_elem_count_key,
}

-- The two fields fit their Rust types.
abbrev pub IsFrameKey : FrameKey → Type 0
IsFrameKey fk = IsU64 fk.traj_id × IsU32 fk.frame_idx

pub length-to_bytes : (fk : FrameKey) → length (to_bytes fk) ≡ 12
unfolding to_bytes
length-to_bytes fk = omega (
  arith,
  length-append (to_be_bytes 8 fk.traj_id) (to_be_bytes 4 fk.frame_idx),
  length-to_be_bytes 8 fk.traj_id,
  length-to_be_bytes 4 fk.frame_idx,
)

-- A frame key is read back from its twelve bytes.
pub from_bytes-to_bytes : (fk : FrameKey) → IsFrameKey fk → from_bytes (to_bytes fk) ≡ some fk
unfolding from_bytes
from_bytes-to_bytes fk h = rw length-to_bytes (
    unfold to_bytes in
    rw (
      take-append (to_be_bytes 8 fk.traj_id) (to_be_bytes 4 fk.frame_idx) 8
          (length-to_be_bytes 8 fk.traj_id),
      drop-append (to_be_bytes 8 fk.traj_id) (to_be_bytes 4 fk.frame_idx) 8
          (length-to_be_bytes 8 fk.traj_id),
      from_be_bytes-to_be_bytes 8 fk.traj_id (omega arith),
      from_be_bytes-to_be_bytes 4 fk.frame_idx (omega arith),
    ))

-- Only strings of twelve bytes are frame keys.
pub to_bytes_injective :
    (a b : FrameKey) → IsFrameKey a → IsFrameKey b → to_bytes a ≡ to_bytes b → a ≡ b
to_bytes_injective a b ha hb e =
    let both : some a ≡ some b =
      sym (from_bytes-to_bytes a ha) ∙ ap from_bytes e ∙ from_bytes-to_bytes b hb in
    cc both

pub from_bytes-length : (b : Bytes) (fk : FrameKey) → from_bytes b ≡ some fk → length b ≡ 12
unfolding from_bytes
from_bytes-length b fk e = ground arith

-- The keys of LMDB's `frames` table stand in the derived order of `FrameKey`.
pub bytes_ltb-to_bytes :
    (a b : FrameKey)
    → IsFrameKey a
    → IsFrameKey b
    → bytes_ltb (to_bytes a) (to_bytes b) ≡ frame_key_ltb a b
unfolding to_bytes frame_key_ltb
bytes_ltb-to_bytes a b ha hb =
    bytes_ltb-to_be_bytes 8 a.traj_id b.traj_id _ _ (omega arith) (omega arith)
    ∙ ap (λ t. ltb a.traj_id b.traj_id || (a.traj_id == b.traj_id && t)) frames
  where
    frames :
        bytes_ltb (to_be_bytes 4 a.frame_idx) (to_be_bytes 4 b.frame_idx)
        ≡ ltb a.frame_idx b.frame_idx
    frames =
        let e = bytes_ltb-to_be_bytes 4 a.frame_idx b.frame_idx [] [] (omega arith) (omega arith) in
        rw (append-nil (to_be_bytes 4 a.frame_idx), append-nil (to_be_bytes 4 b.frame_idx)) at e
        ∙ unfold bytes_ltb in ground arith

-- The last twelve bytes.
abbrev pub last_twelve : Bytes → Bytes
last_twelve k = drop (length k - 12) k

pub last_twelve-append :
    (front : Bytes) (fk : FrameKey) → last_twelve (front ++ to_bytes fk) ≡ to_bytes fk
last_twelve-append front fk =
    drop-append front (to_bytes fk) _
      (omega (arith, length-append front (to_bytes fk), length-to_bytes fk))

-- `parse_elem_count_key` reads the count and the frame key of a key for its symbol.
pub parse_elem_count_key-elem_count_key :
    (symbol : Bytes) (count : ℕ) (fk : FrameKey)
    → IsU32 count
    → IsFrameKey fk
    → parse_elem_count_key (elem_count_key symbol count fk) symbol ≡ some (count, fk)
unfolding parse_elem_count_key elem_count_key
parse_elem_count_key-elem_count_key symbol count fk hc h = rw (
  starts_with-append pref (cnt ++ to_bytes fk),
  long_enough,
  slice-append pref cnt (to_bytes fk) _ _ refl four,
  rest,
  from_be_bytes-to_be_bytes 4 count (omega arith),
  from_bytes-to_bytes fk h,
)
  where
    pref : Bytes
    pref = symbol ++ (0xff ∷ [])

    cnt : Bytes
    cnt = to_be_bytes 4 count

    four : length pref + length cnt ≡ length pref + 4
    four = omega (arith, length-to_be_bytes 4 count)

    long_enough : ltb (length (pref ++ (cnt ++ to_bytes fk))) (length pref + 4 + 12) ≡ false
    long_enough = ground (
      arith,
      length-append pref (cnt ++ to_bytes fk),
      length-append cnt (to_bytes fk),
      length-to_bytes fk,
      length-to_be_bytes 4 count,
    )

    rest :
        slice (length pref + 4) (length pref + 4 + 12) (pref ++ (cnt ++ to_bytes fk)) ≡ to_bytes fk
    rest = rw (← append_assoc pref cnt (to_bytes fk)) (
        slice-append_end (pref ++ cnt) (to_bytes fk) _ _
          (omega (arith, length-append pref cnt, length-to_be_bytes 4 count))
          (omega (arith, length-to_bytes fk)))
