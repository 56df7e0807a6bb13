-- ===== src/Codec.antt =====
-- src/frame_codec.rs: the values of the `frames` table. A text is its UTF-8 bytes. zstd is the
-- section's parameter, an interface of Zstd.antt.
pub mod Single
pub mod Redirect
pub mod Group
pub mod Runs
pub mod Decodes
pub mod RoundTrip
pub mod Sizes
pub mod Split
use readcon_db.Base.{
  ℕ, zero, suc, ◌+◌, ◌-◌, ◌*◌, ◌/◌, ◌%◌, ◌^◌, ◌<◌, ◌≤◌, Bool, true, false, not, ◌&&◌, ◌||◌, Option,
  none, some, List, [], ◌∷◌, ◌++◌, map, ltb, leb, ◌==◌, if◌then◌else◌, length, take, drop, slice,
  get_elem?, arith, saturating_add, saturating_mul,
}
use readcon_db.Base.Bytes.{Bytes, to_le_bytes, from_le_bytes, starts_with}
use readcon_db.Base.Utf8.{is_utf8}
use readcon_db.Error.{Error, Result, ok, err, message, ◌>>=◌, ◌>>◌, guard, ok_or}
use readcon_db.Zstd.{Zstd}

abbrev pub frame_tag : Bytes
frame_tag = 0xfd ∷ 0x01 ∷ []

abbrev pub redir_tag : Bytes
redir_tag = 0xfd ∷ 0x02 ∷ []

abbrev pub group_tag : Bytes
group_tag = 0xfd ∷ 0x03 ∷ []

abbrev pub group_len : ℕ
group_len = 64

abbrev pub zstd_level : ℕ
zstd_level = 1

abbrev pub redir_len : ℕ
redir_len = 2 + 4 + 4

abbrev pub corrupt : Error
corrupt = message "corrupt frame value"

-- A frame index with the frame's text.
abbrev pub Frame : Type 0
Frame = ℕ × Bytes

unfoldable pub is_tagged : Bytes → Bool
is_tagged stored = starts_with stored frame_tag

unfoldable pub is_redirect : Bytes → Bool
is_redirect stored = starts_with stored redir_tag

unfoldable pub is_group : Bytes → Bool
is_group stored = starts_with stored group_tag

unfoldable pub encode_redirect : ℕ → ℕ → Bytes
encode_redirect head slot = redir_tag ++ (to_le_bytes 4 head ++ to_le_bytes 4 slot)

unfoldable pub parse_redirect : Bytes → Result (ℕ × ℕ)
parse_redirect stored = do
  guard (length stored == redir_len) corrupt
  let head = from_le_bytes (slice 2 6 stored)
  let slot = from_le_bytes (slice 6 10 stored)
  guard (not (slot == 0)) corrupt
  ok (head, slot)

-- The loop of `encode_group`: each text behind its length.
unfoldable pub group_payload : List Frame → Result Bytes
group_payload [] = ok []
group_payload ((k, text) ∷ run) =
    let rest = group_payload run in
    if ltb (2 ^ 32 - 1) (length text)
    then err (message "frame longer than u32")
    else do more ← rest; ok (to_le_bytes 4 (length text) ++ (text ++ more))

-- The loop of `decode_group` over what is left of the payload. Each round takes four bytes at
-- least, so its length is fuel enough.
unfoldable pub split_texts : ℕ → Bytes → Result (List Bytes)
split_texts fuel [] = ok []
split_texts zero (b ∷ bs) = err corrupt
split_texts (suc fuel) (b ∷ bs) =
    let len = from_le_bytes (take 4 (b ∷ bs)) in
    let rest = drop 4 (b ∷ bs) in
    let texts = split_texts fuel (drop len rest) in
    if ltb (length (b ∷ bs)) 4
    then err corrupt
    else if ltb (length rest) len
    then err corrupt
    else if not (is_utf8 (take len rest))
    then err corrupt
    else do more ← texts; ok (take len rest ∷ more)

-- The frames of the run at the front, and those behind it.
unfoldable pub take_run : ℕ → List Frame → List Frame
take_run gid [] = []
take_run gid ((k, text) ∷ fs) = if k / group_len == gid then (k, text) ∷ take_run gid fs else []

unfoldable pub drop_run : ℕ → List Frame → List Frame
drop_run gid [] = []
drop_run gid ((k, text) ∷ fs) = if k / group_len == gid then drop_run gid fs else (k, text) ∷ fs

-- `for slot in 1..run.len()`, from `slot` on; `slot as u32` wraps.
unfoldable pub redirects : ℕ → ℕ → ℕ → List Bytes
redirects head slot zero = []
redirects head slot (suc n) = encode_redirect head (slot % 2 ^ 32) ∷ redirects head (slot + 1) n

unfoldable pub size_sum : List Bytes → ℕ
size_sum [] = 0
size_sum (v ∷ vs) = saturating_add (length v) (size_sum vs)

module _ (z : Zstd) where
  open z use {encode_all, decode_all}

  unfoldable pub store_frame : Bytes → Bool → Result Bytes
  store_frame text compress = if not compress then ok text else do
    compressed ← ok_or (encode_all text zstd_level) (message "zstd encode")
    if leb (length text) (saturating_add (length compressed) (length frame_tag))
        then ok text
        else ok (frame_tag ++ compressed)

  unfoldable pub encode_group : List Frame → Result Bytes
  encode_group run = do
    payload ← group_payload run
    compressed ← ok_or (encode_all payload zstd_level) (message "zstd encode")
    ok (group_tag ++ (to_le_bytes 4 (length run % 2 ^ 32) ++ compressed))

  unfoldable pub decode_group : Bytes → Result (List Bytes)
  decode_group stored = do
    guard (leb (6 + 4) (length stored)) corrupt
    let n = from_le_bytes (slice 2 6 stored)
    guard (leb 2 n) corrupt
    plain ← ok_or (decode_all (drop 6 stored)) corrupt
    out ← split_texts (length plain) plain
    guard (length out == n) corrupt
    ok out

  unfoldable pub load_frame : Bytes → Result Bytes
  load_frame stored =
      if is_group stored || is_redirect stored
      then err (message "corrupt frame value: grouped value needs decode_frame")
      else if is_tagged stored
      then (do
        plain ← ok_or (decode_all (drop 2 stored)) corrupt
        guard (is_utf8 plain) corrupt
        ok plain)
      else if is_utf8 stored
      then ok stored
      else err corrupt

  unfoldable pub open_group_or_single : Bytes → Result (List Bytes)
  open_group_or_single stored =
      if is_group stored then decode_group stored else do text ← load_frame stored; ok (text ∷ [])

  unfoldable pub decode_frame : Bytes → (ℕ → Result Bytes) → Result Bytes
  decode_frame stored fetch_head =
      if is_redirect stored
      then (do
        (head, slot) ← parse_redirect stored
        head_bytes ← fetch_head head
        guard (not (is_redirect head_bytes)) corrupt
        texts ← open_group_or_single head_bytes
        ok_or (get_elem? texts slot) corrupt)
      else do texts ← open_group_or_single stored; ok_or (get_elem? texts 0) corrupt

  -- The loop over `run` that stores each frame by itself.
  unfoldable pub store_singles : List Frame → Result (List Bytes)
  store_singles [] = ok []
  store_singles ((k, text) ∷ run) = do
    one ← store_frame text true
    more ← store_singles run
    ok (one ∷ more)

  -- One round of `pack_aligned`, on the run `(head, text) ∷ run`.
  unfoldable pub pack_run : ℕ → Bytes → List Frame → Result (List Bytes)
  pack_run head text run = do
    singles ← store_singles ((head, text) ∷ run)
    if ltb 1 (length ((head, text) ∷ run))
        then (do
          grouped ← encode_group ((head, text) ∷ run)
          let total = saturating_add (length grouped) (saturating_mul redir_len (length run))
          if ltb total (size_sum singles)
              then ok (grouped ∷ redirects head 1 (length run))
              else ok singles)
        else ok singles

  -- The outer loop, on what is left of the frames. Each round takes a frame at least; to run out of
  -- rounds is an error that the code does not have.
  unfoldable pub pack_loop : ℕ → List Frame → Result (List Bytes)
  pack_loop fuel [] = ok []
  pack_loop zero (f ∷ fs) = err (message "out of rounds")
  pack_loop (suc fuel) ((k, text) ∷ fs) = do
    packed ← pack_run k text (take_run (k / group_len) fs)
    more ← pack_loop fuel (drop_run (k / group_len) fs)
    ok (packed ++ more)

  unfoldable pub pack_aligned : List Frame → Result (List Bytes)
  pack_aligned frames = pack_loop (length frames) frames
