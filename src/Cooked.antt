-- ===== src/Cooked.antt =====
-- src/cooked_soa.rs: the RCSO payload of one frame and the RCSB envelope of many. Of readcon-core's
-- frame the code reads the atoms alone; a `f64` is its bit pattern.
pub mod Batch
pub mod Rows
pub mod RoundTrip
use readcon_db.Base.{
  ℕ, zero, suc, ◌+◌, ◌-◌, ◌*◌, ◌/◌, ◌%◌, ◌^◌, ◌<◌, ◌≤◌, ◌≡◌, ◌≢◌, refl, sym, ap, ◌∙◌, ◌↔◌, ◌⊎◌, inl,
  inr, Bool, true, false, not, ◌&&◌, ◌||◌, Option, none, some, List, [], ◌∷◌, ◌++◌, map, ltb, leb,
  ◌==◌, if◌then◌else◌, arith, Bool-cases, &&_split, lt→ltb, ltb→lt, leb→le, ==_iff, length, take,
  drop, slice, get_elem?, All, All-append, length-append, take-append, drop-append, take_all,
  length-take, length-drop, take-drop, get_elem?-append, slice-append, slice-append_end, usize_max,
  saturating_add, saturating_mul, min, max,
}
use mathlib.Core.List.{append-nil, append_assoc}
use readcon_db.Base.Bytes.{
  Bytes, IsByte, IsU32, IsU64, to_le_bytes, from_le_bytes, to_be_bytes, from_be_bytes,
  length-to_le_bytes, from_le_bytes-to_le_bytes, length-to_be_bytes, from_be_bytes-to_be_bytes,
  to_be_bytes-IsByte, starts_with, starts_with-append, bytes_eq, bytes_eq_iff,
}
use readcon_db.Base.Utf8.{is_utf8, is_utf8-IsTextByte, IsTextByte}
use readcon_db.Base.Order.{bytes_ltb, bytes_ltb-to_be_bytes}
use readcon_db.Error.{
  Error, Result, ok, err, message, parse, missing_frame, traj_exists, heed, io, utf8, json, nul,
  ◌>>=◌, ◌>>◌, guard, ok_or, >>=-eq-ok,
}
use readcon_db.Keys.Float.{Float64}

pub record Vec3 : Type 0 where
  pub x : Float64
  pub y : Float64
  pub z : Float64

-- What `atom_data` gives of one atom.
pub record Atom : Type 0 where
  pub position : Vec3
  pub force : Option Vec3
  pub velocity : Option Vec3

-- b"RCSO"
abbrev pub cooked_magic : Bytes
cooked_magic = b'R' ∷ b'C' ∷ b'S' ∷ b'O' ∷ []

abbrev pub cooked_version : ℕ
cooked_version = 1

abbrev pub dtype_f64 : ℕ
dtype_f64 = 0

abbrev pub flag_forces : ℕ
flag_forces = 1

abbrev pub flag_velocities : ℕ
flag_velocities = 2

abbrev pub header_len : ℕ
header_len = 4 + 4 + 4 + 4 + 1 + 3 + 4

pub record CookedSoa : Type 0 where
  pub natoms : ℕ
  pub positions : List Vec3
  pub forces : Option (List Vec3)
  pub velocities : Option (List Vec3)

abbrev pub zero_vec3 : Vec3
zero_vec3 = record { x = 0; y = 0; z = 0 }

unfoldable pub is_some : Option Vec3 → Bool
is_some none = false
is_some (some v) = true

unfoldable pub any_force : List Atom → Bool
unfolding is_some
any_force [] = false
any_force (a ∷ atoms) = is_some a.force || any_force atoms

unfoldable pub any_velocity : List Atom → Bool
unfolding is_some
any_velocity [] = false
any_velocity (a ∷ atoms) = is_some a.velocity || any_velocity atoms

-- `unwrap_or([0.0; 3])`.
unfoldable pub or_zero : Option Vec3 → Vec3
or_zero none = zero_vec3
or_zero (some v) = v

-- The rows that the three loops of `encode_frame` write.
unfoldable pub position_rows : List Atom → List Vec3
position_rows atoms = map (λ a. a.position) atoms

unfoldable pub force_rows : List Atom → List Vec3
force_rows atoms = map (λ a. or_zero a.force) atoms

unfoldable pub velocity_rows : List Atom → List Vec3
velocity_rows atoms = map (λ a. or_zero a.velocity) atoms

unfoldable pub push_rows : List Vec3 → Bytes
push_rows [] = []
push_rows (v ∷ vs) = to_le_bytes 8 v.x ++ (to_le_bytes 8 v.y ++ (to_le_bytes 8 v.z ++ push_rows vs))

-- The two bits do not overlap, so `|=` adds them.
unfoldable pub flags_of : Bool → Bool → ℕ
flags_of has_f has_v = (if has_f then flag_forces else 0) + (if has_v then flag_velocities else 0)

unfoldable pub header : ℕ → ℕ → Bytes
header natoms flags =
    cooked_magic
    ++ (to_le_bytes 4 cooked_version
        ++ (to_le_bytes 4 natoms
            ++ (to_le_bytes 4 flags ++ (dtype_f64 ∷ 0 ∷ 0 ∷ 0 ∷ to_le_bytes 4 0))))

unfoldable pub encode_frame : List Atom → Result Bytes
encode_frame atoms =
    let n = length atoms in
    let has_f = any_force atoms in
    let has_v = any_velocity atoms in
    if ltb (2 ^ 32 - 1) n
    then err (message "too many atoms for cooked SoA")
    else ok (
        header n (flags_of has_f has_v)
        ++ (push_rows (position_rows atoms)
            ++ ((if has_f then push_rows (force_rows atoms) else [])
                ++ (if has_v then push_rows (velocity_rows atoms) else []))))

-- The rows of `read_vec3_block`, over what is left of the block.
unfoldable pub read_coord : Bytes → Result (ℕ × Bytes)
read_coord bytes =
    if ltb (length bytes) 8
    then err (message "cooked SoA short block")
    else ok (from_le_bytes (take 8 bytes), drop 8 bytes)

unfoldable pub read_vec3_block : Bytes → ℕ → Result (List Vec3)
unfolding read_coord
read_vec3_block bytes zero = ok []
read_vec3_block bytes (suc n) = do
  (cx, r1) ← read_coord bytes
  (cy, r2) ← read_coord r1
  (cz, r3) ← read_coord r2
  rows ← read_vec3_block r3 n
  ok (record { x = cx; y = cy; z = cz } ∷ rows)

abbrev pub overflow : Error
overflow = message "overflow"

-- `a.checked_mul(b)` and `a.checked_add(b)` on `usize`.
unfoldable pub checked_mul : ℕ → ℕ → Result ℕ
checked_mul a b = do guard (leb (a * b) usize_max) overflow; ok (a * b)

unfoldable pub checked_add : ℕ → ℕ → Result ℕ
checked_add a b = do guard (leb (a + b) usize_max) overflow; ok (a + b)

-- A block that its flag announces, at `off`; the offset behind it comes back too.
unfoldable pub read_block : Bool → Bytes → ℕ → ℕ → ℕ → Result (Option (List Vec3) × ℕ)
read_block false bytes off block_bytes n = ok (none, off)
read_block true bytes off block_bytes n = do
  rows ← read_vec3_block (slice off (off + block_bytes) bytes) n
  ok (some rows, off + block_bytes)

unfoldable pub need_block : Bool → ℕ → ℕ → Result ℕ
need_block false need block_bytes = ok need
need_block true need block_bytes = checked_add need block_bytes

-- The second half of `decode`, behind the checks of the header. `flags & FLAG_FORCES != 0` is the
-- lowest bit, `flags & FLAG_VELOCITIES != 0` the next.
unfoldable pub decode_body : Bytes → ℕ → ℕ → Result CookedSoa
decode_body bytes natoms flags = do
  block ← checked_mul natoms 3
  block_bytes ← checked_mul block 8
  let has_f = flags % 2 == 1
  let has_v = flags / 2 % 2 == 1
  need_f ← need_block has_f (header_len + block_bytes) block_bytes
  need ← need_block has_v need_f block_bytes
  guard (leb need (length bytes)) (message "cooked SoA truncated body")
  positions ← read_vec3_block (slice header_len (header_len + block_bytes) bytes) natoms
  (forces, off) ← read_block has_f bytes (header_len + block_bytes) block_bytes natoms
  (velocities, off') ← read_block has_v bytes off block_bytes natoms
  ok (record { natoms = natoms; positions = positions; forces = forces; velocities = velocities })

unfoldable pub decode : Bytes → Result CookedSoa
decode bytes = do
  guard (leb header_len (length bytes)) (message "cooked SoA truncated header")
  guard (bytes_eq (slice 0 4 bytes) cooked_magic) (message "cooked SoA bad magic")
  guard (from_le_bytes (slice 4 8 bytes) == cooked_version)
      (message "cooked SoA unsupported version")
  let natoms = from_le_bytes (slice 8 12 bytes)
  let flags = from_le_bytes (slice 12 16 bytes)
  guard (from_le_bytes (slice 16 17 bytes) == dtype_f64) (message "cooked SoA unsupported dtype")
  decode_body bytes natoms flags

-- `Self::decode(bytes).ok()`
unfoldable pub try_decode : Bytes → Option CookedSoa
try_decode bytes = elim (decode bytes) [ ok c ↦ some c | err e ↦ none ]
