-- ===== src/Keys.antt =====
-- src/keys.rs: frame keys, content hashes and the keys of the secondary indexes. A `str` is its
-- UTF-8 bytes. xxh3-128 is the section's parameter; `f64` is in Keys/Float.
pub mod Float
pub mod Layout
pub mod Ordered
pub mod Prefixes
use readcon_db.Base.{
  ℕ, zero, suc, ◌+◌, ◌-◌, ◌*◌, ◌/◌, ◌%◌, ◌^◌, Bool, true, false, not, ◌&&◌, ◌||◌, Option, none,
  some, List, [], ◌∷◌, ◌++◌, map, ltb, leb, ◌==◌, if◌then◌else◌, length, take, drop, slice, arith,
}
use readcon_db.Base.Bytes.{Bytes, to_le_bytes, to_be_bytes, from_be_bytes, starts_with}

abbrev pub TrajId : Type 0
TrajId = ℕ

abbrev pub FrameIdx : Type 0
FrameIdx = ℕ

-- A `[u8; 16]`; `content_hash_from_bytes` is `ContentHash::from_bytes`.
abbrev pub ContentHash : Type 0
ContentHash = Bytes

unfoldable pub content_hash_from_bytes : Bytes → Option ContentHash
content_hash_from_bytes b = if not (length b == 16) then none else some b

-- Two lower-case hex digits for a byte, as `{b:02x}` writes them.
hex_digit : ℕ → ℕ
hex_digit d = if ltb d 10 then b'0' + d else b'a' + (d - 10)

to_hex : Bytes → Bytes
unfolding hex_digit
to_hex [] = []
to_hex (b ∷ bs) = hex_digit (b / 16) ∷ hex_digit (b % 16) ∷ to_hex bs

-- `h.to_le_bytes()` of the 128-bit digest.
unfoldable pub hash_frame_bytes : (Bytes → ℕ) → Bytes → Bytes
hash_frame_bytes xxh3_128 blob = to_le_bytes 16 (xxh3_128 blob)

pub record FrameKey : Type 0 where
  pub traj_id : TrajId
  pub frame_idx : FrameIdx

-- The derived order: the trajectory first.
unfoldable pub frame_key_ltb : FrameKey → FrameKey → Bool
frame_key_ltb a b =
    ltb a.traj_id b.traj_id || (a.traj_id == b.traj_id && ltb a.frame_idx b.frame_idx)

unfoldable pub frame_key_eq : FrameKey → FrameKey → Bool
frame_key_eq a b = a.traj_id == b.traj_id && a.frame_idx == b.frame_idx

unfoldable pub to_bytes : FrameKey → Bytes
to_bytes fk = to_be_bytes 8 fk.traj_id ++ to_be_bytes 4 fk.frame_idx

unfoldable pub from_bytes : Bytes → Option FrameKey
from_bytes b =
    if not (length b == 12)
    then none
    else some (record { traj_id = from_be_bytes (take 8 b); frame_idx = from_be_bytes (drop 8 b) })

unfoldable pub natoms_key : ℕ → FrameKey → Bytes
natoms_key n_atoms fk = to_be_bytes 4 n_atoms ++ to_bytes fk

unfoldable pub symbol_prefix : Bytes → Bytes
symbol_prefix symbol = symbol ++ (0xff ∷ [])

unfoldable pub symbol_key : Bytes → FrameKey → Bytes
symbol_key symbol fk = (symbol ++ (0xff ∷ [])) ++ to_bytes fk

unfoldable pub flag_key : ℕ → FrameKey → Bytes
flag_key flag fk = flag ∷ to_bytes fk

abbrev pub flag_has_forces : ℕ
flag_has_forces = 1

abbrev pub flag_has_velocities : ℕ
flag_has_velocities = 2

abbrev pub flag_has_energy : ℕ
flag_has_energy = 3

unfoldable pub elem_count_key : Bytes → ℕ → FrameKey → Bytes
elem_count_key symbol count fk = (symbol ++ (0xff ∷ [])) ++ (to_be_bytes 4 count ++ to_bytes fk)

unfoldable pub elem_count_symbol_prefix : Bytes → Bytes
elem_count_symbol_prefix symbol = symbol ++ (0xff ∷ [])

with_count : ℕ → Option FrameKey → Option (ℕ × FrameKey)
with_count count none = none
with_count count (some fk) = some (count, fk)

unfoldable pub parse_elem_count_key : Bytes → Bytes → Option (ℕ × FrameKey)
unfolding with_count elem_count_symbol_prefix
parse_elem_count_key k symbol =
    let pref = elem_count_symbol_prefix symbol in
    if not (starts_with k pref) || ltb (length k) (length pref + 4 + 12)
    then none
    else with_count (from_be_bytes (slice (length pref) (length pref + 4) k))
        (from_bytes (slice (length pref + 4) (length pref + 4 + 12) k))

unfoldable pub formula_key : Bytes → FrameKey → Bytes
formula_key formula fk = (formula ++ (0xff ∷ [])) ++ to_bytes fk

unfoldable pub formula_prefix : Bytes → Bytes
formula_prefix formula = formula ++ (0xff ∷ [])

unfoldable pub topo_key : Bytes → FrameKey → Bytes
topo_key hex fk = (hex ++ (0xff ∷ [])) ++ to_bytes fk

unfoldable pub topo_prefix : Bytes → Bytes
topo_prefix hex = hex ++ (0xff ∷ [])

-- The channels of `idx_meta`.
abbrev pub meta_time : ℕ
meta_time = 1

abbrev pub meta_timestep : ℕ
meta_timestep = 2

abbrev pub meta_frame_index : ℕ
meta_frame_index = 3

abbrev pub meta_neb_bead : ℕ
meta_neb_bead = 4

abbrev pub meta_neb_band : ℕ
meta_neb_band = 5

abbrev pub meta_charge : ℕ
meta_charge = 6

abbrev pub meta_magmom : ℕ
meta_magmom = 7

unfoldable pub meta_channel_prefix : ℕ → Bytes
meta_channel_prefix channel = channel ∷ []

-- `mask & 0x07`.
unfoldable pub pbc_key : ℕ → FrameKey → Bytes
pbc_key mask fk = mask % 8 ∷ to_bytes fk

bit : Bool → ℕ
bit b = if b then 1 else 0

-- The three bits do not overlap, so `|` adds them.
unfoldable pub pbc_mask_from_bools : Bool × Bool × Bool → ℕ
unfolding bit
pbc_mask_from_bools (x, y, z) = bit x + bit y * 2 + bit z * 4
