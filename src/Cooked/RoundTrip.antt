-- ===== src/Cooked/RoundTrip.antt =====
-- `decode` on what `encode_frame` wrote, and on any bytes with a sound header.
use readcon_db.Base.{
  ℕ, ◌+◌, ◌*◌, ◌≤◌, ◌≡◌, refl, ap, ◌∙◌, Bool, true, false, Option, none, some, List, [], ◌∷◌, ◌++◌,
  map, if◌then◌else◌, arith, length, slice, All, length-append, slice-append,
}
use mathlib.Core.List.{append_assoc}
use readcon_db.Base.Bytes.{
  Bytes, IsU32, to_le_bytes, from_le_bytes, from_le_bytes-to_le_bytes, bytes_eq,
}
use readcon_db.Error.{ok}
use readcon_db.Cooked.{
  Vec3, Atom, CookedSoa, header_len, any_force, any_velocity, or_zero, position_rows, force_rows,
  velocity_rows, push_rows, flags_of, header, encode_frame, read_vec3_block, checked_mul,
  checked_add, read_block, need_block, decode_body, decode,
}
use readcon_db.Cooked.Rows.{IsVec3, length-push_rows, read_vec3_block-push_rows}

decode-header :
    (n flags : ℕ) (body : Bytes)
    → IsU32 n
    → IsU32 flags
    → decode (header n flags ++ body) ≡ decode_body (header n flags ++ body) n flags
unfolding decode header bytes_eq
decode-header n flags body hn hf =
    unfold to_le_bytes from_le_bytes in
    ground (arith, from_le_bytes-to_le_bytes 4 n hn, from_le_bytes-to_le_bytes 4 flags hf)

decode_body_blocks :
    (f v : Bool) (bytes : Bytes) (n off off' : ℕ) (pos : List Vec3) (fs vs : Option (List Vec3))
    → IsU32 n
    → header_len + n * 3 * 8 + (if f then n * 3 * 8 else 0) + (if v then n * 3 * 8 else 0)
      ≤ length bytes
    → read_vec3_block (slice header_len (header_len + n * 3 * 8) bytes) n ≡ ok pos
    → read_block f bytes (header_len + n * 3 * 8) (n * 3 * 8) n ≡ ok (fs, off)
    → read_block v bytes off (n * 3 * 8) n ≡ ok (vs, off')
    → decode_body bytes n (flags_of f v)
      ≡ ok (record { natoms = n; positions = pos; forces = fs; velocities = vs })
unfolding decode_body flags_of checked_mul checked_add need_block
decode_body_blocks false false bytes n off off' pos fs vs small len p q r = ground arith
decode_body_blocks false true bytes n off off' pos fs vs small len p q r = ground arith
decode_body_blocks true false bytes n off off' pos fs vs small len p q r = ground arith
decode_body_blocks true true bytes n off off' pos fs vs small len p q r = ground arith

-- The rows of an optional block, and the bytes that they take.
abbrev pub when : Bool → List Vec3 → Option (List Vec3)
when b rows = if b then some rows else none

abbrev block_bytes_of : Bool → List Vec3 → Bytes
block_bytes_of b rows = if b then push_rows rows else []

read_block-push_rows :
    (b : Bool) (front extra : Bytes) (rows : List Vec3) (n off : ℕ)
    → length rows ≡ n
    → length front ≡ off
    → All IsVec3 rows
    → read_block b (front ++ (block_bytes_of b rows ++ extra)) off (n * 3 * 8) n
      ≡ ok (when b rows, off + length (block_bytes_of b rows))
unfolding read_block
read_block-push_rows false front extra rows n off hn ho h = ap (λ t. ok (none, t)) (omega arith)
read_block-push_rows true front extra rows n off hn ho h =
    rw
      (
        slice-append front (push_rows rows) extra off (off + n * 3 * 8) ho
            (omega (arith, length-push_rows rows)),
        ← hn,
      )
      (rw (read_vec3_block-push_rows rows h, length-push_rows rows) refl)

-- All numbers of an atom are 64-bit patterns.
pub record IsAtom (a : Atom) : Type 0 where
  pub position_fits : IsVec3 a.position
  pub force_fits : IsVec3 (or_zero a.force)
  pub velocity_fits : IsVec3 (or_zero a.velocity)

-- What `decode` should make of an encoded frame: a force or velocity that one atom of several
-- lacks is zero, and a block is there when any atom has one.
unfoldable pub cooked_of : List Atom → CookedSoa
cooked_of atoms = record {
  natoms = length atoms;
  positions = position_rows atoms;
  forces = when (any_force atoms) (force_rows atoms);
  velocities = when (any_velocity atoms) (velocity_rows atoms);
}

length-map : (f : Atom → Vec3) (atoms : List Atom) → length (map f atoms) ≡ length atoms
length-map f [] = refl
length-map f (a ∷ atoms) = omega (arith, length-map f atoms)

map-IsVec3 :
    (f : Atom → Vec3) (atoms : List Atom)
    → ((a : Atom) → IsAtom a → IsVec3 (f a))
    → All IsAtom atoms
    → All IsVec3 (map f atoms)
map-IsVec3 f [] k h = tt
map-IsVec3 f (a ∷ atoms) k h = (k a h.0, map-IsVec3 f atoms k h.1)

block_length :
    (b : Bool) (rows : List Vec3) (n : ℕ)
    → length rows ≡ n
    → length (block_bytes_of b rows) ≡ (if b then n * 3 * 8 else 0)
block_length false rows n h = refl
block_length true rows n h = rw (length-push_rows rows, h) refl

length-header : (n flags : ℕ) → length (header n flags) ≡ header_len
unfolding header to_le_bytes
length-header n flags = refl

encoded :
    (n : ℕ) (f v : Bool) (pos fs vs : List Vec3) (extra : Bytes)
    → IsU32 n
    → length pos ≡ n
    → length fs ≡ n
    → length vs ≡ n
    → All IsVec3 pos
    → All IsVec3 fs
    → All IsVec3 vs
    → decode (
        header n (flags_of f v)
        ++ (push_rows pos ++ (block_bytes_of f fs ++ (block_bytes_of v vs ++ extra))))
      ≡ ok (record { natoms = n; positions = pos; forces = when f fs; velocities = when v vs })
encoded n f v pos fs vs extra small lp lf lv hp hf hv =
    decode-header n (flags_of f v) body small (flags_small f v)
    ∙ decode_body_blocks f v bytes n _ _ pos (when f fs) (when v vs) small enough first second third
  where
    hdr : Bytes
    hdr = header n (flags_of f v)

    fb : Bytes
    fb = block_bytes_of f fs

    vb : Bytes
    vb = block_bytes_of v vs

    body : Bytes
    body = push_rows pos ++ (fb ++ (vb ++ extra))

    bytes : Bytes
    bytes = hdr ++ body

    flags_small : (f v : Bool) → IsU32 (flags_of f v)
    flags_small f v = unfold flags_of in ground arith

    len_pos : length (push_rows pos) ≡ n * 3 * 8
    len_pos = rw (length-push_rows pos, lp) refl

    len_front : length (hdr ++ push_rows pos) ≡ header_len + n * 3 * 8
    len_front =
        omega (arith, length-append hdr (push_rows pos), length-header n (flags_of f v), len_pos)

    len_front' : length ((hdr ++ push_rows pos) ++ fb) ≡ header_len + n * 3 * 8 + length fb
    len_front' = omega (arith, length-append (hdr ++ push_rows pos) fb, len_front)

    enough :
        header_len + n * 3 * 8 + (if f then n * 3 * 8 else 0) + (if v then n * 3 * 8 else 0)
        ≤ length bytes
    enough = omega (
      arith,
      length-append hdr body,
      length-append (push_rows pos) (fb ++ (vb ++ extra)),
      length-append fb (vb ++ extra),
      length-append vb extra,
      length-header n (flags_of f v),
      len_pos,
      block_length f fs n lf,
      block_length v vs n lv,
    )

    first : read_vec3_block (slice header_len (header_len + n * 3 * 8) bytes) n ≡ ok pos
    first =
        rw
          (
            slice-append hdr (push_rows pos) (fb ++ (vb ++ extra)) header_len
                (header_len + n * 3 * 8) (length-header n (flags_of f v)) (omega (arith, len_pos)),
            ← lp,
          )
          (read_vec3_block-push_rows pos hp)

    second :
        read_block f bytes (header_len + n * 3 * 8) (n * 3 * 8) n
        ≡ ok (when f fs, header_len + n * 3 * 8 + length fb)
    second =
        rw (← append_assoc hdr (push_rows pos) (fb ++ (vb ++ extra)))
          (read_block-push_rows f (hdr ++ push_rows pos) (vb ++ extra) fs n _ lf len_front hf)

    third :
        read_block v bytes (header_len + n * 3 * 8 + length fb) (n * 3 * 8) n
        ≡ ok (when v vs, header_len + n * 3 * 8 + length fb + length vb)
    third =
        rw
          (
            ← append_assoc hdr (push_rows pos) (fb ++ (vb ++ extra)),
            ← append_assoc (hdr ++ push_rows pos) fb (vb ++ extra),
          )
          (read_block-push_rows v ((hdr ++ push_rows pos) ++ fb) extra vs n _ lv len_front' hv)

-- Whatever follows it, an encoded frame decodes to the atoms' positions, and to forces and
-- velocities where an atom has them, with zero for an atom that has none.
pub decode-encode_frame :
    (atoms : List Atom) (v extra : Bytes)
    → All IsAtom atoms
    → encode_frame atoms ≡ ok v
    → decode (v ++ extra) ≡ ok (cooked_of atoms)
unfolding encode_frame cooked_of position_rows force_rows velocity_rows
decode-encode_frame atoms v extra h e =
    rw (w, shape)
      (encoded n f g pos fs vs extra small (length-map _ atoms) (length-map _ atoms)
        (length-map _ atoms) (map-IsVec3 _ atoms (λ a t. t.position_fits) h)
        (map-IsVec3 _ atoms (λ a t. t.force_fits) h)
        (map-IsVec3 _ atoms (λ a t. t.velocity_fits) h))
  where
    n : ℕ
    n = length atoms

    f : Bool
    f = any_force atoms

    g : Bool
    g = any_velocity atoms

    pos : List Vec3
    pos = position_rows atoms

    fs : List Vec3
    fs = force_rows atoms

    vs : List Vec3
    vs = velocity_rows atoms

    small : IsU32 n
    small = ground arith

    w :
        v
        ≡ header n (flags_of f g) ++ (push_rows pos ++ (block_bytes_of f fs ++ block_bytes_of g vs))
    w = ground arith

    shape :
        (header n (flags_of f g) ++ (push_rows pos ++ (block_bytes_of f fs ++ block_bytes_of g vs)))
          ++ extra
        ≡ header n (flags_of f g)
          ++ (push_rows pos ++ (block_bytes_of f fs ++ (block_bytes_of g vs ++ extra)))
    shape = simp append_assoc
