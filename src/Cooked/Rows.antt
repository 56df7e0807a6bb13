-- ===== src/Cooked/Rows.antt =====
-- The rows of a block: `read_vec3_block` on what `encode_frame` wrote, and on any bytes.
use readcon_db.Base.{
  ℕ, zero, suc, ◌*◌, ◌≤◌, ◌≡◌, refl, List, [], ◌∷◌, ◌++◌, arith, length, take, drop, All,
  length-append, take-append, drop-append, length-drop,
}
use readcon_db.Base.Bytes.{
  Bytes, IsU64, to_le_bytes, from_le_bytes, length-to_le_bytes, from_le_bytes-to_le_bytes,
}
use readcon_db.Error.{ok}
use readcon_db.Cooked.{Vec3, push_rows, read_coord, read_vec3_block}

-- Three 64-bit patterns.
pub record IsVec3 (v : Vec3) : Type 0 where
  pub x_fits : IsU64 v.x
  pub y_fits : IsU64 v.y
  pub z_fits : IsU64 v.z

pub length-push_rows : (rows : List Vec3) → length (push_rows rows) ≡ length rows * 3 * 8
unfolding push_rows
length-push_rows [] = refl
length-push_rows (v ∷ rows) = omega (
  arith,
  length-push_rows rows,
  length-append (to_le_bytes 8 v.x) (to_le_bytes 8 v.y ++ (to_le_bytes 8 v.z ++ push_rows rows)),
  length-append (to_le_bytes 8 v.y) (to_le_bytes 8 v.z ++ push_rows rows),
  length-append (to_le_bytes 8 v.z) (push_rows rows),
  length-to_le_bytes 8 v.x,
  length-to_le_bytes 8 v.y,
  length-to_le_bytes 8 v.z,
)

read_coord-to_le_bytes :
    (c : ℕ) (rest : Bytes) → IsU64 c → read_coord (to_le_bytes 8 c ++ rest) ≡ ok (c, rest)
unfolding read_coord
read_coord-to_le_bytes c rest h = ground (
  arith,
  take-append (to_le_bytes 8 c) rest 8 (length-to_le_bytes 8 c),
  drop-append (to_le_bytes 8 c) rest 8 (length-to_le_bytes 8 c),
  from_le_bytes-to_le_bytes 8 c (omega arith),
  length-append (to_le_bytes 8 c) rest,
  length-to_le_bytes 8 c,
)

pub read_vec3_block-push_rows :
    (rows : List Vec3) → All IsVec3 rows → read_vec3_block (push_rows rows) (length rows) ≡ ok rows
unfolding read_vec3_block push_rows
read_vec3_block-push_rows [] h = refl
read_vec3_block-push_rows (v ∷ rows) h = ground (
  arith,
  read_coord-to_le_bytes v.x (to_le_bytes 8 v.y ++ (to_le_bytes 8 v.z ++ push_rows rows))
      h.0.x_fits,
  read_coord-to_le_bytes v.y (to_le_bytes 8 v.z ++ push_rows rows) h.0.y_fits,
  read_coord-to_le_bytes v.z (push_rows rows) h.0.z_fits,
  read_vec3_block-push_rows rows h.1,
)

-- A block of the right length never makes `read_vec3_block` fail, and it gives `n` rows.
pub read_vec3_block_total :
    (n : ℕ) (bytes : Bytes)
    → n * 3 * 8 ≤ length bytes
    → (rows : List Vec3) × (read_vec3_block bytes n ≡ ok rows) × (length rows ≡ n)
unfolding read_vec3_block read_coord
read_vec3_block_total zero bytes h = ([], refl, refl)
read_vec3_block_total (suc n) bytes h =
    let r1 = drop 8 bytes in
    let r2 = drop 8 r1 in
    let r3 = drop 8 r2 in
    let (rows, e, l) =
      read_vec3_block_total n r3
        (omega (arith, length-drop 8 bytes, length-drop 8 r1, length-drop 8 r2)) in
    (
      record {
        x = from_le_bytes (take 8 bytes);
        y = from_le_bytes (take 8 r1);
        z = from_le_bytes (take 8 r2);
      }
          ∷ rows,
      ground (arith, length-drop 8 bytes, length-drop 8 (drop 8 bytes)),
      omega (arith, l),
    )
