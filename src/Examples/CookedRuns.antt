-- ===== src/Examples/CookedRuns.antt =====
-- Runs of the payloads of src/cooked_soa.rs.
use readcon_db.Base.{◌≡◌, refl, none, some, List, [], ◌∷◌, ◌++◌, arith, All}
use readcon_db.Base.Bytes.{Bytes, to_le_bytes}
use readcon_db.Error.{ok}
use readcon_db.Examples.Dictionary.{repeat}
use readcon_db.Cooked.{
  Vec3, zero_vec3, Atom, encode_frame, decode, any_force, any_velocity, position_rows, force_rows,
  velocity_rows, push_rows, header, flags_of, is_some, or_zero,
}
use readcon_db.Cooked.RoundTrip.{decode-encode_frame, IsAtom, cooked_of}
use readcon_db.Cooked.Batch.{encode_batch, push_blobs, decode_batch, decode_batch-encode_batch}
use readcon_db.Cooked.Rows.{IsVec3}

abbrev ones : Vec3
ones = record { x = 4607182418800017408; y = 0; z = 4607182418800017408 }

-- Two atoms, of which one has a force.
abbrev atoms : List Atom
atoms =
    record { position = ones; force = none; velocity = none }
    ∷ record { position = zero_vec3; force = some ones; velocity = none }
    ∷ []

abbrev one : Bytes
one = 0 ∷ 0 ∷ 0 ∷ 0 ∷ 0 ∷ 0 ∷ 240 ∷ 63 ∷ []

abbrev value : Bytes
value =
    (82 ∷ 67 ∷ 83 ∷ 79 ∷ 1 ∷ 0 ∷ 0 ∷ 0 ∷ 2 ∷ 0 ∷ 0 ∷ 0 ∷ 1 ∷ 0 ∷ 0 ∷ 0 ∷ repeat 8 0)
    ++ (one ++ (repeat 8 0 ++ (one ++ (repeat 48 0 ++ (one ++ (repeat 8 0 ++ one))))))

encoded : encode_frame atoms ≡ ok value
unfolding encode_frame any_force any_velocity position_rows force_rows velocity_rows push_rows
    header flags_of is_some or_zero to_le_bytes
encoded = refl

ones_fit : IsVec3 ones
ones_fit = record { x_fits = omega arith; y_fits = omega arith; z_fits = omega arith }

zero_fits : IsVec3 zero_vec3
zero_fits = record { x_fits = omega arith; y_fits = omega arith; z_fits = omega arith }

atoms_fit : All IsAtom atoms
unfolding or_zero
atoms_fit = (
  record { position_fits = ones_fit; force_fits = zero_fits; velocity_fits = zero_fits },
  (record { position_fits = zero_fits; force_fits = ones_fit; velocity_fits = zero_fits }, tt),
)

decode-encode_frame_example : decode (value ++ (7 ∷ [])) ≡ ok (cooked_of atoms)
decode-encode_frame_example = decode-encode_frame atoms value (7 ∷ []) atoms_fit encoded

abbrev blobs : List Bytes
blobs = (1 ∷ 2 ∷ 3 ∷ []) ∷ [] ∷ (9 ∷ []) ∷ []

abbrev batch : Bytes
batch =
    82 ∷ 67 ∷ 83 ∷ 66 ∷ 1 ∷ 0 ∷ 0 ∷ 0 ∷ 3 ∷ 0 ∷ 0 ∷ 0 ∷ 3 ∷ 0 ∷ 0 ∷ 0 ∷ 1 ∷ 2 ∷ 3 ∷ 0 ∷ 0 ∷ 0 ∷ 0
    ∷ 1 ∷ 0 ∷ 0 ∷ 0 ∷ 9 ∷ []

batch_encoded : encode_batch blobs ≡ ok batch
unfolding encode_batch push_blobs to_le_bytes
batch_encoded = refl

decode_batch-encode_batch_example : decode_batch (batch ++ (0 ∷ [])) ≡ ok blobs
decode_batch-encode_batch_example = decode_batch-encode_batch blobs batch (0 ∷ []) batch_encoded
