-- ===== src/Examples/CodecRuns.antt =====
-- Runs of the codec of src/frame_codec.rs.
use readcon_db.Base.{
  ℕ, length, ◌≤◌, ◌≡◌, refl, true, List, [], ◌∷◌, ◌++◌, ◌==◌, if◌then◌else◌, arith,
}
use readcon_db.Base.Bytes.{Bytes, to_le_bytes, bytes_eq}
use readcon_db.Base.Utf8.{is_utf8}
use readcon_db.Error.{Result, ok}
use readcon_db.Examples.Dictionary.{repeat, code, with_dictionary}
use readcon_db.Codec.{
  Frame, pack_aligned, pack_loop, pack_run, take_run, drop_run, redirects, size_sum, group_payload,
  store_singles, store_frame, encode_group, decode_group, encode_redirect, is_group,
}
use readcon_db.Codec.Runs.{IsTrajectory}
use readcon_db.Codec.Decodes.{Decodes}
use readcon_db.Codec.RoundTrip.{pack_aligned-Decodes}
use readcon_db.Codec.Sizes.{pack_aligned_size, pack_aligned_total, total_len}
use readcon_db.Codec.Group.{decode_group-encode_group, texts}
use readcon_db.Zstd.{Zstd}

-- Two frames of one group and one of the next.
abbrev pub a20 : Bytes
a20 = repeat 20 b'a'

abbrev pub b20 : Bytes
b20 = repeat 20 b'b'

abbrev pub frames : List Frame
frames = (62, a20) ∷ (63, b20) ∷ (64, repeat 3 b'c') ∷ []

abbrev pub payload : Bytes
payload = (20 ∷ 0 ∷ 0 ∷ 0 ∷ a20) ++ (20 ∷ 0 ∷ 0 ∷ 0 ∷ b20)

abbrev pub z : Zstd
z = with_dictionary payload

abbrev pub group : Bytes
group = 253 ∷ 3 ∷ 2 ∷ 0 ∷ 0 ∷ 0 ∷ 40 ∷ 181 ∷ 47 ∷ 253 ∷ 1 ∷ []

abbrev pub redirect : Bytes
redirect = 253 ∷ 2 ∷ 62 ∷ 0 ∷ 0 ∷ 0 ∷ 1 ∷ 0 ∷ 0 ∷ 0 ∷ []

abbrev pub values : List Bytes
values = group ∷ redirect ∷ repeat 3 b'c' ∷ []

abbrev pub fetch : ℕ → Result Bytes
fetch k = if k == 62 then ok group else if k == 63 then ok redirect else ok (repeat 3 b'c')

pub packed : pack_aligned z frames ≡ ok values
unfolding pack_aligned pack_loop pack_run take_run drop_run redirects size_sum group_payload
    store_singles store_frame encode_group encode_redirect to_le_bytes bytes_eq
packed = refl

a_text : is_utf8 a20 ≡ true
unfolding is_utf8
a_text = refl

b_text : is_utf8 b20 ≡ true
unfolding is_utf8
b_text = refl

c_text : is_utf8 (repeat 3 b'c') ≡ true
unfolding is_utf8
c_text = refl

pub trajectory : IsTrajectory 0 frames
trajectory = (
  omega arith,
  omega arith,
  omega arith,
  a_text,
  (
    omega arith,
    omega arith,
    omega arith,
    b_text,
    (omega arith, omega arith, omega arith, c_text, tt),
  ),
)

pack_aligned-Decodes_example : Decodes z fetch frames values
pack_aligned-Decodes_example =
    pack_aligned-Decodes z fetch frames values trajectory packed (refl, (refl, (refl, tt)))

all_singles : store_singles z frames ≡ ok (a20 ∷ b20 ∷ repeat 3 b'c' ∷ [])
unfolding store_singles store_frame bytes_eq
all_singles = refl

pack_aligned_size_example : total_len values ≤ total_len (a20 ∷ b20 ∷ repeat 3 b'c' ∷ [])
pack_aligned_size_example =
    pack_aligned_size z frames values (a20 ∷ b20 ∷ repeat 3 b'c' ∷ []) all_singles packed

pack_aligned_total_example :
    (vs : List Bytes) × (pack_aligned z frames ≡ ok vs) × (length vs ≡ length frames)
pack_aligned_total_example =
    pack_aligned_total z (λ plain. (code payload plain, refl)) frames
      (omega arith, (omega arith, (omega arith, tt)))

abbrev tagged : Bytes
tagged = 253 ∷ 1 ∷ 40 ∷ 181 ∷ 47 ∷ 253 ∷ 1 ∷ []

encoded : encode_group z ((62, a20) ∷ (63, b20) ∷ []) ≡ ok group
unfolding encode_group group_payload to_le_bytes bytes_eq
encoded = refl

decode_group-encode_group_example :
    (decode_group z group ≡ ok (texts ((62, a20) ∷ (63, b20) ∷ []))) × (is_group group ≡ true)
decode_group-encode_group_example =
    decode_group-encode_group z ((62, a20) ∷ (63, b20) ∷ []) group (omega arith) (omega arith)
      (a_text, (b_text, tt)) encoded
