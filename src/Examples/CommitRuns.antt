-- ===== src/Examples/CommitRuns.antt =====
-- Runs of the transactions of src/corpus.rs that append, and of what a corpus is dumped to.
use readcon_db.Base.{◌≡◌, refl, sym, ap, ◌∙◌, false, none, some, List, [], ◌∷◌, arith}
use readcon_db.Base.Bytes.{
  Bytes, IsU32, to_le_bytes, from_le_bytes, to_be_bytes, from_le_bytes-to_le_bytes, bytes_eq,
}
use readcon_db.Error.{Result, ok, err, message, traj_exists, ok_eq}
use readcon_db.Examples.Sorted.{sorted_tables}
use readcon_db.Examples.CorpusRuns.{none_yet, row}
use readcon_db.Examples.Dictionary.{repeat}
use readcon_db.Examples.CodecRuns.{z}
use readcon_db.Keys.{to_bytes, natoms_key, symbol_key}
use readcon_db.Corpus.{PreparedIndexPuts, ConCorpus, put_all, put_index_puts}
use readcon_db.Corpus.Ingest.{key_of}
use readcon_db.Corpus.Commit.{
  TrajMeta, default_meta, Json, tid_key, some_meta, read_meta, put_meta, next_idx, n_frames_or_zero,
  or_default, with_text, absent_meta, refuse_existing, traj_claimed, commit_body, commit_prepared,
  extend_body,
}
use readcon_db.Corpus.Commit.Counted.{Counted}
use readcon_db.Corpus.Commit.Steps.{committed, extended, Reach, here, next, Reach-Counted}
use readcon_db.Corpus.Commit.Race.{commit_body_again, extend_body_again}
use readcon_db.Corpus.EncodedKeys.{
  encode_frame_keys, put_list, put_items, put_u32, decode_frame_keys, AreKeys,
  decode_frame_keys-encode_frame_keys,
}
use readcon_db.Corpus.Dump.{tables, push_table}
use readcon_db.Corpus.Dump.Injective.{
  parts, row_parts, Fit, Told, follows, canonical_dump_injective,
}

-- Metadata as the bytes of its count.
unfoldable pub read_back : Bytes → TrajMeta
read_back text = record default_meta { n_frames = from_le_bytes text }

pub counted_back :
    (m : TrajMeta) (text : Bytes)
    → IsU32 m.n_frames
    → ok (to_le_bytes 4 m.n_frames) ≡ ok text
    → (back : TrajMeta) × (ok (read_back text) ≡ ok back) × (back.n_frames ≡ m.n_frames)
unfolding read_back
counted_back m text u e = (
  read_back text,
  refl,
  ap from_le_bytes (sym (ok_eq e)) ∙ from_le_bytes-to_le_bytes 4 m.n_frames (omega (arith, u)),
)

abbrev pub json_bytes : Json
json_bytes = record {
  to_string = λ m. ok (to_le_bytes 4 m.n_frames);
  from_str = λ text. ok (read_back text);
  from_str-to_string = counted_back;
}

none_yet-Counted : Counted sorted_tables json_bytes none_yet
unfolding read_meta
none_yet-Counted = record {
  counted = λ fk v f e. absurd (ground arith);
  present = λ traj m k ht e j hk. absurd (ground arith);
}

-- Two frames, and then one more.
abbrev first_rows : List PreparedIndexPuts
first_rows = row 0 1 (repeat 3 b'a') ∷ row 1 2 (repeat 3 b'b') ∷ []

abbrev later_rows : List PreparedIndexPuts
later_rows = row 2 3 (repeat 3 b'c') ∷ []

abbrev two : ConCorpus sorted_tables
two =
    with_text sorted_tables json_bytes (put_all sorted_tables none_yet first_rows) 5
      (to_le_bytes 4 2)

abbrev three : ConCorpus sorted_tables
three =
    with_text sorted_tables json_bytes (put_all sorted_tables two later_rows) 5 (to_le_bytes 4 3)

commits : commit_body sorted_tables json_bytes 5 first_rows [] false none_yet ≡ ok (two, 2)
unfolding commit_body refuse_existing read_meta absent_meta put_meta next_idx or_default
    default_meta
commits = refl

extends : extend_body sorted_tables json_bytes 5 2 none later_rows [] two ≡ ok (three, 3)
unfolding extend_body read_meta put_meta next_idx or_default default_meta n_frames_or_zero some_meta
    read_back to_le_bytes from_le_bytes put_all put_index_puts bytes_eq to_be_bytes
extends = refl

history : Reach sorted_tables json_bytes none_yet three
unfolding commit_prepared
history =
    next
      (next here (
        committed z 5 first_rows [] false 2 (omega arith) (refl, (refl, tt)) (omega arith) commits))
      (extended 5 2 none later_rows [] 3 (omega arith) (refl, tt) (omega arith) extends)

Reach-Counted_example : Counted sorted_tables json_bytes three
Reach-Counted_example = Reach-Counted sorted_tables json_bytes none_yet-Counted history

commit_body_again_example :
    (commit_body sorted_tables json_bytes 5 later_rows [] false two ≡ err (traj_exists 5 2))
    × (traj_claimed sorted_tables json_bytes two 5 ≡ err (traj_exists 5 2))
commit_body_again_example =
    commit_body_again sorted_tables json_bytes none_yet two 5 2 first_rows later_rows [] [] commits

extend_body_again_example :
    extend_body sorted_tables json_bytes 5 2 none later_rows [] three
    ≡ err (message "concurrent extend race")
extend_body_again_example =
    extend_body_again sorted_tables json_bytes two three 5 2 3 none none later_rows later_rows [] []
      (refl, tt) (omega arith) (omega arith) extends

abbrev bytes_of : Result Bytes → Bytes
bytes_of (ok b) = b
bytes_of (err e) = []

abbrev one_row : PreparedIndexPuts
one_row = row 62 1 (repeat 3 b'a')

one_row-AreKeys : AreKeys one_row
unfolding natoms_key to_bytes to_be_bytes
one_row-AreKeys = record {
  hash = refl;
  natoms = refl;
  energy = tt;
  fmax = tt;
  mass = tt;
  volume = tt;
  pbc = tt;
  flags = tt;
  metas = tt;
}

decode_frame_keys-encode_frame_keys_example :
    decode_frame_keys (key_of 5 62) (bytes_of (encode_frame_keys one_row)) (repeat 3 b'a')
    ≡ ok one_row
unfolding encode_frame_keys put_list put_items put_u32 symbol_key natoms_key to_bytes to_be_bytes
decode_frame_keys-encode_frame_keys_example =
    decode_frame_keys-encode_frame_keys one_row (bytes_of (encode_frame_keys one_row))
      one_row-AreKeys refl

-- A corpus with the metadata of one trajectory.
abbrev one_meta : ConCorpus sorted_tables
one_meta = record none_yet {
  traj_meta = sorted_tables.put sorted_tables.empty (tid_key 5) (2 ∷ []);
  idx_topo = some sorted_tables.empty;
}

one_meta-Fit : Fit (parts (tables sorted_tables one_meta))
unfolding parts row_parts tables push_table to_be_bytes
one_meta-Fit = omega arith

one_meta-Told : Told follows (tables sorted_tables one_meta)
unfolding tables push_table follows bytes_eq to_be_bytes
one_meta-Told = (
  tt,
  (
    (refl, tt),
    (tt, (tt, (tt, (tt, (tt, (tt, (tt, (tt, (tt, (tt, (tt, (tt, (tt, (tt, (tt, tt))))))))))))))),
  ),
)

canonical_dump_injective_example : tables sorted_tables one_meta ≡ tables sorted_tables one_meta
canonical_dump_injective_example =
    canonical_dump_injective sorted_tables one_meta one_meta one_meta-Fit one_meta-Fit one_meta-Told
      one_meta-Told refl
