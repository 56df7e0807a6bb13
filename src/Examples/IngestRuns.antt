-- ===== src/Examples/IngestRuns.antt =====
-- Runs of the frames that are held in src/mpi_ingest.rs, and of `repack_traj` and the joins.
use readcon_db.Base.{ℕ, ◌≡◌, refl, Option, some, List, [], ◌∷◌, arith}
use readcon_db.Base.Bytes.{Bytes, from_be_bytes, to_be_bytes, to_le_bytes, bytes_eq, starts_with}
use readcon_db.Base.Utf8.{is_utf8}
use readcon_db.Base.Order.{bytes_ltb}
use readcon_db.Error.{ok}
use readcon_db.Examples.Sorted.{sorted_tables}
use readcon_db.Examples.Dictionary.{repeat}
use readcon_db.Examples.CodecRuns.{z, frames, a20, b20, trajectory, group, redirect}
use readcon_db.Examples.CorpusRuns.{filled}
use readcon_db.Keys.{TrajId, to_bytes}
use readcon_db.Codec.{
  pack_aligned, pack_loop, pack_run, take_run, drop_run, redirects, size_sum, group_payload,
  store_singles, store_frame, encode_group, encode_redirect, load_frame, is_group, is_redirect,
  is_tagged, decode_frame, open_group_or_single,
}
use readcon_db.Corpus.{ConCorpus, put_all, put_index_puts}
use readcon_db.Corpus.Read.{get_frame_text_txn, stored_in}
use readcon_db.Corpus.Ingest.{key_of, AllRead}
use readcon_db.Corpus.Repack.{
  changed, read_frames, put_values, repack_frames, repack_frames-AllRead,
}
use readcon_db.MpiIngest.{Held, set_held, load_held, pack_held, put_batches}
use readcon_db.MpiIngest.Draining.{put_batches-pack_held}

abbrev held : ℕ → Bytes → Held
held k stored = record { fk = key_of 5 k; enc = []; stored = stored }

abbrev three : Bytes
three = repeat 3 b'c'

abbrev of_two : TrajId → Option ℕ
of_two traj_id = some 2

-- The second frame arrives in the second batch.
abbrev batches : List (List Held)
batches = (held 0 three ∷ []) ∷ [] ∷ (held 1 three ∷ []) ∷ []

put_batches-pack_held_example : put_batches z of_two batches ≡ ok (held 0 three ∷ held 1 three ∷ [])
unfolding pack_held load_held set_held pack_aligned pack_loop pack_run take_run drop_run redirects
    size_sum group_payload store_singles store_frame encode_group encode_redirect to_le_bytes
    bytes_eq load_frame is_group is_redirect is_tagged is_utf8 starts_with
put_batches-pack_held_example =
    put_batches-pack_held z of_two 5 2 refl (omega arith) batches (held 0 three ∷ held 1 three ∷ [])
      (refl, (refl, tt)) refl refl

abbrev repacked : ConCorpus sorted_tables
repacked = put_values sorted_tables z from_be_bytes filled 5 ((62, group) ∷ (63, redirect) ∷ [])

repack_frames-AllRead_example :
    AllRead sorted_tables z from_be_bytes 5 (omega arith) repacked frames
unfolding read_frames repack_frames changed stored_in get_frame_text_txn decode_frame pack_aligned
    pack_loop pack_run take_run drop_run redirects size_sum group_payload store_singles store_frame
    encode_group encode_redirect to_le_bytes bytes_eq load_frame is_group is_redirect is_tagged
    is_utf8 starts_with put_all put_index_puts to_bytes to_be_bytes bytes_ltb open_group_or_single
    put_values from_be_bytes
repack_frames-AllRead_example =
    repack_frames-AllRead sorted_tables z from_be_bytes 5 (omega arith) filled repacked
      (62 ∷ 63 ∷ 64 ∷ []) 2 frames (a20 ∷ b20 ∷ three ∷ []) refl trajectory refl
