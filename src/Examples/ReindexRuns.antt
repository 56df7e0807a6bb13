-- ===== src/Examples/ReindexRuns.antt =====
-- Runs of `reindex` and of the topology tables of src/corpus.rs on the corpus of Examples/CorpusRuns.
use readcon_db.Base.{ℕ, ◌≡◌, refl, inl, inr, some, List, [], ◌∷◌, arith, length, All}
use readcon_db.Base.Bytes.{Bytes, from_be_bytes, to_be_bytes, bytes_eq, starts_with}
use readcon_db.Base.Utf8.{is_utf8}
use readcon_db.Error.{Result, ok}
use mathlib.Core.Path.{subst}
use readcon_db.Examples.Sorted.{sorted_tables}
use readcon_db.Examples.Dictionary.{repeat}
use readcon_db.Examples.CodecRuns.{z, a20, b20}
use readcon_db.Examples.CorpusRuns.{filled, none_yet, rows}
use readcon_db.Examples.QueryRuns.{oxide}
use readcon_db.Examples.CommitRuns.{json_bytes}
use readcon_db.Heed.Tables.{put_cases}
use readcon_db.Keys.{to_bytes, from_bytes, hash_frame_bytes}
use readcon_db.Keys.Layout.{IsFrameKey}
use readcon_db.Codec.{
  decode_frame, open_group_or_single, load_frame, is_group, is_redirect, is_tagged,
}
use readcon_db.Corpus.{ConCorpus, PreparedIndexPuts, put_all, put_index_puts}
use readcon_db.Corpus.HashIndex.{IsKey, to_bytes-IsKey}
use readcon_db.Corpus.Build.{FrameIndexProjection}
use readcon_db.Corpus.Read.{stored_in}
use readcon_db.Corpus.Ingest.{key_of}
use readcon_db.Corpus.Reindex.{
  rows_of, cleared, clear_secondary, put_rows, rebuild, reindex_loop, list_traj_metas,
  collect_params, collected_topo_params, rebuild_topo, reindex,
}
use readcon_db.Corpus.Reindex.Loop.{put_all_rows}
use readcon_db.Corpus.Reindex.{clear_topo}
use readcon_db.Topology.{TopologyParams}
use readcon_db.Base.{Option}
use readcon_db.Corpus.Reindex.TopoKeys.{TopoReindexed}
use readcon_db.Corpus.Reindex.Promise.{Reindexed, reindex-Reindexed}
use readcon_db.Base.Order.{bytes_ltb}
use readcon_db.Keys.{topo_key}
use readcon_db.Corpus.Topo.{delete_old, put_topo_entry, put_topo_entries}
use readcon_db.Corpus.Topo.Agree.{TopoAgree, latest, put_topo_entries-TopoAgree}
use readcon_db.Keys.{TrajId}
use readcon_db.Examples.CorpusRuns.{row}
use readcon_db.Corpus.Read.{get_frame_text_txn}
use readcon_db.Corpus.Commit.{TrajMeta, default_meta}
use readcon_db.Base.{none}
use readcon_db.Corpus.Annotate.{
  FingerprintRecord, see_method, push_records, traj_text, fingerprint_traj, fingerprint_all,
  all_frame_keys, keys_of_pending, fingerprint_all-all_frame_keys,
}

-- Every text is that of a cuprous oxide.
abbrev project : Bytes → Result FrameIndexProjection
project text = ok oxide

abbrev derived : ℕ → Bytes → PreparedIndexPuts
derived k text = rows_of (key_of 5 k) oxide text (hash_frame_bytes length text)

-- A key of `idx_topo` without an annotation.
abbrev stale : ConCorpus sorted_tables
stale = record filled {
  idx_topo = some (sorted_tables.put sorted_tables.empty (topo_key (b'a' ∷ []) (key_of 5 62)) []);
}

abbrev reindexed : ConCorpus sorted_tables
reindexed =
    put_all_rows sorted_tables z length json_bytes project
      (cleared sorted_tables z length json_bytes project stale)
      (derived 62 a20 ∷ derived 63 b20 ∷ derived 64 (repeat 3 b'c') ∷ [])

frames_are_keys :
    (c : ConCorpus sorted_tables) (ps : List PreparedIndexPuts)
    → All (λ p. IsFrameKey p.fk) ps
    → ((k v : Bytes) → sorted_tables.get c.frames k ≡ some v → IsKey k)
    → (k v : Bytes) → sorted_tables.get (put_all sorted_tables c ps).frames k ≡ some v
    → IsKey k
unfolding put_all put_index_puts
frames_are_keys c [] fits old k v e = old k v e
frames_are_keys c (p ∷ ps) fits old k v e =
    frames_are_keys (put_index_puts sorted_tables c p) ps fits.1
      (λ j w h. elim (put_cases sorted_tables c.frames (to_bytes p.fk) p.stored j w h) [
        | inl (same, u) ↦ subst IsKey same (to_bytes-IsKey p.fk fits.0)
        | inr (n, o) ↦ old j w o
      ])
      k v e

reindex-Reindexed_example :
    Reindexed sorted_tables z length json_bytes project stale reindexed
    × (recorded : Option TopologyParams) × (collected_topo_params sorted_tables z length json_bytes
          project stale
        ≡ ok recorded)
    × TopoReindexed sorted_tables z length json_bytes project recorded stale reindexed
unfolding reindex reindex_loop rebuild rebuild_topo collected_topo_params list_traj_metas
    collect_params stored_in decode_frame open_group_or_single load_frame is_group is_redirect
    is_tagged is_utf8 starts_with put_all put_index_puts to_bytes to_be_bytes bytes_eq bytes_ltb
    from_bytes from_be_bytes cleared clear_secondary put_rows clear_topo
reindex-Reindexed_example =
    reindex-Reindexed sorted_tables z length json_bytes project stale reindexed 3
      (frames_are_keys none_yet rows
        ((omega arith, omega arith), ((omega arith, omega arith), ((omega arith, omega arith), tt)))
        (λ k v e. absurd (ground arith)))
      refl

-- A frame that is annotated twice is found by the second key alone.
abbrev marked : sorted_tables.Table × sorted_tables.Table
marked = (
  sorted_tables.put sorted_tables.empty (topo_key (b'c' ∷ []) (key_of 5 62)) [],
  sorted_tables.put sorted_tables.empty (to_bytes (key_of 5 62)) (b'c' ∷ []),
)

put_topo_entries-TopoAgree_example :
    TopoAgree sorted_tables marked.0 marked.1
    × ((k : Bytes)
        → sorted_tables.get marked.1 k
          ≡ latest
              ((key_of 5 62, b'a' ∷ b'b' ∷ []) ∷ (key_of 5 62, b'c' ∷ []) ∷ [])
              k
              (sorted_tables.get sorted_tables.empty k))
unfolding put_topo_entries put_topo_entry delete_old topo_key to_bytes to_be_bytes bytes_eq
    bytes_ltb is_utf8
put_topo_entries-TopoAgree_example =
    put_topo_entries-TopoAgree sorted_tables sorted_tables.empty sorted_tables.empty marked.0
      marked.1 ((key_of 5 62, b'a' ∷ b'b' ∷ []) ∷ (key_of 5 62, b'c' ∷ []) ∷ [])
      record {
        posted = λ k v e. absurd (ground arith);
        known = λ fk hex fits e. absurd (ground arith);
      }
      ((omega arith, omega arith), ((omega arith, omega arith), tt)) refl

-- The engine finds two frames of one trajectory.
abbrev two_frames : List (TrajId × TrajMeta)
two_frames = (5, record default_meta { n_frames = 2 }) ∷ []

abbrev engine : Bytes → Result (List FingerprintRecord)
engine text = ok (
    record { frame = 0; key = b'a' ∷ []; method = b'm' ∷ [] }
    ∷ record { frame = 0; key = b'b' ∷ []; method = b'm' ∷ [] }
    ∷ [])

abbrev from_zero : ConCorpus sorted_tables
from_zero = put_all sorted_tables none_yet (row 0 1 a20 ∷ row 1 1 b20 ∷ [])

fingerprint_all-all_frame_keys_example :
    keys_of_pending ((key_of 5 0, b'a' ∷ []) ∷ (key_of 5 1, b'b' ∷ []) ∷ [])
    ≡ all_frame_keys two_frames
unfolding fingerprint_all fingerprint_traj traj_text push_records see_method get_frame_text_txn
    default_meta stored_in decode_frame open_group_or_single load_frame is_group is_redirect
    is_tagged is_utf8 starts_with put_all put_index_puts to_bytes to_be_bytes bytes_eq bytes_ltb
fingerprint_all-all_frame_keys_example =
    fingerprint_all-all_frame_keys sorted_tables z length engine from_zero none two_frames
      ((key_of 5 0, b'a' ∷ []) ∷ (key_of 5 1, b'b' ∷ []) ∷ [], some (b'm' ∷ [])) (omega arith, tt)
      refl
