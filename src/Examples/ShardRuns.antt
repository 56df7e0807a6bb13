-- ===== src/Examples/ShardRuns.antt =====
-- Runs of src/shard.rs on the corpus of Examples/CorpusRuns.
use readcon_db.Base.{
  ℕ, zero, suc, ◌<◌, ◌≡◌, ◌≢◌, refl, true, none, some, List, [], ◌∷◌, arith, ==_iff,
}
use readcon_db.Base.Bytes.{Bytes, from_be_bytes}
use readcon_db.Error.{Result, ok, err, io}
use readcon_db.Examples.Sorted.{sorted_tables}
use readcon_db.Examples.CorpusRuns.{filled, none_yet, rows}
use readcon_db.Examples.CodecRuns.{z}
use readcon_db.Examples.QueryRuns.{filled-AreBytes}
use readcon_db.Keys.{FrameKey}
use readcon_db.Corpus.{ConCorpus, put_all}
use readcon_db.Corpus.Read.{get_frame_text_txn}
use readcon_db.Select.{Select, new}
use readcon_db.Scan.{KeySet, truncate, contains, is_of_traj}
use readcon_db.Query.Order.{Ascending}
use readcon_db.Query.Answer.{matches, topo_readable}
use readcon_db.Shard.{
  shard_for_traj, ids, ShardDir, absent, bare, stored, ShardedConCorpus, shard_has_data,
  select_sharded, get_frame_text, shard_mut, append_trajectory, set_shard,
}
use readcon_db.Shard.Answer.{dir_matches, Searchable, select_sharded_answer}
use readcon_db.Shard.Routing.{append_trajectory-get_frame_text}
use readcon_db.Shard.Drain.{
  Root, Os, and_then, root_of, check_manifest, refuse_overwrite, copy_manifest, copy_shard,
  copy_shards, checks, written, remove_created, roll_back, finish_drain, drain_to,
}
use readcon_db.Shard.Drain.Rollback.{Removes, RolledBack, drain_to-RolledBack}
use readcon_db.Shard.Join.{Source}
use readcon_db.Shard.Drain.Copies.{Copies, drain_to-Copies}

-- Four shards, of which one has data.
abbrev dirs : ℕ → ShardDir sorted_tables
dirs zero = bare
dirs (suc zero) = stored (ok filled)
dirs (suc (suc sid)) = absent

abbrev sh : ShardedConCorpus sorted_tables
sh = record { n_shards = 4; shard_path = dirs }

abbrev of_five : Select
of_five = record new { traj_id = some 5; limit = some 2 }

routed :
    (x : FrameKey) → matches sorted_tables filled of_five x ≡ true → shard_for_traj x.traj_id 4 ≡ 1
unfolding matches is_of_traj shard_for_traj
routed x h = let at : x.traj_id ≡ 5 = ground (arith, h, ==_iff 5 x.traj_id) in rw at refl

ready : (sid : ℕ) → sid < 4 → Searchable sorted_tables of_five 4 sid (dirs sid)
unfolding topo_readable
ready zero h = tt
ready (suc zero) h = (filled-AreBytes, refl, routed)
ready (suc (suc sid)) h = tt

select_sharded_answer_example :
    (full : KeySet) × (select_sharded sorted_tables sh of_five ≡ ok (truncate (some 2) full))
    × Ascending full
    × ((x : FrameKey)
        → contains full x ≡ dir_matches sorted_tables of_five (dirs (shard_for_traj x.traj_id 4)) x)
select_sharded_answer_example =
    select_sharded_answer sorted_tables of_five sh ready (omega arith) (omega arith)

append : ConCorpus sorted_tables → Result (ConCorpus sorted_tables × ℕ)
append c = ok (put_all sorted_tables c rows, 3)

abbrev appended : ShardedConCorpus sorted_tables
appended = record sh {
  shard_path = set_shard sorted_tables dirs 2 (stored (ok (put_all sorted_tables none_yet rows)));
}

append_trajectory-get_frame_text_example :
    (c : ConCorpus sorted_tables) × (c' : ConCorpus sorted_tables) × (shard_mut sorted_tables
        (ok none_yet)
        sh
        (shard_for_traj 6 4)
      ≡ ok c)
    × (append c ≡ ok (c', 3))
    × ((key : FrameKey)
        → key.traj_id ≡ 6
        → get_frame_text sorted_tables z from_be_bytes appended key
          ≡ get_frame_text_txn sorted_tables z from_be_bytes c' key)
    × ((key : FrameKey)
        → shard_for_traj key.traj_id 4 ≢ shard_for_traj 6 4
        → get_frame_text sorted_tables z from_be_bytes appended key
          ≡ get_frame_text sorted_tables z from_be_bytes sh key)
unfolding append_trajectory shard_mut shard_for_traj append
append_trajectory-get_frame_text_example =
    append_trajectory-get_frame_text sorted_tables z from_be_bytes (ok none_yet) append sh appended
      6 3 refl

-- The directory of the drain, with a shard of its own, and a file system where the snapshots of the
-- shards from `broken` on fail.
abbrev src : Root sorted_tables
src = record { manifest = some (ok 4); shard_path = dirs }

abbrev dst_dirs : ℕ → ShardDir sorted_tables
dst_dirs zero = stored (ok none_yet)
dst_dirs (suc sid) = absent

abbrev dst : Root sorted_tables
dst = record { manifest = none; shard_path = dst_dirs }

abbrev failing : Os sorted_tables
failing = record {
  create_dir_all = ok tt;
  copy = ok tt;
  snapshot_to = λ sid ro. (bare, err io);
  remove_dir_all = λ sid dir. absent;
  remove_file = λ m. none;
  remove_root = λ r. none;
}

failing-Removes : Removes sorted_tables failing
failing-Removes = record {
  shard_gone = λ sid dir. refl;
  manifest_gone = λ m. refl;
  root_gone = λ r. refl;
}

abbrev working : Os sorted_tables
working = record {
  create_dir_all = ok tt;
  copy = ok tt;
  snapshot_to = λ sid ro. (stored (ok ro), ok tt);
  remove_dir_all = λ sid dir. absent;
  remove_file = λ m. none;
  remove_root = λ r. none;
}

drain_to-RolledBack_example :
    RolledBack sorted_tables (some dst) (drain_to sorted_tables failing src (some dst)).0
unfolding drain_to written checks check_manifest refuse_overwrite shard_has_data ids copy_manifest
    copy_shard copy_shards and_then finish_drain root_of roll_back remove_created set_shard
drain_to-RolledBack_example =
    drain_to-RolledBack sorted_tables failing failing-Removes src (some dst)
      (drain_to sorted_tables failing src (some dst)).0 io refl

drain_to-Copies_example :
    (d' : Root sorted_tables) × ((drain_to sorted_tables working src (some dst)).0 ≡ some d')
    × Copies sorted_tables working 0 4 dirs dst_dirs d'.shard_path
unfolding drain_to written checks check_manifest refuse_overwrite shard_has_data ids copy_manifest
    copy_shard copy_shards and_then finish_drain root_of set_shard
drain_to-Copies_example =
    drain_to-Copies sorted_tables working src (some dst)
      (drain_to sorted_tables working src (some dst)).0 4 1 refl refl

-- Two sources, of which the second has no frame, and an append that writes the rows of three frames.
abbrev append_rows : ConCorpus sorted_tables → ℕ → Bytes → Result (ConCorpus sorted_tables × ℕ)
append_rows out traj_id text = ok (put_all sorted_tables out rows, 3)

abbrev sources : List (Source sorted_tables z from_be_bytes append_rows)
sources = record { owner = 0; opened = ok filled } ∷ record { owner = 1; opened = ok none_yet } ∷ []
