-- ===== src/Shard/Join/Copied.antt =====
-- A join of src/shard.rs from end to end.
use readcon_db.Base.{ℕ, ◌+◌, ◌%◌, ◌^◌, Option, none, some, List, [], ◌∷◌}
use readcon_db.Zstd.{Zstd}
use readcon_db.Heed.{Heed}
use readcon_db.Keys.{TrajId}
use readcon_db.Corpus.{ConCorpus}
use readcon_db.Shard.Join.{Source}
use readcon_db.Shard.Join.Trajectories.{trajs_of, sorted_keys, copy_trajs}
use readcon_db.Base.Bytes.{Bytes}
use readcon_db.Error.{Result, ok, err, ◌>>=◌}

module _ (db : Heed) (z : Zstd) (xxh3_128 : Bytes → ℕ)
    (append_trajectory_str : ConCorpus db → TrajId → Bytes → Result (ConCorpus db × ℕ)) where
  -- The sources, copied one after the other.
  unfoldable pub copy_all :
      ConCorpus db → List (Source db z xxh3_128 append_trajectory_str) → Result (ConCorpus db × ℕ)
  copy_all out [] = ok (out, 0)
  copy_all out (s ∷ sources) = s.opened >>= λ c.
      copy_trajs db z xxh3_128 append_trajectory_str c
        (sorted_keys db z xxh3_128 append_trajectory_str c) out
        (trajs_of [] (sorted_keys db z xxh3_128 append_trajectory_str c))
      >>= λ r. copy_all r.0 sources >>= λ q. ok (q.0, (r.1 + q.1) % 2 ^ 32)

  -- The destination is there when the copies were made, and is gone when they failed.
  abbrev pub outcome : Result (ConCorpus db × ℕ) → Option (ConCorpus db) × Result ℕ
  outcome (ok (out, n)) = (some out, ok n)
  outcome (err e) = (none, err e)
