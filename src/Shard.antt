-- ===== src/Shard.antt =====
-- src/shard.rs `ShardedConCorpus`: the directory of a sharded corpus and its routed operations. A
-- shard that was opened and is kept in `shards` reads as its directory does, so the list of open
-- shards has no counterpart, nor has `release_shards`.
pub mod Merge
pub mod Answer
pub mod Routing
pub mod Drain
pub mod Join
use readcon_db.Base.{
  ℕ, zero, suc, ◌+◌, ◌-◌, ◌*◌, ◌/◌, ◌%◌, ◌^◌, ◌<◌, ◌≤◌, ◌≡◌, ◌≢◌, refl, sym, ap, ◌∙◌, ◌↔◌, ◌⊎◌, inl,
  inr, Bool, true, false, not, ◌&&◌, ◌||◌, Option, none, some, List, [], ◌∷◌, ◌++◌, map, ltb, leb,
  ◌==◌, if◌then◌else◌, arith, Bool-cases, &&_split, lt→ltb, ltb→lt, leb→le, ==_iff, length, take,
  drop, slice, get_elem?, All, All-append, length-append, take-append, drop-append, take_all,
  length-take, length-drop, take-drop, get_elem?-append, slice-append, slice-append_end, usize_max,
  saturating_add, saturating_mul, min, max,
}
use mathlib.Core.List.{append-nil, append_assoc}
use readcon_db.Base.Bytes.{
  Bytes, IsByte, IsU32, IsU64, to_le_bytes, from_le_bytes, to_be_bytes, from_be_bytes,
  length-to_le_bytes, from_le_bytes-to_le_bytes, length-to_be_bytes, from_be_bytes-to_be_bytes,
  to_be_bytes-IsByte, starts_with, starts_with-append, bytes_eq, bytes_eq_iff,
}
use readcon_db.Base.Utf8.{is_utf8, is_utf8-IsTextByte, IsTextByte}
use readcon_db.Base.Order.{bytes_ltb, bytes_ltb-to_be_bytes}
use readcon_db.Error.{
  Error, Result, ok, err, message, parse, missing_frame, traj_exists, heed, io, utf8, json, nul,
  ◌>>=◌, ◌>>◌, guard, ok_or, >>=-eq-ok,
}
use readcon_db.Zstd.{Zstd}
use readcon_db.Heed.{Heed}
use readcon_db.Keys.{FrameKey, TrajId}
use readcon_db.Select.{Select}
use readcon_db.Scan.{KeySet, sort_by, frame_key_leb, truncate}
use readcon_db.Corpus.{ConCorpus}
use readcon_db.Corpus.Read.{get_frame_text_txn}
use readcon_db.Query.{select}

unfoldable pub shard_for_traj : TrajId → ℕ → ℕ
shard_for_traj traj_id n_shards = traj_id % n_shards % 2 ^ 32

-- `0..n`, as the loops over the shards count.
unfoldable pub ids : ℕ → ℕ → List ℕ
ids from zero = []
ids from (suc n) = from ∷ ids (suc from) n

module _ (db : Heed) where
  -- What stands at `root/shard_XXXX`: nothing, a directory without `data.mdb`, or an environment
  -- with what `ConCorpus::open_readonly` answers for it.
  pub data ShardDir : Type 0 where
    absent bare : ShardDir
    stored : Result (ConCorpus db) → ShardDir

  pub record ShardedConCorpus : Type 0 where
    pub n_shards : ℕ
    pub shard_path : ℕ → ShardDir

  unfoldable pub shard_has_data : ShardDir → Bool
  shard_has_data absent = false
  shard_has_data bare = false
  shard_has_data (stored c) = true

  -- The loop of `select` over the shards.
  unfoldable pub select_shards : ShardedConCorpus → Select → List ℕ → Result KeySet
  select_shards sh sel [] = ok []
  select_shards sh sel (sid ∷ sids) =
      let rest = select_shards sh sel sids in
      elim (sh.shard_path sid) [
        | absent ↦ rest
        | bare ↦ rest
        | stored opened ↦ do c ← opened; keys ← select db c sel; more ← rest; ok (keys ++ more)
      ]

  unfoldable pub select_sharded : ShardedConCorpus → Select → Result KeySet
  select_sharded sh sel = do
    out ← select_shards sh sel (ids 0 sh.n_shards)
    ok (truncate sel.limit (sort_by frame_key_leb out))

  module _ (z : Zstd) (xxh3_128 : Bytes → ℕ) where
    unfoldable pub get_frame_text : ShardedConCorpus → FrameKey → Result Bytes
    get_frame_text sh key = elim (sh.shard_path (shard_for_traj key.traj_id sh.n_shards)) [
      | absent ↦ err (message "not a corpus directory")
      | bare ↦ err (message "not a corpus directory")
      | stored opened ↦ do c ← opened; get_frame_text_txn db z xxh3_128 c key
    ]

  -- `shard_mut`: the shard's directory with an environment in it, which `ConCorpus::open` makes
  -- (`opened_new`) where there is none.
  unfoldable pub shard_mut : Result (ConCorpus db) → ShardedConCorpus → ℕ → Result (ConCorpus db)
  shard_mut opened_new sh shard_id =
      if leb sh.n_shards shard_id
      then err (message "shard_id >= n_shards")
      else elim (sh.shard_path shard_id) [
        | absent ↦ opened_new
        | bare ↦ opened_new
        | stored opened ↦ opened
      ]

  unfoldable pub set_shard : (ℕ → ShardDir) → ℕ → ShardDir → ℕ → ShardDir
  set_shard dirs sid dir other = if other == sid then dir else dirs other

  -- The three `append_trajectory_…` of the sharded corpus, by the operation of the shard that they
  -- call. A transaction that fails leaves the shard that was opened as it was.
  unfoldable pub append_trajectory :
      Result (ConCorpus db)
      → (ConCorpus db → Result (ConCorpus db × ℕ))
      → ShardedConCorpus
      → TrajId
      → Result (ShardedConCorpus × ℕ)
  append_trajectory opened_new append sh traj_id = do
    let sid = shard_for_traj traj_id sh.n_shards
    c ← shard_mut opened_new sh sid
    (c', n) ← append c
    ok (record sh { shard_path = set_shard sh.shard_path sid (stored (ok c')) }, n)
