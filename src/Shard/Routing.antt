-- ===== src/Shard/Routing.antt =====
-- Routing in src/shard.rs: an append through the sharded corpus, read back through it.
use readcon_db.Base.{ℕ, ◌≡◌, ◌≢◌, refl, sym, ap, ◌∙◌, inl, inr, true, ◌==◌, Bool-cases, ==_iff}
use readcon_db.Base.Bytes.{Bytes}
use readcon_db.Error.{Result, ok, >>=-eq-ok}
use readcon_db.Zstd.{Zstd}
use readcon_db.Heed.{Heed}
use readcon_db.Keys.{FrameKey, TrajId}
use readcon_db.Corpus.{ConCorpus}
use readcon_db.Corpus.Read.{get_frame_text_txn}
use readcon_db.Shard.{
  shard_for_traj, stored, ShardedConCorpus, get_frame_text, shard_mut, set_shard, append_trajectory,
}

module _ (db : Heed) (z : Zstd) (xxh3_128 : Bytes → ℕ) (opened_new : Result (ConCorpus db))
    (append : ConCorpus db → Result (ConCorpus db × ℕ)) where
  with_shard : ShardedConCorpus db → ℕ → ConCorpus db → ShardedConCorpus db
  with_shard sh sid c = record sh { shard_path = set_shard db sh.shard_path sid (stored (ok c)) }

  read_here :
      (sh : ShardedConCorpus db) (sid : ℕ) (c : ConCorpus db) (key : FrameKey)
      → shard_for_traj key.traj_id sh.n_shards ≡ sid
      → get_frame_text db z xxh3_128 (with_shard sh sid c) key
        ≡ get_frame_text_txn db z xxh3_128 c key
  unfolding get_frame_text set_shard with_shard
  read_here sh sid c key e =
      let hit : (shard_for_traj key.traj_id sh.n_shards == sid) ≡ true = (==_iff _ sid).1 e in
      rw (hit, get_frame_text) refl

  read_elsewhere :
      (sh : ShardedConCorpus db) (sid : ℕ) (c : ConCorpus db) (key : FrameKey)
      → shard_for_traj key.traj_id sh.n_shards ≢ sid
      → get_frame_text db z xxh3_128 (with_shard sh sid c) key ≡ get_frame_text db z xxh3_128 sh key
  unfolding get_frame_text set_shard with_shard
  read_elsewhere sh sid c key apart =
      elim (Bool-cases (shard_for_traj key.traj_id sh.n_shards == sid)) [
        | inl p ↦ absurd (apart ((==_iff _ sid).0 p))
        | inr p ↦ rw (p, get_frame_text) refl
      ]

  -- An append through a sharded corpus that succeeds has done the append of one shard: frames of
  -- the trajectory are then read from that shard as it is after it, and frames that are routed to
  -- another shard are read as before.
  pub append_trajectory-get_frame_text :
      (sh sh' : ShardedConCorpus db) (traj_id : TrajId) (n : ℕ)
      → append_trajectory db opened_new append sh traj_id ≡ ok (sh', n)
      → (c : ConCorpus db) × (c' : ConCorpus db) × (shard_mut db opened_new sh
            (shard_for_traj traj_id sh.n_shards)
          ≡ ok c)
        × (append c ≡ ok (c', n))
        × ((key : FrameKey)
            → key.traj_id ≡ traj_id
            → get_frame_text db z xxh3_128 sh' key ≡ get_frame_text_txn db z xxh3_128 c' key)
        × ((key : FrameKey)
            → shard_for_traj key.traj_id sh.n_shards ≢ shard_for_traj traj_id sh.n_shards
            → get_frame_text db z xxh3_128 sh' key ≡ get_frame_text db z xxh3_128 sh key)
  unfolding append_trajectory with_shard
  append_trajectory-get_frame_text sh sh' traj_id n e =
      let (c, p, e1) =
        >>=-eq-ok (shard_mut db opened_new sh (shard_for_traj traj_id sh.n_shards)) _ e in
      let ((c', k), q, e2) = >>=-eq-ok (append c) _ e1 in
      let sid : ℕ = shard_for_traj traj_id sh.n_shards in
      let same : with_shard sh sid c' ≡ sh' = cc e2 in
      let count : k ≡ n = cc e2 in
      (
        c,
        c',
        p,
        q ∙ ap (λ (j : ℕ). ok (c', j)) count,
        λ key h.
            ap (λ s. get_frame_text db z xxh3_128 s key) (sym same)
            ∙ read_here sh sid c' key (ap (λ t. shard_for_traj t sh.n_shards) h),
        λ key h.
            ap (λ s. get_frame_text db z xxh3_128 s key) (sym same)
            ∙ read_elsewhere sh sid c' key h,
      )
