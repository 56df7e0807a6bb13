-- ===== src/Shard/Join.antt =====
-- src/shard.rs: `join_to_single_env`, which goes through the shards with data in an order, twice: to
-- see that no trajectory has two owners, and to append the trajectories to the destination. A
-- source is a shard with data, with its number as the owner and what opening it answers.
-- `join_drained_roots` and `join_corpus_dirs` have the same two loops, behind checks of their own
-- that are not modelled. `ConCorpus::append_trajectory_str` is the section's parameter, since it
-- parses the texts.
pub mod Preview
pub mod Copy
pub mod Trajectories
pub mod Copied
use readcon_db.Base.{
  ℕ, zero, suc, ◌+◌, ◌-◌, ◌*◌, ◌/◌, ◌%◌, ◌^◌, ◌<◌, ◌≤◌, ◌≡◌, ◌≢◌, refl, sym, ap, ◌∙◌, ◌↔◌, ◌⊎◌, inl,
  inr, Bool, true, false, not, ◌&&◌, ◌||◌, Option, none, some, List, [], ◌∷◌, ◌++◌, map, ltb, leb,
  ◌==◌, if◌then◌else◌, arith, Bool-cases, &&_split, lt→ltb, ltb→lt, leb→le, ==_iff, length, take,
  drop, slice, get_elem?, All, All-append, length-append, take-append, drop-append, take_all,
  length-take, length-drop, take-drop, get_elem?-append, slice-append, slice-append_end, usize_max,
  saturating_add, saturating_mul, min, max,
}
use mathlib.Core.List.{append-nil, append_assoc}
use readcon_db.Base.Bytes.{
  Bytes, IsByte, IsU32, IsU64, to_le_bytes, from_le_bytes, to_be_bytes, from_be_bytes,
  length-to_le_bytes, from_le_bytes-to_le_bytes, length-to_be_bytes, from_be_bytes-to_be_bytes,
  to_be_bytes-IsByte, starts_with, starts_with-append, bytes_eq, bytes_eq_iff,
}
use readcon_db.Base.Utf8.{is_utf8, is_utf8-IsTextByte, IsTextByte}
use readcon_db.Base.Order.{bytes_ltb, bytes_ltb-to_be_bytes}
use readcon_db.Error.{
  Error, Result, ok, err, message, parse, missing_frame, traj_exists, heed, io, utf8, json, nul,
  ◌>>=◌, ◌>>◌, guard, ok_or, >>=-eq-ok, ok_eq,
}
use readcon_db.Zstd.{Zstd}
use readcon_db.Heed.{Heed, Entry}
use readcon_db.Keys.{FrameKey, TrajId, from_bytes}
use readcon_db.Scan.{sort_by, frame_key_leb}
use readcon_db.Corpus.{ConCorpus}
use readcon_db.Corpus.Read.{get_frame_text_txn}

-- The map from trajectories to owners.
unfoldable pub owner_of : List (TrajId × ℕ) → TrajId → Option ℕ
owner_of [] traj_id = none
owner_of ((t, o) ∷ preview) traj_id = if t == traj_id then some o else owner_of preview traj_id

unfoldable pub enter : List (TrajId × ℕ) → TrajId → ℕ → Option ℕ → Result (List (TrajId × ℕ))
enter preview traj_id owner none = ok ((traj_id, owner) ∷ preview)
enter preview traj_id owner (some o) =
    if o == owner
    then ok preview
    else err (message "traj_id appears in multiple shards or join sources")

unfoldable pub preview_traj : List (TrajId × ℕ) → TrajId → ℕ → Result (List (TrajId × ℕ))
preview_traj preview traj_id owner = enter preview traj_id owner (owner_of preview traj_id)

unfoldable pub preview_keys : List (TrajId × ℕ) → ℕ → List FrameKey → Result (List (TrajId × ℕ))
preview_keys preview owner [] = ok preview
preview_keys preview owner (fk ∷ keys) = do
  p ← preview_traj preview fk.traj_id owner
  preview_keys p owner keys

-- `by_traj.entry(fk.traj_id).or_default().push(fk)`, for a `BTreeMap`.
unfoldable pub push_key : FrameKey → List (TrajId × List FrameKey) → List (TrajId × List FrameKey)
push_key fk [] = (fk.traj_id, fk ∷ []) ∷ []
push_key fk ((t, fks) ∷ groups) =
    let rest = push_key fk groups in
    if fk.traj_id == t
    then (t, fks ++ (fk ∷ [])) ∷ groups
    else if ltb fk.traj_id t
    then (fk.traj_id, fk ∷ []) ∷ (t, fks) ∷ groups
    else (t, fks) ∷ rest

unfoldable pub by_traj :
    List (TrajId × List FrameKey) → List FrameKey → List (TrajId × List FrameKey)
by_traj groups [] = groups
by_traj groups (fk ∷ keys) = by_traj (push_key fk groups) keys

unfoldable pub is_seen : List TrajId → TrajId → Bool
is_seen [] traj_id = false
is_seen (t ∷ seen) traj_id = t == traj_id || is_seen seen traj_id

unfoldable pub keys_in : List Entry → List FrameKey
keys_in [] = []
keys_in ((k, v) ∷ rows) = elim (from_bytes k) [ none ↦ keys_in rows | some fk ↦ fk ∷ keys_in rows ]

module _ (db : Heed) (z : Zstd) (xxh3_128 : Bytes → ℕ)
    (append_trajectory_str : ConCorpus db → TrajId → Bytes → Result (ConCorpus db × ℕ)) where
  open db use {iter}

  pub record Source : Type 0 where
    pub owner : ℕ
    pub opened : Result (ConCorpus db)

  unfoldable pub list_frame_keys : ConCorpus db → List FrameKey
  list_frame_keys c = sort_by frame_key_leb (keys_in (iter c.frames))

  unfoldable pub preview_sources : List (TrajId × ℕ) → List Source → Result (List (TrajId × ℕ))
  preview_sources preview [] = ok preview
  preview_sources preview (s ∷ sources) = do
    c ← s.opened
    p ← preview_keys preview s.owner (list_frame_keys c)
    preview_sources p sources

  unfoldable pub concat_texts : ConCorpus db → List FrameKey → Result Bytes
  concat_texts c [] = ok []
  concat_texts c (fk ∷ fks) = do
    text ← get_frame_text_txn db z xxh3_128 c fk
    more ← concat_texts c fks
    ok (text ++ more)

  -- One trajectory, copied.
  unfoldable pub append_group :
      ConCorpus db → ConCorpus db → TrajId × List FrameKey → Result (ConCorpus db × ℕ)
  append_group c out (tid, fks) = do
    concat ← concat_texts c (sort_by frame_key_leb fks)
    append_trajectory_str out tid concat

  -- The loops of `append_sharded_into` and its like, with the trajectories seen so far.
  unfoldable pub append_groups :
      ConCorpus db
      → ConCorpus db
      → List TrajId
      → List (TrajId × List FrameKey)
      → Result (ConCorpus db × List TrajId × ℕ)
  append_groups c out seen [] = ok (out, seen, 0)
  append_groups c out seen (g ∷ groups) = do
    fresh ← guard (not (is_seen seen g.0)) (message "traj_id appears in multiple shards")
    (out1, nf) ← append_group c out g
    (out2, seen2, n) ← append_groups c out1 (g.0 ∷ seen) groups
    ok (out2, seen2, (nf + n) % 2 ^ 32)

  unfoldable pub append_sources :
      ConCorpus db → List TrajId → List Source → Result (ConCorpus db × ℕ)
  append_sources out seen [] = ok (out, 0)
  append_sources out seen (s ∷ sources) = do
    c ← s.opened
    (out1, seen1, n) ← append_groups c out seen (by_traj [] (list_frame_keys c))
    (out2, m) ← append_sources out1 seen1 sources
    ok (out2, (n + m) % 2 ^ 32)

  -- `rollback_new_dest`: what is at the destination after it.
  unfoldable pub rollback_new_dest : Result (ConCorpus db × ℕ) → Option (ConCorpus db) × Result ℕ
  rollback_new_dest (ok (out, n)) = (some out, ok n)
  rollback_new_dest (err e) = (none, err e)

  unfoldable pub after_preview :
      Result (ConCorpus db)
      → List Source
      → Result (List (TrajId × ℕ))
      → Option (ConCorpus db) × Result ℕ
  after_preview opened_new sources (err e) = (none, err e)
  after_preview opened_new sources (ok preview) =
      rollback_new_dest (opened_new >>= λ out. append_sources out [] sources)

  -- A join; `none` is a destination that does not exist.
  unfoldable pub join :
      Option (ConCorpus db) → Result (ConCorpus db) → List Source → Option (ConCorpus db) × Result ℕ
  join (some there) opened_new sources = (some there, err (message "join dest exists"))
  join none opened_new sources = after_preview opened_new sources (preview_sources [] sources)
