-- ===== src/Shard/Drain.antt =====
-- src/shard.rs `ShardedConCorpus::drain_to`: the copy of each present shard onto a directory, and
-- what it takes back when it fails. What the file system and LMDB answer is the argument `os`, what
-- a removal leaves behind included, since the rollback does not look whether it succeeds.
pub mod Rollback
pub mod Copies
use readcon_db.Base.{
  ℕ, zero, suc, ◌+◌, ◌-◌, ◌*◌, ◌/◌, ◌%◌, ◌^◌, ◌<◌, ◌≤◌, ◌≡◌, ◌≢◌, refl, sym, ap, ◌∙◌, ◌↔◌, ◌⊎◌, inl,
  inr, Bool, true, false, not, ◌&&◌, ◌||◌, Option, none, some, List, [], ◌∷◌, ◌++◌, map, ltb, leb,
  ◌==◌, if◌then◌else◌, arith, Bool-cases, &&_split, lt→ltb, ltb→lt, leb→le, ==_iff, length, take,
  drop, slice, get_elem?, All, All-append, length-append, take-append, drop-append, take_all,
  length-take, length-drop, take-drop, get_elem?-append, slice-append, slice-append_end, usize_max,
  saturating_add, saturating_mul, min, max,
}
use mathlib.Core.List.{append-nil, append_assoc}
use readcon_db.Base.Bytes.{
  Bytes, IsByte, IsU32, IsU64, to_le_bytes, from_le_bytes, to_be_bytes, from_be_bytes,
  length-to_le_bytes, from_le_bytes-to_le_bytes, length-to_be_bytes, from_be_bytes-to_be_bytes,
  to_be_bytes-IsByte, starts_with, starts_with-append, bytes_eq, bytes_eq_iff,
}
use readcon_db.Base.Utf8.{is_utf8, is_utf8-IsTextByte, IsTextByte}
use readcon_db.Base.Order.{bytes_ltb, bytes_ltb-to_be_bytes}
use readcon_db.Error.{
  Error, Result, ok, err, message, parse, missing_frame, traj_exists, heed, io, utf8, json, nul,
  ◌>>=◌, ◌>>◌, guard, ok_or, >>=-eq-ok,
}
use readcon_db.Heed.{Heed}
use readcon_db.Corpus.{ConCorpus}
use readcon_db.Shard.{ids, ShardDir, absent, bare, stored, shard_has_data, set_shard}

-- `n_shards` of the manifest, which serde_json reads, or the error.
abbrev pub Manifest : Type 0
Manifest = Result ℕ

module _ (db : Heed) where
  -- A sharded root: its `shards.json` if it is there, and its shards.
  pub record Root : Type 0 where
    pub manifest : Option Manifest
    pub shard_path : ℕ → ShardDir db

  -- The answers of `create_dir_all`, `copy` and `snapshot_to`; the snapshot of a shard yields
  -- the directory that it leaves behind, and its error if it fails. For `remove_dir_all` on a shard,
  -- `remove_file` on the manifest and `remove_dir_all` on the destination: what is there afterwards.
  pub record Os : Type 0 where
    pub create_dir_all : Result (Unit {0})
    pub copy : Result (Unit {0})
    pub snapshot_to : ℕ → ConCorpus db → ShardDir db × Result (Unit {0})
    pub remove_dir_all : ℕ → ShardDir db → ShardDir db
    pub remove_file : Option Manifest → Option Manifest
    pub remove_root : Root → Option Root

  -- What the closure has done so far.
  pub record Progress : Type 0 where
    pub dst : Root
    pub created : List ℕ
    pub copied_manifest : Bool

  -- The operator `?` behind a part of the closure: what it did stays done.
  unfoldable pub and_then :
      Progress × Result (Unit {0}) → (Progress → Progress × Result ℕ) → Progress × Result ℕ
  and_then (p, err e) next = (p, err e)
  and_then (p, ok done) next = next p

  unfoldable pub empty_root : Root
  empty_root = record { manifest = none; shard_path = λ sid. absent }

  unfoldable pub root_of : Option Root → Root
  unfolding empty_root
  root_of none = empty_root
  root_of (some r) = r

  -- `if dest_man.is_file() { … }`: an existing manifest names as many shards.
  unfoldable pub check_manifest : Option Manifest → Manifest → Result (Unit {0})
  check_manifest none man = ok tt
  check_manifest (some existing) man = do
    e ← existing
    i ← man
    guard (e == i) (message "drain: dest shards.json n_shards does not match src")

  -- No shard stands on both sides.
  unfoldable pub refuse_overwrite : Root → Root → List ℕ → Result (Unit {0})
  refuse_overwrite src dst [] = ok tt
  refuse_overwrite src dst (i ∷ sids) =
      let rest = refuse_overwrite src dst sids in
      if shard_has_data db (src.shard_path i) && shard_has_data db (dst.shard_path i)
      then err (message "drain: dest exists; refuse overwrite")
      else rest

  -- `std::fs::copy(&man, &dest_man)`, when there is no manifest.
  unfoldable pub copy_manifest : Os → Manifest → Root → Progress × Result (Unit {0})
  copy_manifest os man dst = elim dst.manifest [
    | some existing ↦ (record { dst = dst; created = []; copied_manifest = false }, ok tt)
    | none ↦ elim os.copy [
      | err e ↦ (record { dst = dst; created = []; copied_manifest = true }, err e)
      | ok done ↦ (
        record { dst = record dst { manifest = some man }; created = []; copied_manifest = true },
        ok tt,
      )
    ]
  ]

  -- One shard with data: `created.push`, the opening and the snapshot.
  unfoldable pub copy_shard :
      Os → ℕ → Result (ConCorpus db) → Progress → Progress × Result (Unit {0})
  copy_shard os i (err e) p = (record p { created = i ∷ p.created }, err e)
  copy_shard os i (ok ro) p =
      let (left, answer) = os.snapshot_to i ro in
      (
        record p {
          dst = record p.dst { shard_path = set_shard db p.dst.shard_path i left };
          created = i ∷ p.created;
        },
        answer,
      )

  -- The loop over the shards; the number is that of the shards copied.
  unfoldable pub copy_shards : Os → Root → List ℕ → Progress → ℕ → Progress × Result ℕ
  copy_shards os src [] p n = (p, ok n)
  copy_shards os src (i ∷ sids) p n = elim (src.shard_path i) [
    | absent ↦ copy_shards os src sids p n
    | bare ↦ copy_shards os src sids p n
    | stored opened ↦ and_then (copy_shard os i opened p) (λ p'. copy_shards os src sids p' (n + 1))
  ]

  unfoldable pub checks : Os → Root → Manifest → Root → Result ℕ
  checks os src man dst = do
    made ← os.create_dir_all
    same ← check_manifest dst.manifest man
    n ← man
    free ← refuse_overwrite src dst (ids 0 n)
    ok n

  -- The closure `written`.
  unfoldable pub written : Os → Root → Manifest → Root → Progress × Result ℕ
  written os src man dst = elim (checks os src man dst) [
    | err e ↦ (record { dst = dst; created = []; copied_manifest = false }, err e)
    | ok n ↦ and_then (copy_manifest os man dst) (λ p. copy_shards os src (ids 0 n) p 0)
  ]

  -- `for p in &created { let _ = remove_dir_all(p); }`
  unfoldable pub remove_created : Os → (ℕ → ShardDir db) → List ℕ → ℕ → ShardDir db
  remove_created os dirs [] = dirs
  remove_created os dirs (i ∷ sids) =
      remove_created os (set_shard db dirs i (os.remove_dir_all i (dirs i))) sids

  unfoldable pub roll_back : Os → Progress → Root
  roll_back os p = record {
    manifest = if p.copied_manifest then os.remove_file p.dst.manifest else p.dst.manifest;
    shard_path = remove_created os p.dst.shard_path p.created;
  }

  -- `none` is a destination that does not exist.
  unfoldable pub finish_drain : Os → Option Root → Progress × Result ℕ → Option Root × Result ℕ
  finish_drain os dst (p, ok n) = (some p.dst, ok n)
  finish_drain os none (p, err e) = (os.remove_root p.dst, err e)
  finish_drain os (some d) (p, err e) = (some (roll_back os p), err e)

  unfoldable pub drain_to : Os → Root → Option Root → Option Root × Result ℕ
  drain_to os src dst = elim src.manifest [
    | none ↦ (dst, err (message "drain: missing shards.json"))
    | some man ↦ finish_drain os dst (written os src man (root_of dst))
  ]
