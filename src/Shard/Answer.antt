-- ===== src/Shard/Answer.antt =====
-- What src/shard.rs `select` answers: the matches of its shards, merged.
use readcon_db.Base.{
  ℕ, zero, suc, ◌+◌, ◌%◌, ◌^◌, ◌<◌, ◌≤◌, ◌≡◌, refl, sym, ap, ◌∙◌, inl, inr, Bool, true, false, ◌||◌,
  List, [], ◌∷◌, ◌++◌, arith, Bool-cases,
}
use readcon_db.Base.Bytes.{IsU32}
use readcon_db.Error.{ok, err}
use readcon_db.Heed.{Heed}
use native.Mathlib.Decide.{dec_le}
use readcon_db.Keys.{FrameKey, frame_key_eq, frame_key_ltb}
use readcon_db.Select.{Select}
use readcon_db.Scan.{KeySet, contains, sort_by, insert_by, frame_key_leb, truncate}
use readcon_db.Query.Order.{AllAfter, Ascending}
use readcon_db.Query.Sets.{frame_key_eq_iff}
use readcon_db.Query.Conditions.{AreBytes}
use readcon_db.Query.Answer.{matches, topo_readable, select_answer}
use readcon_db.Shard.{
  shard_for_traj, ids, ShardDir, absent, bare, stored, ShardedConCorpus, select_shards,
  select_sharded,
}
use readcon_db.Shard.Merge.{insert_all, sort_by-append, Ascending-Rising, truncate-insert_all}

contains-insert_by :
    (fk : FrameKey) (s : KeySet) (x : FrameKey)
    → contains (insert_by frame_key_leb fk s) x ≡ (frame_key_eq fk x || contains s x)
unfolding contains insert_by
contains-insert_by fk [] x = refl
contains-insert_by fk (y ∷ s) x = ground (arith, contains-insert_by fk s x)

contains-insert_all :
    (f s : KeySet) (x : FrameKey) → contains (insert_all f s) x ≡ (contains f x || contains s x)
unfolding insert_all contains
contains-insert_all [] s x = refl
contains-insert_all (y ∷ f) s x =
    ground (arith, contains-insert_by y (insert_all f s) x, contains-insert_all f s x)

AllAfter-insert_by :
    (a fk : FrameKey) (s : KeySet)
    → frame_key_ltb a fk ≡ true
    → AllAfter a s
    → AllAfter a (insert_by frame_key_leb fk s)
unfolding insert_by
AllAfter-insert_by a fk [] h k = (h, tt)
AllAfter-insert_by a fk (x ∷ s) h k = elim (Bool-cases (frame_key_leb fk x)) [
  | inl p ↦ rw p (h, k)
  | inr p ↦ rw p (k.0, AllAfter-insert_by a fk s h k.1)
]

below_next :
    (fk x : FrameKey)
    → frame_key_leb fk x ≡ true
    → frame_key_eq x fk ≡ false
    → frame_key_ltb fk x ≡ true
unfolding frame_key_leb frame_key_ltb frame_key_eq
below_next fk x h k = ground arith

AllAfter-trans :
    (a b : FrameKey) (s : KeySet) → frame_key_ltb a b ≡ true → AllAfter b s → AllAfter a s
unfolding frame_key_ltb
AllAfter-trans a b [] h k = tt
AllAfter-trans a b (x ∷ s) h k = (ground (arith, h, k.0), AllAfter-trans a b s h k.1)

insert_by-Ascending :
    (fk : FrameKey) (s : KeySet)
    → Ascending s
    → contains s fk ≡ false
    → Ascending (insert_by frame_key_leb fk s)
unfolding insert_by contains
insert_by-Ascending fk [] h new = (tt, tt)
insert_by-Ascending fk (x ∷ s) h new = elim (Bool-cases (frame_key_leb fk x)) [
  | inl p ↦
      let less = below_next fk x p (ground (arith, new)) in
      rw p ((less, AllAfter-trans fk x s less h.0), h)
  | inr p ↦
      let less : frame_key_ltb x fk ≡ true = unfold frame_key_leb in ground arith in
      rw p (AllAfter-insert_by x fk s less h.0, insert_by-Ascending fk s h.1 (ground (arith, new)))
]

AllAfter-contains : (a : FrameKey) (s : KeySet) → AllAfter a s → contains s a ≡ false
unfolding contains frame_key_ltb frame_key_eq
AllAfter-contains a [] h = refl
AllAfter-contains a (x ∷ s) h = ground (arith, h.0, AllAfter-contains a s h.1)

insert_all-Ascending :
    (f s : KeySet)
    → Ascending f
    → Ascending s
    → ((x : FrameKey) → contains f x ≡ true → contains s x ≡ false)
    → Ascending (insert_all f s)
unfolding insert_all contains
insert_all-Ascending [] s a b apart = b
insert_all-Ascending (x ∷ f) s a b apart =
    let same : frame_key_eq x x ≡ true = (frame_key_eq_iff x x).1 refl in
    let new : contains (insert_all f s) x ≡ false = ground (
      arith,
      contains-insert_all f s x,
      AllAfter-contains x f a.0,
      apart x (ground (arith, same)),
    ) in
    insert_by-Ascending x (insert_all f s)
      (insert_all-Ascending f s a.1 b (λ y h. apart y (ground (arith, h)))) new

shard_for_traj_lt : (traj_id n : ℕ) → 0 < n → IsU32 n → shard_for_traj traj_id n < n
unfolding shard_for_traj
shard_for_traj_lt traj_id n pos small =
    let a : traj_id % n < n = grind arith in
    let b : traj_id % n % 2 ^ 32 ≡ traj_id % n = grind arith in omega (arith, a, b)

module _ (db : Heed) (sel : Select) where
  -- The frames that match in one directory.
  unfoldable pub dir_matches : ShardDir db → FrameKey → Bool
  dir_matches absent x = false
  dir_matches bare x = false
  dir_matches (stored (err e)) x = false
  dir_matches (stored (ok c)) x = matches db c sel x

  -- A shard that `select` can read, and that holds only frames routed to it.
  abbrev pub Searchable : ℕ → ℕ → ShardDir db → Type 0
  Searchable n sid absent = Unit
  Searchable n sid bare = Unit
  Searchable n sid (stored (err e)) = ⊥
  Searchable n sid (stored (ok c)) =
      AreBytes db c
      × (topo_readable db c c.idx_topo sel.topo_key ≡ true)
      × ((x : FrameKey) → matches db c sel x ≡ true → shard_for_traj x.traj_id n ≡ sid)

  module _ (sh : ShardedConCorpus db) where
    -- The frames that match in one of the shards.
    unfoldable any_matches : List ℕ → FrameKey → Bool
    any_matches [] x = false
    any_matches (sid ∷ sids) x = dir_matches (sh.shard_path sid) x || any_matches sids x

    abbrev Answers : List ℕ → Type 0
    Answers sids =
        (out : KeySet) × (full : KeySet) × (select_shards db sh sel sids ≡ ok out)
        × Ascending full
        × (truncate sel.limit (sort_by frame_key_leb out) ≡ truncate sel.limit full)
        × ((x : FrameKey) → contains full x ≡ any_matches sids x)

    module _
        (ready : (sid : ℕ)
          → sid < sh.n_shards
          → Searchable sh.n_shards sid (sh.shard_path sid)) where
      dir_matches_routed :
          (sid : ℕ) (x : FrameKey)
          → sid < sh.n_shards
          → dir_matches (sh.shard_path sid) x ≡ true
          → shard_for_traj x.traj_id sh.n_shards ≡ sid
      unfolding dir_matches
      dir_matches_routed sid x h = go (sh.shard_path sid) (ready sid h)
        where
          go :
              (dir : ShardDir db)
              → Searchable sh.n_shards sid dir
              → dir_matches dir x ≡ true
              → shard_for_traj x.traj_id sh.n_shards ≡ sid
          go absent r e = cc
          go bare r e = cc
          go (stored (err e)) r m = absurd r
          go (stored (ok c)) r m = r.2 x m

      -- The frames of the shards from `from` on are routed there.
      any_matches_routed :
          (from n : ℕ) (x : FrameKey)
          → from + n ≤ sh.n_shards
          → any_matches (ids from n) x ≡ true
          → (from ≤ shard_for_traj x.traj_id sh.n_shards)
            × (dir_matches (sh.shard_path (shard_for_traj x.traj_id sh.n_shards)) x ≡ true)
      unfolding any_matches ids
      any_matches_routed from zero x h e = cc
      any_matches_routed from (suc n) x h e =
          elim (Bool-cases (dir_matches (sh.shard_path from) x)) [
            | inl p ↦
                let here = dir_matches_routed from x (omega arith) p in
                (omega (arith, here), rw here p)
            | inr p ↦
                let later =
                  any_matches_routed (suc from) n x (omega arith) (ground (arith, e, p)) in
                (omega (arith, later.0), later.1)
          ]

      routed_any_matches :
          (from n : ℕ) (x : FrameKey)
          → from ≤ shard_for_traj x.traj_id sh.n_shards
          → shard_for_traj x.traj_id sh.n_shards < from + n
          → dir_matches (sh.shard_path (shard_for_traj x.traj_id sh.n_shards)) x ≡ true
          → any_matches (ids from n) x ≡ true
      unfolding any_matches ids
      routed_any_matches from zero x h k e = absurd (omega arith)
      routed_any_matches from (suc n) x h k e =
          elim (dec_le (suc from) (shard_for_traj x.traj_id sh.n_shards)) [
            | yes p ↦ ground (arith, routed_any_matches (suc from) n x p (omega arith) e)
            | no p ↦
                let here : shard_for_traj x.traj_id sh.n_shards ≡ from = omega arith in
                let m : dir_matches (sh.shard_path from) x ≡ true = rw (← here) e in
                ground (arith, m)
          ]

      shards_answer : (from n : ℕ) → from + n ≤ sh.n_shards → Answers (ids from n)
      unfolding ids select_shards sort_by any_matches dir_matches contains
      shards_answer from zero h = ([], [], refl, tt, refl, λ x. refl)
      shards_answer from (suc n) h =
          go (sh.shard_path from) refl (ready from (omega arith))
            (shards_answer (suc from) n (omega arith))
        where
          go :
              (dir : ShardDir db)
              → sh.shard_path from ≡ dir
              → Searchable sh.n_shards from dir
              → Answers (ids (suc from) n)
              → Answers (from ∷ ids (suc from) n)
          go absent e r (out, full, s, a, t, m) =
              (out, full, rw (e, select_shards) s, a, t, λ x. rw (e, any_matches) (m x))
          go bare e r (out, full, s, a, t, m) =
              (out, full, rw (e, select_shards) s, a, t, λ x. rw (e, any_matches) (m x))
          go (stored (err o)) e r ih = absurd r
          go (stored (ok c)) e r (out, full, s, a, t, m) =
              let (f, q, b, k) = select_answer db c sel r.0 r.1 in
              let apart : (x : FrameKey) → contains f x ≡ true → contains full x ≡ false = λ x h1.
                elim (Bool-cases (contains full x)) [
                  | inl p ↦
                      let here = r.2 x (sym (k x) ∙ h1) in
                      let later =
                        any_matches_routed (suc from) n x (omega (arith, h)) (sym (m x) ∙ p) in
                      absurd (omega (arith, here, later.0))
                  | inr p ↦ p
                ] in
              let union : truncate sel.limit (sort_by frame_key_leb (truncate sel.limit f ++ out))
                  ≡ truncate sel.limit (insert_all f full) =
                ap (truncate sel.limit) (sort_by-append (truncate sel.limit f) out)
                ∙ truncate-insert_all sel.limit f (sort_by frame_key_leb out) full b
                    (Ascending-Rising full a) t in
              (
                truncate sel.limit f ++ out,
                insert_all f full,
                rw (e, select_shards, q, s) refl,
                insert_all-Ascending f full b a apart,
                union,
                λ x. rw (e, any_matches) (ground (arith, contains-insert_all f full x, k x, m x)),
              )

      any_matches-routed :
          0 < sh.n_shards
          → IsU32 sh.n_shards
          → (x : FrameKey)
          → any_matches (ids 0 sh.n_shards) x
            ≡ dir_matches (sh.shard_path (shard_for_traj x.traj_id sh.n_shards)) x
      any_matches-routed pos small x =
          let sid = shard_for_traj x.traj_id sh.n_shards in
          elim (Bool-cases (any_matches (ids 0 sh.n_shards) x)) [
            | inl p ↦ p ∙ sym (any_matches_routed 0 sh.n_shards x (omega arith) p).1
            | inr p ↦ elim (Bool-cases (dir_matches (sh.shard_path sid) x)) [
              | inl q ↦
                  let hit =
                    routed_any_matches 0 sh.n_shards x (omega arith)
                      (omega (arith, shard_for_traj_lt x.traj_id sh.n_shards pos small)) q in
                  cc (p, hit)
              | inr q ↦ p ∙ sym q
            ]
          ]

      -- Where every shard can be opened and read, and holds only frames that are routed to it, a
      -- selection of a sharded corpus is answered: in ascending order, without repetition, and cut
      -- to the limit, by the frames that match in the shard they are routed to, although each shard
      -- cuts its own answer to the limit first.
      pub select_sharded_answer :
          0 < sh.n_shards
          → IsU32 sh.n_shards
          → (full : KeySet) × (select_sharded db sh sel ≡ ok (truncate sel.limit full))
            × Ascending full
            × ((x : FrameKey)
                → contains full x
                  ≡ dir_matches (sh.shard_path (shard_for_traj x.traj_id sh.n_shards)) x)
      unfolding select_sharded
      select_sharded_answer pos small =
          let (out, full, s, a, t, m) = shards_answer 0 sh.n_shards (omega arith) in
          (full, rw (s, t) refl, a, λ x. m x ∙ any_matches-routed pos small x)
