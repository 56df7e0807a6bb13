-- ===== src/Query/Answer.antt =====
-- What src/corpus.rs `select` answers, by the conditions of Query/Spec.
use readcon_db.Base.{
  ℕ, ◌<◌, ◌⊎◌, ◌≡◌, refl, ◌∙◌, Bool, true, false, ◌&&◌, Option, none, some, List, [], ◌∷◌, ◌==◌,
  if◌then◌else◌, arith, All,
}
use readcon_db.Base.Bytes.{Bytes}
use readcon_db.Error.{Result, ok, err, ◌>>=◌}
use readcon_db.Keys.{FrameKey, TrajId, from_bytes, topo_prefix}
use readcon_db.Select.{Select}
use readcon_db.Corpus.{ConCorpus}
use readcon_db.Topology.{normalize_topo_hex}
use readcon_db.Heed.{Heed, In}
use readcon_db.Query.{
  topo_set, push_topo, topo_sets, text_set, pushed_sets, condition_sets, restrict_sets, finish,
  select,
}
use readcon_db.Scan.{
  KeySet, contains, is_of_traj, retain, retain_all, frame_step, scan, intersect_sets, truncate,
}
use readcon_db.Query.Sets.{in_all, contains-retain, contains-intersect_sets}
use readcon_db.Query.Order.{
  Ascending, scan-Ascending, retain-Ascending, intersect_sets_total, sort_by-Ascending,
}
use readcon_db.Query.Scans.{has_row}
use readcon_db.Query.Spec.{reads, conditions_match}
use readcon_db.Query.Rows.{contains-frame_scan}
use readcon_db.Query.Conditions.{AreBytes, pushed_agree}
use readcon_db.Query.Pushes.{is_nil, Pushes, any_condition, pushed_sets-Pushes}

unfoldable pub is_ok {ℓ} : {A : Type ℓ} → Result A → Bool
is_ok (ok a) = true
is_ok (err e) = false

retain_all-Ascending :
    (tid : TrajId) (sets : List KeySet) → All Ascending sets → All Ascending (retain_all tid sets)
unfolding retain_all
retain_all-Ascending tid [] h = tt
retain_all-Ascending tid (s ∷ sets) h =
    (retain-Ascending (λ fk. fk.traj_id == tid) s h.0, retain_all-Ascending tid sets h.1)

in_all-retain_all :
    (tid : TrajId) (sets : List KeySet) (x : FrameKey)
    → (in_all (retain_all tid sets) x && x.traj_id == tid) ≡ (in_all sets x && x.traj_id == tid)
unfolding retain_all in_all
in_all-retain_all tid [] x = refl
in_all-retain_all tid (s ∷ sets) x =
    ground (arith, contains-retain (λ fk. fk.traj_id == tid) s x, in_all-retain_all tid sets x)

-- The bytes are none, or one of them is outside of 0-9, A-F and a-f.
abbrev pub NotHex : ℕ → Type 0
NotHex x = ((x < 48) ⊎ (57 < x)) × ((x < 65) ⊎ (70 < x)) × ((x < 97) ⊎ (102 < x))

abbrev pub BadHex : Bytes → Type 0
BadHex s = (s ≡ []) ⊎ (x : ℕ) × In x s × NotHex x

module _ (db : Heed) (c : ConCorpus db) where
  open db use {Table, get, iter, prefix_iter}

  -- Whether the key of the topology, where it is looked at, has its normal form.
  unfoldable pub topo_readable : Option Table → Option Bytes → Bool
  topo_readable idx_topo none = true
  topo_readable none (some hex) = true
  topo_readable (some idx) (some hex) = is_ok (normalize_topo_hex hex)

  push_topo_total :
      (idx_topo : Option Table) (traj : Option TrajId) (o : Option Bytes)
      → topo_readable idx_topo o ≡ true
      → (topo : List KeySet) × (push_topo db idx_topo traj o ≡ ok topo)
  unfolding topo_readable push_topo topo_set is_ok
  push_topo_total idx_topo traj none h = ([], refl)
  push_topo_total none traj (some hex) h = ([] ∷ [], refl)
  push_topo_total (some idx) traj (some hex) h = go (normalize_topo_hex hex) h
    where
      go :
          (norm : Result Bytes)
          → is_ok norm ≡ true
          → (topo : List KeySet) × ((norm >>= λ n. ok (text_set db idx (topo_prefix n) traj))
                >>= (λ s. ok (s ∷ []))
              ≡ ok topo)
      go (ok n) h = (_, refl)
      go (err e) h = cc

  module _ (sel : Select) where
    -- The frames that the selection is about: those of its trajectory for which every condition
    -- has its row, or all frames of it where no condition is stated.
    unfoldable pub matches : FrameKey → Bool
    matches x =
        is_of_traj sel.traj_id x
        && (if any_condition sel
            then conditions_match db c sel x
            else has_row (λ k. reads (from_bytes k) x) (iter c.frames))

    restricted :
        (sets : List KeySet)
        → Pushes (any_condition sel) sets
        → AreBytes db c
        → ((x : FrameKey)
            → (in_all sets x && is_of_traj sel.traj_id x)
              ≡ (conditions_match db c sel x && is_of_traj sel.traj_id x))
        → (s : KeySet) × (rest : List KeySet) × (restrict_sets db c sel sets ≡ s ∷ rest)
          × All Ascending (s ∷ rest)
          × ((x : FrameKey) → in_all (s ∷ rest) x ≡ matches x)
    unfolding restrict_sets is_nil matches in_all retain_all
    restricted [] p ks h = (
      scan (frame_step sel.traj_id) (iter c.frames) [],
      [],
      refl,
      (scan-Ascending (frame_step sel.traj_id) (iter c.frames) [] tt, tt),
      λ x. ground (arith, contains-frame_scan sel.traj_id x (iter c.frames), p.1),
    )
    restricted (s ∷ sets) p ks h = go sel.traj_id refl
      where
        go :
            (o : Option TrajId)
            → sel.traj_id ≡ o
            → (t : KeySet) × (rest : List KeySet) × (restrict_sets db c sel (s ∷ sets) ≡ t ∷ rest)
              × All Ascending (t ∷ rest)
              × ((x : FrameKey) → in_all (t ∷ rest) x ≡ matches x)
        go none e = (
          s,
          sets,
          rw (e, restrict_sets) refl,
          p.0,
          λ x.
              let all : is_of_traj sel.traj_id x ≡ true = rw e (unfold is_of_traj in refl) in
              ground (arith, h x, p.1, all),
        )
        go (some tid) e = (
          retain (λ fk. fk.traj_id == tid) s,
          retain_all tid sets,
          rw (e, restrict_sets) refl,
          retain_all-Ascending tid (s ∷ sets) p.0,
          λ x.
              let t : is_of_traj sel.traj_id x ≡ (x.traj_id == tid) =
                rw e (unfold is_of_traj in ground arith) in
              ground (
                arith,
                h x,
                p.1,
                t,
                contains-retain (λ fk. fk.traj_id == tid) s x,
                in_all-retain_all tid sets x,
              ),
        )

    finish_ok :
        (sets : List KeySet) (s : KeySet) (rest : List KeySet)
        → restrict_sets db c sel sets ≡ s ∷ rest
        → All Ascending (s ∷ rest)
        → (full : KeySet) × (finish db sel.limit (intersect_sets (restrict_sets db c sel sets))
            ≡ ok (truncate sel.limit full))
          × Ascending full
          × ((x : FrameKey) → contains full x ≡ in_all (s ∷ rest) x)
    unfolding finish
    finish_ok sets s rest e h =
        let (acc, q, a) = intersect_sets_total s rest h in
        (acc, rw (e, q, sort_by-Ascending acc a) refl, a, contains-intersect_sets (s ∷ rest) acc q)

    -- A selection whose topology key, if any, is readable is answered: in ascending order, without
    -- repetition, and cut to the limit, by the frames that match, where the keys of the indexes
    -- that are scanned in order are byte strings.
    pub select_answer :
        AreBytes db c
        → topo_readable c.idx_topo sel.topo_key ≡ true
        → (full : KeySet) × (select db c sel ≡ ok (truncate sel.limit full))
          × Ascending full
          × ((x : FrameKey) → contains full x ≡ matches x)
    unfolding select condition_sets topo_sets
    select_answer ks h =
        let (topo, e) = push_topo_total c.idx_topo sel.traj_id sel.topo_key h in
        let (s, rest, r, all, m) =
          restricted (pushed_sets db c sel topo) (pushed_sets-Pushes db c sel topo e) ks
            (λ x. pushed_agree db c x sel topo ks e) in
        let (full, q, a, same) = finish_ok (pushed_sets db c sel topo) s rest r all in
        (full, rw e q, a, λ x. same x ∙ m x)
