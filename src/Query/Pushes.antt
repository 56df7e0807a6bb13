-- ===== src/Query/Pushes.antt =====
-- The list of sets that src/corpus.rs `select` intersects: all of them ascend, and there is one
-- for each condition that the selection states.
use readcon_db.Base.{
  ℕ, ◌≡◌, refl, sym, Bool, true, false, not, ◌&&◌, ◌||◌, Option, none, some, List, [], ◌∷◌, ◌++◌,
  arith, All, All-append,
}
use readcon_db.Base.Bytes.{Bytes}
use readcon_db.Error.{ok, >>=-eq-ok}
use readcon_db.Keys.{
  TrajId, topo_prefix, meta_time, meta_timestep, meta_frame_index, meta_neb_bead, meta_neb_band,
  meta_charge, meta_magmom, flag_has_forces, flag_has_velocities, flag_has_energy,
}
use readcon_db.Keys.Float.{Float64, neg_infinity}
use readcon_db.Select.{Select}
use readcon_db.Corpus.{ConCorpus}
use readcon_db.Topology.{normalize_topo_hex}
use readcon_db.Heed.{Heed}
use readcon_db.Query.{
  hash_set, hash_sets, natoms_sets, text_set, symbol_sets, formula_sets, topo_set, push_topo,
  topo_sets, count_set, exact_sets, min_sets, scan_ord, pbc_sets, scan_meta, meta_sets, push_flag,
  range_sets, flag_sets, pushed_sets,
}
use readcon_db.Scan.{
  Step, continue, break, found, KeySet, push_if, push_some, is_some, scan, inserted, posted_set,
}
use readcon_db.Query.Order.{Ascending, scan-Ascending, insert-Ascending}

unfoldable pub is_nil {ℓ} : {A : Type ℓ} → List A → Bool
is_nil [] = true
is_nil (x ∷ xs) = false

is_nil-append {ℓ} : {A : Type ℓ} (xs ys : List A) → is_nil (xs ++ ys) ≡ (is_nil xs && is_nil ys)
unfolding is_nil
is_nil-append [] ys = refl
is_nil-append (x ∷ xs) ys = refl

-- What a group of pushes gives: sets that ascend, and none exactly without its condition.
abbrev pub Pushes : Bool → List KeySet → Type 0
Pushes cond sets = All Ascending sets × (is_nil sets ≡ not cond)

Pushes-append :
    (a b : Bool) (s t : List KeySet) → Pushes a s → Pushes b t → Pushes (a || b) (s ++ t)
Pushes-append a b s t h k =
    (All-append Ascending s t h.0 k.0, ground (arith, is_nil-append s t, h.1, k.1))

Pushes-push_if : (cond : Bool) (s : KeySet) → Ascending s → Pushes cond (push_if cond s)
unfolding push_if is_nil
Pushes-push_if true s h = ((h, tt), refl)
Pushes-push_if false s h = (tt, refl)

Pushes-push_some {ℓ} :
    {A : Type ℓ} (o : Option A) (s : A → KeySet)
    → ((a : A) → Ascending (s a))
    → Pushes (is_some o) (push_some o s)
unfolding push_some is_some is_nil
Pushes-push_some none s h = (tt, refl)
Pushes-push_some (some a) s h = ((h a, tt), refl)

from_scan : (body : Bytes → Step) (rows : List (Bytes × Bytes)) → Ascending (scan body rows [])
from_scan body rows = scan-Ascending body rows [] tt

inserted-Ascending : (s : Step) → Ascending (inserted s)
unfolding inserted
inserted-Ascending continue = tt
inserted-Ascending break = tt
inserted-Ascending (found fk) = insert-Ascending fk [] tt

posted_set-Ascending : (traj : Option TrajId) (o : Option Bytes) → Ascending (posted_set traj o)
unfolding posted_set
posted_set-Ascending traj none = tt
posted_set-Ascending traj (some b) = inserted-Ascending _

-- The conditions of a selection.
unfoldable pub any_range : Select → Bool
any_range sel =
    (is_some sel.energy_min || is_some sel.energy_max)
    || ((is_some sel.fmax_min || is_some sel.fmax_max)
        || ((is_some sel.mass_min || is_some sel.mass_max)
            || (is_some sel.volume_min || is_some sel.volume_max)))

unfoldable pub any_meta : Select → Bool
any_meta sel =
    (is_some sel.time_min || is_some sel.time_max)
    || ((is_some sel.timestep_min || is_some sel.timestep_max)
        || ((is_some sel.frame_index_min || is_some sel.frame_index_max)
            || ((is_some sel.neb_bead_min || is_some sel.neb_bead_max)
                || ((is_some sel.neb_band_min || is_some sel.neb_band_max)
                    || ((is_some sel.charge_min || is_some sel.charge_max)
                        || (is_some sel.magmom_min || is_some sel.magmom_max))))))

unfoldable pub any_condition : Select → Bool
any_condition sel =
    is_some sel.content_hash
    || ((is_some sel.natoms_min || is_some sel.natoms_max)
        || (not (is_nil sel.symbols_all)
            || (is_some sel.exact_formula
                || (is_some sel.topo_key
                    || (not (is_nil sel.element_count_exact)
                        || (not (is_nil sel.element_count_min)
                            || (any_range sel
                                || (is_some sel.pbc_exact
                                    || (any_meta sel
                                        || (sel.require_forces
                                            || (sel.require_velocities
                                                || sel.require_energy)))))))))))

module _ (db : Heed) (c : ConCorpus db) where
  open db use {Table, get, iter, prefix_iter}

  symbols_push :
      (traj : Option TrajId) (symbols : List Bytes)
      → Pushes (not (is_nil symbols)) (symbol_sets db c traj symbols)
  unfolding symbol_sets is_nil text_set
  symbols_push traj [] = (tt, refl)
  symbols_push traj (sym ∷ symbols) = ((from_scan _ _, (symbols_push traj symbols).0), refl)

  exact_push :
      (traj : Option TrajId) (counts : List (Bytes × ℕ))
      → Pushes (not (is_nil counts)) (exact_sets db c traj counts)
  unfolding exact_sets is_nil count_set
  exact_push traj [] = (tt, refl)
  exact_push traj ((sym, n) ∷ counts) = ((from_scan _ _, (exact_push traj counts).0), refl)

  min_push :
      (traj : Option TrajId) (counts : List (Bytes × ℕ))
      → Pushes (not (is_nil counts)) (min_sets db c traj counts)
  unfolding min_sets is_nil count_set
  min_push traj [] = (tt, refl)
  min_push traj ((sym, n) ∷ counts) = ((from_scan _ _, (min_push traj counts).0), refl)

  topo_push :
      (idx_topo : Option Table) (traj : Option TrajId) (o : Option Bytes) (topo : List KeySet)
      → push_topo db idx_topo traj o ≡ ok topo
      → Pushes (is_some o) topo
  unfolding push_topo topo_set is_nil is_some text_set
  topo_push idx_topo traj none topo h = let e : [] ≡ topo = grind arith in rw (← e) (tt, refl)
  topo_push none traj (some hex) topo h =
      let e : [] ∷ [] ≡ topo = grind arith in rw (← e) ((tt, tt), refl)
  topo_push (some idx) traj (some hex) topo h =
      let (s, a, b) = >>=-eq-ok (topo_set db (some idx) traj hex) (λ s. ok (s ∷ [])) h in
      let (n, p, q) =
        >>=-eq-ok (normalize_topo_hex hex) (λ n. ok (text_set db idx (topo_prefix n) traj)) a in
      let at : text_set db idx (topo_prefix n) traj ≡ s = grind arith in
      let e : s ∷ [] ≡ topo = grind arith in rw (← e, ← at) ((from_scan _ _, tt), refl)

  module _ (sel : Select) where
    ord_push :
        (t : Table) (default : Float64) (lo hi : Option Float64)
        → Pushes (is_some lo || is_some hi) (scan_ord db t sel.traj_id default lo hi)
    unfolding scan_ord
    ord_push t default lo hi = Pushes-push_if _ _ (from_scan _ _)

    meta_push :
        (ch : ℕ) (lo hi : Option Float64)
        → Pushes (is_some lo || is_some hi) (scan_meta db c sel.traj_id ch lo hi)
    unfolding scan_meta
    meta_push ch lo hi = Pushes-push_if _ _ (from_scan _ _)

    flag_push :
        (required : Bool) (flag : ℕ) → Pushes required (push_flag db c sel.traj_id required flag)
    unfolding push_flag
    flag_push required flag = Pushes-push_if _ _ (from_scan _ _)

    hash_push : Pushes (is_some sel.content_hash) (hash_sets db c sel)
    unfolding hash_sets hash_set
    hash_push = Pushes-push_some sel.content_hash _ (λ h. posted_set-Ascending sel.traj_id _)

    formula_push : Pushes (is_some sel.exact_formula) (formula_sets db c sel)
    unfolding formula_sets text_set
    formula_push = Pushes-push_some sel.exact_formula _ (λ f. from_scan _ _)

    pbc_push : Pushes (is_some sel.pbc_exact) (pbc_sets db c sel)
    unfolding pbc_sets
    pbc_push = Pushes-push_some sel.pbc_exact _ (λ f. from_scan _ _)

    natoms_push : Pushes (is_some sel.natoms_min || is_some sel.natoms_max) (natoms_sets db c sel)
    unfolding natoms_sets
    natoms_push = Pushes-push_if _ _ (from_scan _ _)

    ranges_push : Pushes (any_range sel) (range_sets db c sel)
    unfolding any_range range_sets
    ranges_push =
        Pushes-append _ _ _ _ (ord_push c.idx_energy neg_infinity sel.energy_min sel.energy_max) (
          Pushes-append _ _ _ _ (ord_push c.idx_fmax 0 sel.fmax_min sel.fmax_max) (
            Pushes-append _ _ _ _ (ord_push c.idx_mass neg_infinity sel.mass_min sel.mass_max)
              (ord_push c.idx_volume neg_infinity sel.volume_min sel.volume_max)))

    metas_push : Pushes (any_meta sel) (meta_sets db c sel)
    unfolding any_meta meta_sets
    metas_push = Pushes-append _ _ _ _ (meta_push meta_time sel.time_min sel.time_max) (
        Pushes-append _ _ _ _ (meta_push meta_timestep sel.timestep_min sel.timestep_max) (
          Pushes-append _ _ _ _ (meta_push meta_frame_index sel.frame_index_min sel.frame_index_max)
            (Pushes-append _ _ _ _ (meta_push meta_neb_bead sel.neb_bead_min sel.neb_bead_max) (
              Pushes-append _ _ _ _ (meta_push meta_neb_band sel.neb_band_min sel.neb_band_max) (
                Pushes-append _ _ _ _ (meta_push meta_charge sel.charge_min sel.charge_max)
                  (meta_push meta_magmom sel.magmom_min sel.magmom_max))))))

    flags_push :
        Pushes
          (sel.require_forces || (sel.require_velocities || sel.require_energy))
          (flag_sets db c sel)
    unfolding flag_sets
    flags_push = Pushes-append _ _ _ _ (flag_push sel.require_forces flag_has_forces) (
        Pushes-append _ _ _ _ (flag_push sel.require_velocities flag_has_velocities)
          (flag_push sel.require_energy flag_has_energy))

    pub pushed_sets-Pushes :
        (topo : List KeySet)
        → topo_sets db c sel ≡ ok topo
        → Pushes (any_condition sel) (pushed_sets db c sel topo)
    unfolding any_condition pushed_sets topo_sets
    pushed_sets-Pushes topo h = Pushes-append _ _ _ _ hash_push (
        Pushes-append _ _ _ _ natoms_push (
          Pushes-append _ _ _ _ (symbols_push sel.traj_id sel.symbols_all) (
            Pushes-append _ _ _ _ formula_push (
              Pushes-append _ _ _ _ (topo_push c.idx_topo sel.traj_id sel.topo_key topo h) (
                Pushes-append _ _ _ _ (exact_push sel.traj_id sel.element_count_exact) (
                  Pushes-append _ _ _ _ (min_push sel.traj_id sel.element_count_min) (
                    Pushes-append _ _ _ _ ranges_push (
                      Pushes-append _ _ _ _ pbc_push
                        (Pushes-append _ _ _ _ metas_push flags_push)))))))))
