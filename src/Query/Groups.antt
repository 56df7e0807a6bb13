-- ===== src/Query/Groups.antt =====
-- The sets that src/corpus.rs `select` pushes for one condition, or for a list of conditions of one
-- kind, against the tests of Query/Spec.
use readcon_db.Base.{
  ℕ, ◌≡◌, refl, sym, ◌∙◌, Bool, ◌&&◌, Option, none, some, List, [], ◌∷◌, ◌++◌, leb, ◌==◌, arith,
}
use readcon_db.Base.Bytes.{Bytes}
use readcon_db.Error.{Result, ok, err, ◌>>=◌}
use readcon_db.Keys.{FrameKey, TrajId, from_bytes, symbol_prefix, topo_prefix}
use readcon_db.Keys.Float.{Float64, neg_infinity}
use readcon_db.Corpus.{ConCorpus}
use readcon_db.Topology.{normalize_topo_hex}
use readcon_db.Heed.{Heed}
use readcon_db.Query.{
  text_set, symbol_sets, topo_set, push_topo, count_set, exact_sets, min_sets, scan_ord, scan_meta,
  push_flag,
}
use readcon_db.Scan.{
  Step, continue, break, found, insert, KeySet, contains, is_of_traj, insert_if_some, push_if,
  push_some, lo_bits, hi_bits, inserted, posted_set,
}
use readcon_db.Query.Sets.{in_all}
use readcon_db.Query.Scans.{has_row, AllKeys, step_names}
use readcon_db.Query.Rows.{
  names-insert_if_some, contains-range_scan, contains-text_scan, contains-byte_scan,
  contains-meta_scan, contains-count_scan,
}
use readcon_db.Query.Spec.{
  posted_reads, text_row, count_row, asked, implies, symbols_match, in_topo, topo_asked,
  exact_match, min_match, ord_matches, meta_matches, flag_matches,
}

pub in_all-append :
    (a b : List KeySet) (x : FrameKey) → in_all (a ++ b) x ≡ (in_all a x && in_all b x)
unfolding in_all
in_all-append [] b x = refl
in_all-append (s ∷ a) b x = ground (arith, in_all-append a b x)

-- The groups agree with their tests on the frames of the trajectory, `t`.
abbrev pub AgreeOn : Bool → Bool → Bool → Type 0
AgreeOn t a b = (a && t) ≡ (b && t)

pub in_all-push_if :
    (t cond test : Bool) (s : KeySet) (x : FrameKey)
    → contains s x ≡ (t && test)
    → AgreeOn t (in_all (push_if cond s) x) (implies cond test)
unfolding in_all push_if implies
in_all-push_if t cond test s x h = ground (arith, h)

pub in_all-two :
    (t m n : Bool) (a b : List KeySet) (x : FrameKey)
    → AgreeOn t (in_all a x) m
    → AgreeOn t (in_all b x) n
    → AgreeOn t (in_all (a ++ b) x) (m && n)
in_all-two t m n a b x h k = ground (arith, in_all-append a b x, h, k)

pub in_all-one :
    (t test : Bool) (s : KeySet) (x : FrameKey)
    → contains s x ≡ (t && test)
    → AgreeOn t (in_all (s ∷ []) x) test
unfolding in_all
in_all-one t test s x h = ground (arith, h)

pub in_all-push_some {ℓ} :
    {A : Type ℓ} (t : Bool) (o : Option A) (s : A → KeySet) (test : A → Bool) (x : FrameKey)
    → ((a : A) → contains (s a) x ≡ (t && test a))
    → AgreeOn t (in_all (push_some o s) x) (asked o test)
unfolding in_all push_some asked
in_all-push_some t none s test x h = refl
in_all-push_some t (some a) s test x h = ground (arith, h a)

pub posted_set-contains :
    (traj : Option TrajId) (x : FrameKey) (o : Option Bytes)
    → contains (posted_set traj o) x ≡ (is_of_traj traj x && posted_reads o x)
unfolding posted_set posted_reads contains
posted_set-contains traj x none = ground arith
posted_set-contains traj x (some b) =
    inserted_names (insert_if_some traj (from_bytes b)) ∙ names-insert_if_some traj x (from_bytes b)
  where
    inserted_names : (s : Step) → contains (inserted s) x ≡ step_names s x
    inserted_names continue = unfold inserted step_names contains in refl
    inserted_names break = unfold inserted step_names contains in refl
    inserted_names (found fk) = unfold inserted step_names contains insert in ground arith

module _ (db : Heed) (c : ConCorpus db) (x : FrameKey) where
  open db use {Table, get, iter, prefix_iter, iter-Ascends, prefix_iter-iter}

  pub text_set-contains :
      (t : Table) (prefix : Bytes) (traj : Option TrajId)
      → contains (text_set db t prefix traj) x
        ≡ (is_of_traj traj x && has_row (text_row prefix x) (iter t))
  unfolding text_set
  text_set-contains t prefix traj =
      rw (prefix_iter-iter t prefix) (contains-text_scan traj x (iter t) prefix)

  pub count_set-contains :
      (traj : Option TrajId) (wanted : ℕ → Bool) (sym : Bytes)
      → contains (count_set db c traj wanted sym) x
        ≡ (is_of_traj traj x && has_row (count_row wanted sym x) (iter c.idx_elem_count))
  unfolding count_set
  count_set-contains traj wanted sym =
      rw (prefix_iter-iter c.idx_elem_count)
        (contains-count_scan traj x (iter c.idx_elem_count) wanted sym)

  pub topo_asked-agree :
      (idx_topo : Option Table) (traj : Option TrajId) (o : Option Bytes) (topo : List KeySet)
      → push_topo db idx_topo traj o ≡ ok topo
      → AgreeOn (is_of_traj traj x) (in_all topo x) (topo_asked db idx_topo o x)
  unfolding push_topo topo_asked topo_set in_topo in_all
  topo_asked-agree idx_topo traj none topo h = let e : [] ≡ topo = grind arith in rw (← e) refl
  topo_asked-agree none traj (some hex) topo h =
      let e : [] ∷ [] ≡ topo = grind arith in rw (← e) (unfold contains in ground arith)
  topo_asked-agree (some idx) traj (some hex) topo h = go (normalize_topo_hex hex) h
    where
      go :
          (norm : Result Bytes)
          → (norm >>= λ n. ok (text_set db idx (topo_prefix n) traj)) >>= (λ s. ok (s ∷ []))
            ≡ ok topo
          → AgreeOn (is_of_traj traj x) (in_all topo x) (in_topo db (some idx) norm x)
      go (err e) h = cc
      go (ok n) h =
          let e : text_set db idx (topo_prefix n) traj ∷ [] ≡ topo = grind arith in
          rw (← e) (in_all-one _ _ _ x (text_set-contains idx (topo_prefix n) traj))

  pub symbols_agree :
      (traj : Option TrajId) (symbols : List Bytes)
      → AgreeOn
          (is_of_traj traj x)
          (in_all (symbol_sets db c traj symbols) x)
          (symbols_match db c symbols x)
  unfolding symbol_sets symbols_match in_all
  symbols_agree traj [] = refl
  symbols_agree traj (sym ∷ symbols) =
      ground
        (arith, text_set-contains c.idx_symbol (symbol_prefix sym) traj, symbols_agree traj symbols)

  pub exact_agree :
      (traj : Option TrajId) (counts : List (Bytes × ℕ))
      → AgreeOn
          (is_of_traj traj x)
          (in_all (exact_sets db c traj counts) x)
          (exact_match db c counts x)
  unfolding exact_sets exact_match in_all
  exact_agree traj [] = refl
  exact_agree traj ((sym, n) ∷ counts) =
      ground (arith, count_set-contains traj (λ m. m == n) sym, exact_agree traj counts)

  pub min_agree :
      (traj : Option TrajId) (counts : List (Bytes × ℕ))
      → AgreeOn (is_of_traj traj x) (in_all (min_sets db c traj counts) x) (min_match db c counts x)
  unfolding min_sets min_match in_all
  min_agree traj [] = refl
  min_agree traj ((sym, n) ∷ counts) =
      ground (arith, count_set-contains traj (λ m. leb n m) sym, min_agree traj counts)

  pub ord_agree :
      (t : Table) (traj : Option TrajId) (default : Float64) (lo hi : Option Float64)
      → AllKeys (iter t)
      → AgreeOn
          (is_of_traj traj x)
          (in_all (scan_ord db t traj default lo hi) x)
          (ord_matches db t default lo hi x)
  unfolding scan_ord ord_matches
  ord_agree t traj default lo hi ks =
      in_all-push_if _ _ _ _ x (
        contains-range_scan traj x 8 (lo_bits lo default) (hi_bits hi) (iter t) (iter-Ascends t) ks)

  pub meta_agree :
      (traj : Option TrajId) (ch : ℕ) (lo hi : Option Float64)
      → AgreeOn
          (is_of_traj traj x)
          (in_all (scan_meta db c traj ch lo hi) x)
          (meta_matches db c ch lo hi x)
  unfolding scan_meta meta_matches
  meta_agree traj ch lo hi = in_all-push_if _ _ _ _ x (
      rw (prefix_iter-iter c.idx_meta (ch ∷ []))
        (contains-meta_scan traj x (iter c.idx_meta) (lo_bits lo neg_infinity) (hi_bits hi) ch))

  pub flag_agree :
      (traj : Option TrajId) (required : Bool) (flag : ℕ)
      → AgreeOn
          (is_of_traj traj x)
          (in_all (push_flag db c traj required flag) x)
          (flag_matches db c required flag x)
  unfolding push_flag flag_matches
  flag_agree traj required flag = in_all-push_if _ _ _ _ x (
      rw (prefix_iter-iter c.idx_flags (flag ∷ []))
        (contains-byte_scan traj x (iter c.idx_flags) flag))
