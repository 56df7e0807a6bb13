-- ===== src/Shard/Join/Preview.antt =====
-- What the first pass of a join of src/shard.rs is good for: the second never meets a trajectory
-- twice.
use readcon_db.Base.{
  ℕ, ◌<◌, ◌≡◌, refl, sym, ap, ◌∙◌, inl, inr, false, Option, none, some, List, [], ◌∷◌, ltb, ◌==◌,
  arith, Bool-cases, ==_iff, All,
}
use readcon_db.Error.{ok, err, message, >>=-eq-ok, ok_eq}
use mathlib.Core.Path.{subst}
use readcon_db.Keys.{FrameKey, TrajId}
use readcon_db.Shard.Join.{owner_of, enter, preview_traj, preview_keys, push_key, by_traj, is_seen}

-- The map only grows.
abbrev pub Grows : List (TrajId × ℕ) → List (TrajId × ℕ) → Type 0
Grows p q = (t o : ℕ) → owner_of p t ≡ some o → owner_of q t ≡ some o

preview_traj-ok :
    (p q : List (TrajId × ℕ)) (t o : ℕ)
    → preview_traj p t o ≡ ok q
    → (owner_of q t ≡ some o) × Grows p q
unfolding preview_traj enter
preview_traj-ok p q t o e = go (owner_of p t) refl e
  where
    go :
        (r : Option ℕ)
        → owner_of p t ≡ r
        → enter p t o r ≡ ok q
        → (owner_of q t ≡ some o) × Grows p q
    go none at e =
        let same : (t, o) ∷ p ≡ q = ok_eq e in
        subst (λ m. (owner_of m t ≡ some o) × Grows p m) same
          (
            unfold owner_of in ground arith,
            λ u w h.
                unfold owner_of in
                elim (Bool-cases (t == u)) [
                  | inl x ↦
                      let here : t ≡ u = (==_iff t u).0 x in
                      let old : owner_of p u ≡ none = ap (owner_of p) (sym here) ∙ at in
                      absurd (let bad : none ≡ some w = sym old ∙ h in cc bad)
                  | inr x ↦ rw x h
                ],
          )
    go (some w) at e = elim (Bool-cases (w == o)) [
      | inl x ↦
          let same : p ≡ q = ok_eq (rw x at e) in
          let here : w ≡ o = (==_iff w o).0 x in
          subst (λ m. (owner_of m t ≡ some o) × Grows p m) same (at ∙ ap some here, λ u v h. h)
      | inr x ↦ absurd (
          let bad : err (message "traj_id appears in multiple shards or join sources") ≡ ok q =
            rw x at e in
          cc bad)
    ]

-- The keys belong to the owner.
abbrev pub Owned : List (TrajId × ℕ) → ℕ → List FrameKey → Type 0
Owned p owner keys = All (λ fk. owner_of p fk.traj_id ≡ some owner) keys

pub Owned-Grows :
    (p q : List (TrajId × ℕ)) (owner : ℕ) (keys : List FrameKey)
    → Grows p q
    → Owned p owner keys
    → Owned q owner keys
Owned-Grows p q owner [] g h = tt
Owned-Grows p q owner (fk ∷ keys) g h = (g fk.traj_id owner h.0, Owned-Grows p q owner keys g h.1)

pub preview_keys-ok :
    (p q : List (TrajId × ℕ)) (owner : ℕ) (keys : List FrameKey)
    → preview_keys p owner keys ≡ ok q
    → Owned q owner keys × Grows p q
unfolding preview_keys
preview_keys-ok p q owner [] e =
    let same : p ≡ q = ok_eq e in subst (λ m. Owned m owner [] × Grows p m) same (tt, λ t o h. h)
preview_keys-ok p q owner (fk ∷ keys) e =
    let (m, f, e1) = >>=-eq-ok (preview_traj p fk.traj_id owner) _ e in
    let (here, g) = preview_traj-ok p m fk.traj_id owner f in
    let (rest, g2) = preview_keys-ok m q owner keys e1 in
    ((g2 fk.traj_id owner here, rest), λ t o h. g2 t o (g t o h))

-- The groups of owned keys are owned, and their trajectories ascend.
abbrev pub OwnedGroups : List (TrajId × ℕ) → ℕ → List (TrajId × List FrameKey) → Type 0
OwnedGroups p owner groups = All (λ g. owner_of p g.0 ≡ some owner) groups

abbrev pub Past : ℕ → List (TrajId × List FrameKey) → Type 0
Past t groups = All (λ g. t < g.0) groups

abbrev pub Rising : List (TrajId × List FrameKey) → Type 0
Rising [] = Unit
Rising (g ∷ groups) = Past g.0 groups × Rising groups

push_key-OwnedGroups :
    (p : List (TrajId × ℕ)) (owner : ℕ) (fk : FrameKey) (groups : List (TrajId × List FrameKey))
    → owner_of p fk.traj_id ≡ some owner
    → OwnedGroups p owner groups
    → OwnedGroups p owner (push_key fk groups)
unfolding push_key
push_key-OwnedGroups p owner fk [] h o = (h, tt)
push_key-OwnedGroups p owner fk ((t, fks) ∷ groups) h o = elim (Bool-cases (fk.traj_id == t)) [
  | inl x ↦ rw x (o.0, o.1)
  | inr x ↦ elim (Bool-cases (ltb fk.traj_id t)) [
    | inl y ↦ rw (x, y) (h, (o.0, o.1))
    | inr y ↦ rw (x, y) (o.0, push_key-OwnedGroups p owner fk groups h o.1)
  ]
]

Past-push_key :
    (t : ℕ) (fk : FrameKey) (groups : List (TrajId × List FrameKey))
    → t < fk.traj_id
    → Past t groups
    → Past t (push_key fk groups)
unfolding push_key
Past-push_key t fk [] h o = (h, tt)
Past-push_key t fk ((u, fks) ∷ groups) h o = elim (Bool-cases (fk.traj_id == u)) [
  | inl x ↦ rw x (o.0, o.1)
  | inr x ↦ elim (Bool-cases (ltb fk.traj_id u)) [
    | inl y ↦ rw (x, y) (h, (o.0, o.1))
    | inr y ↦ rw (x, y) (o.0, Past-push_key t fk groups h o.1)
  ]
]

Past-lower :
    (t u : ℕ) (groups : List (TrajId × List FrameKey)) → t < u → Past u groups → Past t groups
Past-lower t u [] h o = tt
Past-lower t u (g ∷ groups) h o = (omega (arith, h, o.0), Past-lower t u groups h o.1)

push_key-Rising :
    (fk : FrameKey) (groups : List (TrajId × List FrameKey))
    → Rising groups
    → Rising (push_key fk groups)
unfolding push_key
push_key-Rising fk [] r = (tt, tt)
push_key-Rising fk ((t, fks) ∷ groups) r = elim (Bool-cases (fk.traj_id == t)) [
  | inl x ↦ rw x (r.0, r.1)
  | inr x ↦ elim (Bool-cases (ltb fk.traj_id t)) [
    | inl y ↦
        let less : fk.traj_id < t = ground arith in
        rw (x, y) ((less, Past-lower fk.traj_id t groups less r.0), (r.0, r.1))
    | inr y ↦
        let more : t < fk.traj_id = ground (arith, ==_iff fk.traj_id t) in
        rw (x, y) (Past-push_key t fk groups more r.0, push_key-Rising fk groups r.1)
  ]
]

pub by_traj_groups :
    (p : List (TrajId × ℕ)) (owner : ℕ) (keys : List FrameKey)
    (groups : List (TrajId × List FrameKey))
    → Owned p owner keys
    → OwnedGroups p owner groups
    → Rising groups
    → OwnedGroups p owner (by_traj groups keys) × Rising (by_traj groups keys)
unfolding by_traj
by_traj_groups p owner [] groups k o r = (o, r)
by_traj_groups p owner (fk ∷ keys) groups k o r =
    by_traj_groups p owner keys (push_key fk groups) k.1
      (push_key-OwnedGroups p owner fk groups k.0 o) (push_key-Rising fk groups r)

-- None of the groups was seen.
abbrev pub Unseen : List TrajId → List (TrajId × List FrameKey) → Type 0
Unseen seen groups = All (λ g. is_seen seen g.0 ≡ false) groups

pub Unseen-cons :
    (t : ℕ) (seen : List TrajId) (groups : List (TrajId × List FrameKey))
    → Past t groups
    → Unseen seen groups
    → Unseen (t ∷ seen) groups
unfolding is_seen
Unseen-cons t seen [] q u = tt
Unseen-cons t seen (g ∷ groups) q u =
    (ground (arith, q.0, u.0, ==_iff t g.0), Unseen-cons t seen groups q.1 u.1)
