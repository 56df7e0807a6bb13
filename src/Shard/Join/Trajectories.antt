-- ===== src/Shard/Join/Trajectories.antt =====
-- What a join of src/shard.rs copies, said by the keys of a source: its trajectories in ascending
-- order, each with the texts of its frames in the order of their keys.
use readcon_db.Base.{
  ℕ, ◌+◌, ◌%◌, ◌^◌, ◌<◌, ◌≡◌, refl, sym, ap, ◌∙◌, ◌⊎◌, inl, inr, true, false, Option, none, some,
  List, [], ◌∷◌, ◌++◌, ltb, ◌==◌, if◌then◌else◌, arith, Bool-cases, ltb→lt, ==_iff, All,
}
use mathlib.Core.Path.{subst}
use readcon_db.Zstd.{Zstd}
use readcon_db.Heed.{Heed, Entry, In}
use readcon_db.Keys.{FrameKey, TrajId, from_bytes}
use readcon_db.Scan.{sort_by, frame_key_leb}
use readcon_db.Corpus.{ConCorpus}
use readcon_db.Corpus.Read.{get_frame_text_txn}
use readcon_db.Shard.Join.{push_key, by_traj, keys_in, list_frame_keys, concat_texts, append_group}
use readcon_db.Shard.Join.Copy.{copy_groups}
use mathlib.Core.List.{append-nil, append_assoc}
use readcon_db.Base.Bytes.{Bytes}
use readcon_db.Error.{Result, ok, err, ◌>>=◌}

-- The keys of one trajectory.
abbrev pub frames_of : TrajId → List FrameKey → List FrameKey
frames_of t [] = []
frames_of t (fk ∷ keys) = let rest = frames_of t keys in if fk.traj_id == t then fk ∷ rest else rest

-- The trajectories of keys, in ascending order and each once, added to those that are there.
abbrev pub add_traj : TrajId → List TrajId → List TrajId
add_traj tr [] = tr ∷ []
add_traj tr (t ∷ ts) =
    let rest = add_traj tr ts in
    if tr == t then t ∷ ts else if ltb tr t then tr ∷ t ∷ ts else t ∷ rest

abbrev pub trajs_of : List TrajId → List FrameKey → List TrajId
trajs_of ts [] = ts
trajs_of ts (fk ∷ keys) = trajs_of (add_traj fk.traj_id ts) keys

unfoldable pub groups_of : List TrajId → List FrameKey → List (TrajId × List FrameKey)
groups_of [] keys = []
groups_of (t ∷ ts) keys = (t, frames_of t keys) ∷ groups_of ts keys

abbrev Asc : List TrajId → Type 0
Asc [] = Unit
Asc (t ∷ ts) = All (λ u. t < u) ts × Asc ts

frames_of-append :
    (t : TrajId) (xs ys : List FrameKey) → frames_of t (xs ++ ys) ≡ frames_of t xs ++ frames_of t ys
frames_of-append t [] ys = refl
frames_of-append t (fk ∷ xs) ys = elim (Bool-cases (fk.traj_id == t)) [
  | inl q ↦ rw q (ap (λ r. fk ∷ r) (frames_of-append t xs ys))
  | inr q ↦ rw q (frames_of-append t xs ys)
]

frames_of_same :
    (fk : FrameKey) (t : TrajId) (seen : List FrameKey)
    → (fk.traj_id == t) ≡ true
    → frames_of t (seen ++ (fk ∷ [])) ≡ frames_of t seen ++ (fk ∷ [])
frames_of_same fk t seen q =
    frames_of-append t seen (fk ∷ []) ∙ ap (λ r. frames_of t seen ++ r) (rw q refl)

frames_of_other :
    (fk : FrameKey) (t : TrajId) (seen : List FrameKey)
    → (fk.traj_id == t) ≡ false
    → frames_of t (seen ++ (fk ∷ [])) ≡ frames_of t seen
frames_of_other fk t seen q =
    frames_of-append t seen (fk ∷ [])
    ∙ ap (λ r. frames_of t seen ++ r) (let e : frames_of t (fk ∷ []) ≡ [] = rw q refl in e)
    ∙ append-nil (frames_of t seen)

groups_of_above :
    (fk : FrameKey) (ts : List TrajId) (seen : List FrameKey)
    → All (λ u. fk.traj_id < u) ts
    → groups_of ts (seen ++ (fk ∷ [])) ≡ groups_of ts seen
unfolding groups_of
groups_of_above fk [] seen a = refl
groups_of_above fk (t ∷ ts) seen a =
    let apart : (fk.traj_id == t) ≡ false = ground (arith, a.0) in
    rw (frames_of_other fk t seen apart, groups_of_above fk ts seen a.1) refl

not_in : (tr : ℕ) (ts : List TrajId) → All (λ u. tr < u) ts → In tr ts → ⊥
not_in tr [] a i = i
not_in tr (t ∷ ts) a (inl e) = omega (arith, a.0, e)
not_in tr (t ∷ ts) a (inr i) = not_in tr ts a.1 i

above_trans : (t u : ℕ) (ts : List TrajId) → t < u → All (λ v. u < v) ts → All (λ v. t < v) ts
above_trans t u [] h a = tt
above_trans t u (v ∷ ts) h a = (omega (arith, h, a.0), above_trans t u ts h a.1)

push_key_lem :
    (fk : FrameKey) (ts : List TrajId) (seen : List FrameKey)
    → Asc ts
    → In fk.traj_id ts ⊎ (frames_of fk.traj_id seen ≡ [])
    → push_key fk (groups_of ts seen) ≡ groups_of (add_traj fk.traj_id ts) (seen ++ (fk ∷ []))
unfolding push_key groups_of
push_key_lem fk [] seen a (inl i) = absurd i
push_key_lem fk [] seen a (inr e) =
    let own : (fk.traj_id == fk.traj_id) ≡ true = ground arith in
    rw (frames_of_same fk fk.traj_id seen own, e) refl
push_key_lem fk (t ∷ ts) seen a c = elim (Bool-cases (fk.traj_id == t)) [
  | inl q ↦
      let same : fk.traj_id ≡ t = (==_iff fk.traj_id t).0 q in
      let above : All (λ u. fk.traj_id < u) ts = subst (λ x. All (λ u. x < u) ts) (sym same) a.0 in
      rw (q, frames_of_same fk t seen q, groups_of_above fk ts seen above) refl
  | inr q ↦ elim (Bool-cases (ltb fk.traj_id t)) [
    | inl r ↦
        let less : fk.traj_id < t = ltb→lt fk.traj_id t r in
        let above : All (λ u. fk.traj_id < u) (t ∷ ts) =
          (less, above_trans fk.traj_id t ts less a.0) in
        let own : (fk.traj_id == fk.traj_id) ≡ true = ground arith in
        let empty : frames_of fk.traj_id seen ≡ [] = elim c [
          | inl i ↦ absurd (not_in fk.traj_id (t ∷ ts) above i)
          | inr e ↦ e
        ] in
        rw
          (
            q,
            r,
            frames_of_same fk fk.traj_id seen own,
            empty,
            frames_of_other fk t seen q,
            groups_of_above fk ts seen above.1,
          )
          refl
    | inr r ↦
        let deeper : In fk.traj_id ts ⊎ (frames_of fk.traj_id seen ≡ []) = elim c [
          | inl (inl e) ↦ absurd (ground (arith, q, ==_iff fk.traj_id t, e))
          | inl (inr i) ↦ inl i
          | inr e ↦ inr e
        ] in
        rw (q, r, frames_of_other fk t seen q, push_key_lem fk ts seen a.1 deeper) refl
  ]
]

All-add_traj :
    (u tr : ℕ) (ts : List TrajId) → u < tr → All (λ v. u < v) ts → All (λ v. u < v) (add_traj tr ts)
All-add_traj u tr [] h a = (h, tt)
All-add_traj u tr (t ∷ ts) h a = elim (Bool-cases (tr == t)) [
  | inl q ↦ rw q a
  | inr q ↦ elim (Bool-cases (ltb tr t)) [
    | inl r ↦ rw (q, r) (h, a)
    | inr r ↦ rw (q, r) (a.0, All-add_traj u tr ts h a.1)
  ]
]

Asc-add_traj : (tr : ℕ) (ts : List TrajId) → Asc ts → Asc (add_traj tr ts)
Asc-add_traj tr [] a = (tt, tt)
Asc-add_traj tr (t ∷ ts) a = elim (Bool-cases (tr == t)) [
  | inl q ↦ rw q a
  | inr q ↦ elim (Bool-cases (ltb tr t)) [
    | inl r ↦ let less = ltb→lt tr t r in rw (q, r) ((less, above_trans tr t ts less a.0), a)
    | inr r ↦
        let more : t < tr = ground (arith, q, r, ==_iff tr t) in
        rw (q, r) (All-add_traj t tr ts more a.0, Asc-add_traj tr ts a.1)
  ]
]

In-add_traj : (u tr : ℕ) (ts : List TrajId) → (u ≡ tr) ⊎ In u ts → In u (add_traj tr ts)
In-add_traj u tr [] (inl e) = inl e
In-add_traj u tr [] (inr i) = absurd i
In-add_traj u tr (t ∷ ts) c = elim (Bool-cases (tr == t)) [
  | inl q ↦ rw q (elim c [ inl e ↦ inl (e ∙ (==_iff tr t).0 q) | inr i ↦ i ])
  | inr q ↦ elim (Bool-cases (ltb tr t)) [
    | inl r ↦ rw (q, r) (elim c [ inl e ↦ inl e | inr i ↦ inr i ])
    | inr r ↦
        rw (q, r)
          (elim c [
            | inl e ↦ inr (In-add_traj u tr ts (inl e))
            | inr (inl e) ↦ inl e
            | inr (inr i) ↦ inr (In-add_traj u tr ts (inr i))
          ])
  ]
]

-- Every key that was seen is of one of the trajectories.
abbrev Covered : List TrajId → List FrameKey → Type 0
Covered ts seen = (t : ℕ) → In t ts ⊎ (frames_of t seen ≡ [])

Covered-push :
    (fk : FrameKey) (ts : List TrajId) (seen : List FrameKey)
    → Covered ts seen
    → Covered (add_traj fk.traj_id ts) (seen ++ (fk ∷ []))
Covered-push fk ts seen c t = elim (Bool-cases (fk.traj_id == t)) [
  | inl q ↦ inl (In-add_traj t fk.traj_id ts (inl (sym ((==_iff fk.traj_id t).0 q))))
  | inr q ↦ elim (c t) [
    | inl i ↦ inl (In-add_traj t fk.traj_id ts (inr i))
    | inr e ↦ inr (frames_of_other fk t seen q ∙ e)
  ]
]

by_traj_split :
    (ts : List TrajId) (seen keys : List FrameKey)
    → Asc ts
    → Covered ts seen
    → by_traj (groups_of ts seen) keys ≡ groups_of (trajs_of ts keys) (seen ++ keys)
unfolding by_traj
by_traj_split ts seen [] a c = ap (groups_of ts) (sym (append-nil seen))
by_traj_split ts seen (fk ∷ keys) a c =
    ap (λ g. by_traj g keys) (push_key_lem fk ts seen a (c fk.traj_id))
    ∙ by_traj_split (add_traj fk.traj_id ts) (seen ++ (fk ∷ [])) keys (Asc-add_traj fk.traj_id ts a)
        (Covered-push fk ts seen c)
    ∙ ap (groups_of (trajs_of (add_traj fk.traj_id ts) keys)) (append_assoc seen (fk ∷ []) keys)

-- The keys are grouped by their trajectory, and keep their order in each.
pub by_traj-groups_of : (keys : List FrameKey) → by_traj [] keys ≡ groups_of (trajs_of [] keys) keys
unfolding groups_of
by_traj-groups_of keys = by_traj_split [] [] keys tt (λ t. inr refl)

-- The frame keys among the keys of a table.
abbrev pub add_decoded : Option FrameKey → List FrameKey → List FrameKey
add_decoded none keys = keys
add_decoded (some fk) keys = fk ∷ keys

abbrev pub decoded : List Entry → List FrameKey
decoded [] = []
decoded ((k, v) ∷ rows) = add_decoded (from_bytes k) (decoded rows)

decoded_lem : (rows : List Entry) → keys_in rows ≡ decoded rows
unfolding keys_in
decoded_lem [] = refl
decoded_lem ((k, v) ∷ rows) = go (from_bytes k) refl (decoded_lem rows)
  where
    go :
        (o : Option FrameKey)
        → from_bytes k ≡ o
        → keys_in rows ≡ decoded rows
        → keys_in ((k, v) ∷ rows) ≡ decoded ((k, v) ∷ rows)
    go none q ih = rw (q, keys_in) ih
    go (some fk) q ih = rw (q, keys_in) (ap (λ r. fk ∷ r) ih)

module _ (db : Heed) (z : Zstd) (xxh3_128 : Bytes → ℕ)
    (append_trajectory_str : ConCorpus db → TrajId → Bytes → Result (ConCorpus db × ℕ)) where
  open db use {iter}

  -- The frame keys of a corpus, in their order.
  abbrev pub sorted_keys : ConCorpus db → List FrameKey
  sorted_keys c = sort_by frame_key_leb (decoded (iter c.frames))

  -- The texts of frames, one after the other.
  unfoldable pub text_of : ConCorpus db → List FrameKey → Result Bytes
  text_of c [] = ok []
  text_of c (fk ∷ fks) =
      get_frame_text_txn db z xxh3_128 c fk >>= λ text. text_of c fks >>= λ more. ok (text ++ more)

  -- The trajectories `ts`, copied one after the other.
  unfoldable pub copy_trajs :
      ConCorpus db → List FrameKey → ConCorpus db → List TrajId → Result (ConCorpus db × ℕ)
  copy_trajs c keys out [] = ok (out, 0)
  copy_trajs c keys out (t ∷ ts) = text_of c (sort_by frame_key_leb (frames_of t keys)) >>= λ text.
      append_trajectory_str out t text >>= λ r.
      copy_trajs c keys r.0 ts >>= λ s. ok (s.0, (r.1 + s.1) % 2 ^ 32)

  text_of_lem :
      (c : ConCorpus db) (fks : List FrameKey)
      → concat_texts db z xxh3_128 append_trajectory_str c fks ≡ text_of c fks
  unfolding concat_texts text_of
  text_of_lem c [] = refl
  text_of_lem c (fk ∷ fks) = rw (text_of_lem c fks) refl

  pub list_frame_keys-sorted_keys :
      (c : ConCorpus db) → list_frame_keys db z xxh3_128 append_trajectory_str c ≡ sorted_keys c
  unfolding list_frame_keys
  list_frame_keys-sorted_keys c = ap (sort_by frame_key_leb) (decoded_lem (iter c.frames))

  pub copy_groups-copy_trajs :
      (c out : ConCorpus db) (keys : List FrameKey) (ts : List TrajId)
      → copy_groups db z xxh3_128 append_trajectory_str c out (groups_of ts keys)
        ≡ copy_trajs c keys out ts
  unfolding copy_groups copy_trajs append_group groups_of
  copy_groups-copy_trajs c out keys [] = refl
  copy_groups-copy_trajs c out keys (t ∷ ts) =
      rw (text_of_lem c (sort_by frame_key_leb (frames_of t keys))) (
        go (λ d. copy_groups-copy_trajs c d keys ts)
          (text_of c (sort_by frame_key_leb (frames_of t keys))))
    where
      before : ConCorpus db × ℕ → Result (ConCorpus db × ℕ)
      before x = copy_groups db z xxh3_128 append_trajectory_str c x.0 (groups_of ts keys) >>= λ s.
          ok (s.0, (x.1 + s.1) % 2 ^ 32)

      after : ConCorpus db × ℕ → Result (ConCorpus db × ℕ)
      after x = copy_trajs c keys x.0 ts >>= λ s. ok (s.0, (x.1 + s.1) % 2 ^ 32)

      go2 :
          ((d : ConCorpus db)
            → copy_groups db z xxh3_128 append_trajectory_str c d (groups_of ts keys)
              ≡ copy_trajs c keys d ts)
          → (r : Result (ConCorpus db × ℕ)) → (r >>= before) ≡ (r >>= after)
      go2 ih (err e) = refl
      go2 ih (ok x) = rw (ih x.0) refl

      go :
          ((d : ConCorpus db)
            → copy_groups db z xxh3_128 append_trajectory_str c d (groups_of ts keys)
              ≡ copy_trajs c keys d ts)
          → (text : Result Bytes)
          → ((text >>= λ t1. append_trajectory_str out t t1) >>= before)
            ≡ (text >>= λ t1. append_trajectory_str out t t1 >>= after)
      go ih (err e) = refl
      go ih (ok text) = go2 ih (append_trajectory_str out t text)
