-- ===== src/MpiIngest/Grouping.antt =====
-- Rows that a rank of src/mpi_ingest.rs holds, and packs in two parts.
use readcon_db.Base.{
  ℕ, zero, suc, ◌+◌, ◌/◌, ◌%◌, ◌<◌, ◌≤◌, ◌≡◌, ◌≢◌, refl, sym, ap, ◌∙◌, some, List, [], ◌∷◌, ◌++◌,
  arith, length, get_elem?,
}
use readcon_db.Base.Bytes.{Bytes}
use readcon_db.Error.{ok, >>=-eq-ok, ok_eq}
use mathlib.Core.Path.{subst}
use readcon_db.Zstd.{Zstd}
use readcon_db.Keys.{TrajId}
use readcon_db.Codec.{Frame, group_len, load_frame, pack_aligned}
use readcon_db.Codec.Split.{NotHead, ApartFrom, length-pack_aligned, pack_aligned-append}
use readcon_db.Corpus.Ingest.{key_of}
use readcon_db.MpiIngest.{Held, set_held, load_held, pack_held}

set_held-append :
    (rows rest : List Held) (a b : List Bytes)
    → length a ≡ length rows
    → set_held (rows ++ rest) (a ++ b) ≡ set_held rows a ++ set_held rest b
unfolding set_held
set_held-append [] rest [] b h = refl
set_held-append [] rest (v ∷ a) b h = absurd (omega arith)
set_held-append (r ∷ rows) rest [] b h = absurd (omega arith)
set_held-append (r ∷ rows) rest (v ∷ a) b h =
    ap (λ t. record r { stored = v } ∷ t) (set_held-append rows rest a b (omega arith))

-- No row is in the group that the rows `rest` begin with.
abbrev pub NotFirst : ℕ → List Held → Type 0
NotFirst g [] = Unit
NotFirst g (h ∷ rest) = h.fk.frame_idx / group_len ≢ g

abbrev pub RowsApart : List Held → List Held → Type 0
RowsApart rest [] = Unit
RowsApart rest (r ∷ rows) = NotFirst (r.fk.frame_idx / group_len) rest × RowsApart rest rows

module _ (z : Zstd) where
  load_held-append :
      (rows rest : List Held) (texts : List Frame)
      → load_held z (rows ++ rest) ≡ ok texts
      → (a : List Frame) × (b : List Frame) × (load_held z rows ≡ ok a)
        × (load_held z rest ≡ ok b)
        × (texts ≡ a ++ b)
  unfolding load_held
  load_held-append [] rest texts e = ([], texts, refl, e, refl)
  load_held-append (r ∷ rows) rest texts e =
      let (text, p, e1) = >>=-eq-ok (load_frame z r.stored) _ e in
      let (more, q, e2) = >>=-eq-ok (load_held z (rows ++ rest)) _ e1 in
      let (a, b, la, lb, at) = load_held-append rows rest more q in
      (
        (r.fk.frame_idx, text) ∷ a,
        b,
        rw (p, la) refl,
        lb,
        sym (ok_eq e2) ∙ ap (λ t. (r.fk.frame_idx, text) ∷ t) at,
      )

  length-load_held :
      (rows : List Held) (texts : List Frame)
      → load_held z rows ≡ ok texts
      → length texts ≡ length rows
  unfolding load_held
  length-load_held [] texts e = let same : [] ≡ texts = ok_eq e in rw (← same) refl
  length-load_held (r ∷ rows) texts e =
      let (text, p, e1) = >>=-eq-ok (load_frame z r.stored) _ e in
      let (more, q, e2) = >>=-eq-ok (load_held z rows) _ e1 in
      rw (← ok_eq e2) (ap suc (length-load_held rows more q))

  NotHead-load_held :
      (g : ℕ) (rest : List Held) (b : List Frame)
      → load_held z rest ≡ ok b
      → NotFirst g rest
      → NotHead g b
  unfolding load_held
  NotHead-load_held g [] b e n = let same : [] ≡ b = ok_eq e in subst (NotHead g) same tt
  NotHead-load_held g (r ∷ rest) b e n =
      let (text, p, e1) = >>=-eq-ok (load_frame z r.stored) _ e in
      let (more, q, e2) = >>=-eq-ok (load_held z rest) _ e1 in subst (NotHead g) (ok_eq e2) n

  ApartFrom-load_held :
      (rest rows : List Held) (b a : List Frame)
      → load_held z rest ≡ ok b
      → load_held z rows ≡ ok a
      → RowsApart rest rows
      → ApartFrom b a
  unfolding load_held
  ApartFrom-load_held rest [] b a l e n = let same : [] ≡ a = ok_eq e in subst (ApartFrom b) same tt
  ApartFrom-load_held rest (r ∷ rows) b a l e n =
      let (text, p, e1) = >>=-eq-ok (load_frame z r.stored) _ e in
      let (more, q, e2) = >>=-eq-ok (load_held z rows) _ e1 in
      subst (ApartFrom b) (ok_eq e2) (
        NotHead-load_held (r.fk.frame_idx / group_len) rest b l n.0,
        ApartFrom-load_held rest rows b more l q n.1,
      )

  -- Rows that are cut between two groups are packed part by part.
  pub pack_held-append :
      (rows rest whole : List Held)
      → RowsApart rest rows
      → pack_held z (rows ++ rest) ≡ ok whole
      → (a : List Held) × (b : List Held) × (pack_held z rows ≡ ok a)
        × (pack_held z rest ≡ ok b)
        × (whole ≡ a ++ b)
  unfolding pack_held
  pack_held-append rows rest whole n e =
      let (texts, l, e1) = >>=-eq-ok (load_held z (rows ++ rest)) _ e in
      let (ta, tb, la, lb, at) = load_held-append rows rest texts l in
      let (packed, p, e2) = >>=-eq-ok (pack_aligned z texts) _ e1 in
      let both =
        sym (pack_aligned-append z ta tb (ApartFrom-load_held rest rows tb ta lb la n))
        ∙ ap (pack_aligned z) (sym at)
        ∙ p in
      let (pa, qa, f1) = >>=-eq-ok (pack_aligned z ta) _ both in
      let (pb, qb, f2) = >>=-eq-ok (pack_aligned z tb) _ f1 in
      let len : length pa ≡ length rows =
        length-pack_aligned z ta pa qa ∙ length-load_held rows ta la in
      (
        set_held rows pa,
        set_held rest pb,
        rw (la, qa) refl,
        rw (lb, qb) refl,
        sym (ok_eq e2)
            ∙ ap (set_held (rows ++ rest)) (sym (ok_eq f2))
            ∙ set_held-append rows rest pa pb len,
      )

-- The rows of the frames `d`, `d + 1`, … of a trajectory.
abbrev pub Line : TrajId → ℕ → List Held → Type 0
Line traj d [] = Unit
Line traj d (r ∷ rows) = (r.fk ≡ key_of traj d) × Line traj (suc d) rows

pub Line-split :
    (traj d : ℕ) (rows rest : List Held)
    → Line traj d (rows ++ rest)
    → Line traj d rows × Line traj (d + length rows) rest
Line-split traj d [] rest l =
    (tt, subst (λ k. Line traj k rest) (let e : d ≡ d + 0 = omega arith in e) l)
Line-split traj d (r ∷ rows) rest l =
    let (a, b) = Line-split traj (suc d) rows rest l.1 in
    let e : suc d + length rows ≡ d + suc (length rows) = omega arith in
    ((l.0, a), subst (λ k. Line traj k rest) e b)

pub Line-get :
    (traj d i : ℕ) (rows : List Held)
    → Line traj d rows
    → i < length rows
    → (x : Held) × (get_elem? rows i ≡ some x) × (x.fk ≡ key_of traj (d + i))
Line-get traj d i [] l h = absurd (omega arith)
Line-get traj d zero (r ∷ rows) l h =
    let e : d ≡ d + 0 = omega arith in (r, refl, l.0 ∙ ap (key_of traj) e)
Line-get traj d (suc i) (r ∷ rows) l h =
    let (x, p, q) = Line-get traj (suc d) i rows l.1 (omega arith) in
    let e : suc d + i ≡ d + suc i = omega arith in (x, p, q ∙ ap (key_of traj) e)

NotFirst-Line :
    (traj d j : ℕ) (rest : List Held)
    → Line traj (d + 64) rest
    → d % 64 ≡ 0
    → d ≤ j
    → j < d + 64
    → NotFirst (j / group_len) rest
NotFirst-Line traj d j [] l a h k = tt
NotFirst-Line traj d j (r ∷ rest) l a h k =
    let at : r.fk.frame_idx ≡ d + 64 = ap (λ fk. fk.frame_idx) l.0 in
    λ e. omega (arith, at, a, e, h, k)

-- Rows of one group, and what is behind a full one.
pub RowsApart-Line :
    (traj d lo : ℕ) (rows rest : List Held)
    → Line traj lo rows
    → Line traj (d + 64) rest
    → d % 64 ≡ 0
    → d ≤ lo
    → lo + length rows ≤ d + 64
    → RowsApart rest rows
RowsApart-Line traj d lo [] rest l m a h k = tt
RowsApart-Line traj d lo (r ∷ rows) rest l m a h k =
    let at : r.fk.frame_idx ≡ lo = ap (λ fk. fk.frame_idx) l.0 in
    (
      subst (λ j. NotFirst (j / group_len) rest) (sym at)
          (NotFirst-Line traj d lo rest m a h (omega arith)),
      RowsApart-Line traj d (suc lo) rows rest l.1 m a (omega arith) (omega arith),
    )

pub RowsApart-nil : (rows : List Held) → RowsApart [] rows
RowsApart-nil [] = tt
RowsApart-nil (r ∷ rows) = (tt, RowsApart-nil rows)
