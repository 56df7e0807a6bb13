-- ===== src/MpiIngest/Draining.antt =====
-- What a writing rank of src/mpi_ingest.rs packs does not depend on the batches in which frames
-- arrive.
use readcon_db.Base.{
  ℕ, zero, suc, ◌+◌, ◌-◌, ◌*◌, ◌/◌, ◌%◌, ◌^◌, ◌<◌, ◌≤◌, ◌≡◌, refl, sym, ap, ◌∙◌, inl, inr, true,
  false, Option, some, List, [], ◌∷◌, ◌++◌, ltb, ◌==◌, if◌then◌else◌, arith, Bool-cases, ==_iff,
  length, take, drop, get_elem?, length-append, length-take, length-drop, take-drop, min,
}
use mathlib.Core.List.{append-nil, append_assoc}
use readcon_db.Error.{Result, ok, ◌>>=◌, ok_eq}
use mathlib.Core.Path.{subst}
use readcon_db.Zstd.{Zstd}
use readcon_db.Keys.{TrajId}
use readcon_db.Codec.{group_len, pack_aligned, pack_loop}
use readcon_db.Corpus.Ingest.{key_of}
use readcon_db.MpiIngest.{
  Held, set_held, completes, load_held, pack_held, drain_loop, drain_ready, feed, put_batches,
}
use readcon_db.MpiIngest.Grouping.{
  RowsApart, pack_held-append, Line, Line-split, Line-get, RowsApart-Line, RowsApart-nil,
}

-- The rows of all batches, in their order.
abbrev pub all_rows : List (List Held) → List Held
all_rows [] = []
all_rows (batch ∷ batches) = batch ++ all_rows batches

-- Where rows are left, they begin a group.
abbrev AlignedAt : ℕ → List Held → Type 0
AlignedAt d [] = Unit
AlignedAt d (r ∷ rows) = d % group_len ≡ 0

module _ (z : Zstd) (n_of : TrajId → Option ℕ) (traj n : ℕ) (known : n_of traj ≡ some n)
    (fits : n + 64 < 2 ^ 32) where
  abbrev need_of : ℕ → ℕ
  need_of d = min (d + 64) n - d

  drain_step :
      (fuel d : ℕ) (r : Held) (rest : List Held)
      → r.fk ≡ key_of traj d
      → d % 64 ≡ 0
      → d < n
      → drain_loop z n_of (suc fuel) (r ∷ rest) ≡ (
          if ltb (length (r ∷ rest)) (need_of d)
          then ok ([], r ∷ rest)
          else if completes (get_elem? (r ∷ rest) (need_of d - 1)) traj (min (d + 64) n)
          then (pack_held z (take (need_of d) (r ∷ rest)) >>= λ g.
              drain_loop z n_of fuel (drop (need_of d) (r ∷ rest)) >>= λ x. ok (g ++ x.0, x.1))
          else ok ([], r ∷ rest))
  unfolding drain_loop
  drain_step fuel d r rest l a less =
      let t : r.fk.traj_id ≡ traj = ap (λ fk. fk.traj_id) l in
      let i : r.fk.frame_idx ≡ d = ap (λ fk. fk.frame_idx) l in
      let start : d / group_len * group_len ≡ d = omega (arith, a) in
      let same : (d == d) ≡ true = ground arith in
      let end : (d + group_len) % 2 ^ 32 ≡ d + 64 = omega (arith, less, fits) in
      rw (t, i, known, start, same, end) refl

  -- What draining a buffer comes to, when the rows `later` are still to arrive.
  Drained : Result (List Held × List Held) → List Held → List Held → Type 0
  Drained r later whole =
      (ready : List Held) × (left : List Held) × (rest : List Held) × (d : ℕ) × (r
        ≡ ok (ready, left))
      × (pack_held z (left ++ later) ≡ ok rest)
      × (whole ≡ ready ++ rest)
      × AlignedAt d (left ++ later)
      × Line traj d (left ++ later)
      × (d + length (left ++ later) ≡ n)
      × (later ≡ [] → left ≡ [])

  -- A group that is complete: its last row passes the test.
  group_completes :
      (d : ℕ) (buf : List Held)
      → Line traj d buf
      → d < n
      → need_of d ≤ length buf
      → completes (get_elem? buf (need_of d - 1)) traj (min (d + 64) n) ≡ true
  unfolding completes
  group_completes d buf l less h =
      let (x, p, q) = Line-get traj d (need_of d - 1) buf l (omega (arith, less, h)) in
      let t : x.fk.traj_id ≡ traj = ap (λ fk. fk.traj_id) q in
      let i : x.fk.frame_idx ≡ d + (need_of d - 1) = ap (λ fk. fk.frame_idx) q in
      rw p (
        ground (
          arith,
          (==_iff x.fk.traj_id traj).1 t,
          (==_iff ((x.fk.frame_idx + 1) % 2 ^ 32) (min (d + 64) n)).1
              (omega (arith, i, less, fits)),
        ))

  aligned_after :
      (d : ℕ) (rows : List Held)
      → d % 64 ≡ 0
      → need_of d + d + length rows ≡ n
      → AlignedAt (need_of d + d) rows
  aligned_after d [] a e = tt
  aligned_after d (r ∷ rows) a e = omega (arith, a, e)

  -- The group and what comes behind it.
  group_apart :
      (d : ℕ) (rows rest : List Held)
      → Line traj d (rows ++ rest)
      → d % 64 ≡ 0
      → length rows ≡ need_of d
      → d + length (rows ++ rest) ≡ n
      → RowsApart rest rows
  group_apart d rows [] l a h e = RowsApart-nil rows
  group_apart d rows (r ∷ rest) l a h e =
      let (first, second) = Line-split traj d rows (r ∷ rest) l in
      let total = length-append rows (r ∷ rest) in
      let full : length rows ≡ 64 = omega (arith, h, e, total) in
      RowsApart-Line traj d d rows (r ∷ rest) first
        (subst (λ k. Line traj (d + k) (r ∷ rest)) full second) a (omega arith)
        (omega (arith, full))

  lt_of : {a b : ℕ} → ltb a b ≡ true → a < b
  lt_of h = ground arith

  le_of : {a b : ℕ} → ltb a b ≡ false → b ≤ a
  le_of h = ground arith

  -- A round of the loop that takes a group, from what the later rounds come to.
  full_group :
      (fuel d : ℕ) (r : Held) (rest later whole : List Held)
      → AlignedAt d (r ∷ rest)
      → Line traj d (r ∷ (rest ++ later))
      → d + suc (length (rest ++ later)) ≡ n
      → pack_held z (r ∷ (rest ++ later)) ≡ ok whole
      → ltb (length (r ∷ rest)) (need_of d) ≡ false
      → ((k : ℕ) (w : List Held)
          → AlignedAt k (drop (need_of d) (r ∷ rest) ++ later)
          → Line traj k (drop (need_of d) (r ∷ rest) ++ later)
          → k + length (drop (need_of d) (r ∷ rest) ++ later) ≡ n
          → pack_held z (drop (need_of d) (r ∷ rest) ++ later) ≡ ok w
          → Drained (drain_loop z n_of fuel (drop (need_of d) (r ∷ rest))) later w)
      → Drained (drain_loop z n_of (suc fuel) (r ∷ rest)) later whole
  unfolding Drained
  full_group fuel d r rest later whole a l e p long ih =
      let buf : List Held = r ∷ rest in
      let need : ℕ = need_of d in
      let enough : need ≤ length buf = le_of long in
      let cut : take need buf ++ (drop need buf ++ later) ≡ buf ++ later =
        sym (append_assoc (take need buf) (drop need buf) later)
        ∙ ap (λ t. t ++ later) (take-drop need buf) in
      let size : length (take need buf) ≡ need = length-take need buf enough in
      let line : Line traj d (take need buf ++ (drop need buf ++ later)) =
        subst (Line traj d) (sym cut) l in
      let total : d + length (take need buf ++ (drop need buf ++ later)) ≡ n =
        omega (arith, ap length cut, e) in
      let apart = group_apart d (take need buf) (drop need buf ++ later) line a size total in
      let (ga, gb, pa, pb, at) =
        pack_held-append z (take need buf) (drop need buf ++ later) whole apart
          (ap (pack_held z) cut ∙ p) in
      let behind : need + d + length (drop need buf ++ later) ≡ n =
        omega (arith, total, size, length-append (take need buf) (drop need buf ++ later)) in
      let next : d + length (take need buf) ≡ need + d = omega (arith, size) in
      let rows =
        subst (λ k. Line traj k (drop need buf ++ later)) next
          (Line-split traj d (take need buf) (drop need buf ++ later) line).1 in
      let (ready, left, w, k, run, q, split, al, li, len, end) =
        ih (need + d) gb (aligned_after d (drop need buf ++ later) a behind) rows behind pb in
      let whole_line = (Line-split traj d buf later l).0 in
      let last = group_completes d buf whole_line (omega (arith, e)) enough in
      (
        ga ++ ready,
        left,
        w,
        k,
        drain_step fuel d r rest l.0 a (omega (arith, e)) ∙ rw (long, last, pa, run) refl,
        q,
        at ∙ ap (λ t. ga ++ t) split ∙ sym (append_assoc ga ready w),
        al,
        li,
        len,
        end,
      )

  drain_loop-Drained :
      (fuel d : ℕ) (buf later whole : List Held)
      → length buf ≤ fuel
      → AlignedAt d (buf ++ later)
      → Line traj d (buf ++ later)
      → d + length (buf ++ later) ≡ n
      → pack_held z (buf ++ later) ≡ ok whole
      → Drained (drain_loop z n_of fuel buf) later whole
  unfolding Drained drain_loop
  drain_loop-Drained zero d [] later whole h a l e p =
      ([], [], whole, d, refl, p, refl, a, l, e, λ q. refl)
  drain_loop-Drained zero d (r ∷ rest) later whole h a l e p = absurd (omega arith)
  drain_loop-Drained (suc fuel) d [] later whole h a l e p =
      ([], [], whole, d, refl, p, refl, a, l, e, λ q. refl)
  drain_loop-Drained (suc fuel) d (r ∷ rest) later whole h a l e p =
      elim (Bool-cases (ltb (length (r ∷ rest)) (need_of d))) [
        | inl short ↦ (
          [],
          r ∷ rest,
          whole,
          d,
          drain_step fuel d r rest l.0 a (omega arith) ∙ rw short refl,
          p,
          refl,
          a,
          l,
          e,
          λ q. absurd (omega (arith, ap length q, length-append (r ∷ rest) later, e, lt_of short)),
        )
        | inr long ↦ full_group fuel d r rest later whole a l e p long (λ k w b li len q.
            drain_loop-Drained fuel k (drop (need_of d) (r ∷ rest)) later w
              (omega (arith, h, e, length-drop (need_of d) (r ∷ rest))) b li len q)
      ]

  AlignedAt-zero : (rows : List Held) → AlignedAt 0 rows
  AlignedAt-zero [] = tt
  AlignedAt-zero (r ∷ rows) = omega arith

  pack_held_nil : pack_held z [] ≡ ok []
  unfolding pack_held load_held set_held pack_aligned pack_loop
  pack_held_nil = refl

  feed_all :
      (d : ℕ) (buf : List Held) (batches : List (List Held)) (whole : List Held)
      → AlignedAt d (buf ++ all_rows batches)
      → Line traj d (buf ++ all_rows batches)
      → d + length (buf ++ all_rows batches) ≡ n
      → pack_held z (buf ++ all_rows batches) ≡ ok whole
      → (batches ≡ [] → buf ≡ [])
      → feed z n_of buf batches ≡ ok (whole, [])
  unfolding feed drain_ready Drained
  feed_all d buf [] whole a l e p h =
      let none_held : buf ≡ [] = h refl in
      let q : pack_held z [] ≡ ok whole =
        subst (λ b. pack_held z (b ++ []) ≡ ok whole) none_held p in
      let nothing : [] ≡ whole = ok_eq (sym pack_held_nil ∙ q) in rw (none_held, ← nothing) refl
  feed_all d buf (batch ∷ batches) whole a l e p h =
      let cut : buf ++ (batch ++ all_rows batches) ≡ buf ++ batch ++ all_rows batches =
        sym (append_assoc buf batch (all_rows batches)) in
      let (ready, left, w, k, run, q, split, al, li, len, end) =
        drain_loop-Drained (length (buf ++ batch)) d (buf ++ batch) (all_rows batches) whole
          (omega arith) (subst (AlignedAt d) cut a) (subst (Line traj d) cut l)
          (omega (arith, ap length cut, e)) (subst (λ r. pack_held z r ≡ ok whole) cut p) in
      let later = feed_all k left batches w al li len q (λ b. end (ap all_rows b)) in
      rw (run, later, split) refl

  -- What the writing rank puts does not depend on the batches: when the frames of a trajectory
  -- arrive in any batches, the ready groups that are put, one flush after the other, are the rows
  -- of the whole trajectory packed at once, and no row stays in the buffer, so the ingest does not
  -- fail for an unfinished group.
  pub put_batches-pack_held :
      (batches : List (List Held)) (whole : List Held)
      → Line traj 0 (all_rows batches)
      → length (all_rows batches) ≡ n
      → pack_held z (all_rows batches) ≡ ok whole
      → put_batches z n_of batches ≡ ok whole
  unfolding put_batches drain_ready drain_loop
  put_batches-pack_held batches whole l e p =
      let fed =
        feed_all 0 [] batches whole (AlignedAt-zero (all_rows batches)) l (omega (arith, e)) p
          (λ b. refl) in
      rw (fed, append-nil whole) refl
