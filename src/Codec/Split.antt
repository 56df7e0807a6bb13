-- ===== src/Codec/Split.antt =====
-- src/frame_codec.rs `pack_aligned` on frames that are cut between two aligned groups.
use readcon_db.Base.{
  ℕ, zero, suc, ◌+◌, ◌/◌, ◌≤◌, ◌≡◌, ◌≢◌, refl, sym, ap, inl, inr, true, List, [], ◌∷◌, ◌++◌, ◌==◌,
  arith, Bool-cases, ==_iff, length, length-append,
}
use mathlib.Core.List.{append_assoc}
use readcon_db.Base.Bytes.{Bytes}
use readcon_db.Error.{Result, ok, err, io, ◌>>=◌, >>=-eq-ok, ok_eq}
use readcon_db.Zstd.{Zstd}
use readcon_db.Codec.{
  Frame, group_len, take_run, drop_run, redirects, store_frame, store_singles, pack_run, pack_loop,
  pack_aligned,
}
use readcon_db.Codec.Runs.{length-drop_run, take-drop_run}
use readcon_db.Codec.RoundTrip.{pack_run_cases}

-- The frames do not begin in the group.
abbrev pub NotHead : ℕ → List Frame → Type 0
NotHead g [] = Unit
NotHead g ((h, u) ∷ rest) = h / group_len ≢ g

-- No frame of `fs` is in the group that `rest` begins with.
abbrev pub ApartFrom : List Frame → List Frame → Type 0
ApartFrom rest [] = Unit
ApartFrom rest ((k, text) ∷ fs) = NotHead (k / group_len) rest × ApartFrom rest fs

take_run-append :
    (g : ℕ) (fs rest : List Frame) → NotHead g rest → take_run g (fs ++ rest) ≡ take_run g fs
unfolding take_run
take_run-append g [] [] a = refl
take_run-append g [] ((h, u) ∷ rest) a = ground (arith, a, ==_iff (h / group_len) g)
take_run-append g ((k, text) ∷ fs) rest a = ground (arith, take_run-append g fs rest a)

drop_run-append :
    (g : ℕ) (fs rest : List Frame)
    → NotHead g rest
    → drop_run g (fs ++ rest) ≡ drop_run g fs ++ rest
unfolding drop_run
drop_run-append g [] [] a = refl
drop_run-append g [] ((h, u) ∷ rest) a = ground (arith, a, ==_iff (h / group_len) g)
drop_run-append g ((k, text) ∷ fs) rest a = ground (arith, drop_run-append g fs rest a)

drop_run-ApartFrom :
    (g : ℕ) (rest fs : List Frame) → ApartFrom rest fs → ApartFrom rest (drop_run g fs)
unfolding drop_run
drop_run-ApartFrom g rest [] a = tt
drop_run-ApartFrom g rest ((k, text) ∷ fs) a = elim (Bool-cases (k / group_len == g)) [
  | inl p ↦ rw p (drop_run-ApartFrom g rest fs a.1)
  | inr p ↦ rw p a
]

length-redirects : (head slot n : ℕ) → length (redirects head slot n) ≡ n
unfolding redirects
length-redirects head slot zero = refl
length-redirects head slot (suc n) = ap suc (length-redirects head (slot + 1) n)

bind_ok_right : {A : Type 0} (r : Result A) → r ≡ (r >>= λ a. ok a)
bind_ok_right (ok a) = refl
bind_ok_right (err e) = refl

three_parts :
    (r d b : Result (List Bytes))
    → (r >>= λ x. (d >>= λ y. b >>= λ w. ok (y ++ w)) >>= λ m. ok (x ++ m))
      ≡ ((r >>= λ x. d >>= λ y. ok (x ++ y)) >>= λ y. b >>= λ w. ok (y ++ w))
three_parts (err e) d b = refl
three_parts (ok x) (err e) b = refl
three_parts (ok x) (ok y) (err e) = refl
three_parts (ok x) (ok y) (ok w) = ap ok (sym (append_assoc x y w))

module _ (z : Zstd) where
  length-store_singles :
      (fs : List Frame) (vs : List Bytes) → store_singles z fs ≡ ok vs → length vs ≡ length fs
  unfolding store_singles
  length-store_singles [] vs e = let same : [] ≡ vs = ok_eq e in rw (← same) refl
  length-store_singles ((k, text) ∷ fs) vs e =
      let (v, p, e1) = >>=-eq-ok (store_frame z text true) _ e in
      let (more, q, e2) = >>=-eq-ok (store_singles z fs) _ e1 in
      let same : v ∷ more ≡ vs = ok_eq e2 in rw (← same) (ap suc (length-store_singles fs more q))

  length-pack_run :
      (head : ℕ) (text : Bytes) (run : List Frame) (vs : List Bytes)
      → pack_run z head text run ≡ ok vs
      → length vs ≡ suc (length run)
  length-pack_run head text run vs e = elim (pack_run_cases z (λ k. err io) head text run vs e) [
    | inl s ↦ length-store_singles ((head, text) ∷ run) vs s
    | inr (grouped, g, at, more) ↦ rw at (ap suc (length-redirects head 1 (length run)))
  ]

  length-pack_loop :
      (fuel : ℕ) (fs : List Frame) (vs : List Bytes)
      → length fs ≤ fuel
      → pack_loop z fuel fs ≡ ok vs
      → length vs ≡ length fs
  unfolding pack_loop
  length-pack_loop fuel [] vs h e = let same : [] ≡ vs = ok_eq e in rw (← same) refl
  length-pack_loop zero (f ∷ fs) vs h e = absurd (omega arith)
  length-pack_loop (suc fuel) ((k, text) ∷ fs) vs h e =
      let g : ℕ = k / group_len in
      let (packed, p, e1) = >>=-eq-ok (pack_run z k text (take_run (k / group_len) fs)) _ e in
      let (more, q, e2) = >>=-eq-ok (pack_loop z fuel (drop_run (k / group_len) fs)) _ e1 in
      let same : packed ++ more ≡ vs = ok_eq e2 in
      let ih =
        length-pack_loop fuel (drop_run (k / group_len) fs) more
          (omega (arith, length-drop_run (k / group_len) fs)) q in
      let whole = ap length (take-drop_run (k / group_len) fs) in
      omega (
        arith,
        ap length same,
        length-append packed more,
        length-pack_run k text (take_run (k / group_len) fs) packed p,
        ih,
        whole,
        length-append (take_run (k / group_len) fs) (drop_run (k / group_len) fs),
      )

  -- More fuel than the number of frames changes nothing.
  pack_loop_fuel :
      (f1 f2 : ℕ) (fs : List Frame)
      → length fs ≤ f1
      → length fs ≤ f2
      → pack_loop z f1 fs ≡ pack_loop z f2 fs
  unfolding pack_loop
  pack_loop_fuel f1 f2 [] h1 h2 = refl
  pack_loop_fuel zero f2 (f ∷ fs) h1 h2 = absurd (omega arith)
  pack_loop_fuel (suc f1) zero (f ∷ fs) h1 h2 = absurd (omega arith)
  pack_loop_fuel (suc f1) (suc f2) ((k, text) ∷ fs) h1 h2 =
      let g : ℕ = k / group_len in
      let small = length-drop_run (k / group_len) fs in
      rw
        (pack_loop_fuel f1 f2 (drop_run (k / group_len) fs) (omega (arith, small, h1))
          (omega (arith, small, h2)))
        refl

  pack_loop-append :
      (fuel : ℕ) (fs rest : List Frame)
      → length (fs ++ rest) ≤ fuel
      → ApartFrom rest fs
      → pack_loop z fuel (fs ++ rest)
        ≡ (pack_loop z fuel fs >>= λ a. pack_loop z fuel rest >>= λ b. ok (a ++ b))
  unfolding pack_loop
  pack_loop-append fuel [] rest h a = bind_ok_right (pack_loop z fuel rest)
  pack_loop-append zero (f ∷ fs) rest h a = absurd (omega arith)
  pack_loop-append (suc fuel) ((k, text) ∷ fs) rest h a =
      let total = length-append fs rest in
      let small = length-drop_run (k / group_len) fs in
      let later = length-append (drop_run (k / group_len) fs) rest in
      let fewer : length (drop_run (k / group_len) fs ++ rest) ≤ fuel =
        omega (arith, h, total, small, later) in
      let short : length rest ≤ fuel = omega (arith, h, total) in
      rw
        (
          take_run-append (k / group_len) fs rest a.0,
          drop_run-append (k / group_len) fs rest a.0,
          pack_loop-append fuel (drop_run (k / group_len) fs) rest fewer
              (drop_run-ApartFrom (k / group_len) rest fs a.1),
          pack_loop_fuel (suc fuel) fuel rest (omega (arith, short)) short,
        )
        (three_parts (pack_run z k text (take_run (k / group_len) fs))
          (pack_loop z fuel (drop_run (k / group_len) fs)) (pack_loop z fuel rest))

  pub length-pack_aligned :
      (fs : List Frame) (vs : List Bytes) → pack_aligned z fs ≡ ok vs → length vs ≡ length fs
  unfolding pack_aligned
  length-pack_aligned fs vs e = length-pack_loop (length fs) fs vs (omega arith) e

  -- Packing frames that are cut between two aligned groups is packing the two parts.
  pub pack_aligned-append :
      (fs rest : List Frame)
      → ApartFrom rest fs
      → pack_aligned z (fs ++ rest)
        ≡ (pack_aligned z fs >>= λ a. pack_aligned z rest >>= λ b. ok (a ++ b))
  unfolding pack_aligned
  pack_aligned-append fs rest a =
      let total = length-append fs rest in
      let n : ℕ = length (fs ++ rest) in
      rw
        (
          pack_loop_fuel (length fs) (length (fs ++ rest)) fs (omega arith) (omega (arith, total)),
          pack_loop_fuel (length rest) (length (fs ++ rest)) rest (omega arith)
              (omega (arith, total)),
        )
        (pack_loop-append (length (fs ++ rest)) fs rest (omega arith) a)
