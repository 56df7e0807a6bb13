-- ===== src/Corpus/Reindex/Keys.antt =====
-- The keys that src/corpus.rs keeps of a frame in each index, said by the scalars of the frame, and
-- that the rows of `reindex` are these.
use readcon_db.Base.{
  ℕ, ◌≡◌, ◌≢◌, refl, sym, ap, ◌∙◌, ◌↔◌, ◌⊎◌, inl, inr, Bool, true, false, Option, none, some, List,
  [], ◌∷◌, ◌++◌, if◌then◌else◌,
}
use mathlib.Core.Path.{subst}
use readcon_db.Heed.{In}
use readcon_db.Keys.{
  FrameKey, natoms_key, symbol_key, elem_count_key, formula_key, flag_key, flag_has_forces,
  flag_has_velocities, flag_has_energy, pbc_key, pbc_mask_from_bools, meta_time, meta_timestep,
  meta_frame_index, meta_neb_bead, meta_neb_band, meta_charge, meta_magmom,
}
use readcon_db.Keys.Float.{
  Float64, energy_bin_key, fmax_bin_key, mass_bin_key, volume_bin_key, meta_scalar_key,
}
use readcon_db.Corpus.{as_slice}
use readcon_db.Corpus.Build.{
  FrameIndexProjection, and_then, is_some, elem_count_keys_of, formula_key_of, push_when,
  flag_keys_of, meta_key_of, meta_keys_of,
}
use readcon_db.Corpus.Reindex.{all_symbol_keys}
use mathlib.Core.List.{append-nil}
use readcon_db.Base.Bytes.{Bytes}

abbrev pub NatomsKey : FrameIndexProjection → FrameKey → Bytes → Type 0
NatomsKey proj fk k = k ≡ natoms_key proj.n_atoms fk

abbrev pub SymbolKey : FrameIndexProjection → FrameKey → Bytes → Type 0
SymbolKey proj fk k =
    (sym : Bytes) × (cnt : ℕ) × In (sym, cnt) proj.species_counts × (k ≡ symbol_key sym fk)

abbrev pub ElemCountKey : FrameIndexProjection → FrameKey → Bytes → Type 0
ElemCountKey proj fk k =
    (sym : Bytes) × (cnt : ℕ) × In (sym, cnt) proj.species_counts × (k ≡ elem_count_key sym cnt fk)

abbrev pub FormulaKey : FrameIndexProjection → FrameKey → Bytes → Type 0
FormulaKey proj fk k = (proj.formula ≢ []) × (k ≡ formula_key proj.formula fk)

-- The number is there, and it has a key.
abbrev pub OptionKey : {A : Type 0} → Option A → (A → Option Bytes) → Bytes → Type 0
OptionKey {A} o key k = (x : A) × (o ≡ some x) × (key x ≡ some k)

abbrev pub EnergyKey : FrameIndexProjection → FrameKey → Bytes → Type 0
EnergyKey proj fk k = OptionKey proj.energy (λ e. energy_bin_key e fk) k

abbrev pub FmaxKey : FrameIndexProjection → FrameKey → Bytes → Type 0
FmaxKey proj fk k = (proj.has_forces ≡ true) × OptionKey proj.fmax (λ fm. fmax_bin_key fm fk) k

abbrev pub MassKey : FrameIndexProjection → FrameKey → Bytes → Type 0
MassKey proj fk k = OptionKey proj.total_mass (λ m. mass_bin_key m fk) k

abbrev pub VolumeKey : FrameIndexProjection → FrameKey → Bytes → Type 0
VolumeKey proj fk k = OptionKey proj.cell_volume (λ v. volume_bin_key v fk) k

abbrev pub PbcKey : FrameIndexProjection → FrameKey → Bytes → Type 0
PbcKey proj fk k = OptionKey proj.pbc (λ p. some (pbc_key (pbc_mask_from_bools p) fk)) k

abbrev pub FlagKey : FrameIndexProjection → FrameKey → Bytes → Type 0
FlagKey proj fk k =
    ((e : Float64) × (proj.energy ≡ some e) × (k ≡ flag_key flag_has_energy fk))
    ⊎ (((proj.has_forces ≡ true) × (k ≡ flag_key flag_has_forces fk))
        ⊎ ((proj.has_velocities ≡ true) × (k ≡ flag_key flag_has_velocities fk)))

abbrev pub channels : FrameIndexProjection → List (ℕ × Option Float64)
channels proj =
    (meta_time, proj.time)
    ∷ (meta_timestep, proj.timestep)
    ∷ (meta_frame_index, proj.frame_index)
    ∷ (meta_neb_bead, proj.neb_bead)
    ∷ (meta_neb_band, proj.neb_band)
    ∷ (meta_charge, proj.charge)
    ∷ (meta_magmom, proj.magmom)
    ∷ []

abbrev pub MetaKey : FrameIndexProjection → FrameKey → Bytes → Type 0
MetaKey proj fk k =
    (ch : ℕ) × (x : Float64) × In (ch, some x) (channels proj) × (meta_scalar_key ch x fk ≡ some k)

pub single_iff : (k x : Bytes) → In k (x ∷ []) ↔ (k ≡ x)
single_iff k x = (λ i. elim i [ inl e ↦ e | inr n ↦ absurd n ], λ e. inl e)

In-append_iff : (k : Bytes) (xs ys : List Bytes) → In k (xs ++ ys) ↔ (In k xs ⊎ In k ys)
In-append_iff k [] ys = (λ i. inr i, λ i. elim i [ inl n ↦ absurd n | inr j ↦ j ])
In-append_iff k (x ∷ xs) ys = (
  λ i. elim i [
    | inl e ↦ inl (inl e)
    | inr j ↦ elim ((In-append_iff k xs ys).0 j) [ inl h ↦ inl (inr h) | inr h ↦ inr h ]
  ],
  λ i. elim i [
    | inl (inl e) ↦ inl e
    | inl (inr j) ↦ inr ((In-append_iff k xs ys).1 (inl j))
    | inr j ↦ inr ((In-append_iff k xs ys).1 (inr j))
  ],
)

pub option_iff :
    {A : Type 0} (o : Option A) (key : A → Option Bytes) (k : Bytes)
    → In k (as_slice (and_then o key)) ↔ OptionKey o key k
unfolding and_then
option_iff none key k = (λ i. absurd i, λ (x, e, q). let bad : none ≡ some x = e in cc bad)
option_iff (some a) key k = (
  λ i. go (key a) refl i,
  λ (x, e, q).
      let same : x ≡ a = cc e in
      let at : key a ≡ some k = ap key (sym same) ∙ q in rw at (inl refl),
)
  where
    go : (r : Option Bytes) → key a ≡ r → In k (as_slice r) → OptionKey (some a) key k
    go none q i = absurd i
    go (some b) q (inl e) = (a, refl, q ∙ ap some (sym e))
    go (some b) q (inr n) = absurd n

pub symbols_iff :
    (fk : FrameKey) (counts : List (Bytes × ℕ)) (k : Bytes)
    → In k (all_symbol_keys fk counts)
      ↔ ((sym : Bytes) × (cnt : ℕ) × In (sym, cnt) counts × (k ≡ symbol_key sym fk))
unfolding all_symbol_keys
symbols_iff fk [] k = (λ i. absurd i, λ (s, n, i, e). absurd i)
symbols_iff fk ((sm, cnt) ∷ counts) k = (
  λ i. elim i [
    | inl e ↦ (sm, cnt, inl refl, e)
    | inr j ↦ let (s, n, h, e) = (symbols_iff fk counts k).0 j in (s, n, inr h, e)
  ],
  λ (s, n, i, e). elim i [
    | inl q ↦ inl (e ∙ ap (λ (r : Bytes × ℕ). symbol_key r.0 fk) q)
    | inr j ↦ inr ((symbols_iff fk counts k).1 (s, n, j, e))
  ],
)

pub counts_iff :
    (fk : FrameKey) (counts : List (Bytes × ℕ)) (k : Bytes)
    → In k (elem_count_keys_of fk counts)
      ↔ ((sym : Bytes) × (cnt : ℕ) × In (sym, cnt) counts × (k ≡ elem_count_key sym cnt fk))
unfolding elem_count_keys_of
counts_iff fk [] k = (λ i. absurd i, λ (s, n, i, e). absurd i)
counts_iff fk ((sm, cnt) ∷ counts) k = (
  λ i. elim i [
    | inl e ↦ (sm, cnt, inl refl, e)
    | inr j ↦ let (s, n, h, e) = (counts_iff fk counts k).0 j in (s, n, inr h, e)
  ],
  λ (s, n, i, e). elim i [
    | inl q ↦ inl (e ∙ ap (λ (r : Bytes × ℕ). elem_count_key r.0 r.1 fk) q)
    | inr j ↦ inr ((counts_iff fk counts k).1 (s, n, j, e))
  ],
)

pub formula_iff :
    (fk : FrameKey) (f k : Bytes)
    → In k (as_slice (formula_key_of fk f)) ↔ ((f ≢ []) × (k ≡ formula_key f fk))
unfolding formula_key_of
formula_iff fk [] k = (λ i. absurd i, λ (n, e). absurd (n refl))
formula_iff fk (c ∷ f) k =
    (λ i. (λ q. cc q, (single_iff k (formula_key (c ∷ f) fk)).0 i), λ (n, e). inl e)

pub fmax_iff :
    (b : Bool) (o : Option Float64) (fk : FrameKey) (k : Bytes)
    → In k (as_slice (if b then and_then o (λ fm. fmax_bin_key fm fk) else none))
      ↔ ((b ≡ true) × OptionKey o (λ fm. fmax_bin_key fm fk) k)
fmax_iff false o fk k = (λ i. absurd i, λ (e, q). let bad : false ≡ true = e in cc bad)
fmax_iff true o fk k = (
  λ i. (refl, (option_iff o (λ fm. fmax_bin_key fm fk) k).0 i),
  λ (e, q). (option_iff o (λ fm. fmax_bin_key fm fk) k).1 q,
)

when_iff : (b : Bool) (k x : Bytes) → In k (push_when b x) ↔ ((b ≡ true) × (k ≡ x))
unfolding push_when
when_iff false k x = (λ i. absurd i, λ (e, q). let bad : false ≡ true = e in cc bad)
when_iff true k x = (λ i. (refl, (single_iff k x).0 i), λ (e, q). inl q)

is_some_iff : {A : Type 0} (o : Option A) → (is_some o ≡ true) ↔ ((a : A) × (o ≡ some a))
unfolding is_some
is_some_iff none = (λ e. let bad : false ≡ true = e in cc bad, λ (a, e). cc e)
is_some_iff (some a) = (λ e. (a, refl), λ q. refl)

pub flags_iff :
    (fk : FrameKey) (proj : FrameIndexProjection) (k : Bytes)
    → In k (flag_keys_of fk proj) ↔ FlagKey proj fk k
unfolding flag_keys_of
flags_iff fk proj k = (
  λ i.
      elim ((In-append_iff k (push_when (is_some proj.energy) (flag_key flag_has_energy fk)) _).0
        i) [
          | inl h ↦
              let (b, e) = (when_iff (is_some proj.energy) k (flag_key flag_has_energy fk)).0 h in
              let (x, q) = (is_some_iff proj.energy).0 b in inl (x, q, e)
          | inr h ↦
              elim ((In-append_iff k (push_when proj.has_forces (flag_key flag_has_forces fk)) _).0
                h) [
                  | inl j ↦
                      inr (inl ((when_iff proj.has_forces k (flag_key flag_has_forces fk)).0 j))
                  | inr j ↦
                      inr (
                        inr
                          ((when_iff proj.has_velocities k (flag_key flag_has_velocities fk)).0 j))
                ]
        ],
  λ i.
      (In-append_iff k (push_when (is_some proj.energy) (flag_key flag_has_energy fk)) _).1
        (elim i [
          | inl (x, q, e) ↦ inl (
              (when_iff (is_some proj.energy) k (flag_key flag_has_energy fk)).1
                ((is_some_iff proj.energy).1 (x, q), e))
          | inr j ↦ inr (
              (In-append_iff k (push_when proj.has_forces (flag_key flag_has_forces fk)) _).1
                (elim j [
                  | inl h ↦ inl ((when_iff proj.has_forces k (flag_key flag_has_forces fk)).1 h)
                  | inr h ↦
                      inr ((when_iff proj.has_velocities k (flag_key flag_has_velocities fk)).1 h)
                ]))
        ]),
)

flat : FrameKey → List (ℕ × Option Float64) → List Bytes
flat fk [] = []
flat fk ((ch, o) ∷ rest) = meta_key_of fk ch o ++ flat fk rest

flat_iff :
    (fk : FrameKey) (chans : List (ℕ × Option Float64)) (k : Bytes)
    → In k (flat fk chans)
      ↔ ((ch : ℕ) × (x : Float64) × In (ch, some x) chans × (meta_scalar_key ch x fk ≡ some k))
unfolding flat meta_key_of
flat_iff fk [] k = (λ i. absurd i, λ (c, x, i, e). absurd i)
flat_iff fk ((ch, o) ∷ rest) k = (
  λ i. elim ((In-append_iff k (meta_key_of fk ch o) (flat fk rest)).0 i) [
    | inl h ↦
        let (x, q, e) = (option_iff o (λ y. meta_scalar_key ch y fk) k).0 h in
        (ch, x, inl (ap (λ r. (ch, r)) (sym q)), e)
    | inr h ↦ let (c, x, j, e) = (flat_iff fk rest k).0 h in (c, x, inr j, e)
  ],
  λ (c, x, i, e). (In-append_iff k (meta_key_of fk ch o) (flat fk rest)).1 (elim i [
    | inl q ↦
        let chan : c ≡ ch = ap (λ (r : ℕ × Option Float64). r.0) q in
        let val : some x ≡ o = ap (λ (r : ℕ × Option Float64). r.1) q in
        inl (
          (option_iff o (λ y. meta_scalar_key ch y fk) k).1
            (x, sym val, ap (λ j. meta_scalar_key j x fk) (sym chan) ∙ e))
    | inr j ↦ inr ((flat_iff fk rest k).1 (c, x, j, e))
  ]),
)

pub metas_iff :
    (fk : FrameKey) (proj : FrameIndexProjection) (k : Bytes)
    → In k (meta_keys_of fk proj) ↔ MetaKey proj fk k
unfolding meta_keys_of flat
metas_iff fk proj k =
    let same : flat fk (channels proj) ≡ meta_keys_of fk proj =
      rw (append-nil (meta_key_of fk meta_magmom proj.magmom)) refl in
    subst (λ l. In k l ↔ MetaKey proj fk k) same (flat_iff fk (channels proj) k)
