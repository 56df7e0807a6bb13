-- ===== src/Codec/Runs.antt =====
-- The runs of aligned frames that `pack_aligned` cuts a trajectory into.
use readcon_db.Base.{
  ℕ, ◌+◌, ◌*◌, ◌/◌, ◌≤◌, ◌≡◌, refl, inl, inr, List, [], ◌∷◌, ◌++◌, ◌==◌, arith, Bool-cases, length,
}
use readcon_db.Base.Bytes.{IsU32, IsU64}
use readcon_db.Codec.{Frame, group_len, take_run, drop_run}
use readcon_db.Codec.Group.{IsText, AllText}

-- Frames of one trajectory in order: indices that ascend from `lo` and fit a `u32`, and texts.
abbrev pub IsTrajectory : ℕ → List Frame → Type 0
IsTrajectory lo [] = Unit
IsTrajectory lo ((k, text) ∷ fs) =
    (lo ≤ k) × IsU32 k × IsU64 (length text) × IsText text × IsTrajectory (k + 1) fs

-- Frames of one group have ascending indices in a window of 64.
pub length-take_run :
    (g lo : ℕ) (fs : List Frame)
    → IsTrajectory lo fs
    → lo ≤ 64 * g + 64
    → length (take_run g fs) + lo ≤ 64 * g + 64
unfolding take_run
length-take_run g lo [] t h = omega arith
length-take_run g lo ((k, text) ∷ fs) t h = ground (arith, length-take_run g (k + 1) fs)

pub take_run-IsTrajectory :
    (g lo : ℕ) (fs : List Frame) → IsTrajectory lo fs → IsTrajectory lo (take_run g fs)
unfolding take_run
take_run-IsTrajectory g lo [] t = tt
take_run-IsTrajectory g lo ((k, text) ∷ fs) t = elim (Bool-cases (k / group_len == g)) [
  | inl e ↦ rw e (t.0, t.1, t.2, t.3, take_run-IsTrajectory g (k + 1) fs t.4)
  | inr e ↦ rw e tt
]

weaken : (lo hi : ℕ) (fs : List Frame) → lo ≤ hi → IsTrajectory hi fs → IsTrajectory lo fs
weaken lo hi [] h t = tt
weaken lo hi ((k, text) ∷ fs) h t = (omega arith, t.1, t.2, t.3, t.4)

pub drop_run-IsTrajectory :
    (g lo : ℕ) (fs : List Frame) → IsTrajectory lo fs → IsTrajectory lo (drop_run g fs)
unfolding drop_run
drop_run-IsTrajectory g lo [] t = tt
drop_run-IsTrajectory g lo ((k, text) ∷ fs) t = elim (Bool-cases (k / group_len == g)) [
  | inl e ↦
      rw e
        (weaken lo (k + 1) (drop_run g fs) (omega arith) (drop_run-IsTrajectory g (k + 1) fs t.4))
  | inr e ↦ rw e t
]

pub take-drop_run : (g : ℕ) (fs : List Frame) → take_run g fs ++ drop_run g fs ≡ fs
unfolding take_run drop_run
take-drop_run g [] = refl
take-drop_run g ((k, text) ∷ fs) = ground (arith, take-drop_run g fs)

pub length-drop_run : (g : ℕ) (fs : List Frame) → length (drop_run g fs) ≤ length fs
unfolding drop_run
length-drop_run g [] = omega arith
length-drop_run g ((k, text) ∷ fs) = ground (arith, length-drop_run g fs)

pub IsTrajectory-AllText : (lo : ℕ) (fs : List Frame) → IsTrajectory lo fs → AllText fs
IsTrajectory-AllText lo [] t = tt
IsTrajectory-AllText lo ((k, text) ∷ fs) t = (t.3, IsTrajectory-AllText (k + 1) fs t.4)
