-- ===== src/Select.antt =====
-- src/select.rs: the selection builder. A `String` is its UTF-8 bytes. A method that bears the name
-- of a field has `with_` in front of it.
use readcon_db.Base.{ℕ, Bool, true, false, Option, none, some, List, [], ◌∷◌, ◌++◌}
use readcon_db.Base.Bytes.{Bytes}
use readcon_db.Keys.{TrajId}
use readcon_db.Keys.Float.{Float64}

pub record Select : Type 0 where
  pub traj_id : Option TrajId
  pub natoms_min : Option ℕ
  pub natoms_max : Option ℕ
  pub symbols_all : List Bytes
  pub content_hash : Option Bytes
  pub energy_min : Option Float64
  pub energy_max : Option Float64
  pub fmax_min : Option Float64
  pub fmax_max : Option Float64
  pub mass_min : Option Float64
  pub mass_max : Option Float64
  pub volume_min : Option Float64
  pub volume_max : Option Float64
  pub pbc_exact : Option (Bool × Bool × Bool)
  pub time_min : Option Float64
  pub time_max : Option Float64
  pub timestep_min : Option Float64
  pub timestep_max : Option Float64
  pub frame_index_min : Option Float64
  pub frame_index_max : Option Float64
  pub neb_bead_min : Option Float64
  pub neb_bead_max : Option Float64
  pub neb_band_min : Option Float64
  pub neb_band_max : Option Float64
  pub charge_min : Option Float64
  pub charge_max : Option Float64
  pub magmom_min : Option Float64
  pub magmom_max : Option Float64
  pub element_count_min : List (Bytes × ℕ)
  pub element_count_exact : List (Bytes × ℕ)
  pub exact_formula : Option Bytes
  pub topo_key : Option Bytes
  pub require_forces : Bool
  pub require_velocities : Bool
  pub require_energy : Bool
  pub limit : Option ℕ

-- `Select::default()`.
abbrev pub new : Select
new = record {
  traj_id = none;
  natoms_min = none;
  natoms_max = none;
  symbols_all = [];
  content_hash = none;
  energy_min = none;
  energy_max = none;
  fmax_min = none;
  fmax_max = none;
  mass_min = none;
  mass_max = none;
  volume_min = none;
  volume_max = none;
  pbc_exact = none;
  time_min = none;
  time_max = none;
  timestep_min = none;
  timestep_max = none;
  frame_index_min = none;
  frame_index_max = none;
  neb_bead_min = none;
  neb_bead_max = none;
  neb_band_min = none;
  neb_band_max = none;
  charge_min = none;
  charge_max = none;
  magmom_min = none;
  magmom_max = none;
  element_count_min = [];
  element_count_exact = [];
  exact_formula = none;
  topo_key = none;
  require_forces = false;
  require_velocities = false;
  require_energy = false;
  limit = none;
}

unfoldable pub trajectory : Select → TrajId → Select
trajectory s id = record s { traj_id = some id }

unfoldable pub natoms_range : Select → ℕ → ℕ → Select
natoms_range s lo hi = record s { natoms_min = some lo; natoms_max = some hi }

unfoldable pub require_symbol : Select → Bytes → Select
require_symbol s symbol = record s { symbols_all = s.symbols_all ++ (symbol ∷ []) }

unfoldable pub exact_hash : Select → Bytes → Select
exact_hash s hash = record s { content_hash = some hash }

unfoldable pub energy_range : Select → Float64 → Float64 → Select
energy_range s lo hi = record s { energy_min = some lo; energy_max = some hi }

unfoldable pub fmax_range : Select → Float64 → Float64 → Select
fmax_range s lo hi = record s { fmax_min = some lo; fmax_max = some hi }

unfoldable pub mass_range : Select → Float64 → Float64 → Select
mass_range s lo hi = record s { mass_min = some lo; mass_max = some hi }

unfoldable pub volume_range : Select → Float64 → Float64 → Select
volume_range s lo hi = record s { volume_min = some lo; volume_max = some hi }

unfoldable pub pbc : Select → Bool × Bool × Bool → Select
pbc s xyz = record s { pbc_exact = some xyz }

unfoldable pub time_range : Select → Float64 → Float64 → Select
time_range s lo hi = record s { time_min = some lo; time_max = some hi }

unfoldable pub timestep_range : Select → Float64 → Float64 → Select
timestep_range s lo hi = record s { timestep_min = some lo; timestep_max = some hi }

unfoldable pub frame_index_range : Select → Float64 → Float64 → Select
frame_index_range s lo hi = record s { frame_index_min = some lo; frame_index_max = some hi }

unfoldable pub neb_bead_range : Select → Float64 → Float64 → Select
neb_bead_range s lo hi = record s { neb_bead_min = some lo; neb_bead_max = some hi }

unfoldable pub neb_band_range : Select → Float64 → Float64 → Select
neb_band_range s lo hi = record s { neb_band_min = some lo; neb_band_max = some hi }

unfoldable pub charge_range : Select → Float64 → Float64 → Select
charge_range s lo hi = record s { charge_min = some lo; charge_max = some hi }

unfoldable pub magmom_range : Select → Float64 → Float64 → Select
magmom_range s lo hi = record s { magmom_min = some lo; magmom_max = some hi }

unfoldable pub element_min : Select → Bytes → ℕ → Select
element_min s symbol count = record s {
  element_count_min = s.element_count_min ++ ((symbol, count) ∷ []);
}

unfoldable pub element_exact : Select → Bytes → ℕ → Select
element_exact s symbol count = record s {
  element_count_exact = s.element_count_exact ++ ((symbol, count) ∷ []);
}

unfoldable pub exact_composition : Select → Bytes → Select
exact_composition s formula = record s { exact_formula = some formula }

unfoldable pub with_topo_key : Select → Bytes → Select
with_topo_key s hex = record s { topo_key = some hex }

unfoldable pub with_forces : Select → Select
with_forces s = record s { require_forces = true }

unfoldable pub with_velocities : Select → Select
with_velocities s = record s { require_velocities = true }

unfoldable pub with_energy : Select → Select
with_energy s = record s { require_energy = true }

unfoldable pub with_limit : Select → ℕ → Select
with_limit s n = record s { limit = some n }
