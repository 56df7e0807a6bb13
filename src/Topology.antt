-- ===== src/Topology.antt =====
-- src/topology.rs: topology parameters, the normal form of a topology key, and the scan of the
-- engine's text. A `str` is its UTF-8 bytes.
use readcon_db.Base.{
  ℕ, ◌+◌, ◌/◌, ◌%◌, ◌^◌, Bool, true, false, not, ◌&&◌, ◌||◌, Option, none, some, [], ◌∷◌, leb, ◌==◌,
  if◌then◌else◌, length,
}
use readcon_db.Base.Bytes.{Bytes, bytes_eq}
use readcon_db.Error.{Result, ok, err, message, ok_or}
use readcon_db.Base.Trim.{trim}
use readcon_db.Keys.Float.{Float64}

pub record TopologyParams : Type 0 where
  pub cutoff : Option Float64
  pub graph : Option Bytes
  pub hops : Option ℕ
  pub method : Option Bytes

unfoldable pub is_none {ℓ} : {A : Type ℓ} → Option A → Bool
is_none none = true
is_none (some a) = false

unfoldable pub is_empty : TopologyParams → Bool
unfolding is_none
is_empty t = is_none t.cutoff && (is_none t.graph && (is_none t.hops && is_none t.method))

-- `==` on `Option`, by `==` on the values.
unfoldable pub option_eq {ℓ} : {A : Type ℓ} → (A → A → Bool) → Option A → Option A → Bool
option_eq eq none none = true
option_eq eq none (some b) = false
option_eq eq (some a) none = false
option_eq eq (some a) (some b) = eq a b

-- `==` on `f64`: a NaN equals nothing, and the two zeros are equal.
unfoldable pub is_nan : Float64 → Bool
is_nan x = x / 2 ^ 52 % 2 ^ 11 == 2047 && not (x % 2 ^ 52 == 0)

unfoldable pub f64_eq : Float64 → Float64 → Bool
unfolding is_nan
f64_eq a b = not (is_nan a || is_nan b) && (a == b || (a % 2 ^ 63 == 0 && b % 2 ^ 63 == 0))

unfoldable pub agrees : TopologyParams → TopologyParams → Bool
unfolding option_eq f64_eq
agrees a b =
    option_eq f64_eq a.cutoff b.cutoff
    && (option_eq bytes_eq a.graph b.graph
        && (option_eq ◌==◌ a.hops b.hops && option_eq bytes_eq a.method b.method))

unfoldable pub cutoff_or_err : TopologyParams → Result Float64
cutoff_or_err t = ok_or t.cutoff (message "recorded topology parameters lack cutoff")

-- `"cutoff"`
abbrev pub default_graph : Bytes
default_graph = b'c' ∷ b'u' ∷ b't' ∷ b'o' ∷ b'f' ∷ b'f' ∷ []

unfoldable pub graph_or_default : TopologyParams → Bytes
graph_or_default t = elim t.graph [ none ↦ default_graph | some g ↦ g ]

unfoldable pub hops_or_default : TopologyParams → ℕ
hops_or_default t = elim t.hops [ none ↦ 2 | some h ↦ h ]

unfoldable pub is_ascii_hexdigit : ℕ → Bool
is_ascii_hexdigit c =
    (leb b'0' c && leb c b'9') || ((leb b'a' c && leb c b'f') || (leb b'A' c && leb c b'F'))

unfoldable pub all_hex : Bytes → Bool
unfolding is_ascii_hexdigit
all_hex [] = true
all_hex (c ∷ s) = is_ascii_hexdigit c && all_hex s

unfoldable pub to_lower : ℕ → ℕ
to_lower c = if leb b'A' c && leb c b'Z' then c + 32 else c

unfoldable pub to_ascii_lowercase : Bytes → Bytes
unfolding to_lower
to_ascii_lowercase [] = []
to_ascii_lowercase (c ∷ s) = to_lower c ∷ to_ascii_lowercase s

unfoldable pub normalize_topo_hex : Bytes → Result Bytes
unfolding all_hex to_ascii_lowercase
normalize_topo_hex raw =
    let s = trim raw in
    if length s == 0 || not (all_hex s)
    then err (message "invalid topology key")
    else ok (to_ascii_lowercase s)
