-- ===== src/Error.antt =====
-- src/error.rs: the error type and `Result`. A message is its fixed text; what `format!` puts
-- into it is left out, and so are the payloads of the errors of other crates.
use Prim.Native.Nat.{ℕ}
use Prim.Native.String.{String}
use mathlib.Core.Path.{◌≡◌, refl}
use mathlib.Core.Bool.{Bool, true, false}
use mathlib.Core.Option.{Option, none, some}

pub data Error : Type 0 where
  heed : String → Error
  io : Error
  parse : String → Error
  missing_frame : ℕ → ℕ → Error
  traj_exists : ℕ → ℕ → Error
  utf8 : Error
  json : Error
  nul : Error
  message : String → Error

pub data Result {ℓ} (T : Type ℓ) : Type ℓ where
  ok : T → Result T
  err : Error → Result T

-- `ok_or_else`.
abbrev pub ok_or {ℓ} : {T : Type ℓ} → Option T → Error → Result T
ok_or (some value) error = ok value
ok_or none error = err error

-- `if !test { return Err(error) }`.
abbrev pub guard : Bool → Error → Result (Unit {0})
guard false error = err error
guard true error = ok tt

-- The operator `?`.
infixl 5 ◌>>=◌
abbrev pub ◌>>=◌ {ℓ κ} : {S : Type ℓ} {T : Type κ} → Result S → (S → Result T) → Result T
err error >>= next = err error
ok value >>= next = next value

infixl 5 ◌>>◌
abbrev pub ◌>>◌ {κ} : {T : Type κ} → Result (Unit {0}) → Result T → Result T
first >> second = first >>= (λ done. second)

-- What succeeds behind `?` had a value before it.
pub >>=-eq-ok {ℓ κ} :
    {S : Type ℓ} {T : Type κ} (first : Result S) (next : S → Result T) {out : T}
    → (first >>= next) ≡ ok out
    → (value : S) × (first ≡ ok value) × (next value ≡ ok out)
>>=-eq-ok (err error) next e = cc
>>=-eq-ok (ok value) next e = (value, refl, e)

pub ok_eq {ℓ} : {T : Type ℓ} {value out : T} → ok value ≡ ok out → value ≡ out
ok_eq e = cc
