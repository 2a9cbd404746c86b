-- ===== src/Base/Throwing.antt =====
-- Results of code that may throw; the error is the message or code of the exception.
use Prim.Native.String.{String}
use mathlib.Core.Path.{◌≡◌, refl}
use mathlib.Core.Logic.{◌⊎◌, inl, inr}
use mathlib.Core.Bool.{Bool, true, false}

pub data Result {ℓ} (T : Type ℓ) : Type ℓ where
  throw : String → Result T
  ok : T → Result T

infixl 5 ◌>>=◌ ◌>>◌
abbrev pub ◌>>=◌ {ℓ κ} : {T : Type ℓ} {U : Type κ} → Result T → (T → Result U) → Result U
throw message >>= next = throw message
ok value >>= next = next value

abbrev pub ◌>>◌ {ℓ} : {U : Type ℓ} → Result (Unit {0}) → Result U → Result U
throw message >> next = throw message
ok _ >> next = next

-- `if (test) throw new Error(message)`
abbrev pub throw_if : Bool → String → Result (Unit {0})
throw_if test message = elim test [ true ↦ throw message | false ↦ ok tt ]

pub Result-cases {ℓ} :
    {T : Type ℓ} (r : Result T) → ((e : String) × (r ≡ throw e)) ⊎ ((a : T) × (r ≡ ok a))
Result-cases (throw e) = inl (e, refl)
Result-cases (ok a) = inr (a, refl)
