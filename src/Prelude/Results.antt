-- ===== src/Prelude/Results.antt =====
-- Results of code that throws: a value, or the error that is thrown.
use mathlib.Core.Path.{◌≡◌, refl}
use mathlib.Core.Bool.{Bool, true, false}
use mathlib.Core.Option.{Option, none, some}

-- `x ?? fallback`.
abbrev pub get_or {ℓ} : {A : Type ℓ} → Option A → A → A
get_or none d = d
get_or (some a) d = a

pub data Result {κ ℓ} (Thrown : Type κ) (Value : Type ℓ) : Type (κ ⊔ ℓ) where
  err : Thrown → Result Thrown Value
  ok : Value → Result Thrown Value

-- `if (!test) throw thrown`.
abbrev pub guard {κ} : {Thrown : Type κ} → Bool → Thrown → Result Thrown (Unit {0})
guard false thrown = err thrown
guard true thrown = ok tt

infixl 5 ◌>>=◌
abbrev pub ◌>>=◌ {κ ℓ μ} :
    {Thrown : Type κ} {Value : Type ℓ} {Next : Type μ}
    → Result Thrown Value
    → (Value → Result Thrown Next)
    → Result Thrown Next
err thrown >>= next = err thrown
ok value >>= next = next value

infixl 5 ◌>>◌
abbrev pub ◌>>◌ {κ μ} :
    {Thrown : Type κ} {Next : Type μ}
    → Result Thrown (Unit {0})
    → Result Thrown Next
    → Result Thrown Next
check >> rest = check >>= λ _. rest

-- Inversion of a successful bind.
pub >>=-eq-ok {κ ℓ μ} :
    {Thrown : Type κ} {Value : Type ℓ} {Next : Type μ} (first : Result Thrown Value)
    (next : Value → Result Thrown Next) {result : Next}
    → (first >>= next) ≡ ok result
    → (value : Value) × (first ≡ ok value) × (next value ≡ ok result)
>>=-eq-ok (err thrown) next h = cc
>>=-eq-ok (ok value) next h = (value, refl, h)

pub ok-injective {κ ℓ} :
    {Thrown : Type κ} {Value : Type ℓ} (a b : Value)
    → ◌≡◌ {A = Result Thrown Value} (ok a) (ok b)
    → a ≡ b
ok-injective a b h = cc
