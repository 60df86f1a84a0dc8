-- ===== src/Prelude/Checks.antt =====
-- The outcome of a function that returns false and sets its `error`.
use policy_driven_rate_limit.Prelude.Text.{Bytes}
use mathlib.Core.Path.{◌≡◌, refl}
use mathlib.Core.Logic.{◌⊎◌, inl, inr}
use mathlib.Core.Bool.{Bool, true, false}

pub data Result {ℓ} (A : Type ℓ) : Type ℓ where
  rejected : Bytes → Result A
  ok : A → Result A

infixl 5 ◌>>=◌ ◌>>◌
abbrev pub ◌>>=◌ {ℓ κ} : {A : Type ℓ} {B : Type κ} → Result A → (A → Result B) → Result B
rejected why >>= next = rejected why
ok x >>= next = next x

-- `if (!test) { error = message; return false; }`
abbrev pub require : Bool → Bytes → Result (Unit {0})
require false message = rejected message
require true message = ok tt

abbrev pub ◌>>◌ {ℓ} : {B : Type ℓ} → Result (Unit {0}) → Result B → Result B
check >> rest = check >>= λ _. rest

pub require-ok : (b : Bool) (message : Bytes) → require b message ≡ ok tt → b ≡ true
require-ok false message h = cc
require-ok true message h = refl

-- A chain that succeeds has succeeded at each step.
pub >>-eq-ok {ℓ} :
    {B : Type ℓ} (check : Result (Unit {0})) (rest : Result B) {b : B}
    → (check >> rest) ≡ ok b
    → (check ≡ ok tt) × (rest ≡ ok b)
>>-eq-ok (rejected why) rest h = cc
>>-eq-ok (ok tt) rest h = (refl, h)

pub >>=-eq-ok {ℓ κ} :
    {A : Type ℓ} {B : Type κ} (step : Result A) (next : A → Result B) {b : B}
    → (step >>= next) ≡ ok b
    → (x : A) × (step ≡ ok x) × (next x ≡ ok b)
>>=-eq-ok (rejected why) next h = cc
>>=-eq-ok (ok x) next h = (x, refl, h)

pub ok-injective {ℓ} : {A : Type ℓ} (x y : A) → ok x ≡ ok y → x ≡ y
ok-injective x y h = cc

pub Result-cases {ℓ} :
    {A : Type ℓ} (r : Result A)
    → ((message : Bytes) × (r ≡ rejected message)) ⊎ ((x : A) × (r ≡ ok x))
Result-cases (rejected message) = inl (message, refl)
Result-cases (ok x) = inr (x, refl)
