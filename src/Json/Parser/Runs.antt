-- ===== src/Json/Parser/Runs.antt =====
-- Postconditions on the calls of the parser.
use policy_driven_rate_limit.Prelude.{
  Bool, Bytes, false, if◌then◌else◌, length, refl, subst₂, true, ◌<◌, ◌≡◌, ◌≢◌, ◌≤◌,
}
use policy_driven_rate_limit.Json.Value.{Parsed, parsed, failed, and_then}

-- The call does not run out of fuel, and `P` holds of what it gives and leaves, if it succeeds.
pub data Runs {ℓ κ} {A : Type ℓ} (P : A → Bytes → Type κ) : Parsed A → Type (ℓ ⊔ κ) where
  gives : {a : A} {rest : Bytes} → P a rest → Runs P (parsed a rest)
  refuses : {message rest : Bytes} → Runs P (failed message rest)

module _ {ℓ κ} {A : Type ℓ} {P : A → Bytes → Type κ} where
  pub Runs-if :
      (b : Bool) {x y : Parsed A}
      → (b ≡ true → Runs P x)
      → (b ≡ false → Runs P y)
      → Runs P (if b then x else y)
  Runs-if true h k = h refl
  Runs-if false h k = k refl

  pub Runs-and_then {ℓ' κ'} :
      {B : Type ℓ'} {Q : B → Bytes → Type κ'} {r : Parsed A} {f : A → Bytes → Parsed B}
      → Runs P r
      → ((a : A) (rest : Bytes) → P a rest → Runs Q (f a rest))
      → Runs Q (and_then r f)
  Runs-and_then (gives {a} {rest} h) k = k a rest h
  Runs-and_then refuses k = refuses

  pub Runs-weaken {κ'} :
      {Q : A → Bytes → Type κ'} {r : Parsed A}
      → ((a : A) (rest : Bytes) → P a rest → Q a rest)
      → Runs P r
      → Runs Q r
  Runs-weaken k (gives {a} {rest} h) = gives (k a rest h)
  Runs-weaken k refuses = refuses

  pub Runs-fuel : {r : Parsed A} → Runs P r → r ≢ Parsed.out_of_fuel
  Runs-fuel (gives h) e = cc
  Runs-fuel refuses e = cc

  pub Runs-parsed : {r : Parsed A} {a : A} {rest : Bytes} → Runs P r → r ≡ parsed a rest → P a rest
  Runs-parsed {a = a} {rest = rest} (gives {a = b} {rest = left} h) e =
      let same : b ≡ a = cc in let also : left ≡ rest = cc in subst₂ P same also h
  Runs-parsed refuses e = cc

-- What is left is shorter, or no longer, than the input.
abbrev pub Shorter {ℓ} : {A : Type ℓ} → Bytes → A → Bytes → Type 0
Shorter s a rest = length rest < length s

abbrev pub NoLonger {ℓ} : {A : Type ℓ} → Bytes → A → Bytes → Type 0
NoLonger s a rest = length rest ≤ length s
