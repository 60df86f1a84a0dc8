-- ===== src/Prelude/Decimal.antt =====
-- Decimal numbers, as `std::to_string` and `operator<<` print an integer that is not negative.
use Prim.Native.Nat.{ℕ, zero, suc, ◌+◌, ◌-◌, ◌*◌, ◌/◌, ◌%◌, ◌<◌, ◌≤◌}
use mathlib.Core.Path.{◌≡◌, refl, sym, ap, ◌∙◌}
use mathlib.Core.Bool.{Bool, true, false, ◌&&◌}
use mathlib.Core.Logic.{inl, inr}
use mathlib.Core.List.{[], ◌∷◌, ◌++◌}
use native.Mathlib.Omega.{arith}
use policy_driven_rate_limit.Prelude.Tests.{ltb, leb, if◌then◌else◌, Bool-cases}
use policy_driven_rate_limit.Prelude.Text.{Bytes}
use policy_driven_rate_limit.Prelude.Lists.{All, length}

-- `std::isdigit`.
abbrev pub is_digit : ℕ → Bool
is_digit c = leb b'0' c && leb c b'9'

-- The digits of `n` in front of `acc`; the fuel bounds their number.
unfoldable pub decimal_onto : ℕ → ℕ → Bytes → Bytes
decimal_onto zero n acc = acc
decimal_onto (suc f) n acc =
    let rest = decimal_onto f (n / 10) ((48 + n % 10) ∷ acc) in
    if ltb n 10 then (48 + n % 10) ∷ acc else rest

unfoldable pub decimal : ℕ → Bytes
unfolding decimal_onto
decimal n = decimal_onto (suc n) n []

-- The number that a text of digits stands for, behind the digits read before.
unfoldable pub number_from : ℕ → Bytes → ℕ
number_from acc [] = acc
number_from acc (c ∷ cs) = number_from (acc * 10 + (c - 48)) cs

number_from-decimal_onto :
    (f n : ℕ) (acc : Bytes) → n < f → number_from 0 (decimal_onto f n acc) ≡ number_from n acc
unfolding number_from decimal_onto
number_from-decimal_onto zero n acc h = elim h [ ]
number_from-decimal_onto (suc f) n acc h = elim (Bool-cases (ltb n 10)) [
  | inl small ↦ ground arith
  | inr large ↦ ground (arith, number_from-decimal_onto f (n / 10) ((48 + n % 10) ∷ acc))
]

pub number_from-decimal : (n : ℕ) → number_from 0 (decimal n) ≡ n
unfolding decimal number_from
number_from-decimal n = number_from-decimal_onto (suc n) n [] (omega arith)

abbrev IsDigits : Bytes → Type 0
IsDigits = All (λ c. is_digit c ≡ true)

decimal_onto-IsDigits : (f n : ℕ) (acc : Bytes) → IsDigits acc → IsDigits (decimal_onto f n acc)
unfolding decimal_onto
decimal_onto-IsDigits zero n acc h = h
decimal_onto-IsDigits (suc f) n acc h =
    let digit : is_digit (48 + n % 10) ≡ true = ground arith in
    elim (Bool-cases (ltb n 10)) [
      | inl small ↦ rw small (digit, h)
      | inr large ↦ rw large (decimal_onto-IsDigits f (n / 10) ((48 + n % 10) ∷ acc) (digit, h))
    ]

pub decimal-IsDigits : (n : ℕ) → IsDigits (decimal n)
unfolding decimal
decimal-IsDigits n = decimal_onto-IsDigits (suc n) n [] tt

-- The digits at the front of a text, and what stands behind them.
leading_digits : Bytes → Bytes
leading_digits [] = []
leading_digits (c ∷ cs) = if is_digit c then c ∷ leading_digits cs else []

behind_digits : Bytes → Bytes
behind_digits [] = []
behind_digits (c ∷ cs) = if is_digit c then behind_digits cs else c ∷ cs

digits_split :
    (ds : Bytes) (c : ℕ) (rest : Bytes)
    → IsDigits ds
    → is_digit c ≡ false
    → (leading_digits (ds ++ (c ∷ rest)) ≡ ds) × (behind_digits (ds ++ (c ∷ rest)) ≡ c ∷ rest)
unfolding leading_digits behind_digits
digits_split [] c rest h stop = rw stop (refl, refl)
digits_split (x ∷ ds) c rest h stop =
    let (front, back) = digits_split ds c rest h.1 stop in rw h.0 (ap (◌∷◌ x) front, back)

-- A number can be read back from in front of a byte that is no digit.
pub decimal-injective :
    (m n c : ℕ) (r s : Bytes)
    → is_digit c ≡ false
    → decimal m ++ (c ∷ r) ≡ decimal n ++ (c ∷ s)
    → (m ≡ n) × (r ≡ s)
decimal-injective m n c r s stop h =
    let (mf, mb) = digits_split (decimal m) c r (decimal-IsDigits m) stop in
    let (nf, nb) = digits_split (decimal n) c s (decimal-IsDigits n) stop in
    let same : decimal m ≡ decimal n = sym mf ∙ ap leading_digits h ∙ nf in
    let behind : c ∷ r ≡ c ∷ s = sym mb ∙ ap behind_digits h ∙ nb in
    (sym (number_from-decimal m) ∙ ap (number_from 0) same ∙ number_from-decimal n, cc)

-- The powers of ten.
abbrev pub tens : ℕ → ℕ
tens zero = 1
tens (suc k) = 10 * tens k

length-decimal_onto :
    (k f n : ℕ) (acc : Bytes)
    → n < tens (suc k)
    → length (decimal_onto f n acc) ≤ suc k + length acc
unfolding decimal_onto
length-decimal_onto k zero n acc h = omega arith
length-decimal_onto zero (suc f) n acc h =
    let small : ltb n 10 ≡ true = ground (arith, h) in rw small (omega arith)
length-decimal_onto (suc k) (suc f) n acc h = elim (Bool-cases (ltb n 10)) [
  | inl small ↦ rw small (omega arith)
  | inr large ↦
      rw large
        (omega (arith, length-decimal_onto k f (n / 10) ((48 + n % 10) ∷ acc) (omega (arith, h))))
]

-- A number has at most as many digits as the power of ten that it is below.
pub length-decimal : (k n : ℕ) → n < tens (suc k) → length (decimal n) ≤ suc k
unfolding decimal
length-decimal k n h = omega (arith, length-decimal_onto k (suc n) n [] h)

length-decimal_onto-le : (f n : ℕ) (acc : Bytes) → length acc ≤ length (decimal_onto f n acc)
unfolding decimal_onto
length-decimal_onto-le zero n acc = omega arith
length-decimal_onto-le (suc f) n acc = elim (Bool-cases (ltb n 10)) [
  | inl small ↦ rw small (omega arith)
  | inr large ↦ rw large (omega (arith, length-decimal_onto-le f (n / 10) ((48 + n % 10) ∷ acc)))
]

pub decimal-nonempty : (n : ℕ) → 0 < length (decimal n)
unfolding decimal decimal_onto
decimal-nonempty n = elim (Bool-cases (ltb n 10)) [
  | inl small ↦ rw small (omega arith)
  | inr large ↦ rw large (omega (arith, length-decimal_onto-le n (n / 10) ((48 + n % 10) ∷ [])))
]
