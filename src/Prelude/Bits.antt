-- ===== src/Prelude/Bits.antt =====
-- When an `or` and an exclusive `or` of native numbers vanish.
use Prim.Native.Nat.{
  ℕ, zero, suc, ◌+◌, ◌/◌, ◌%◌, ◌≤◌, ◌<◌, max, digits, differ, bit_or, bit_xor, bit_or-bitwise,
  bit_xor-bitwise,
}
use mathlib.Core.Path.{◌≡◌, refl, sym, ◌∙◌}
use native.Mathlib.Omega.{arith}

-- The digits with fuel that the native operations stand for.
abbrev or_digits : ℕ → ℕ → ℕ → ℕ
or_digits n a b = digits (λ y. y) max n a b

abbrev xor_digits : ℕ → ℕ → ℕ → ℕ
xor_digits n a b = digits (λ y. y) differ n a b

max-zero : (x y : ℕ) → max x y ≡ 0 → (x ≡ 0) × (y ≡ 0)
max-zero x y h = omega (arith, h)

or_digits-zero : (n a b : ℕ) → a ≤ n → or_digits n a b ≡ 0 → (a ≡ 0) × (b ≡ 0)
or_digits-zero zero zero b p h = (refl, h)
or_digits-zero zero (suc a) b p h = absurd (omega arith)
or_digits-zero (suc n) zero b p h = (refl, h)
or_digits-zero (suc n) (suc a) b p h =
    let low = max-zero (suc a % 2) (b % 2) (omega (arith, h)) in
    let high = or_digits-zero n (suc a / 2) (b / 2) (omega arith) (omega (arith, h)) in
    (omega (arith, low.0, high.0), omega (arith, low.1, high.1))

pub bit_or-zero : (a b : ℕ) → bit_or a b ≡ 0 → (a ≡ 0) × (b ≡ 0)
bit_or-zero a b h = or_digits-zero a a b (omega arith) (sym (bit_or-bitwise a b) ∙ h)

differ_digit : (x y : ℕ) → x < 2 → y < 2 → differ x y ≡ (x + y) % 2
differ_digit zero y p q = omega arith
differ_digit (suc zero) zero p q = omega arith
differ_digit (suc zero) (suc zero) p q = omega arith
differ_digit (suc zero) (suc (suc y)) p q = absurd (omega arith)
differ_digit (suc (suc x)) y p q = absurd (omega arith)

xor_digits_fuel : (n m a b : ℕ) → a ≤ n → a ≤ m → xor_digits n a b ≡ xor_digits m a b
xor_digits_fuel zero zero a b p q = refl
xor_digits_fuel zero (suc m) zero b p q = refl
xor_digits_fuel zero (suc m) (suc a) b p q = absurd (omega arith)
xor_digits_fuel (suc n) zero zero b p q = refl
xor_digits_fuel (suc n) zero (suc a) b p q = absurd (omega arith)
xor_digits_fuel (suc n) (suc m) zero b p q = refl
xor_digits_fuel (suc n) (suc m) (suc a) b p q =
    omega (arith, xor_digits_fuel n m (suc a / 2) (b / 2) (omega arith) (omega arith))

-- The lowest digit, and the digits above it.
xor_low : (a b : ℕ) → bit_xor a b % 2 ≡ (a + b) % 2
xor_low zero b = omega (arith, bit_xor-bitwise 0 b)
xor_low (suc a) b =
    omega (
      arith,
      bit_xor-bitwise (suc a) b,
      differ_digit (suc a % 2) (b % 2) (omega arith) (omega arith),
    )

xor_high : (a b : ℕ) → bit_xor a b / 2 ≡ bit_xor (a / 2) (b / 2)
xor_high zero b = omega (arith, bit_xor-bitwise 0 b, bit_xor-bitwise 0 (b / 2))
xor_high (suc a) b = omega (
  arith,
  bit_xor-bitwise (suc a) b,
  bit_xor-bitwise (suc a / 2) (b / 2),
  xor_digits_fuel a (suc a / 2) (suc a / 2) (b / 2) (omega arith) (omega arith),
  differ_digit (suc a % 2) (b % 2) (omega arith) (omega arith),
)

xor_zero_fuel : (n a b : ℕ) → a ≤ n → bit_xor a b ≡ 0 → a ≡ b
xor_zero_fuel n zero b p h = sym (sym (bit_xor-bitwise 0 b) ∙ h)
xor_zero_fuel zero (suc a) b p h = absurd (omega arith)
xor_zero_fuel (suc n) (suc a) b p h =
    let high =
      xor_zero_fuel n (suc a / 2) (b / 2) (omega arith) (omega (arith, h, xor_high (suc a) b)) in
    omega (arith, h, high, xor_low (suc a) b)

pub bit_xor-zero : (a b : ℕ) → bit_xor a b ≡ 0 → a ≡ b
bit_xor-zero a b h = xor_zero_fuel a a b (omega arith) h

-- Numbers whose exclusive `or` ends in `k` digits 0 agree in their last `k` digits.
xor_mod_4 : (a b : ℕ) → bit_xor a b % 4 ≡ 0 → a % 4 ≡ b % 4
xor_mod_4 a b h =
    omega (arith, h, xor_low a b, xor_high a b, xor_low (a / 2) (b / 2), xor_high (a / 2) (b / 2))

xor_mod_16 : (a b : ℕ) → bit_xor a b % 16 ≡ 0 → a % 16 ≡ b % 16
xor_mod_16 a b h =
    let high =
      xor_mod_4 (a / 2 / 2) (b / 2 / 2)
        (omega (arith, h, xor_high a b, xor_high (a / 2) (b / 2))) in
    omega (arith, high, xor_mod_4 a b (omega (arith, h)))

pub xor_mod_256 : (a b : ℕ) → bit_xor a b % 256 ≡ 0 → a % 256 ≡ b % 256
xor_mod_256 a b h =
    let high = xor_mod_16 (a / 2 / 2 / 2 / 2) (b / 2 / 2 / 2 / 2) (
      omega (
        arith,
        h,
        xor_high a b,
        xor_high (a / 2) (b / 2),
        xor_high (a / 2 / 2) (b / 2 / 2),
        xor_high (a / 2 / 2 / 2) (b / 2 / 2 / 2),
      )) in
    omega (arith, high, xor_mod_16 a b (omega (arith, h)))
