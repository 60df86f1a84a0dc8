-- ===== src/Double/Fixed.antt =====
-- Fixed-point numbers with three decimals and no sign: values at which the laws hold, for the tests.
use policy_driven_rate_limit.Prelude.{
  Bool, Bytes, [], ap, arith, decimal, if◌then◌else◌, is_digit, leb, ltb, negsuc, none, number_from,
  pos, refl, some, true, ℕ, ℤ, ◌&&◌, ◌*◌, ◌+◌, ◌-◌, ◌/◌, ◌==◌, ◌∷◌, ◌≡◌,
}
use policy_driven_rate_limit.Double.Defs.{Doubles}
use policy_driven_rate_limit.Double.Laws.{DoubleLaws}

abbrev all_digits : Bytes → Bool
all_digits [] = true
all_digits (c ∷ cs) = is_digit c && all_digits cs

-- There is no sign, so a negative number becomes 0.
abbrev not_negative : ℤ → ℕ
not_negative (pos n) = n
not_negative (negsuc n) = 0

-- One tick of the clock is a millisecond. Of the texts only digits are read.
instance abbrev pub fixed : Doubles ℕ
fixed = record {
  zero = 0;
  one = 1000;
  add = λ x y. x + y;
  sub = λ x y. x - y;
  mul = λ x y. x * y / 1000;
  div = λ x y. x * 1000 / y;
  eq = ◌==◌;
  lt = ltb;
  le = leb;
  is_finite = λ _. true;
  floor = λ x. x / 1000 * 1000;
  of_int = λ n. n * 1000;
  to_int = λ x. x / 1000;
  of_signed = λ n. not_negative n * 1000;
  to_signed = λ x. pos (x / 1000);
  seconds = λ t. t;
  neg = λ x. 0;
  nanoseconds = λ t. t * 1000000000;
  to_nanoseconds = λ x. x * 1000000000;
  ticks = λ x. x;
  show_fixed = decimal;
  show_precise = decimal;
  show_plain = decimal;
  to_string = decimal;
  strtod = λ s. if all_digits s then some (number_from 0 s * 1000, []) else none;
}

pub mul_zero_value : (x y : ℕ) → y ≡ 0 → x * y / 1000 ≡ 0
mul_zero_value x y h = omega (arith, ap (λ (t : ℕ). x * t) h)

abbrev pub fixed_laws : DoubleLaws fixed
fixed_laws = record {
  value = λ x. x;
  unit = 1000;
  exact_max = 9007199254740992000;
  unit_pos = omega arith;
  zero_nonneg = refl;
  value-zero = refl;
  one_nonneg = refl;
  value-one = refl;
  le_iff = λ x y _ _. (λ h. ground arith, λ h. ground arith);
  lt_iff = λ x y _ _. (λ h. ground arith, λ h. ground arith);
  le_trans = λ x y z p q. ground arith;
  nonneg_of_lt = λ x y p q. ground arith;
  nonneg_of_le = λ x y p q. ground arith;
  pos_of_finite = λ x _ p. ground arith;
  nonneg_of_finite = λ x _ p. ground arith;
  to_int_range = λ x p q r. (ground arith, ground arith);
  add_nonneg = λ x y _ _. (ground arith, omega arith, omega arith);
  mul_nonneg = λ x y _ _ _ _. ground arith;
  mul-zero = λ x y _ _ _ h. mul_zero_value x y h;
  add-zero = λ x y _ _ h. omega arith;
  sub-one = λ x _ h _. (ground arith, omega arith);
  sub_le = λ x y _ _ _. omega arith;
  sub_mono = λ x y z _ _ _ h. ground arith;
  seconds_nonneg = λ t. ground arith;
  seconds_finite = λ t. refl;
  seconds_mono = λ s t h. ground arith;
  nanoseconds_finite = λ t. refl;
  nanoseconds_mono = λ s t h. ground arith;
  of_int_nonneg = λ n. ground arith;
  of_int_finite = λ n. refl;
  remaining_fraction = λ x w _ _ _. (ground arith, refl);
  value-of_int = λ n _. refl;
}
