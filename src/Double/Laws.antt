-- ===== src/Double/Laws.antt =====
-- What the theorems take from IEEE 754: facts that hold of every double that is no NaN, and some
-- that hold below a stated bound only, where no rounding takes place.
use policy_driven_rate_limit.Prelude.{
  arith, false, if◌then◌else◌, leb, true, ℕ, ◌*◌, ◌+◌, ◌-◌, ◌<◌, ◌↔◌, ◌≡◌, ◌≤◌,
}
use policy_driven_rate_limit.Double.Defs.{Doubles}

module _ {D : Type 0} ⦃d : Doubles D⦄ where
  -- Not negative, and no NaN.
  abbrev pub IsNonneg : D → Type 0
  IsNonneg x = d.le d.zero x ≡ true

  -- `std::min` and `std::max`, with the comparison that they make.
  abbrev pub std_min : D → D → D
  std_min a b = if d.lt b a then b else a

  abbrev pub std_max : D → D → D
  std_max a b = if d.lt a b then b else a

  -- `duration<double>(now - since).count()`: negative if `now` is the earlier reading.
  unfoldable pub seconds_between : ℕ → ℕ → D
  seconds_between since now =
      if leb since now then d.seconds (now - since) else d.neg (d.seconds (since - now))

  pub seconds_between-steady :
      (since now : ℕ) → since ≤ now → seconds_between since now ≡ d.seconds (now - since)
  unfolding seconds_between
  seconds_between-steady since now h = ground arith

-- `value x` is the exact value of a non-negative double in units of 2 ^ -1074, of which every double
-- is a multiple; `unit` is the value of 1.0, and `exact_max` that of 2 ^ 53.
pub record DoubleLaws {D : Type 0} (d : Doubles D) : Type 0 where
  pub value : D → ℕ
  pub unit : ℕ
  pub exact_max : ℕ
  pub unit_pos : 0 < unit
  pub zero_nonneg : d.le d.zero d.zero ≡ true
  pub value-zero : value d.zero ≡ 0
  pub one_nonneg : d.le d.zero d.one ≡ true
  pub value-one : value d.one ≡ unit
  pub le_iff :
      (x y : D)
      → d.le d.zero x ≡ true
      → d.le d.zero y ≡ true
      → (d.le x y ≡ true) ↔ (value x ≤ value y)
  pub lt_iff :
      (x y : D)
      → d.le d.zero x ≡ true
      → d.le d.zero y ≡ true
      → (d.lt x y ≡ true) ↔ (value x < value y)
  pub le_trans : (x y z : D) → d.le x y ≡ true → d.le y z ≡ true → d.le x z ≡ true
  pub nonneg_of_lt : (x y : D) → d.le d.zero x ≡ true → d.lt x y ≡ true → d.le d.zero y ≡ true
  pub nonneg_of_le : (x y : D) → d.le d.zero x ≡ true → d.le x y ≡ true → d.le d.zero y ≡ true
  -- A finite double is no NaN, so it lies on one side of 0.
  pub pos_of_finite : (x : D) → d.is_finite x ≡ true → d.le x d.zero ≡ false → d.lt d.zero x ≡ true
  pub nonneg_of_finite :
      (x : D) → d.is_finite x ≡ true → d.lt x d.zero ≡ false → d.le d.zero x ≡ true
  -- A positive double without a fraction, up to INT_MAX, converts to an int that is positive.
  pub to_int_range :
      (x : D)
      → d.lt d.zero x ≡ true
      → d.lt (d.of_int 2147483647) x ≡ false
      → d.eq (d.floor x) x ≡ true
      → (0 < d.to_int x) × (d.to_int x < 2147483648)
  -- Rounding is monotone, so a sum of non-negative doubles is at least each part.
  pub add_nonneg :
      (x y : D)
      → d.le d.zero x ≡ true
      → d.le d.zero y ≡ true
      → (d.le d.zero (d.add x y) ≡ true)
        × (value x ≤ value (d.add x y))
        × (value y ≤ value (d.add x y))
  pub mul_nonneg :
      (x y : D)
      → d.le d.zero x ≡ true
      → d.le d.zero y ≡ true
      → d.is_finite x ≡ true
      → d.is_finite y ≡ true
      → d.le d.zero (d.mul x y) ≡ true
  pub mul-zero :
      (x y : D)
      → d.le d.zero x ≡ true
      → d.is_finite x ≡ true
      → d.le d.zero y ≡ true
      → value y ≡ 0
      → value (d.mul x y) ≡ 0
  pub add-zero :
      (x y : D)
      → d.le d.zero x ≡ true
      → d.le d.zero y ≡ true
      → value y ≡ 0
      → value (d.add x y) ≡ value x
  -- Up to 2 ^ 53, taking 1 away and adding it rounds nothing.
  pub sub-one :
      (x : D)
      → d.le d.zero x ≡ true
      → unit ≤ value x
      → value x ≤ exact_max
      → (d.le d.zero (d.sub x d.one) ≡ true) × (value (d.sub x d.one) + unit ≡ value x)
  pub sub_le :
      (x y : D)
      → d.le d.zero x ≡ true
      → d.le d.zero y ≡ true
      → d.le d.zero (d.sub x y) ≡ true
      → value (d.sub x y) ≤ value x
  pub sub_mono :
      (x y z : D)
      → d.is_finite x ≡ true
      → d.is_finite y ≡ true
      → d.is_finite z ≡ true
      → d.le x y ≡ true
      → d.le (d.sub x z) (d.sub y z) ≡ true
  pub seconds_nonneg : (t : ℕ) → d.le d.zero (d.seconds t) ≡ true
  pub seconds_finite : (t : ℕ) → d.is_finite (d.seconds t) ≡ true
  pub nanoseconds_finite : (t : ℕ) → d.is_finite (d.nanoseconds t) ≡ true
  pub nanoseconds_mono : (s t : ℕ) → s ≤ t → d.le (d.nanoseconds s) (d.nanoseconds t) ≡ true
  pub seconds_mono : (s t : ℕ) → s ≤ t → d.le (d.seconds s) (d.seconds t) ≡ true
  -- An int is represented exactly.
  pub of_int_nonneg : (n : ℕ) → d.le d.zero (d.of_int n) ≡ true
  pub of_int_finite : (n : ℕ) → d.is_finite (d.of_int n) ≡ true
  -- The rest of a window of which less than the whole has gone by.
  pub remaining_fraction :
      (x w : D)
      → d.le d.zero x ≡ true
      → d.lt d.zero w ≡ true
      → d.le w x ≡ false
      → (d.le d.zero (d.sub d.one (d.div x w)) ≡ true)
        × (d.is_finite (d.sub d.one (d.div x w)) ≡ true)
  pub value-of_int : (n : ℕ) → n < 2147483648 → value (d.of_int n) ≡ n * unit
