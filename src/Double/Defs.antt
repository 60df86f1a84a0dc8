-- ===== src/Double/Defs.antt =====
-- C++ `double`: the operations that the program calls, an argument of all that uses them.
use policy_driven_rate_limit.Prelude.{Bool, Bytes, Option, ℕ, ℤ}

pub record Doubles (D : Type 0) : Type 0 where
  pub zero : D
  pub one : D
  pub add : D → D → D
  pub sub : D → D → D
  pub mul : D → D → D
  pub div : D → D → D
  -- `<`, `<=` and `==`, which are false on a NaN.
  pub eq : D → D → Bool
  pub lt : D → D → Bool
  pub le : D → D → Bool
  pub is_finite : D → Bool
  pub floor : D → D
  -- `static_cast<double>` of a non-negative int, and `static_cast<int>` of a double in its range.
  pub of_int : ℕ → D
  pub to_int : D → ℕ
  -- The same for an int that may be negative.
  pub of_signed : ℤ → D
  pub to_signed : D → ℤ
  -- `duration<double>(t).count()` of a steady_clock duration in ticks, and `duration_cast` back.
  pub seconds : ℕ → D
  -- `-x`.
  pub neg : D → D
  -- A time point, and a `duration<double>` of seconds, converted to `duration<double, std::nano>`:
  -- the type of `now - duration<double>`, and that in which time points are compared with it.
  pub nanoseconds : ℕ → D
  pub to_nanoseconds : D → D
  pub ticks : D → ℕ
  -- Output with `fixed << setprecision(2)`, with `setprecision(15)`, with the default precision,
  -- and `std::to_string`.
  pub show_fixed : D → Bytes
  pub show_precise : D → Bytes
  pub show_plain : D → Bytes
  pub to_string : D → Bytes
  -- `strtod`: the value and what follows it; none where no digit was read.
  pub strtod : Bytes → Option (D × Bytes)
