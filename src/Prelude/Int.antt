-- ===== src/Prelude/Int.antt =====
-- Integers over the native numbers, for the ints that may be negative.
use Prim.Native.Nat.{ℕ, ◌+◌, ◌<◌, ◌^◌}
use mathlib.Core.Bool.{Bool, true, false}
use mathlib.Core.List.{◌∷◌}
use policy_driven_rate_limit.Prelude.Tests.{ltb}
use policy_driven_rate_limit.Prelude.Text.{Bytes}
use policy_driven_rate_limit.Prelude.Decimal.{decimal}

-- `negsuc n` is -(n + 1).
pub data ℤ : Type 0 where
  pos : ℕ → ℤ
  negsuc : ℕ → ℤ

-- `a < b`.
abbrev pub lt_int : ℤ → ℤ → Bool
lt_int (pos a) (pos b) = ltb a b
lt_int (pos a) (negsuc b) = false
lt_int (negsuc a) (pos b) = true
lt_int (negsuc a) (negsuc b) = ltb b a

-- `operator<<` of an int.
unfoldable pub show_int : ℤ → Bytes
show_int (pos n) = decimal n
show_int (negsuc n) = b'-' ∷ decimal (n + 1)

-- The range of a long long.
abbrev pub IsLongLong : ℤ → Type 0
IsLongLong (pos n) = n < 2 ^ 63
IsLongLong (negsuc n) = n < 2 ^ 63
