-- ===== src/Tests/Buckets.antt =====
-- The token bucket and the leaky bucket.
use policy_driven_rate_limit.Prelude.{[], arith, refl, ℕ, ◌*◌, ◌+◌, ◌∷◌, ◌≡◌, ◌≤◌}
use policy_driven_rate_limit.Double.{fixed, fixed_laws}
use policy_driven_rate_limit.Strategy.Run.{final, admitted}
use policy_driven_rate_limit.Strategy.TokenBucket.{TokenBucket}
use policy_driven_rate_limit.Strategy.TokenBucket
use policy_driven_rate_limit.Strategy.LeakyBucket.{LeakyBucket}
use policy_driven_rate_limit.Strategy.LeakyBucket
use policy_driven_rate_limit.Strategy.Local.{LocalStrategy, token_bucket, sliding_counter}
use policy_driven_rate_limit.Strategy.Local
use policy_driven_rate_limit.Strategy.Local.Valid

-- Three tokens, two more each second.
abbrev three_tokens : TokenBucket ℕ
three_tokens = record {
  capacity = 3000;
  refill_rate_per_sec = 2000;
  tokens = 3000;
  last_refill = 0;
}

three_tokens-IsValid : TokenBucket.Bounds.IsValid fixed_laws three_tokens
three_tokens-IsValid = record {
  capacity_nonneg = refl;
  capacity_exact = omega arith;
  rate_nonneg = refl;
  rate_finite = refl;
  tokens_nonneg = refl;
  within = omega arith;
}

-- Three at once, none after 100 ms, one after half a second.
three_tokens_run :
    admitted TokenBucket.allow_request three_tokens (0 ∷ 0 ∷ 0 ∷ 100 ∷ 500 ∷ 500 ∷ []) ≡ 4
unfolding TokenBucket.allow_request
three_tokens_run = refl

no_rounding : TokenBucket.Bounds.RoundsBy fixed_laws 0 3000
no_rounding x y p q h = ground arith

admitted-le-credits_example :
    admitted TokenBucket.allow_request three_tokens (0 ∷ 100 ∷ 500 ∷ []) * 1000
      + (final TokenBucket.allow_request three_tokens (0 ∷ 100 ∷ 500 ∷ [])).tokens
    ≤ 3000 + TokenBucket.Bounds.credits fixed_laws 2000 0 (0 ∷ 100 ∷ 500 ∷ []) + 3 * 0
admitted-le-credits_example =
    TokenBucket.Bounds.admitted-le-credits fixed_laws 0 three_tokens (0 ∷ 100 ∷ 500 ∷ [])
      no_rounding (omega arith) three_tokens-IsValid

burst_example : admitted TokenBucket.allow_request three_tokens (7 ∷ 7 ∷ 8 ∷ []) ≡ 3
burst_example =
    TokenBucket.Burst.burst fixed_laws three_tokens (7 ∷ 7 ∷ 8 ∷ []) (omega arith)
      three_tokens-IsValid (omega arith)

abbrev no_refill : TokenBucket ℕ
no_refill = record three_tokens { refill_rate_per_sec = 0 }

no_refill-IsValid : TokenBucket.Bounds.IsValid fixed_laws no_refill
no_refill-IsValid = record {
  capacity_nonneg = refl;
  capacity_exact = omega arith;
  rate_nonneg = refl;
  rate_finite = refl;
  tokens_nonneg = refl;
  within = omega arith;
}

-- Room for two, one of which runs out each second.
abbrev room_for_two : LeakyBucket ℕ
room_for_two = record { capacity = 2000; leak_rate = 1000; queue = 500; last_leak = 0 }

room_for_two-IsValid : LeakyBucket.Bounds.IsValid fixed_laws room_for_two
room_for_two-IsValid = record {
  capacity_nonneg = refl;
  rate_nonneg = refl;
  rate_finite = refl;
  queue_nonneg = refl;
  within = omega arith;
}

leaky_rounding : LeakyBucket.Bounds.RoundsBy fixed_laws 0 2000
leaky_rounding = record { drain = λ x y p q h. ground arith; fill = λ x p h. omega arith }

admitted-le-drains_example :
    admitted LeakyBucket.allow_request room_for_two (0 ∷ 100 ∷ 700 ∷ []) * 1000
    ≤ 2000 + LeakyBucket.Bounds.drains fixed_laws 1000 0 (0 ∷ 100 ∷ 700 ∷ []) + 3 * (2 * 0)
admitted-le-drains_example =
    LeakyBucket.Bounds.admitted-le-drains fixed_laws 0 room_for_two (0 ∷ 100 ∷ 700 ∷ [])
      leaky_rounding (omega arith) room_for_two-IsValid

allow_request-IsValid_example :
    Local.Valid.IsValid fixed_laws (Local.allow_request (token_bucket three_tokens) 40).0
allow_request-IsValid_example =
    Local.Valid.allow_request-IsValid fixed_laws (token_bucket three_tokens) 40 (omega arith)
      three_tokens-IsValid
