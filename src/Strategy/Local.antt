-- ===== src/Strategy/Local.antt =====
-- RateLimitStrategy.h over the five classes that keep their state in the process: a virtual call is
-- a split on the class. Each call takes the reading of the steady clock.
pub mod Valid
use policy_driven_rate_limit.Prelude.{Bool, Bytes, ℕ}
use policy_driven_rate_limit.Double.{Doubles}
use policy_driven_rate_limit.Strategy.TokenBucket.{TokenBucket}
use policy_driven_rate_limit.Strategy.LeakyBucket.{LeakyBucket}
use policy_driven_rate_limit.Strategy.FixedWindowCounter.{FixedWindowCounter}
use policy_driven_rate_limit.Strategy.SlidingWindowLog.{SlidingWindowLog}
use policy_driven_rate_limit.Strategy.SlidingWindowCounter.{SlidingWindowCounter}
use policy_driven_rate_limit.Strategy.TokenBucket
use policy_driven_rate_limit.Strategy.LeakyBucket
use policy_driven_rate_limit.Strategy.FixedWindowCounter
use policy_driven_rate_limit.Strategy.SlidingWindowLog
use policy_driven_rate_limit.Strategy.SlidingWindowCounter

pub data LocalStrategy (D : Type 0) : Type 0 where
  token_bucket : TokenBucket D → LocalStrategy D
  leaky_bucket : LeakyBucket D → LocalStrategy D
  fixed_window : FixedWindowCounter D → LocalStrategy D
  sliding_log : SlidingWindowLog D → LocalStrategy D
  sliding_counter : SlidingWindowCounter D → LocalStrategy D

-- The state of one class, put back behind the interface.
abbrev behind : {S T : Type 0} → (S → T) → S × Bool → T × Bool
behind c (s, allowed) = (c s, allowed)

module _ {D : Type 0} ⦃d : Doubles D⦄ where
  unfoldable pub allow_request : LocalStrategy D → ℕ → LocalStrategy D × Bool
  allow_request (token_bucket b) now = behind token_bucket (TokenBucket.allow_request b now)
  allow_request (leaky_bucket b) now = behind leaky_bucket (LeakyBucket.allow_request b now)
  allow_request (fixed_window b) now = behind fixed_window (FixedWindowCounter.allow_request b now)
  allow_request (sliding_log b) now = behind sliding_log (SlidingWindowLog.allow_request b now)
  allow_request (sliding_counter b) now =
      behind sliding_counter (SlidingWindowCounter.allow_request b now)

  unfoldable pub get_state : LocalStrategy D → ℕ → Bytes
  get_state (token_bucket b) now = TokenBucket.get_state b
  get_state (leaky_bucket b) now = LeakyBucket.get_state b now
  get_state (fixed_window b) now = FixedWindowCounter.get_state b now
  get_state (sliding_log b) now = SlidingWindowLog.get_state b now
  get_state (sliding_counter b) now = SlidingWindowCounter.get_state b now

  unfoldable pub reset : LocalStrategy D → ℕ → LocalStrategy D
  reset (token_bucket b) now = token_bucket (TokenBucket.reset b now)
  reset (leaky_bucket b) now = leaky_bucket (LeakyBucket.reset b now)
  reset (fixed_window b) now = fixed_window (FixedWindowCounter.reset b now)
  reset (sliding_log b) now = sliding_log (SlidingWindowLog.reset b)
  reset (sliding_counter b) now = sliding_counter (SlidingWindowCounter.reset b now)

unfoldable pub algorithm_name : {D : Type 0} → LocalStrategy D → Bytes
algorithm_name (token_bucket b) = TokenBucket.algorithm_name
algorithm_name (leaky_bucket b) = LeakyBucket.algorithm_name
algorithm_name (fixed_window b) = FixedWindowCounter.algorithm_name
algorithm_name (sliding_log b) = SlidingWindowLog.algorithm_name
algorithm_name (sliding_counter b) = SlidingWindowCounter.algorithm_name
