-- ===== src/Strategy/TokenBucket.antt =====
-- TokenBucket.h and TokenBucket.cpp. The reading of the steady clock, in ticks, is an argument of
-- each method that takes one.
pub mod Bounds
pub mod Burst
use policy_driven_rate_limit.Prelude.{Bool, Bytes, codes, false, if◌then◌else◌, true, ℕ, ◌++◌, ◌-◌}
use policy_driven_rate_limit.Double.{Doubles, std_min, seconds_between}

pub record TokenBucket (D : Type 0) : Type 0 where
  pub capacity : D
  pub refill_rate_per_sec : D
  pub tokens : D
  pub last_refill : ℕ

module _ {D : Type 0} ⦃d : Doubles D⦄ where
  -- The constructor: the bucket starts full.
  unfoldable pub create : D → D → ℕ → TokenBucket D
  create capacity refill_rate_per_sec now = record {
    capacity = capacity;
    refill_rate_per_sec = refill_rate_per_sec;
    tokens = capacity;
    last_refill = now;
  }

  -- `elapsed * refillRatePerSec_` of `refill`, negative if the clock has gone back.
  pub new_tokens : TokenBucket D → ℕ → D
  new_tokens b now = d.mul (seconds_between b.last_refill now) b.refill_rate_per_sec

  unfoldable pub refill : TokenBucket D → ℕ → TokenBucket D
  refill b now = record b {
    tokens = std_min b.capacity (d.add b.tokens (new_tokens b now));
    last_refill = now;
  }

  -- The decision of `allowRequest` on the refilled bucket.
  pub take_token : TokenBucket D → TokenBucket D × Bool
  take_token b =
      if d.le d.one b.tokens then (record b { tokens = d.sub b.tokens d.one }, true) else (b, false)

  unfoldable pub allow_request : TokenBucket D → ℕ → TokenBucket D × Bool
  unfolding refill take_token new_tokens seconds_between
  allow_request b now = take_token (refill b now)

  unfoldable pub get_state : TokenBucket D → Bytes
  get_state b =
      codes "tokens="
      ++ (d.show_fixed b.tokens
          ++ (codes "/"
              ++ (d.show_fixed b.capacity
                  ++ (codes " refill=" ++ (d.show_fixed b.refill_rate_per_sec ++ codes "/s")))))

  unfoldable pub reset : TokenBucket D → ℕ → TokenBucket D
  reset b now = record b { tokens = b.capacity; last_refill = now }

abbrev pub algorithm_name : Bytes
algorithm_name = codes "TokenBucket"
