-- ===== src/Strategy/LeakyBucket.antt =====
-- LeakyBucket.h and LeakyBucket.cpp. The reading of the steady clock, in ticks, is an argument of
-- each method that takes one.
pub mod Bounds
use policy_driven_rate_limit.Prelude.{Bool, Bytes, codes, false, if◌then◌else◌, true, zero, ℕ, ◌++◌}
use policy_driven_rate_limit.Double.{Doubles, std_max, seconds_between}

pub record LeakyBucket (D : Type 0) : Type 0 where
  pub capacity : D
  pub leak_rate : D
  pub queue : D
  pub last_leak : ℕ

module _ {D : Type 0} ⦃d : Doubles D⦄ where
  unfoldable pub create : D → D → ℕ → LeakyBucket D
  create capacity leak_rate now = record {
    capacity = capacity;
    leak_rate = leak_rate;
    queue = d.zero;
    last_leak = now;
  }

  -- `elapsed * leakRate_`: what runs out between the last request and `now`; negative if the clock
  -- has gone back.
  pub drained : LeakyBucket D → ℕ → D
  drained b now = d.mul (seconds_between b.last_leak now) b.leak_rate

  unfoldable pub leak : LeakyBucket D → ℕ → LeakyBucket D
  unfolding drained
  leak b now = record b { queue = std_max d.zero (d.sub b.queue (drained b now)); last_leak = now }

  -- The decision of `allowRequest` on the level that is left.
  pub pour : LeakyBucket D → LeakyBucket D × Bool
  pour b =
      if d.le (d.add b.queue d.one) b.capacity
      then (record b { queue = d.add b.queue d.one }, true)
      else (b, false)

  unfoldable pub allow_request : LeakyBucket D → ℕ → LeakyBucket D × Bool
  unfolding leak pour seconds_between
  allow_request b now = pour (leak b now)

  -- The level is drained for display only.
  unfoldable pub get_state : LeakyBucket D → ℕ → Bytes
  get_state b now =
      let elapsed = seconds_between b.last_leak now in
      let display_queue = std_max d.zero (d.sub b.queue (d.mul elapsed b.leak_rate)) in
      codes "queue="
      ++ (d.show_fixed display_queue
          ++ (codes "/"
              ++ (d.show_fixed b.capacity
                  ++ (codes " leak=" ++ (d.show_fixed b.leak_rate ++ codes "/s")))))

  unfoldable pub reset : LeakyBucket D → ℕ → LeakyBucket D
  reset b now = record b { queue = d.zero; last_leak = now }

abbrev pub algorithm_name : Bytes
algorithm_name = codes "LeakyBucket"
