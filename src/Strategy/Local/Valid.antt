-- ===== src/Strategy/Local/Valid.antt =====
-- The invariants of the five classes behind the interface.
use policy_driven_rate_limit.Prelude.{
  List, [], arith, length, length-append, refl, ℕ, ◌∷◌, ◌≡◌, ◌≤◌,
}
use policy_driven_rate_limit.Double.{Doubles, DoubleLaws}
use policy_driven_rate_limit.Strategy.Local.{
  LocalStrategy, token_bucket, leaky_bucket, fixed_window, sliding_log, sliding_counter,
  allow_request, reset, algorithm_name,
}
use policy_driven_rate_limit.Strategy.TokenBucket
use policy_driven_rate_limit.Strategy.LeakyBucket
use policy_driven_rate_limit.Strategy.FixedWindowCounter
use policy_driven_rate_limit.Strategy.SlidingWindowLog
use policy_driven_rate_limit.Strategy.SlidingWindowCounter

module _ {D : Type 0} ⦃d : Doubles D⦄ (l : DoubleLaws d) where
  -- Levels between 0 and the capacity, counts and logs within the limit.
  abbrev pub IsValid : LocalStrategy D → Type 0
  IsValid (token_bucket b) = TokenBucket.Bounds.IsValid l b
  IsValid (leaky_bucket b) = LeakyBucket.Bounds.IsValid l b
  IsValid (fixed_window b) = b.counter ≤ b.limit
  IsValid (sliding_log b) = length b.log ≤ b.limit
  IsValid (sliding_counter b) = SlidingWindowCounter.Bounds.IsValid l b

  -- The reading of the clock that the next one may not be behind: that of the last refill or leak, or
  -- of the start of the window. The other classes keep their invariant whatever the clock reads.
  abbrev pub last_reading : LocalStrategy D → ℕ
  last_reading (token_bucket b) = b.last_refill
  last_reading (leaky_bucket b) = b.last_leak
  last_reading (fixed_window b) = 0
  last_reading (sliding_log b) = 0
  last_reading (sliding_counter b) = b.window_start

  log_bounded :
      (w : D) (limit now : ℕ) (log : List ℕ)
      → length log ≤ limit
      → length (SlidingWindowLog.evict_old_entries w now log) ≤ limit
  log_bounded w limit now log h =
      omega (arith, h, SlidingWindowLog.Window.evict-shorter l w now log)

  log_request-bounded :
      (b : SlidingWindowLog.SlidingWindowLog D) (now : ℕ)
      → length b.log ≤ b.limit
      → length (SlidingWindowLog.allow_request b now).0.log
        ≤ (SlidingWindowLog.allow_request b now).0.limit
  unfolding SlidingWindowLog.allow_request
  log_request-bounded b now h =
      let kept = SlidingWindowLog.evict_old_entries b.window_secs now b.log in
      ground (arith, length-append kept (now ∷ []), log_bounded b.window_secs b.limit now b.log h)

  -- Given the laws of doubles in Double.Laws: for each of the five classes, a request keeps the
  -- invariant of the class: levels between 0 and the capacity, counts and the length of the log
  -- within the limit. For the two buckets and the sliding window counter the clock does not read
  -- less than at the last refill, at the last leak or at the start of the window.
  pub allow_request-IsValid :
      (s : LocalStrategy D) (now : ℕ)
      → last_reading s ≤ now
      → IsValid s
      → IsValid (allow_request s now).0
  unfolding allow_request
  allow_request-IsValid (token_bucket b) now h v =
      TokenBucket.Bounds.allow_request-IsValid l b now h v
  allow_request-IsValid (leaky_bucket b) now h v =
      LeakyBucket.Bounds.allow_request-IsValid l b now h v
  allow_request-IsValid (fixed_window b) now h v =
      let kept = FixedWindowCounter.Bounds.allow_request-le-limit b now v in
      omega (arith, kept.0, kept.1)
  allow_request-IsValid (sliding_log b) now h v = log_request-bounded b now v
  allow_request-IsValid (sliding_counter b) now h v =
      SlidingWindowCounter.Bounds.counts-IsValid l b now h v

  -- Given the laws of doubles in Double.Laws: for each of the five classes, a reset keeps the
  -- invariant of the class.
  pub reset-IsValid : (s : LocalStrategy D) (now : ℕ) → IsValid s → IsValid (reset s now)
  unfolding reset TokenBucket.reset LeakyBucket.reset FixedWindowCounter.reset
      SlidingWindowLog.reset SlidingWindowCounter.reset
  reset-IsValid (token_bucket b) now v = record {
    capacity_nonneg = v.capacity_nonneg;
    capacity_exact = v.capacity_exact;
    rate_nonneg = v.rate_nonneg;
    rate_finite = v.rate_finite;
    tokens_nonneg = v.capacity_nonneg;
    within = omega arith;
  }
  reset-IsValid (leaky_bucket b) now v = record {
    capacity_nonneg = v.capacity_nonneg;
    rate_nonneg = v.rate_nonneg;
    rate_finite = v.rate_finite;
    queue_nonneg = l.zero_nonneg;
    within = omega (arith, l.value-zero);
  }
  reset-IsValid (fixed_window b) now v = omega arith
  reset-IsValid (sliding_log b) now v = omega arith
  reset-IsValid (sliding_counter b) now v = record {
    limit_pos = v.limit_pos;
    limit_int = v.limit_int;
    window_pos = v.window_pos;
    prev_within = omega arith;
    curr_within = omega arith;
  }

  -- A class keeps its name.
  pub algorithm_name-allow_request :
      (s : LocalStrategy D) (now : ℕ) → algorithm_name (allow_request s now).0 ≡ algorithm_name s
  unfolding allow_request algorithm_name
  algorithm_name-allow_request (token_bucket b) now = refl
  algorithm_name-allow_request _ now = refl
