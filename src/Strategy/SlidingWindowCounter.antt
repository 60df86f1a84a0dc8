-- ===== src/Strategy/SlidingWindowCounter.antt =====
-- SlidingWindowCounter.h and SlidingWindowCounter.cpp. The counts and `limit_` are ints that are not
-- negative; a window start is a reading of the clock in ticks.
pub mod Bounds
use policy_driven_rate_limit.Prelude.{
  Bool, Bytes, codes, decimal, false, if◌then◌else◌, true, ℕ, ◌++◌, ◌+◌, ◌-◌, ◌==◌,
}
use policy_driven_rate_limit.Double.{Doubles, seconds_between}

pub record SlidingWindowCounter (D : Type 0) : Type 0 where
  pub limit : ℕ
  pub window_secs : D
  pub prev_count : ℕ
  pub curr_count : ℕ
  pub window_start : ℕ

module _ {D : Type 0} ⦃d : Doubles D⦄ where
  unfoldable pub create : ℕ → D → ℕ → SlidingWindowCounter D
  create limit window_secs now = record {
    limit = limit;
    window_secs = window_secs;
    prev_count = 0;
    curr_count = 0;
    window_start = now;
  }

  -- `duration<double>(now - windowStart_).count()`, negative where rounding has put the start of the
  -- window ahead of the clock.
  abbrev pub elapsed : SlidingWindowCounter D → ℕ → D
  elapsed b now = seconds_between b.window_start now

  -- The body of `if (elapsed >= windowSecs_)`.
  unfoldable pub advance_window : SlidingWindowCounter D → ℕ → SlidingWindowCounter D
  advance_window b now =
      let windows_passed = d.to_int (d.div (elapsed b now) b.window_secs) in
      record b {
        prev_count = if windows_passed == 1 then b.curr_count else 0;
        curr_count = 0;
        window_start = b.window_start + d.ticks (d.mul (d.of_int windows_passed) b.window_secs);
      }

  unfoldable pub maybe_advance_window : SlidingWindowCounter D → ℕ → SlidingWindowCounter D
  unfolding advance_window
  maybe_advance_window b now =
      if d.le b.window_secs (elapsed b now) then advance_window b now else b

  -- `prevCount_ * (1.0 - f) + currCount_`.
  unfoldable pub estimate : SlidingWindowCounter D → ℕ → D
  estimate b now =
      let f = d.div (elapsed b now) b.window_secs in
      d.add (d.mul (d.of_int b.prev_count) (d.sub d.one f)) (d.of_int b.curr_count)

  unfoldable pub count_request : SlidingWindowCounter D → ℕ → SlidingWindowCounter D × Bool
  unfolding estimate
  count_request b now =
      if d.lt (estimate b now) (d.of_int b.limit)
      then (record b { curr_count = b.curr_count + 1 }, true)
      else (b, false)

  unfoldable pub allow_request : SlidingWindowCounter D → ℕ → SlidingWindowCounter D × Bool
  unfolding maybe_advance_window count_request
  allow_request b now = count_request (maybe_advance_window b now) now

  unfoldable pub get_state : SlidingWindowCounter D → ℕ → Bytes
  unfolding estimate
  get_state b now =
      codes "prev="
      ++ (decimal b.prev_count
          ++ (codes " curr="
              ++ (decimal b.curr_count
                  ++ (codes " f="
                      ++ (d.show_fixed (d.div (elapsed b now) b.window_secs)
                          ++ (codes " estimate="
                              ++ (d.show_fixed (estimate b now)
                                  ++ (codes "/"
                                      ++ (decimal b.limit
                                          ++ (codes " window="
                                              ++ (d.show_fixed b.window_secs ++ codes "s")))))))))))

  unfoldable pub reset : SlidingWindowCounter D → ℕ → SlidingWindowCounter D
  reset b now = record b { prev_count = 0; curr_count = 0; window_start = now }

abbrev pub algorithm_name : Bytes
algorithm_name = codes "SlidingWindowCounter"
