-- ===== src/Strategy/FixedWindowCounter.antt =====
-- FixedWindowCounter.h and FixedWindowCounter.cpp. `limit_` is an int that is not negative, as
-- validation has it.
pub mod Bounds
use policy_driven_rate_limit.Prelude.{
  Bool, Bytes, codes, decimal, false, if◌then◌else◌, ltb, true, zero, ℕ, ◌++◌, ◌+◌, ◌-◌,
}
use policy_driven_rate_limit.Double.{Doubles, seconds_between}

pub record FixedWindowCounter (D : Type 0) : Type 0 where
  pub limit : ℕ
  pub window_secs : D
  pub counter : ℕ
  pub window_start : ℕ

module _ {D : Type 0} ⦃d : Doubles D⦄ where
  unfoldable pub create : ℕ → D → ℕ → FixedWindowCounter D
  create limit window_secs now = record {
    limit = limit;
    window_secs = window_secs;
    counter = 0;
    window_start = now;
  }

  -- `elapsed >= windowSecs_`.
  unfoldable pub window_expired : FixedWindowCounter D → ℕ → Bool
  unfolding seconds_between
  window_expired b now = d.le b.window_secs (seconds_between b.window_start now)

  unfoldable pub open_window : FixedWindowCounter D → ℕ → FixedWindowCounter D
  open_window b now =
      if window_expired b now then record b { counter = 0; window_start = now } else b

  unfoldable pub count_request : FixedWindowCounter D → FixedWindowCounter D × Bool
  count_request b =
      if ltb b.counter b.limit then (record b { counter = b.counter + 1 }, true) else (b, false)

  unfoldable pub allow_request : FixedWindowCounter D → ℕ → FixedWindowCounter D × Bool
  unfolding open_window count_request
  allow_request b now = count_request (open_window b now)

  unfoldable pub get_state : FixedWindowCounter D → ℕ → Bytes
  get_state b now =
      let difference = d.sub b.window_secs (seconds_between b.window_start now) in
      let remaining = if d.lt difference d.zero then d.zero else difference in
      codes "count="
      ++ (decimal b.counter
          ++ (codes "/"
              ++ (decimal b.limit
                  ++ (codes " window_remaining="
                      ++ (d.show_fixed remaining
                          ++ (codes "s window=" ++ (d.show_fixed b.window_secs ++ codes "s")))))))

  unfoldable pub reset : FixedWindowCounter D → ℕ → FixedWindowCounter D
  reset b now = record b { counter = 0; window_start = now }

abbrev pub algorithm_name : Bytes
algorithm_name = codes "FixedWindowCounter"
