-- ===== src/Tests/Windows.antt =====
-- The three algorithms that count in windows.
use policy_driven_rate_limit.Prelude.{
  List, [], arith, false, refl, replicate, true, ℕ, ◌*◌, ◌++◌, ◌+◌, ◌∷◌, ◌≡◌, ◌≤◌,
}
use policy_driven_rate_limit.Double.{fixed, fixed_laws, seconds_between}
use policy_driven_rate_limit.Strategy.Run.{admitted}
use policy_driven_rate_limit.Strategy.FixedWindowCounter.{FixedWindowCounter}
use policy_driven_rate_limit.Strategy.FixedWindowCounter
use policy_driven_rate_limit.Strategy.SlidingWindowLog.{SlidingWindowLog}
use policy_driven_rate_limit.Strategy.SlidingWindowLog
use policy_driven_rate_limit.Strategy.SlidingWindowCounter.{SlidingWindowCounter}
use policy_driven_rate_limit.Strategy.SlidingWindowCounter

-- Two requests a second.
abbrev two_a_second : FixedWindowCounter ℕ
two_a_second = record { limit = 2; window_secs = 1000; counter = 0; window_start = 0 }

two_a_second_run :
    admitted FixedWindowCounter.allow_request two_a_second (10 ∷ 20 ∷ 30 ∷ 1000 ∷ []) ≡ 3
unfolding FixedWindowCounter.allow_request FixedWindowCounter.window_expired
two_a_second_run = refl

admitted_in_window_example :
    admitted FixedWindowCounter.allow_request two_a_second (10 ∷ 20 ∷ 999 ∷ []) ≡ 2
unfolding FixedWindowCounter.window_expired
admitted_in_window_example =
    FixedWindowCounter.Bounds.admitted_in_window two_a_second (10 ∷ 20 ∷ 999 ∷ [])
      (refl, (refl, (refl, tt)))

admitted-le-openings_example :
    0 + admitted FixedWindowCounter.allow_request two_a_second (10 ∷ 2000 ∷ [])
    ≤ 2 + FixedWindowCounter.Bounds.openings two_a_second (10 ∷ 2000 ∷ []) * 2
admitted-le-openings_example =
    FixedWindowCounter.Bounds.admitted-le-openings two_a_second (10 ∷ 2000 ∷ []) (omega arith)

boundary_burst_example :
    admitted
      (FixedWindowCounter.allow_request {D = ℕ})
      (FixedWindowCounter.create 2 1000 0)
      (replicate 2 990 ++ replicate 2 1010)
    ≡ 4
unfolding seconds_between
boundary_burst_example = FixedWindowCounter.Bounds.boundary_burst 2 1000 0 990 1010 refl refl refl

abbrev arrivals : List ℕ
arrivals = 1 ∷ 400 ∷ 800 ∷ 1200 ∷ 1300 ∷ []

decisions-create_example :
    SlidingWindowLog.Bounds.decisions
      (SlidingWindowLog.allow_request {D = ℕ})
      (SlidingWindowLog.create 2 1000)
      arrivals
    ≡ SlidingWindowLog.Bounds.spec_decisions {D = ℕ} 2 1000 [] arrivals
decisions-create_example =
    SlidingWindowLog.Bounds.decisions-create fixed_laws 2 1000 0 arrivals refl (omega arith)

spec_run :
    SlidingWindowLog.Bounds.spec_decisions {D = ℕ} 2 1000 [] arrivals
    ≡ true ∷ true ∷ false ∷ true ∷ false ∷ []
unfolding SlidingWindowLog.outdated
spec_run = refl

window_bound_example :
    SlidingWindowLog.Bounds.in_window {D = ℕ} 1000 1300 (
      (5 ∷ [])
      ++ SlidingWindowLog.Window.admitted_times
          (SlidingWindowLog.allow_request {D = ℕ})
          (record { limit = 2; window_secs = 1000; log = 5 ∷ [] })
          arrivals)
    ≤ 2
window_bound_example =
    SlidingWindowLog.Window.window_bound fixed_laws 2 1000 (5 ∷ []) arrivals 1300 refl (omega arith)
      (omega arith)

abbrev three_weighted : SlidingWindowCounter ℕ
three_weighted = record {
  limit = 3;
  window_secs = 1000;
  prev_count = 2;
  curr_count = 1;
  window_start = 0;
}

three_weighted-IsValid : SlidingWindowCounter.Bounds.IsValid fixed_laws three_weighted
three_weighted-IsValid = record {
  limit_pos = omega arith;
  limit_int = omega arith;
  window_pos = refl;
  prev_within = omega arith;
  curr_within = omega arith;
}

admitted-le-rest_example :
    1 + admitted SlidingWindowCounter.allow_request three_weighted (900 ∷ 990 ∷ 995 ∷ []) ≤ 3
unfolding seconds_between
admitted-le-rest_example =
    SlidingWindowCounter.Bounds.admitted-le-rest fixed_laws three_weighted (900 ∷ 990 ∷ 995 ∷ [])
      three_weighted-IsValid ((omega arith, refl), ((omega arith, refl), ((omega arith, refl), tt)))
