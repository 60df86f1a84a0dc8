-- ===== src/Strategy/SlidingWindowCounter/Bounds.antt =====
-- The counts of the two windows stay within the limit, rounding included.
use policy_driven_rate_limit.Prelude.{
  All, Bool-cases, List, [], arith, false, inl, inr, refl, subst₂, sym, true, ℕ, ◌*◌, ◌+◌, ◌<◌, ◌∷◌,
  ◌≡◌, ◌≤◌, ◌⊎◌,
}
use policy_driven_rate_limit.Double.{Doubles, DoubleLaws, seconds_between, seconds_between-steady}
use policy_driven_rate_limit.Strategy.Run.{admitted, tally}
use policy_driven_rate_limit.Strategy.SlidingWindowCounter.{
  SlidingWindowCounter, elapsed, advance_window, estimate, count_request, allow_request,
}

lt_of_scaled : (a b u : ℕ) → a * u < b * u → a < b
lt_of_scaled a b u h = grind arith

module _ {D : Type 0} ⦃d : Doubles D⦄ (l : DoubleLaws d) where
  -- Validated parameters, and counts within the limit.
  pub record IsValid (b : SlidingWindowCounter D) : Type 0 where
    pub limit_pos : 0 < b.limit
    pub limit_int : b.limit < 2147483648
    pub window_pos : d.lt d.zero b.window_secs ≡ true
    pub prev_within : b.prev_count ≤ b.limit
    pub curr_within : b.curr_count ≤ b.limit

  -- While the window lasts, the estimate is at least the current count.
  curr-le-estimate :
      (b : SlidingWindowCounter D) (now : ℕ)
      → b.window_start ≤ now
      → IsValid b
      → d.le b.window_secs (elapsed b now) ≡ false
      → (d.le d.zero (estimate b now) ≡ true) × (b.curr_count * l.unit ≤ l.value (estimate b now))
  unfolding estimate
  curr-le-estimate b now s v h =
      let elapsed_nonneg : d.le d.zero (elapsed b now) ≡ true =
        rw (seconds_between-steady b.window_start now s) (l.seconds_nonneg _) in
      let rest = l.remaining_fraction (elapsed b now) b.window_secs elapsed_nonneg v.window_pos h in
      let weighted =
        l.mul_nonneg (d.of_int b.prev_count) _ (l.of_int_nonneg b.prev_count) rest.0
          (l.of_int_finite b.prev_count) rest.1 in
      let sum = l.add_nonneg _ (d.of_int b.curr_count) weighted (l.of_int_nonneg b.curr_count) in
      (sum.0, omega (arith, sum.2, l.value-of_int b.curr_count, v.curr_within, v.limit_int))

  -- So a request is counted only below the limit.
  count_request_below :
      (b : SlidingWindowCounter D) (now : ℕ)
      → b.window_start ≤ now
      → IsValid b
      → d.le b.window_secs (elapsed b now) ≡ false
      → d.lt (estimate b now) (d.of_int b.limit) ≡ true
      → b.curr_count < b.limit
  count_request_below b now s v h below =
      let e = curr-le-estimate b now s v h in
      lt_of_scaled b.curr_count b.limit l.unit (
        omega (
          arith,
          e.1,
          (l.lt_iff (estimate b now) (d.of_int b.limit) e.0 (l.of_int_nonneg b.limit)).0 below,
          l.value-of_int b.limit v.limit_int,
        ))

  count_request-IsValid :
      (b : SlidingWindowCounter D) (now : ℕ)
      → IsValid b
      → (b.curr_count ≡ 0) ⊎ ((b.window_start ≤ now) × (d.le b.window_secs (elapsed b now) ≡ false))
      → IsValid (count_request b now).0
  unfolding count_request
  count_request-IsValid b now v (inl fresh) = ground (arith, v.limit_pos)
  count_request-IsValid b now v (inr (s, h)) = ground (arith, count_request_below b now s v h)

  advance-IsValid :
      (b : SlidingWindowCounter D) (now : ℕ) → IsValid b → IsValid (advance_window b now)
  unfolding advance_window
  advance-IsValid b now v = ground arith

  -- Given the laws of doubles in Double.Laws: a request keeps the invariant of a sliding window
  -- counter, by which the current and the previous count are at most the limit, also where rounding
  -- leaves the window over by less than a tick.
  pub counts-IsValid :
      (b : SlidingWindowCounter D) (now : ℕ)
      → b.window_start ≤ now
      → IsValid b
      → IsValid (allow_request b now).0
  unfolding allow_request
  counts-IsValid b now s v = elim (Bool-cases (d.le b.window_secs (elapsed b now))) [
    | inl over ↦ rw over (
        count_request-IsValid (advance_window b now) now (advance-IsValid b now v)
          (inl (unfold advance_window in refl)))
    | inr lasting ↦ rw lasting (count_request-IsValid b now v (inr (s, lasting)))
  ]

  count_request_frame :
      (b : SlidingWindowCounter D) (now : ℕ)
      → d.le b.window_secs (elapsed b now) ≡ false
      → ((allow_request b now).0.limit ≡ b.limit)
        × ((allow_request b now).0.window_secs ≡ b.window_secs)
        × ((allow_request b now).0.window_start ≡ b.window_start)
        × ((allow_request b now).0.curr_count ≡ b.curr_count + tally (allow_request b now).1)
  unfolding allow_request
  count_request_frame b now h = ground arith

  -- Given the laws of doubles in Double.Laws: over requests at readings of the clock from the start
  -- of the window of a valid sliding window counter on, before the window has ended, the current
  -- count and the admitted requests are at most the limit.
  pub admitted-le-rest :
      (b : SlidingWindowCounter D) (ts : List ℕ)
      → IsValid b
      → All (λ t. (b.window_start ≤ t) × (d.le b.window_secs (elapsed b t) ≡ false)) ts
      → b.curr_count + admitted allow_request b ts ≤ b.limit
  admitted-le-rest b [] v h = omega (arith, v.curr_within)
  admitted-le-rest b (t ∷ ts) v h =
      let b' = (allow_request b t).0 in
      let f = count_request_frame b t h.0.1 in
      let lasting =
        subst₂ (λ (w : D) (s : ℕ). All (λ u. (s ≤ u) × (d.le w (seconds_between s u) ≡ false)) ts)
          (sym f.1) (sym f.2) h.1 in
      let later = admitted-le-rest b' ts (counts-IsValid b t h.0.0 v) lasting in
      omega (arith, f.0, f.3, later)
