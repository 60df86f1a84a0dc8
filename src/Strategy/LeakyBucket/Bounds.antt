-- ===== src/Strategy/LeakyBucket/Bounds.antt =====
-- What a leaky bucket holds and admits at most.
use policy_driven_rate_limit.Prelude.{
  Bool-cases, List, [], ap, arith, inl, inr, length, true, ℕ, ◌*◌, ◌+◌, ◌-◌, ◌∷◌, ◌≡◌, ◌≤◌,
}
use policy_driven_rate_limit.Double.{Doubles, DoubleLaws, std_max, seconds_between-steady}
use policy_driven_rate_limit.Strategy.Run.{final, admitted, tally, IsSteady}
use policy_driven_rate_limit.Strategy.LeakyBucket.{LeakyBucket, drained, leak, pour, allow_request}

module _ {D : Type 0} ⦃d : Doubles D⦄ (l : DoubleLaws d) where
  -- Validated parameters, and a level between 0 and the capacity.
  pub record IsValid (b : LeakyBucket D) : Type 0 where
    pub capacity_nonneg : d.le d.zero b.capacity ≡ true
    pub rate_nonneg : d.le d.zero b.leak_rate ≡ true
    pub rate_finite : d.is_finite b.leak_rate ≡ true
    pub queue_nonneg : d.le d.zero b.queue ≡ true
    pub within : l.value b.queue ≤ l.value b.capacity

  -- Where the clock has not gone back.
  drained-steady :
      (b : LeakyBucket D) (now : ℕ)
      → b.last_leak ≤ now
      → drained b now ≡ d.mul (d.seconds (now - b.last_leak)) b.leak_rate
  unfolding drained
  drained-steady b now h =
      ap (λ (x : D). d.mul x b.leak_rate) (seconds_between-steady b.last_leak now h)

  drained_nonneg :
      (b : LeakyBucket D) (now : ℕ)
      → b.last_leak ≤ now
      → IsValid b
      → d.le d.zero (drained b now) ≡ true
  drained_nonneg b now h v =
      rw (drained-steady b now h)
        (l.mul_nonneg _ _ (l.seconds_nonneg _) v.rate_nonneg (l.seconds_finite _) v.rate_finite)

  -- Draining leaves a level that is not negative, and no higher than before.
  max-sub :
      (x y : D)
      → d.le d.zero x ≡ true
      → d.le d.zero y ≡ true
      → (d.le d.zero (std_max d.zero (d.sub x y)) ≡ true)
        × (l.value (std_max d.zero (d.sub x y)) ≤ l.value x)
  max-sub x y p q =
      let z = d.sub x y in
      ground (
        arith,
        l.nonneg_of_lt d.zero z l.zero_nonneg,
        l.sub_le x y p q,
        l.zero_nonneg,
        l.value-zero,
      )

  leak-IsValid :
      (b : LeakyBucket D) (now : ℕ) → b.last_leak ≤ now → IsValid b → IsValid (leak b now)
  unfolding leak
  leak-IsValid b now h v =
      let m = max-sub b.queue (drained b now) v.queue_nonneg (drained_nonneg b now h v) in
      record {
        capacity_nonneg = v.capacity_nonneg;
        rate_nonneg = v.rate_nonneg;
        rate_finite = v.rate_finite;
        queue_nonneg = m.0;
        within = omega (arith, m.1, v.within);
      }

  pour-IsValid : (b : LeakyBucket D) → IsValid b → IsValid (pour b).0
  unfolding pour
  pour-IsValid b v =
      let grown = l.add_nonneg b.queue d.one v.queue_nonneg l.one_nonneg in
      ground (arith, grown, (l.le_iff (d.add b.queue d.one) b.capacity grown.0 v.capacity_nonneg).0)

  -- The level stays between 0 and the capacity while the clock does not go back.
  pub allow_request-IsValid :
      (b : LeakyBucket D) (now : ℕ)
      → b.last_leak ≤ now
      → IsValid b
      → IsValid (allow_request b now).0
  unfolding allow_request
  allow_request-IsValid b now h v = pour-IsValid (leak b now) (leak-IsValid b now h v)

  -- What runs out between these readings, the clock having last been read at `last`.
  abbrev pub drains : D → ℕ → List ℕ → ℕ
  drains rate last [] = 0
  drains rate last (t ∷ ts) = l.value (d.mul (d.seconds (t - last)) rate) + drains rate t ts

  -- Draining and pouring in round by at most `slack` each.
  pub record RoundsBy (slack : ℕ) (capacity : D) : Type 0 where
    pub drain :
        (x y : D)
        → d.le d.zero x ≡ true
        → d.le d.zero y ≡ true
        → l.value x ≤ l.value capacity
        → l.value x ≤ l.value (std_max d.zero (d.sub x y)) + l.value y + slack
    pub fill :
        (x : D)
        → d.le d.zero x ≡ true
        → l.value (d.add x d.one) ≤ l.value capacity
        → l.value x + l.unit ≤ l.value (d.add x d.one) + slack

  pour_value :
      (slack : ℕ) (b : LeakyBucket D)
      → RoundsBy slack b.capacity
      → IsValid b
      → l.value b.queue + tally (pour b).1 * l.unit ≤ l.value (pour b).0.queue + slack
  unfolding pour
  pour_value slack b r v = elim (Bool-cases (d.le (d.add b.queue d.one) b.capacity)) [
    | inl fits ↦
        let grown = l.add_nonneg b.queue d.one v.queue_nonneg l.one_nonneg in
        let below = (l.le_iff (d.add b.queue d.one) b.capacity grown.0 v.capacity_nonneg).0 fits in
        rw fits (omega (arith, r.fill b.queue v.queue_nonneg below))
    | inr full ↦ rw full (omega arith)
  ]

  request_value :
      (slack : ℕ) (b : LeakyBucket D) (now : ℕ)
      → RoundsBy slack b.capacity
      → b.last_leak ≤ now
      → IsValid b
      → l.value b.queue + tally (allow_request b now).1 * l.unit
        ≤ l.value (allow_request b now).0.queue
          + l.value (d.mul (d.seconds (now - b.last_leak)) b.leak_rate)
          + 2 * slack
  unfolding allow_request
  request_value slack b now r h v = omega (
    arith,
    ap l.value (drained-steady b now h),
    pour_value slack (leak b now) r (leak-IsValid b now h v),
    r.drain b.queue (drained b now) v.queue_nonneg (drained_nonneg b now h v) v.within,
  )

  request_frame :
      (b : LeakyBucket D) (now : ℕ)
      → ((allow_request b now).0.capacity ≡ b.capacity)
        × ((allow_request b now).0.leak_rate ≡ b.leak_rate)
        × ((allow_request b now).0.last_leak ≡ now)
  unfolding allow_request
  request_frame b now = ground arith

  -- The admitted requests that have not run out stand in the bucket.
  pub queue_bound :
      (slack : ℕ) (b : LeakyBucket D) (ts : List ℕ)
      → RoundsBy slack b.capacity
      → IsSteady b.last_leak ts
      → IsValid b
      → (l.value b.queue + admitted allow_request b ts * l.unit
          ≤ l.value (final allow_request b ts).queue
            + drains b.leak_rate b.last_leak ts
            + length ts * (2 * slack))
        × (l.value (final allow_request b ts).queue ≤ l.value b.capacity)
  queue_bound slack b [] r s v = (omega arith, v.within)
  queue_bound slack b (t ∷ ts) r s v =
      let b' = (allow_request b t).0 in
      let f = request_frame b t in
      let later =
        queue_bound slack b' ts (rw f.0 r) (rw f.2 s.1) (allow_request-IsValid b t s.0 v) in
      let rest : l.value b'.queue + admitted allow_request b' ts * l.unit
          ≤ l.value (final allow_request b' ts).queue
            + drains b.leak_rate t ts
            + length ts * (2 * slack) =
        rw (f.1, f.2) at later.0 in
      (omega (arith, request_value slack b t r s.0 v, rest), rw f.0 at later.1)

  -- Given the laws of doubles in Double.Laws: over any sequence of requests to a valid leaky bucket
  -- whose clock readings never go back, the admitted ones (one unit each) are at most the capacity,
  -- what each request lets run out, and twice `slack` per request, where `slack` bounds the
  -- rounding of a difference and of a sum within the capacity.
  pub admitted-le-drains :
      (slack : ℕ) (b : LeakyBucket D) (ts : List ℕ)
      → RoundsBy slack b.capacity
      → IsSteady b.last_leak ts
      → IsValid b
      → admitted allow_request b ts * l.unit
        ≤ l.value b.capacity + drains b.leak_rate b.last_leak ts + length ts * (2 * slack)
  admitted-le-drains slack b ts r s v = omega (arith, queue_bound slack b ts r s v)
