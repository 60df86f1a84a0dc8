-- ===== src/Strategy/TokenBucket/Bounds.antt =====
-- What a token bucket admits at most.
use policy_driven_rate_limit.Prelude.{
  Bool-cases, List, [], ap, arith, inl, inr, length, true, ℕ, ◌*◌, ◌+◌, ◌-◌, ◌∷◌, ◌≡◌, ◌≤◌,
}
use policy_driven_rate_limit.Double.{Doubles, DoubleLaws, std_min, seconds_between-steady}
use policy_driven_rate_limit.Strategy.Run.{final, admitted, tally, IsSteady}
use policy_driven_rate_limit.Strategy.TokenBucket.{
  TokenBucket, refill, new_tokens, take_token, allow_request,
}

module _ {D : Type 0} ⦃d : Doubles D⦄ (l : DoubleLaws d) where
  -- Validated parameters, and a level between 0 and the capacity.
  pub record IsValid (b : TokenBucket D) : Type 0 where
    pub capacity_nonneg : d.le d.zero b.capacity ≡ true
    pub capacity_exact : l.value b.capacity ≤ l.exact_max
    pub rate_nonneg : d.le d.zero b.refill_rate_per_sec ≡ true
    pub rate_finite : d.is_finite b.refill_rate_per_sec ≡ true
    pub tokens_nonneg : d.le d.zero b.tokens ≡ true
    pub within : l.value b.tokens ≤ l.value b.capacity

  -- Where the clock has not gone back.
  pub new_tokens-steady :
      (b : TokenBucket D) (now : ℕ)
      → b.last_refill ≤ now
      → new_tokens b now ≡ d.mul (d.seconds (now - b.last_refill)) b.refill_rate_per_sec
  unfolding new_tokens
  new_tokens-steady b now h =
      ap (λ (x : D). d.mul x b.refill_rate_per_sec) (seconds_between-steady b.last_refill now h)

  pub new_tokens_nonneg :
      (b : TokenBucket D) (now : ℕ)
      → b.last_refill ≤ now
      → IsValid b
      → d.le d.zero (new_tokens b now) ≡ true
  new_tokens_nonneg b now h v =
      rw (new_tokens-steady b now h)
        (l.mul_nonneg _ _ (l.seconds_nonneg _) v.rate_nonneg (l.seconds_finite _) v.rate_finite)

  pub min_cases :
      (a b : D)
      → d.le d.zero a ≡ true
      → d.le d.zero b ≡ true
      → (d.le d.zero (std_min a b) ≡ true)
        × (l.value (std_min a b) ≤ l.value a)
        × (l.value (std_min a b) ≤ l.value b)
  min_cases a b p q = ground (arith, (l.lt_iff b a q p).0, (l.lt_iff b a q p).1)

  pub refill-IsValid :
      (b : TokenBucket D) (now : ℕ) → b.last_refill ≤ now → IsValid b → IsValid (refill b now)
  unfolding refill
  refill-IsValid b now h v =
      let grown =
        l.add_nonneg b.tokens (new_tokens b now) v.tokens_nonneg (new_tokens_nonneg b now h v) in
      let m = min_cases b.capacity (d.add b.tokens (new_tokens b now)) v.capacity_nonneg grown.0 in
      record {
        capacity_nonneg = v.capacity_nonneg;
        capacity_exact = v.capacity_exact;
        rate_nonneg = v.rate_nonneg;
        rate_finite = v.rate_finite;
        tokens_nonneg = m.0;
        within = m.1;
      }

  pub one-le : (x : D) → d.le d.zero x ≡ true → (d.le d.one x ≡ true) → l.unit ≤ l.value x
  one-le x p q = omega (arith, (l.le_iff d.one x l.one_nonneg p).0 q, l.value-one)

  -- Taking a token takes exactly 1 away, and refusing takes nothing.
  pub take_token_value :
      (b : TokenBucket D)
      → IsValid b
      → (l.value (take_token b).0.tokens + tally (take_token b).1 * l.unit ≡ l.value b.tokens)
        × (d.le d.zero (take_token b).0.tokens ≡ true)
  unfolding take_token
  take_token_value b v = elim (Bool-cases (d.le d.one b.tokens)) [
    | inl enough ↦
        let rest =
          l.sub-one b.tokens v.tokens_nonneg (one-le b.tokens v.tokens_nonneg enough)
            (omega (arith, v.within, v.capacity_exact)) in
        rw enough (omega (arith, rest.1), rest.0)
    | inr short ↦ rw short (omega arith, v.tokens_nonneg)
  ]

  take_token_frame :
      (b : TokenBucket D)
      → ((take_token b).0.capacity ≡ b.capacity)
        × ((take_token b).0.refill_rate_per_sec ≡ b.refill_rate_per_sec)
        × ((take_token b).0.last_refill ≡ b.last_refill)
  unfolding take_token
  take_token_frame b = ground arith

  take_token-IsValid : (b : TokenBucket D) → IsValid b → IsValid (take_token b).0
  take_token-IsValid b v =
      let f = take_token_frame b in
      let t = take_token_value b v in
      record {
        capacity_nonneg = rw f.0 v.capacity_nonneg;
        capacity_exact = rw f.0 v.capacity_exact;
        rate_nonneg = rw f.1 v.rate_nonneg;
        rate_finite = rw f.1 v.rate_finite;
        tokens_nonneg = t.1;
        within = rw f.0 (omega (arith, t.0, v.within));
      }

  -- The level stays between 0 and the capacity while the clock does not go back.
  pub allow_request-IsValid :
      (b : TokenBucket D) (now : ℕ)
      → b.last_refill ≤ now
      → IsValid b
      → IsValid (allow_request b now).0
  unfolding allow_request
  allow_request-IsValid b now h v = take_token-IsValid (refill b now) (refill-IsValid b now h v)

  -- What the refills at these readings are worth, the clock having last been read at `last`.
  abbrev pub credits : D → ℕ → List ℕ → ℕ
  credits rate last [] = 0
  credits rate last (t ∷ ts) = l.value (d.mul (d.seconds (t - last)) rate) + credits rate t ts

  -- A refill that stops at the capacity rounds by at most `slack`.
  abbrev pub RoundsBy : ℕ → D → Type 0
  RoundsBy slack capacity =
      (x y : D)
      → d.le d.zero x ≡ true
      → d.le d.zero y ≡ true
      → l.value x ≤ l.value capacity
      → l.value (std_min capacity (d.add x y)) ≤ l.value x + l.value y + slack

  request_value :
      (slack : ℕ) (b : TokenBucket D) (now : ℕ)
      → RoundsBy slack b.capacity
      → b.last_refill ≤ now
      → IsValid b
      → l.value (allow_request b now).0.tokens + tally (allow_request b now).1 * l.unit
        ≤ l.value b.tokens
          + l.value (d.mul (d.seconds (now - b.last_refill)) b.refill_rate_per_sec)
          + slack
  unfolding allow_request
  request_value slack b now r h v = omega (
    arith,
    (take_token_value (refill b now) (refill-IsValid b now h v)).0,
    ap l.value (new_tokens-steady b now h),
    r b.tokens (new_tokens b now) v.tokens_nonneg (new_tokens_nonneg b now h v) v.within,
  )

  pub request_frame :
      (b : TokenBucket D) (now : ℕ)
      → ((allow_request b now).0.capacity ≡ b.capacity)
        × ((allow_request b now).0.refill_rate_per_sec ≡ b.refill_rate_per_sec)
        × ((allow_request b now).0.last_refill ≡ now)
  unfolding allow_request
  request_frame b now = take_token_frame (refill b now)

  -- Given the laws of doubles in Double.Laws: over any sequence of requests to a valid bucket whose
  -- clock readings never go back, the admitted ones (one unit each) and the tokens left are at most
  -- the tokens at the start, the credit of each refill, and `slack` per request, where `slack`
  -- bounds the rounding of a sum that stays within the capacity.
  pub admitted-le-credits :
      (slack : ℕ) (b : TokenBucket D) (ts : List ℕ)
      → RoundsBy slack b.capacity
      → IsSteady b.last_refill ts
      → IsValid b
      → admitted allow_request b ts * l.unit + l.value (final allow_request b ts).tokens
        ≤ l.value b.tokens + credits b.refill_rate_per_sec b.last_refill ts + length ts * slack
  admitted-le-credits slack b [] r s v = omega arith
  admitted-le-credits slack b (t ∷ ts) r s v =
      let b' = (allow_request b t).0 in
      let f = request_frame b t in
      let later =
        admitted-le-credits slack b' ts (rw f.0 r) (rw f.2 s.1) (allow_request-IsValid b t s.0 v) in
      let rest : admitted allow_request b' ts * l.unit + l.value (final allow_request b' ts).tokens
          ≤ l.value b'.tokens + credits b.refill_rate_per_sec t ts + length ts * slack =
        rw (f.1, f.2) at later in
      omega (arith, request_value slack b t r s.0 v, rest)
