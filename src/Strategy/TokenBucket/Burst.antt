-- ===== src/Strategy/TokenBucket/Burst.antt =====
-- What a token bucket admits at least, and what one without refill admits at all.
use policy_driven_rate_limit.Prelude.{
  List, [], ap, arith, length, refl, true, ℕ, ◌*◌, ◌+◌, ◌-◌, ◌∙◌, ◌∷◌, ◌≡◌, ◌≤◌,
}
use policy_driven_rate_limit.Double.{Doubles, DoubleLaws}
use policy_driven_rate_limit.Strategy.Run.{final, admitted, IsSteady}
use policy_driven_rate_limit.Strategy.TokenBucket.{
  TokenBucket, refill, new_tokens, take_token, allow_request,
}
use policy_driven_rate_limit.Strategy.TokenBucket.Bounds.{
  IsValid, new_tokens-steady, new_tokens_nonneg, refill-IsValid, allow_request-IsValid,
  take_token_value, request_frame,
}

module _ {D : Type 0} ⦃d : Doubles D⦄ (l : DoubleLaws d) where
  -- A refill takes no token away where the clock has not gone back.
  refill_grows :
      (b : TokenBucket D) (now : ℕ)
      → b.last_refill ≤ now
      → IsValid l b
      → l.value b.tokens ≤ l.value (refill b now).tokens
  unfolding refill
  refill_grows b now h v =
      let extra = new_tokens b now in
      let grown = l.add_nonneg b.tokens extra v.tokens_nonneg (new_tokens_nonneg l b now h v) in
      ground (arith, grown, v.within)

  take_token_full :
      (b : TokenBucket D) → IsValid l b → l.unit ≤ l.value b.tokens → (take_token b).1 ≡ true
  unfolding take_token
  take_token_full b v h =
      rw ((l.le_iff d.one b.tokens l.one_nonneg v.tokens_nonneg).1 (omega (arith, l.value-one, h)))

  request_full :
      (b : TokenBucket D) (now : ℕ)
      → b.last_refill ≤ now
      → IsValid l b
      → l.unit ≤ l.value b.tokens
      → ((allow_request b now).1 ≡ true)
        × (l.value b.tokens ≤ l.value (allow_request b now).0.tokens + l.unit)
  unfolding allow_request
  request_full b now s v h =
      let r = refill b now in
      let rv = refill-IsValid l b now s v in
      let grows = refill_grows b now s v in
      let taken = take_token_full r rv (omega (arith, grows, h)) in
      let paid = (take_token_value l r rv).0 in (taken, omega (arith, grows, rw taken at paid))

  -- Given the laws of doubles in Double.Laws: a valid bucket whose tokens are at least the number
  -- of requests admits all of them, at whatever clock readings that never go back.
  pub burst :
      (b : TokenBucket D) (ts : List ℕ)
      → IsSteady b.last_refill ts
      → IsValid l b
      → length ts * l.unit ≤ l.value b.tokens
      → admitted allow_request b ts ≡ length ts
  burst b [] s v h = refl
  burst b (t ∷ ts) s v h =
      let step = request_full b t s.0 v (omega (arith, h)) in
      let later =
        burst (allow_request b t).0 ts (rw (request_frame l b t).2 s.1)
          (allow_request-IsValid l b t s.0 v) (omega (arith, h, step.1)) in
      rw step.0 (omega (arith, later))

  refill_zero :
      (b : TokenBucket D) (now : ℕ)
      → b.last_refill ≤ now
      → IsValid l b
      → l.value b.refill_rate_per_sec ≡ 0
      → l.value (refill b now).tokens ≡ l.value b.tokens
  unfolding refill
  refill_zero b now h v z =
      let extra = new_tokens b now in
      let nothing_new =
        l.mul-zero (d.seconds (now - b.last_refill)) b.refill_rate_per_sec
          (l.seconds_nonneg (now - b.last_refill)) (l.seconds_finite (now - b.last_refill))
          v.rate_nonneg z in
      let nothing = ap l.value (new_tokens-steady l b now h) ∙ nothing_new in
      let same =
        l.add-zero b.tokens extra v.tokens_nonneg (new_tokens_nonneg l b now h v) nothing in
      let grown = l.add_nonneg b.tokens extra v.tokens_nonneg (new_tokens_nonneg l b now h v) in
      ground (
        arith,
        same,
        v.within,
        (l.lt_iff (d.add b.tokens extra) b.capacity grown.0 v.capacity_nonneg).1,
      )

  -- Given the laws of doubles in Double.Laws: for a valid bucket with a refill rate of 0, and
  -- clock readings that never go back, the admitted requests (one unit each) and the tokens left are exactly the tokens at the start.
  pub admitted_zero_rate :
      (b : TokenBucket D) (ts : List ℕ)
      → IsSteady b.last_refill ts
      → IsValid l b
      → l.value b.refill_rate_per_sec ≡ 0
      → admitted allow_request b ts * l.unit + l.value (final allow_request b ts).tokens
        ≡ l.value b.tokens
  unfolding allow_request
  admitted_zero_rate b [] s v z = omega arith
  admitted_zero_rate b (t ∷ ts) s v z =
      let b' = (allow_request b t).0 in
      let paid = (take_token_value l (refill b t) (refill-IsValid l b t s.0 v)).0 in
      let later =
        admitted_zero_rate b' ts (rw (request_frame l b t).2 s.1)
          (allow_request-IsValid l b t s.0 v) (rw (request_frame l b t).1 z) in
      omega (arith, paid, later, refill_zero b t s.0 v z)
