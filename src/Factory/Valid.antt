-- ===== src/Factory/Valid.antt =====
-- The factory makes strategies that satisfy their invariants.
use policy_driven_rate_limit.Prelude.{
  Bool-cases, Bytes, List, Result, arith, codes, equal, equal_iff, inl, inr, lookup, ok, refl, some,
  sym, true, ℕ, ◌>>=◌, ◌∙◌, ◌≡◌, ◌≤◌, ◌⊎◌,
}
use policy_driven_rate_limit.Double.{Doubles, DoubleLaws}
use policy_driven_rate_limit.Policy.{normalize_algorithm_name}
use policy_driven_rate_limit.Policy.Validate.{required_params, validate_policy_configuration}
use policy_driven_rate_limit.Policy.Validate.Sound.{validate-Passed}
use policy_driven_rate_limit.Policy.Validate.Params.{
  BucketParams, WindowParams, IsWindowed, validate-TokenBucket, validate-LeakyBucket,
  validate-IsWindowed,
}
use policy_driven_rate_limit.Strategy.Local.{
  LocalStrategy, token_bucket, leaky_bucket, fixed_window, sliding_log, sliding_counter,
  algorithm_name,
}
use policy_driven_rate_limit.Strategy.Local.Valid.{IsValid}
use policy_driven_rate_limit.Strategy.TokenBucket
use policy_driven_rate_limit.Strategy.LeakyBucket
use policy_driven_rate_limit.Strategy.FixedWindowCounter
use policy_driven_rate_limit.Strategy.SlidingWindowLog
use policy_driven_rate_limit.Strategy.SlidingWindowCounter
use policy_driven_rate_limit.Factory.{read_param, candidate, make_strategy, create_strategy}

-- The names that normalization gives, and those that it leaves alone.
normalize_cases :
    (name : Bytes)
    → (normalize_algorithm_name name ≡ codes "FixedWindowCounter")
      ⊎ ((normalize_algorithm_name name ≡ codes "SlidingWindowCounter")
          ⊎ ((normalize_algorithm_name name ≡ codes "SlidingWindowLog")
              ⊎ (normalize_algorithm_name (normalize_algorithm_name name)
                  ≡ normalize_algorithm_name name)))
unfolding normalize_algorithm_name
normalize_cases name = elim (Bool-cases (equal name (codes "FixedWindow"))) [
  | inl a ↦ inl (rw a)
  | inr a ↦ elim (Bool-cases (equal name (codes "SlidingWindow"))) [
    | inl b ↦ inr (inl (rw (a, b)))
    | inr b ↦ elim (Bool-cases (equal name (codes "SlidingLog"))) [
      | inl c ↦ inr (inr (inl (rw (a, b, c))))
      | inr c ↦ inr (inr (inr (rw (a, b, c) (rw (a, b, c)))))
    ]
  ]
]

-- A normalized name is normalized.
pub normalize-normalize :
    (name : Bytes)
    → normalize_algorithm_name (normalize_algorithm_name name) ≡ normalize_algorithm_name name
unfolding equal
normalize-normalize name = elim (normalize_cases name) [
  | inl e ↦ rw e (unfold normalize_algorithm_name in refl)
  | inr (inl e) ↦ rw e (unfold normalize_algorithm_name in refl)
  | inr (inr (inl e)) ↦ rw e (unfold normalize_algorithm_name in refl)
  | inr (inr (inr e)) ↦ e
]

module _ {D : Type 0} ⦃d : Doubles D⦄ where
  read_param-some :
      (params : List (Bytes × D)) (name : Bytes) (x : D)
      → lookup name params ≡ some x
      → read_param params name ≡ ok x
  unfolding read_param
  read_param-some params name x e = rw (e, read_param)

  -- Two parameters that are there are read.
  read_two :
      {A : Type 0} (params : List (Bytes × D)) (a b : Bytes) (x y : D) (f : D → D → Result A)
      → lookup a params ≡ some x
      → lookup b params ≡ some y
      → (read_param params a >>= λ first. read_param params b >>= λ second. f first second) ≡ f x y
  read_two params a b x y f p q = rw (read_param-some params a x p, read_param-some params b y q)

module _ {D : Type 0} ⦃d : Doubles D⦄ (l : DoubleLaws d) where
  -- Capacities below 2 ^ 53, where taking one token away is exact.
  abbrev pub IsExact : List (Bytes × D) → Type 0
  IsExact params = (x : D) → lookup (codes "capacity") params ≡ some x → l.value x ≤ l.exact_max

  -- A strategy that satisfies the invariant of its class, and bears the name asked for.
  abbrev pub Makes : Bytes → Result (LocalStrategy D) → Type 0
  Makes name r = (s : LocalStrategy D) × (r ≡ ok s) × (algorithm_name s ≡ name) × IsValid l s

  make-TokenBucket :
      (algorithm : Bytes) (params : List (Bytes × D)) (now : ℕ)
      → BucketParams (codes "refill") params
      → IsExact params
      → Makes (codes "TokenBucket") (make_strategy (codes "TokenBucket") algorithm params now)
  unfolding make_strategy equal algorithm_name TokenBucket.create
  make-TokenBucket algorithm params now v exact =
      let (c, c_found, (c_finite, c_pos)) = v.capacity in
      let (r, r_found, (r_finite, r_nonneg)) = v.rate_param in
      let c_nonneg : d.le d.zero c ≡ true = l.nonneg_of_lt d.zero c l.zero_nonneg c_pos in
      (
        token_bucket (TokenBucket.create c r now),
        read_two params (codes "capacity") (codes "refill") c r _ c_found r_found,
        refl,
        record {
          capacity_nonneg = c_nonneg;
          capacity_exact = exact c c_found;
          rate_nonneg = r_nonneg;
          rate_finite = r_finite;
          tokens_nonneg = c_nonneg;
          within = omega arith;
        },
      )

  make-LeakyBucket :
      (algorithm : Bytes) (params : List (Bytes × D)) (now : ℕ)
      → BucketParams (codes "leakRate") params
      → Makes (codes "LeakyBucket") (make_strategy (codes "LeakyBucket") algorithm params now)
  unfolding make_strategy equal algorithm_name LeakyBucket.create
  make-LeakyBucket algorithm params now v =
      let (c, c_found, (c_finite, c_pos)) = v.capacity in
      let (r, r_found, (r_finite, r_nonneg)) = v.rate_param in
      (
        leaky_bucket (LeakyBucket.create c r now),
        read_two params (codes "capacity") (codes "leakRate") c r _ c_found r_found,
        refl,
        record {
          capacity_nonneg = l.nonneg_of_lt d.zero c l.zero_nonneg c_pos;
          rate_nonneg = r_nonneg;
          rate_finite = r_finite;
          queue_nonneg = l.zero_nonneg;
          within = omega (arith, l.value-zero);
        },
      )

  make-windowed :
      (name algorithm : Bytes) (params : List (Bytes × D)) (now : ℕ)
      → IsWindowed name
      → WindowParams params
      → Makes name (make_strategy name algorithm params now)
  unfolding make_strategy equal algorithm_name FixedWindowCounter.create SlidingWindowLog.create
      SlidingWindowCounter.create
  make-windowed name algorithm params now (inl e) v =
      let (n, n_found, range) = v.limit in
      let (w, w_found, w_facts) = v.window in
      (
        fixed_window (FixedWindowCounter.create (d.to_int n) w now),
        rw e (read_two params (codes "limit") (codes "window") n w _ n_found w_found),
        sym e,
        omega arith,
      )
  make-windowed name algorithm params now (inr (inl e)) v =
      let (n, n_found, range) = v.limit in
      let (w, w_found, w_facts) = v.window in
      (
        sliding_log (SlidingWindowLog.create (d.to_int n) w),
        rw e (read_two params (codes "limit") (codes "window") n w _ n_found w_found),
        sym e,
        omega arith,
      )
  make-windowed name algorithm params now (inr (inr e)) v =
      let (n, n_found, range) = v.limit in
      let (w, w_found, w_facts) = v.window in
      (
        sliding_counter (SlidingWindowCounter.create (d.to_int n) w now),
        rw e (read_two params (codes "limit") (codes "window") n w _ n_found w_found),
        sym e,
        record {
          limit_pos = range.0;
          limit_int = range.1;
          window_pos = w_facts.1;
          prev_within = omega arith;
          curr_within = omega arith;
        },
      )

  -- The names whose parameters are known.
  known_name :
      (name : Bytes) (required : List Bytes)
      → required_params name ≡ ok required
      → (name ≡ codes "TokenBucket") ⊎ (IsWindowed name ⊎ (name ≡ codes "LeakyBucket"))
  unfolding required_params
  known_name name required h = ground (
    arith,
    equal_iff name (codes "TokenBucket"),
    equal_iff name (codes "FixedWindowCounter"),
    equal_iff name (codes "SlidingWindowLog"),
    equal_iff name (codes "SlidingWindowCounter"),
    equal_iff name (codes "LeakyBucket"),
  )

  make-known :
      (name algorithm : Bytes) (params : List (Bytes × D)) (now : ℕ)
      → normalize_algorithm_name name ≡ name
      → validate_policy_configuration (candidate name params) ≡ ok tt
      → IsExact params
      → Makes name (make_strategy name algorithm params now)
  make-known name algorithm params now normal h exact =
      let passed = validate-Passed (candidate name params) h in
      elim (known_name name passed.required (rw normal at passed.algorithm_known)) [
        | inl e ↦ rw e (
            make-TokenBucket algorithm params now
              (validate-TokenBucket l (candidate name params) (normal ∙ e) h) exact)
        | inr (inl e) ↦
            make-windowed name algorithm params now e
              (validate-IsWindowed l (candidate name params) (rw normal e) h)
        | inr (inr e) ↦ rw e (
            make-LeakyBucket algorithm params now
              (validate-LeakyBucket l (candidate name params) (normal ∙ e) h))
      ]

  -- Given the laws of doubles in Double.Laws: parameters that pass validation give a strategy of
  -- the class that the normalized name says, in a state that satisfies the invariant of that class,
  -- if a capacity among them is at most 2^53.
  pub create_strategy-Makes :
      (algorithm : Bytes) (params : List (Bytes × D)) (now : ℕ)
      → validate_policy_configuration (candidate (normalize_algorithm_name algorithm) params)
        ≡ ok tt
      → IsExact params
      → Makes (normalize_algorithm_name algorithm) (create_strategy algorithm params now)
  unfolding create_strategy
  create_strategy-Makes algorithm params now h exact = rw h (
      make-known (normalize_algorithm_name algorithm) algorithm params now
        (normalize-normalize algorithm) h exact)
