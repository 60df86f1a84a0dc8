-- ===== src/Policy/Validate/Params.antt =====
-- What each algorithm may rely on, once its parameters are validated.
use policy_driven_rate_limit.Prelude.{
  Bytes, List, [], arith, codes, equal, inl, inr, not, ok, refl, subst, true, ◌<◌, ◌∷◌, ◌≡◌, ◌⊎◌,
}
use policy_driven_rate_limit.Double.{Doubles, DoubleLaws}
use policy_driven_rate_limit.Policy.{Policy, normalize_algorithm_name}
use policy_driven_rate_limit.Policy.Validate.{
  is_member, required_params, check_required, check_capacity, check_window, check_refill,
  check_leak_rate, check_limit, is_limit, validate_policy_configuration,
}
use policy_driven_rate_limit.Policy.Validate.Sound.{
  validate-Passed, Has, checked, Ranges, check_ranges-Ranges,
}

-- The three algorithms that count requests in a window.
abbrev pub IsWindowed : Bytes → Type 0
IsWindowed name =
    (name ≡ codes "FixedWindowCounter")
    ⊎ ((name ≡ codes "SlidingWindowLog") ⊎ (name ≡ codes "SlidingWindowCounter"))

windowed_params :
    (name : Bytes)
    → IsWindowed name
    → required_params name ≡ ok (codes "limit" ∷ codes "window" ∷ [])
unfolding required_params equal
windowed_params name (inl e) = rw e refl
windowed_params name (inr (inl e)) = rw e refl
windowed_params name (inr (inr e)) = rw e refl

module _ {D : Type 0} ⦃d : Doubles D⦄ where
  -- A finite positive capacity and a finite rate that is not negative.
  pub record BucketParams (rate : Bytes) (params : List (Bytes × D)) : Type 0 where
    pub capacity :
        Has (codes "capacity") params (λ x. (d.is_finite x ≡ true) × (d.lt d.zero x ≡ true))
    pub rate_param : Has rate params (λ x. (d.is_finite x ≡ true) × (d.le d.zero x ≡ true))

  -- A limit that converts to a positive int, and a finite positive window.
  pub record WindowParams (params : List (Bytes × D)) : Type 0 where
    pub limit : Has (codes "limit") params (λ x. (0 < d.to_int x) × (d.to_int x < 2147483648))
    pub window : Has (codes "window") params (λ x. (d.is_finite x ≡ true) × (d.lt d.zero x ≡ true))

module _ {D : Type 0} ⦃d : Doubles D⦄ (l : DoubleLaws d) where
  positive : (x : D) → (d.is_finite x ≡ true) × (not (d.le x d.zero) ≡ true) → d.lt d.zero x ≡ true
  positive x h = l.pos_of_finite x h.0 (ground arith)

  not_negative :
      (x : D) → (d.is_finite x ≡ true) × (not (d.lt x d.zero) ≡ true) → d.le d.zero x ≡ true
  not_negative x h = l.nonneg_of_finite x h.0 (ground arith)

  limit_range :
      (x : D)
      → (d.is_finite x ≡ true) × (is_limit x ≡ true)
      → (0 < d.to_int x) × (d.to_int x < 2147483648)
  limit_range x h =
      l.to_int_range x (l.pos_of_finite x h.0 (ground arith)) (ground arith) (ground arith)

  bucket_capacity :
      (required : List Bytes) (params : List (Bytes × D))
      → is_member (codes "capacity") required ≡ true
      → check_required required params ≡ ok tt
      → check_capacity required params ≡ ok tt
      → Has (codes "capacity") params (λ x. (d.is_finite x ≡ true) × (d.lt d.zero x ≡ true))
  unfolding check_capacity
  bucket_capacity required params m present h =
      let (x, found, facts) =
        checked (codes "capacity") required params (λ x. not (d.le x d.zero))
          (codes "capacity must be greater than zero") m present h in
      (x, found, (facts.0, positive x facts))

  window_window :
      (required : List Bytes) (params : List (Bytes × D))
      → is_member (codes "window") required ≡ true
      → check_required required params ≡ ok tt
      → check_window required params ≡ ok tt
      → Has (codes "window") params (λ x. (d.is_finite x ≡ true) × (d.lt d.zero x ≡ true))
  unfolding check_window
  window_window required params m present h =
      let (x, found, facts) =
        checked (codes "window") required params (λ x. not (d.le x d.zero))
          (codes "window must be greater than zero") m present h in
      (x, found, (facts.0, positive x facts))

  bucket_refill :
      (required : List Bytes) (params : List (Bytes × D))
      → is_member (codes "refill") required ≡ true
      → check_required required params ≡ ok tt
      → check_refill required params ≡ ok tt
      → Has (codes "refill") params (λ x. (d.is_finite x ≡ true) × (d.le d.zero x ≡ true))
  unfolding check_refill
  bucket_refill required params m present h =
      let (x, found, facts) =
        checked (codes "refill") required params (λ x. not (d.lt x d.zero))
          (codes "refill must be non-negative") m present h in
      (x, found, (facts.0, not_negative x facts))

  bucket_leak_rate :
      (required : List Bytes) (params : List (Bytes × D))
      → is_member (codes "leakRate") required ≡ true
      → check_required required params ≡ ok tt
      → check_leak_rate required params ≡ ok tt
      → Has (codes "leakRate") params (λ x. (d.is_finite x ≡ true) × (d.le d.zero x ≡ true))
  unfolding check_leak_rate
  bucket_leak_rate required params m present h =
      let (x, found, facts) =
        checked (codes "leakRate") required params (λ x. not (d.lt x d.zero))
          (codes "leakRate must be non-negative") m present h in
      (x, found, (facts.0, not_negative x facts))

  window_limit :
      (required : List Bytes) (params : List (Bytes × D))
      → is_member (codes "limit") required ≡ true
      → check_required required params ≡ ok tt
      → check_limit required params ≡ ok tt
      → Has (codes "limit") params (λ x. (0 < d.to_int x) × (d.to_int x < 2147483648))
  unfolding check_limit
  window_limit required params m present h =
      let (x, found, facts) =
        checked (codes "limit") required params is_limit (codes "limit must be a positive integer")
          m present h in
      (x, found, limit_range x facts)

  -- The checks of a valid policy, for an algorithm that is known to require these names.
  record Checked (required : List Bytes) (p : Policy D) : Type 0 where
    present : check_required required p.params ≡ ok tt
    ranges : Ranges required p.params

  validate-Checked :
      (required : List Bytes) (p : Policy D)
      → required_params (normalize_algorithm_name p.algorithm) ≡ ok required
      → validate_policy_configuration p ≡ ok tt
      → Checked required p
  validate-Checked required p known h =
      let q = validate-Passed p h in
      let same : q.required ≡ required = cc (known, q.algorithm_known) in
      record {
        present = subst (λ (r : List Bytes). check_required r p.params ≡ ok tt) same q.present;
        ranges =
            subst (λ (r : List Bytes). Ranges r p.params) same
              (check_ranges-Ranges q.required p.params q.in_range);
      }

  pub validate-TokenBucket :
      (p : Policy D)
      → normalize_algorithm_name p.algorithm ≡ codes "TokenBucket"
      → validate_policy_configuration p ≡ ok tt
      → BucketParams (codes "refill") p.params
  unfolding required_params equal
  validate-TokenBucket p name h =
      let required = codes "capacity" ∷ codes "refill" ∷ [] in
      let c = validate-Checked required p (rw name refl) h in
      record {
        capacity = bucket_capacity required p.params refl c.present c.ranges.capacity;
        rate_param = bucket_refill required p.params refl c.present c.ranges.refill;
      }

  pub validate-LeakyBucket :
      (p : Policy D)
      → normalize_algorithm_name p.algorithm ≡ codes "LeakyBucket"
      → validate_policy_configuration p ≡ ok tt
      → BucketParams (codes "leakRate") p.params
  unfolding required_params equal
  validate-LeakyBucket p name h =
      let required = codes "capacity" ∷ codes "leakRate" ∷ [] in
      let c = validate-Checked required p (rw name refl) h in
      record {
        capacity = bucket_capacity required p.params refl c.present c.ranges.capacity;
        rate_param = bucket_leak_rate required p.params refl c.present c.ranges.leak_rate;
      }

  -- Given the laws of doubles in Double.Laws: a policy that passes validation and whose normalized
  -- algorithm is one of the three windowed ones has a limit that converts to an int from 1 to
  -- 2147483647 and a finite positive window.
  pub validate-IsWindowed :
      (p : Policy D)
      → IsWindowed (normalize_algorithm_name p.algorithm)
      → validate_policy_configuration p ≡ ok tt
      → WindowParams p.params
  unfolding equal
  validate-IsWindowed p name h =
      let required = codes "limit" ∷ codes "window" ∷ [] in
      let c = validate-Checked required p (windowed_params _ name) h in
      record {
        limit = window_limit required p.params refl c.present c.ranges.limit;
        window = window_window required p.params refl c.present c.ranges.window;
      }
