-- ===== src/Policy/Validate/Sound.antt =====
-- What a policy that passes validation is known to hold.
use policy_driven_rate_limit.Prelude.{
  >>-eq-ok, >>=-eq-ok, Bool, Bool-cases, Bytes, List, Option, [], arith, equal, equal_iff, inl, inr,
  lookup, none, ok, refl, require-ok, some, subst, true, ◌∷◌, ◌≡◌,
}
use policy_driven_rate_limit.Double.{Doubles}
use policy_driven_rate_limit.Policy.{Policy, normalize_algorithm_name}
use policy_driven_rate_limit.Policy.Validate.{
  required_params, check_tenant, check_endpoint, check_present, check_required, check_expected,
  check_param, check_capacity, check_window, check_refill, check_leak_rate, check_limit,
  check_ranges, param_at, is_member, validate_policy_configuration,
}

module _ {D : Type 0} ⦃d : Doubles D⦄ where
  -- The checks that a valid policy has passed.
  pub record Passed (p : Policy D) : Type 0 where
    pub required : List Bytes
    pub algorithm_known : required_params (normalize_algorithm_name p.algorithm) ≡ ok required
    pub tenant_checked : check_tenant p ≡ ok tt
    pub endpoint_checked : check_endpoint p ≡ ok tt
    pub present : check_required required p.params ≡ ok tt
    pub expected : check_expected (normalize_algorithm_name p.algorithm) required p.params ≡ ok tt
    pub in_range : check_ranges required p.params ≡ ok tt

  pub validate-Passed : (p : Policy D) → validate_policy_configuration p ≡ ok tt → Passed p
  unfolding validate_policy_configuration
  validate-Passed p h =
      let (required, known, h₁) =
        >>=-eq-ok (required_params (normalize_algorithm_name p.algorithm)) _ h in
      let (tenant, h₂) = >>-eq-ok (check_tenant p) _ h₁ in
      let (endpoint, h₃) = >>-eq-ok (check_endpoint p) _ h₂ in
      let (present, h₄) = >>-eq-ok (check_required required p.params) _ h₃ in
      let (expected, ranges) = >>-eq-ok (check_expected _ required p.params) _ h₄ in
      record {
        required = required;
        algorithm_known = known;
        tenant_checked = tenant;
        endpoint_checked = endpoint;
        present = present;
        expected = expected;
        in_range = ranges;
      }

  -- A parameter that is there, with what is known of its value.
  abbrev pub Has : Bytes → List (Bytes × D) → (D → Type 0) → Type 0
  Has name params P = (x : D) × (lookup name params ≡ some x) × P x

  check_present-Has :
      (o : Option D) (name : Bytes)
      → check_present o name ≡ ok tt
      → (x : D) × (o ≡ some x) × (d.is_finite x ≡ true)
  unfolding check_present
  check_present-Has none name h = cc
  check_present-Has (some x) name h = (x, refl, require-ok (d.is_finite x) _ h)

  check_required-Has :
      (name : Bytes) (names : List Bytes) (params : List (Bytes × D))
      → is_member name names ≡ true
      → check_required names params ≡ ok tt
      → Has name params (λ x. d.is_finite x ≡ true)
  unfolding check_required
  check_required-Has name [] params m h = cc
  check_required-Has name (n ∷ names) params m h =
      let (here, rest) = >>-eq-ok (check_present (lookup n params) n) _ h in
      elim (Bool-cases (equal n name)) [
        | inl same ↦ rw (← (equal_iff n name).0 same) (check_present-Has (lookup n params) n here)
        | inr other ↦ check_required-Has name names params (ground arith) rest
      ]

  check_param-test :
      (name : Bytes) (required : List Bytes) (params : List (Bytes × D)) (test : D → Bool)
      (message : Bytes)
      → is_member name required ≡ true
      → check_param name required params test message ≡ ok tt
      → test (param_at name params) ≡ true
  unfolding check_param
  check_param-test name required params test message m h =
      require-ok (test (param_at name params)) message (rw m at h)

  param_at-some :
      (name : Bytes) (params : List (Bytes × D)) (x : D)
      → lookup name params ≡ some x
      → param_at name params ≡ x
  unfolding param_at
  param_at-some name params x e = rw (e, param_at)

  -- A required parameter that also passes its range check.
  pub checked :
      (name : Bytes) (required : List Bytes) (params : List (Bytes × D)) (test : D → Bool)
      (message : Bytes)
      → is_member name required ≡ true
      → check_required required params ≡ ok tt
      → check_param name required params test message ≡ ok tt
      → Has name params (λ x. (d.is_finite x ≡ true) × (test x ≡ true))
  checked name required params test message m present h =
      let (x, found, finite) = check_required-Has name required params m present in
      let tested = check_param-test name required params test message m h in
      (
        x,
        found,
        (finite, subst (λ (y : D). test y ≡ true) (param_at-some name params x found) tested),
      )

  -- The range checks, one by one.
  pub record Ranges (required : List Bytes) (params : List (Bytes × D)) : Type 0 where
    pub capacity : check_capacity required params ≡ ok tt
    pub window : check_window required params ≡ ok tt
    pub refill : check_refill required params ≡ ok tt
    pub leak_rate : check_leak_rate required params ≡ ok tt
    pub limit : check_limit required params ≡ ok tt

  pub check_ranges-Ranges :
      (required : List Bytes) (params : List (Bytes × D))
      → check_ranges required params ≡ ok tt
      → Ranges required params
  unfolding check_ranges
  check_ranges-Ranges required params h =
      let (a, h₁) = >>-eq-ok (check_capacity required params) _ h in
      let (b, h₂) = >>-eq-ok (check_window required params) _ h₁ in
      let (c, h₃) = >>-eq-ok (check_refill required params) _ h₂ in
      let (e, f) = >>-eq-ok (check_leak_rate required params) _ h₃ in
      record { capacity = a; window = b; refill = c; leak_rate = e; limit = f }
