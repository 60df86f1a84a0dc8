-- ===== src/Policy/Validate.antt =====
-- `validatePolicyConfiguration` of policy/Policy.cpp.
pub mod Sound
pub mod Params
use policy_driven_rate_limit.Prelude.{
  Bool, Bytes, List, Option, Result, [], codes, decimal, equal, rejected, false, if◌then◌else◌,
  length, lookup, ltb, none, not, ok, require, some, zero, ℕ, ◌++◌, ◌==◌, ◌>>◌, ◌||◌, ◌∷◌, ◌>>=◌,
}
use policy_driven_rate_limit.Double.{Doubles}
use policy_driven_rate_limit.Policy.{Policy, normalize_algorithm_name}

-- The names in `required`, in the order of the set.
unfoldable pub required_params : Bytes → Result (List Bytes)
required_params algorithm =
    if equal algorithm (codes "TokenBucket")
    then ok (codes "capacity" ∷ codes "refill" ∷ [])
    else if equal algorithm (codes "FixedWindowCounter")
        || equal algorithm (codes "SlidingWindowLog")
        || equal algorithm (codes "SlidingWindowCounter")
    then ok (codes "limit" ∷ codes "window" ∷ [])
    else if equal algorithm (codes "LeakyBucket")
    then ok (codes "capacity" ∷ codes "leakRate" ∷ [])
    else if equal algorithm []
    then rejected (codes "policy is missing algorithm")
    else rejected (codes "unsupported algorithm: " ++ algorithm)

abbrev is_control : ℕ → Bool
is_control c = ltb c 32 || c == 127

check_bytes : Bytes → Bytes → Result (Unit {0})
check_bytes [] name = ok tt
check_bytes (c ∷ cs) name =
    if is_control c
    then rejected (name ++ codes " contains a control character")
    else check_bytes cs name

unfoldable pub valid_match_text : Bytes → Bytes → ℕ → Result (Unit {0})
unfolding check_bytes
valid_match_text value name max_length =
    if length value == 0 || ltb max_length (length value)
    then rejected (
        name ++ (codes " must be non-empty and at most " ++ (decimal max_length ++ codes " bytes")))
    else check_bytes value name

-- `value.front() != '/'`.
abbrev pub starts_with_slash : Bytes → Bool
starts_with_slash [] = false
starts_with_slash (c ∷ cs) = c == b'/'

unfoldable pub check_tenant : {D : Type 0} → Policy D → Result (Unit {0})
unfolding valid_match_text
check_tenant p =
    if p.has_tenant then valid_match_text p.match_tenant (codes "tenant") 256 else ok tt

unfoldable pub check_endpoint : {D : Type 0} → Policy D → Result (Unit {0})
unfolding valid_match_text
check_endpoint p =
    if p.has_endpoint
    then (valid_match_text p.match_endpoint (codes "endpoint") 2048
        >> require (starts_with_slash p.match_endpoint) (codes "endpoint must be an absolute path"))
    else ok tt

-- `required.count(name) > 0`.
abbrev pub is_member : Bytes → List Bytes → Bool
is_member name [] = false
is_member name (n ∷ names) = equal n name || is_member name names

module _ {D : Type 0} ⦃d : Doubles D⦄ where
  check_present : Option D → Bytes → Result (Unit {0})
  check_present none name = rejected (codes "missing parameter: " ++ name)
  check_present (some value) name =
      require (d.is_finite value) (codes "parameter must be finite: " ++ name)

  -- Every required parameter is there and finite.
  unfoldable pub check_required : List Bytes → List (Bytes × D) → Result (Unit {0})
  unfolding check_present
  check_required [] params = ok tt
  check_required (name ∷ names) params =
      check_present (lookup name params) name >> check_required names params

  -- No other parameter is.
  unfoldable pub check_expected : Bytes → List Bytes → List (Bytes × D) → Result (Unit {0})
  check_expected algorithm required [] = ok tt
  check_expected algorithm required ((name, value) ∷ params) =
      require (is_member name required)
        (codes "unexpected parameter for " ++ (algorithm ++ (codes ": " ++ name)))
      >> check_expected algorithm required params

  -- `params.at(name)`, which is called where the name is known to be there.
  unfoldable pub param_at : Bytes → List (Bytes × D) → D
  param_at name params = elim (lookup name params) [ none ↦ d.zero | some value ↦ value ]

  -- A test on one parameter, if it is required.
  unfoldable pub check_param :
      Bytes → List Bytes → List (Bytes × D) → (D → Bool) → Bytes → Result (Unit {0})
  unfolding param_at
  check_param name required params test message =
      if is_member name required then require (test (param_at name params)) message else ok tt

  -- `!(limit <= 0.0 || limit > INT_MAX || std::floor(limit) != limit)`.
  abbrev pub is_limit : D → Bool
  is_limit limit =
      not
        (d.le limit d.zero || d.lt (d.of_int 2147483647) limit || not (d.eq (d.floor limit) limit))

  unfoldable pub check_capacity : List Bytes → List (Bytes × D) → Result (Unit {0})
  unfolding check_param
  check_capacity required params =
      check_param (codes "capacity") required params (λ x. not (d.le x d.zero))
        (codes "capacity must be greater than zero")

  unfoldable pub check_window : List Bytes → List (Bytes × D) → Result (Unit {0})
  unfolding check_param
  check_window required params =
      check_param (codes "window") required params (λ x. not (d.le x d.zero))
        (codes "window must be greater than zero")

  unfoldable pub check_refill : List Bytes → List (Bytes × D) → Result (Unit {0})
  unfolding check_param
  check_refill required params =
      check_param (codes "refill") required params (λ x. not (d.lt x d.zero))
        (codes "refill must be non-negative")

  unfoldable pub check_leak_rate : List Bytes → List (Bytes × D) → Result (Unit {0})
  unfolding check_param
  check_leak_rate required params =
      check_param (codes "leakRate") required params (λ x. not (d.lt x d.zero))
        (codes "leakRate must be non-negative")

  unfoldable pub check_limit : List Bytes → List (Bytes × D) → Result (Unit {0})
  unfolding check_param
  check_limit required params =
      check_param (codes "limit") required params is_limit
        (codes "limit must be a positive integer")

  unfoldable pub check_ranges : List Bytes → List (Bytes × D) → Result (Unit {0})
  unfolding check_capacity check_window check_refill check_leak_rate check_limit
  check_ranges required params = do
    check_capacity required params
    check_window required params
    check_refill required params
    check_leak_rate required params
    check_limit required params

  unfoldable pub validate_policy_configuration : Policy D → Result (Unit {0})
  unfolding check_required check_expected
  validate_policy_configuration p = do
    let algorithm = normalize_algorithm_name p.algorithm
    required ← required_params algorithm
    check_tenant p
    check_endpoint p
    check_required required p.params
    check_expected algorithm required p.params
    check_ranges required p.params
