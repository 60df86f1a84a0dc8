-- ===== src/Factory.antt =====
-- StrategyFactory.h and StrategyFactory.cpp: `createStrategy` for the classes in the process, and
-- `buildPolicyKey`.
pub mod Valid
pub mod Keys
use policy_driven_rate_limit.Prelude.{
  Bytes, List, Result, codes, decimal, equal, rejected, if◌then◌else◌, length, lookup, none, ok,
  some, ℕ, ◌++◌, ◌∷◌, ◌>>=◌, ◌>>◌,
}
use policy_driven_rate_limit.Double.{Doubles}
use policy_driven_rate_limit.Policy.{
  Policy, default_policy, normalize_algorithm_name, params_string,
}
use policy_driven_rate_limit.Policy.Validate.{validate_policy_configuration}
use policy_driven_rate_limit.Strategy.Local.{
  LocalStrategy, token_bucket, leaky_bucket, fixed_window, sliding_log, sliding_counter,
}
use policy_driven_rate_limit.Strategy.TokenBucket
use policy_driven_rate_limit.Strategy.LeakyBucket
use policy_driven_rate_limit.Strategy.FixedWindowCounter
use policy_driven_rate_limit.Strategy.SlidingWindowLog
use policy_driven_rate_limit.Strategy.SlidingWindowCounter

unfoldable pub read_param : {D : Type 0} → List (Bytes × D) → Bytes → Result D
read_param params name = elim (lookup name params) [
  | none ↦ rejected (codes "missing parameter: " ++ name)
  | some value ↦ ok value
]

module _ {D : Type 0} ⦃d : Doubles D⦄ where
  -- The policy that is made up to validate an algorithm and its parameters.
  abbrev pub candidate : Bytes → List (Bytes × D) → Policy D
  candidate normalized params = record default_policy { algorithm = normalized; params = params }

  -- The ladder behind the validation; `now` is the reading of the clock in the constructors.
  unfoldable pub make_strategy : Bytes → Bytes → List (Bytes × D) → ℕ → Result (LocalStrategy D)
  make_strategy normalized algorithm params now =
      if equal normalized (codes "TokenBucket")
      then (do
        first ← read_param params (codes "capacity")
        second ← read_param params (codes "refill")
        ok (token_bucket (TokenBucket.create first second now)))
      else if equal normalized (codes "FixedWindowCounter")
      then (do
        first ← read_param params (codes "limit")
        second ← read_param params (codes "window")
        ok (fixed_window (FixedWindowCounter.create (d.to_int first) second now)))
      else if equal normalized (codes "SlidingWindowLog")
      then (do
        first ← read_param params (codes "limit")
        second ← read_param params (codes "window")
        ok (sliding_log (SlidingWindowLog.create (d.to_int first) second)))
      else if equal normalized (codes "SlidingWindowCounter")
      then (do
        first ← read_param params (codes "limit")
        second ← read_param params (codes "window")
        ok (sliding_counter (SlidingWindowCounter.create (d.to_int first) second now)))
      else if equal normalized (codes "LeakyBucket")
      then (do
        first ← read_param params (codes "capacity")
        second ← read_param params (codes "leakRate")
        ok (leaky_bucket (LeakyBucket.create first second now)))
      else rejected (codes "unsupported algorithm: " ++ algorithm)

  unfoldable pub create_strategy : Bytes → List (Bytes × D) → ℕ → Result (LocalStrategy D)
  create_strategy algorithm params now = do
    let normalized = normalize_algorithm_name algorithm
    validate_policy_configuration (candidate normalized params)
    make_strategy normalized algorithm params now

  unfoldable pub build_policy_key : Bytes → Bytes → Policy D → Bytes
  build_policy_key tenant_id endpoint p =
      decimal (length tenant_id)
      ++ (b':'
          ∷ (tenant_id
              ++ (b'|'
                  ∷ (decimal (length endpoint)
                      ++ (b':'
                          ∷ (endpoint
                              ++ (b'|'
                                  ∷ (normalize_algorithm_name p.algorithm
                                      ++ (b'|' ∷ params_string p.params)))))))))
