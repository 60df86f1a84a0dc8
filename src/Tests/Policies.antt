-- ===== src/Tests/Policies.antt =====
-- Policies, their keys, the factory, the resolver and the engine.
use policy_driven_rate_limit.Prelude.{
  Bytes, List, [], arith, codes, equal, rejected, inl, inr, lookup, ok, pos, refl, some, true, ℕ,
  ◌++◌, ◌∷◌, ◌≡◌, ◌≤◌,
}
use policy_driven_rate_limit.Double.{fixed, fixed_laws}
use policy_driven_rate_limit.Policy.{
  Policy, Request, default_policy, matches, normalize_algorithm_name, params_string,
}
use policy_driven_rate_limit.Policy.Validate.{
  validate_policy_configuration, required_params, check_tenant, check_endpoint, check_ranges,
}
use policy_driven_rate_limit.Policy.Validate.Params.{WindowParams, validate-IsWindowed}
use policy_driven_rate_limit.Factory.{candidate, create_strategy}
use policy_driven_rate_limit.Factory.Valid.{Makes, create_strategy-Makes}
use policy_driven_rate_limit.Factory.Keys.{build_policy_key-injective}
use policy_driven_rate_limit.Resolver.{set_policies, create, resolve}
use policy_driven_rate_limit.Resolver.Selection.{best, resolve-best}

abbrev bucket_params : List (Bytes × ℕ)
bucket_params = (codes "capacity", 3000) ∷ (codes "refill", 2000) ∷ []

abbrev window_params : List (Bytes × ℕ)
window_params = (codes "limit", 5000) ∷ (codes "window", 1000) ∷ []

bucket_validates :
    validate_policy_configuration
      (candidate (normalize_algorithm_name (codes "TokenBucket")) bucket_params)
    ≡ ok tt
unfolding validate_policy_configuration normalize_algorithm_name equal required_params check_tenant
    check_endpoint lookup check_ranges
bucket_validates = refl

bucket_exact : (x : ℕ) → lookup (codes "capacity") bucket_params ≡ some x → x ≤ 9007199254740992000
unfolding lookup equal
bucket_exact x h = ground arith

create_strategy-Makes_example :
    Makes fixed_laws
      (normalize_algorithm_name (codes "TokenBucket"))
      (create_strategy (codes "TokenBucket") bucket_params 0)
create_strategy-Makes_example =
    create_strategy-Makes fixed_laws (codes "TokenBucket") bucket_params 0 bucket_validates
      bucket_exact

abbrev login : Policy ℕ
login = record default_policy {
  priority = pos 100;
  has_endpoint = true;
  match_endpoint = codes "/login";
  algorithm = codes "SlidingLog";
  params = window_params;
}

abbrev fallback : Policy ℕ
fallback = record default_policy { algorithm = codes "TokenBucket"; params = bucket_params }

login_validates : validate_policy_configuration login ≡ ok tt
unfolding validate_policy_configuration normalize_algorithm_name equal required_params check_tenant
    check_endpoint lookup check_ranges
login_validates = refl

login_is_log : normalize_algorithm_name (codes "SlidingLog") ≡ codes "SlidingWindowLog"
unfolding normalize_algorithm_name equal
login_is_log = refl

validate-IsWindowed_example : WindowParams window_params
validate-IsWindowed_example =
    validate-IsWindowed fixed_laws login (inr (inl login_is_log)) login_validates

unknown_algorithm :
    validate_policy_configuration (record fallback { algorithm = codes "Bucket" })
    ≡ rejected (codes "unsupported algorithm: Bucket")
unfolding validate_policy_configuration normalize_algorithm_name equal required_params
unknown_algorithm = refl

build_policy_key-injective_example :
    (codes "a|1" ≡ codes "a|1")
    × (codes "/x" ≡ codes "/x")
    × (normalize_algorithm_name login.algorithm ++ (b'|' ∷ params_string login.params)
        ≡ normalize_algorithm_name login.algorithm ++ (b'|' ∷ params_string login.params))
build_policy_key-injective_example =
    build_policy_key-injective (codes "a|1") (codes "a|1") (codes "/x") (codes "/x") login login
      refl

abbrev visit : Request
visit = record { tenant_id = codes "t"; endpoint = codes "/login"; received_at = 0 }

resolve-best_example :
    resolve (set_policies (create []) (fallback ∷ login ∷ [])) visit
    ≡ best (fallback ∷ login ∷ []) visit
resolve-best_example = resolve-best (create []) (fallback ∷ login ∷ []) visit

login_first : best (fallback ∷ login ∷ []) visit ≡ some login
unfolding matches equal
login_first = refl
