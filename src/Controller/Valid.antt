-- ===== src/Controller/Valid.antt =====
-- What holds of the controller's objects and counters between requests.
pub mod Evaluate
pub mod Run
use policy_driven_rate_limit.Prelude.{
  Bool, Bytes, List, [], arith, equal, false, if_either, not, true, ℕ, ◌+◌, ◌≢◌, ◌≤◌,
}
use policy_driven_rate_limit.Double.{Doubles}
use policy_driven_rate_limit.Policy.{Policy, Request}
use policy_driven_rate_limit.Resolver.{PolicyResolver, set_policies, create, resolve}
use policy_driven_rate_limit.Resolver.Order.{IsSorted, sorted_policies-IsSorted, All-sorted}
use policy_driven_rate_limit.Engine.{
  RateLimitStrategy, PolicyEngine, EvaluationResult, has_tenant, ensure_policy, evaluate_detailed,
}
use policy_driven_rate_limit.Engine.Valid.{
  IsValid as IsValidEngine, ensure_policy-IsValid, evaluate-IsValid,
}
use policy_driven_rate_limit.Database.{Database, log_request}
use policy_driven_rate_limit.Database.Bounds.{
  IsNoticed, IsValid as IsValidStore, log_request-IsValid,
}
use policy_driven_rate_limit.Factory.{build_policy_key, create_strategy}
use policy_driven_rate_limit.Strategy.Local.{LocalStrategy}
use policy_driven_rate_limit.Loader.Valid.{AllValid, save_to_file-ok}
use policy_driven_rate_limit.Json.Decode.{decode_evaluate_request, decode_policy}
use policy_driven_rate_limit.Controller.{
  HttpRequest, HttpResponse, has_supported_content_type, authorize_tenant, authorize_admin,
}
use policy_driven_rate_limit.Controller.Handlers.{
  Settings, Answers, RestController, next_count, audit_record, count_decision, answer_logged,
  answer_evaluated, evaluate_key, with_strategy, evaluate_policy, evaluate_resolved,
  evaluate_decoded, handle_evaluate,
}
use policy_driven_rate_limit.Controller.Admin.{
  install_policies, save_policies, add_policy, post_decoded, handle_post_policy,
}
use policy_driven_rate_limit.Controller.Routes.{handle_request, after_requests}

-- A counter gains at most one, also where it wraps around.
next_count-le : (n : ℕ) → next_count n ≤ n + 1
next_count-le n = omega arith

-- The objects that the handlers share: each sound by its own invariant, and the policies in order,
-- and all of them valid where there is a policy file.
pub record IsSound {D S : Type 0} ⦃d : Doubles D⦄ (path : Bytes) (engine : PolicyEngine S)
    (db : Database) (policies : List (Policy D)) : Type 0 where
  pub engine_valid : IsValidEngine engine
  pub db_valid : IsValidStore db
  pub policies_sorted : IsSorted policies
  pub policies_valid : path ≢ [] → AllValid policies

module _ {D S W : Type 0} where
  -- `pending` is the number of evaluations that are counted and not yet decided.
  pub record IsCounted (n pending : ℕ) (c : RestController D S W) : Type 0 where
    pub decided : c.allowed + c.denied + c.dependency_errors + pending ≤ c.evaluations
    pub counted : c.evaluations ≤ n

  settle : (n : ℕ) (c : RestController D S W) → IsCounted n 1 c → IsCounted n 0 c
  settle n c k = record { decided = omega (arith, k.decided); counted = k.counted }

  count_error-IsCounted :
      (n : ℕ) (c : RestController D S W)
      → IsCounted n 1 c
      → IsCounted n 0 (record c { dependency_errors = next_count c.dependency_errors })
  count_error-IsCounted n c k = record {
    decided = omega (arith, k.decided, next_count-le c.dependency_errors);
    counted = k.counted;
  }

module _ {D S W : Type 0} ⦃d : Doubles D⦄ (settings : Settings) where
  -- Between requests: sound objects, and no more decisions than evaluations, at most n of these.
  abbrev pub IsValid : ℕ → RestController D S W → Type 0
  IsValid n c =
      IsSound settings.policy_file_path c.engine c.db c.resolver.policies × IsCounted n 0 c

  -- Within an evaluation.
  abbrev pub IsPending : ℕ → RestController D S W → Type 0
  IsPending n c =
      IsSound settings.policy_file_path c.engine c.db c.resolver.policies × IsCounted n 1 c

  abbrev pub Leaves : ℕ → RestController D S W × HttpResponse → Type 0
  Leaves n r = IsValid n r.0

  pub idle : (n : ℕ) (c : RestController D S W) → IsPending n c → IsValid n c
  idle n c (s, k) = (s, settle n c k)

  count_decision-IsValid :
      (n : ℕ) (c : RestController D S W) (allowed : Bool)
      → IsPending n c
      → IsValid n (count_decision c allowed)
  count_decision-IsValid n c true (s, k) = (
    s,
    record { decided = omega (arith, k.decided, next_count-le c.allowed); counted = k.counted },
  )
  count_decision-IsValid n c false (s, k) = (
    s,
    record { decided = omega (arith, k.decided, next_count-le c.denied); counted = k.counted },
  )

  with_db-IsPending :
      (n : ℕ) (c : RestController D S W) (db : Database)
      → IsValidStore db
      → IsPending n c
      → IsPending n (record c { db = db })
  with_db-IsPending n c db w (s, k) = (
    record {
      engine_valid = s.engine_valid;
      db_valid = w;
      policies_sorted = s.policies_sorted;
      policies_valid = s.policies_valid;
    },
    record { decided = k.decided; counted = k.counted },
  )

  pub with_engine-IsPending :
      (n : ℕ) (c : RestController D S W) (engine : PolicyEngine S) (world : W)
      → IsValidEngine engine
      → IsPending n c
      → IsPending n (record c { engine = engine; world = world })
  with_engine-IsPending n c engine world w (s, k) = (
    record {
      engine_valid = w;
      db_valid = s.db_valid;
      policies_sorted = s.policies_sorted;
      policies_valid = s.policies_valid;
    },
    record { decided = k.decided; counted = k.counted },
  )

  answer_logged-IsValid :
      (n : ℕ) (c : RestController D S W) (request : Request) (policy_key : Bytes)
      (evaluation : EvaluationResult) (logged : Database × Bool)
      → IsValidStore logged.0
      → IsPending n c
      → Leaves n (answer_logged c request policy_key evaluation logged)
  unfolding answer_logged
  answer_logged-IsValid n c request policy_key evaluation (db, true) w v =
      count_decision-IsValid n (record c { db = db }) evaluation.allowed
        (with_db-IsPending n c db w v)
  answer_logged-IsValid n c request policy_key evaluation (db, false) w v =
      let (s, k) = with_db-IsPending n c db w v in
      (s, count_error-IsCounted n (record c { db = db }) k)

  pub answer_evaluated-IsValid :
      (n : ℕ) (c : RestController D S W) (answers : Answers) (told : IsNoticed answers.append)
      (request : Request) (policy_key : Bytes) (evaluation : EvaluationResult)
      → IsPending n c
      → Leaves n (answer_evaluated c answers request policy_key evaluation)
  unfolding answer_evaluated
  answer_evaluated-IsValid n c answers told request policy_key evaluation v =
      if_either (Leaves n) (not (equal evaluation.error [])) _ _
        (λ _. (v.0, count_error-IsCounted n c v.1))
        (λ _.
          answer_logged-IsValid n c request policy_key evaluation _
            (log_request-IsValid c.db (audit_record request evaluation) answers.compacted
              answers.append told v.0.db_valid)
            v)
