-- ===== src/Tests/Api.antt =====
-- The handlers of the controller.
use policy_driven_rate_limit.Prelude.{
  Bytes, List, Result, [], arith, codes, decimal, equal, insert, lookup, ltb, ok, refl, true, ℕ,
  ◌+◌, ◌-◌, ◌∷◌, ◌≡◌,
}
use policy_driven_rate_limit.Double.{fixed}
use policy_driven_rate_limit.Policy.{
  Policy, default_policy, matches, params_string, normalize_algorithm_name,
}
use policy_driven_rate_limit.Resolver.{resolve, first_match}
use policy_driven_rate_limit.Engine.{
  RateLimitStrategy, empty, has_tenant, ensure_policy, set_policy, evaluate_detailed,
  evaluate_strategy,
}
use policy_driven_rate_limit.Engine.Valid.{empty-IsValid}
use policy_driven_rate_limit.Database.{appended, log_request}
use policy_driven_rate_limit.Database.Rows.{render}
use policy_driven_rate_limit.Factory.{build_policy_key}
use policy_driven_rate_limit.Json.Decode.{decode_evaluate_request}
use policy_driven_rate_limit.Json.Decode.Accepts.{request_body, decode_evaluate_request-accepts}
use policy_driven_rate_limit.Controller.{
  HttpRequest, has_supported_content_type, header_value, lowered, authorize_tenant,
}
use policy_driven_rate_limit.Controller.Handlers.{
  Settings, Answers, RestController, evaluate_decoded, handle_evaluate, evaluate_resolved,
  evaluate_policy, with_strategy, evaluate_key, answer_evaluated, answer_logged,
}
use policy_driven_rate_limit.Controller.Decides.{Granted, handle_evaluate-Granted}
use policy_driven_rate_limit.Controller.Installs.{Commits, Posted, handle_post_policy-Commits}
use policy_driven_rate_limit.Controller.Admin.{handle_post_policy}
use policy_driven_rate_limit.Controller.Routes.{after_requests}
use policy_driven_rate_limit.Controller.Valid.{IsValid}
use policy_driven_rate_limit.Controller.Valid.Run.{after_requests-IsValid}
use policy_driven_rate_limit.Policy.Validate.{
  validate_policy_configuration, required_params, check_tenant, check_endpoint, check_ranges,
}

abbrev countdown : RateLimitStrategy ℕ ℕ
countdown = record {
  allow_request = λ s w. (s - 1, w + 1, ltb 0 s);
  get_state = λ s w. (codes "s", w);
  reset = λ s w. (3, w);
  algorithm_name = λ s. codes "Countdown";
  last_error = λ s. [];
}

abbrev make_countdown : Bytes → List (Bytes × ℕ) → Bytes → ℕ → Result ℕ × ℕ
make_countdown algorithm params key w = (ok 3, w)

abbrev settings : Settings
settings = record { policy_file_path = codes "p"; tenant_tokens = []; admin_token = [] }

abbrev answers : Answers
answers = record {
  received_at = 7;
  steady_now = 0;
  compacted = true;
  append = appended;
  opened = true;
  finished = true;
  replaced = true;
  state_healthy = true;
}

abbrev window_policy : Policy ℕ
window_policy = record default_policy {
  algorithm = codes "FixedWindowCounter";
  params = (codes "limit", 5000) ∷ (codes "window", 1000) ∷ [];
}

abbrev fresh : RestController ℕ ℕ ℕ
fresh = record {
  resolver = record { policies = window_policy ∷ [] };
  engine = empty;
  db = record { available = true; tenants = []; requests = []; file = [] };
  policy_file = [];
  world = 0;
  evaluations = 0;
  allowed = 0;
  denied = 0;
  dependency_errors = 0;
}

abbrev post : HttpRequest
post = record {
  method = codes "POST";
  path = codes "/evaluate";
  headers = [];
  body = request_body (codes "t") (codes "/x");
}

decoded :
    decode_evaluate_request ℕ post.body 7
    ≡ ok (record { tenant_id = codes "t"; endpoint = codes "/x"; received_at = 7 })
unfolding equal
decoded =
    decode_evaluate_request-accepts ℕ (codes "t") (codes "/x") 7
      (refl, omega arith, refl, omega arith, refl)

answered : (handle_evaluate countdown make_countdown settings fresh answers post).1.status ≡ 200
unfolding handle_evaluate has_supported_content_type header_value lowered equal evaluate_decoded
    evaluate_resolved resolve evaluate_policy with_strategy evaluate_key answer_evaluated
    answer_logged authorize_tenant first_match matches has_tenant lookup build_policy_key decimal
    evaluate_detailed evaluate_strategy log_request insert ensure_policy set_policy
    normalize_algorithm_name params_string
answered = rw decoded refl

handle_evaluate-Granted_example :
    Granted countdown make_countdown settings fresh post
      (decode_evaluate_request ℕ post.body answers.received_at)
      (handle_evaluate countdown make_countdown settings fresh answers post)
handle_evaluate-Granted_example =
    handle_evaluate-Granted countdown make_countdown settings fresh answers post empty-IsValid
      answered

abbrev post_policy : HttpRequest
post_policy = record {
  method = codes "POST";
  path = codes "/policies";
  headers = (codes "content-type", codes "Application/JSON") ∷ [];
  body =
      codes
        "{\"priority\":5,\"tenant\":\"t\",\"algorithm\":\"FixedWindow\",\"params\":{\"limit\":3,\"window\":60}}";
}

handle_post_policy-Commits_example :
    Commits settings
      (Posted settings fresh answers post_policy)
      fresh
      (handle_post_policy settings fresh answers post_policy)
handle_post_policy-Commits_example = handle_post_policy-Commits settings fresh answers post_policy

window_policy-IsValid : validate_policy_configuration window_policy ≡ ok tt
unfolding validate_policy_configuration normalize_algorithm_name equal required_params check_tenant
    check_endpoint lookup check_ranges
window_policy-IsValid = refl

fresh-IsValid : IsValid settings 0 fresh
unfolding render
fresh-IsValid = (
  record {
    engine_valid = empty-IsValid;
    db_valid = record { bounded = omega arith; synced = λ _. refl };
    policies_sorted = (tt, tt);
    policies_valid = λ _. (window_policy-IsValid, tt);
  },
  record { decided = omega arith; counted = omega arith },
)

after_requests-IsValid_example : IsValid settings 2 (
    after_requests countdown make_countdown settings fresh
      ((answers, post) ∷ (answers, post_policy) ∷ []))
after_requests-IsValid_example =
    after_requests-IsValid settings countdown make_countdown 0 fresh
      ((answers, post) ∷ (answers, post_policy) ∷ []) (omega arith) (tt, (tt, tt)) fresh-IsValid
