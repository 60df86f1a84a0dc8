-- ===== src/Controller/Handlers.antt =====
-- The handlers of api/RestController.cpp. A handler is one step: what the clocks, the file system and
-- the store answer in it is an argument.
use policy_driven_rate_limit.Prelude.{
  Bool, Bytes, List, Option, Result, [], codes, equal, false, if◌then◌else◌, none, not, ok, pos,
  rejected, some, true, ℕ, ◌%◌, ◌+◌, ◌/◌, ◌==◌, ◌^◌,
}
use policy_driven_rate_limit.Double.{Doubles}
use policy_driven_rate_limit.Policy.{Policy, Request}
use policy_driven_rate_limit.Resolver.{PolicyResolver, resolve}
use policy_driven_rate_limit.Engine.{
  RateLimitStrategy, PolicyEngine, EvaluationResult, has_tenant, ensure_policy, evaluate_detailed,
}
use policy_driven_rate_limit.Factory.{build_policy_key}
use policy_driven_rate_limit.Database.{Database, Append, log_request}
use policy_driven_rate_limit.Database.Rows.{StoredRequest}
use policy_driven_rate_limit.Json.Encode.{encode_error, encode_evaluate_response}
use policy_driven_rate_limit.Json.Decode.{decode_evaluate_request}
use policy_driven_rate_limit.Controller.{
  HttpRequest, HttpResponse, json, has_supported_content_type, authorize_tenant,
}

-- What the constructor is given and no handler changes.
pub record Settings : Type 0 where
  pub policy_file_path : Bytes
  pub tenant_tokens : List (Bytes × Bytes)
  pub admin_token : Bytes

-- The answers of the surroundings in one call: the readings of the system clock, in nanoseconds, and
-- of the steady clock; whether the audit file is rewritten, and how an append to it ends; whether the
-- temporary policy file opens, takes the text, and is renamed; whether the state store is healthy.
pub record Answers : Type 0 where
  pub received_at : ℕ
  pub steady_now : ℕ
  pub compacted : Bool
  pub append : Append
  pub opened : Bool
  pub finished : Bool
  pub replaced : Bool
  pub state_healthy : Bool

-- The objects that the controller refers to, the content of the policy file, the counters, and the
-- world of the strategies.
pub record RestController (D S W : Type 0) : Type 0 where
  pub resolver : PolicyResolver D
  pub engine : PolicyEngine S
  pub db : Database
  pub policy_file : Bytes
  pub world : W
  pub evaluations : ℕ
  pub allowed : ℕ
  pub denied : ℕ
  pub dependency_errors : ℕ

-- `++counter` on an unsigned long long.
abbrev pub next_count : ℕ → ℕ
next_count n = (n + 1) % 2 ^ 64

-- The system clock counts nanoseconds.
abbrev pub to_epoch_ms : ℕ → ℕ
to_epoch_ms time = time / 1000000

abbrev pub decision_text : Bool → Bytes
decision_text allowed = if allowed then codes "ALLOW" else codes "DENY"

-- What `logRequest` is given.
abbrev pub audit_record : Request → EvaluationResult → StoredRequest
audit_record request evaluation = record {
  tenant_id = request.tenant_id;
  timestamp_ms = pos (to_epoch_ms request.received_at);
  result = decision_text evaluation.allowed;
  algorithm = evaluation.algorithm;
  state_snapshot = evaluation.state;
}

-- `HttpResponse::json(status, JsonCodec::encodeError(message))`.
abbrev pub error_response : ℕ → Bytes → HttpResponse
error_response status message = json status (encode_error message)

module _ {D S W : Type 0} where
  -- `++allowed_` or `++denied_`.
  abbrev pub count_decision : RestController D S W → Bool → RestController D S W
  count_decision c true = record c { allowed = next_count c.allowed }
  count_decision c false = record c { denied = next_count c.denied }

  -- Behind `logRequest`.
  unfoldable pub answer_logged :
      RestController D S W
      → Request
      → Bytes
      → EvaluationResult
      → Database × Bool
      → RestController D S W × HttpResponse
  answer_logged c request policy_key evaluation (db, logged) =
      if logged
      then (
        count_decision (record c { db = db }) evaluation.allowed,
        json 200 (
            encode_evaluate_response evaluation.allowed request policy_key evaluation.algorithm
              evaluation.state),
      )
      else (
        record c { db = db; dependency_errors = next_count c.dependency_errors },
        error_response 503 (codes "audit store unavailable; rate decision may have been consumed"),
      )

  -- Behind `evaluateDetailed`.
  unfoldable pub answer_evaluated :
      RestController D S W
      → Answers
      → Request
      → Bytes
      → EvaluationResult
      → RestController D S W × HttpResponse
  unfolding answer_logged
  answer_evaluated c answers request policy_key evaluation =
      if not (equal evaluation.error [])
      then (
        record c { dependency_errors = next_count c.dependency_errors },
        error_response 503 (codes "rate limit state store unavailable"),
      )
      else answer_logged c request policy_key evaluation
          (log_request c.db (audit_record request evaluation) answers.compacted answers.append)

-- `interface` is RateLimitStrategy, and `create` is `createStrategy` with a store and a key.
module _ {D S W : Type 0} ⦃d : Doubles D⦄ (interface : RateLimitStrategy S W) where
  unfoldable pub evaluate_key :
      RestController D S W → Answers → Request → Bytes → RestController D S W × HttpResponse
  unfolding answer_evaluated
  evaluate_key c answers request policy_key =
      let (engine, world, evaluation) = evaluate_detailed interface c.engine policy_key c.world in
      answer_evaluated (record c { engine = engine; world = world }) answers request policy_key
        evaluation

  -- Behind `createStrategy`.
  unfoldable pub with_strategy :
      RestController D S W
      → Answers
      → Request
      → Bytes
      → Result S × W
      → RestController D S W × HttpResponse
  unfolding evaluate_key
  with_strategy c answers request policy_key (rejected message, world) =
      (record c { world = world }, error_response 400 message)
  with_strategy c answers request policy_key (ok strategy, world) =
      evaluate_key
        (record c { world = world; engine = (ensure_policy c.engine policy_key strategy).0 })
        answers request policy_key

  module _ (create : Bytes → List (Bytes × D) → Bytes → W → Result S × W) where
    -- Behind `buildPolicyKey`.
    unfoldable pub evaluate_policy :
        RestController D S W
        → Answers
        → Request
        → Policy D
        → Bytes
        → RestController D S W × HttpResponse
    unfolding with_strategy evaluate_key
    evaluate_policy c answers request policy policy_key =
        if has_tenant c.engine policy_key
        then evaluate_key c answers request policy_key
        else with_strategy c answers request policy_key
            (create policy.algorithm policy.params policy_key c.world)

    -- Behind `resolve`.
    unfoldable pub evaluate_resolved :
        RestController D S W
        → Answers
        → Request
        → Option (Policy D)
        → RestController D S W × HttpResponse
    unfolding evaluate_policy
    evaluate_resolved c answers request none = (c, error_response 404 (codes "no matching policy"))
    evaluate_resolved c answers request (some policy) =
        evaluate_policy c answers request policy
          (build_policy_key request.tenant_id request.endpoint policy)

    -- Behind `decodeEvaluateRequest`.
    unfoldable pub evaluate_decoded :
        Settings
        → RestController D S W
        → Answers
        → HttpRequest
        → Result Request
        → RestController D S W × HttpResponse
    unfolding evaluate_resolved
    evaluate_decoded settings c answers req (rejected message) = (c, error_response 400 message)
    evaluate_decoded settings c answers req (ok request) =
        let auth = authorize_tenant settings.tenant_tokens req request.tenant_id in
        if not (auth.status == 200)
        then (c, auth)
        else evaluate_resolved c answers request (resolve c.resolver request)

    unfoldable pub handle_evaluate :
        Settings
        → RestController D S W
        → Answers
        → HttpRequest
        → RestController D S W × HttpResponse
    unfolding evaluate_decoded
    handle_evaluate settings c answers req =
        let counted = record c { evaluations = next_count c.evaluations } in
        if not (has_supported_content_type req)
        then (counted, error_response 415 (codes "content-type must be application/json"))
        else evaluate_decoded settings counted answers req
            (decode_evaluate_request D req.body answers.received_at)
