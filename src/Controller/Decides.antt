-- ===== src/Controller/Decides.antt =====
-- What an evaluation that is answered with 200 has done.
use policy_driven_rate_limit.Prelude.{
  Bool, Bool-cases, Bytes, List, Option, Option-cases, codes, equal_refl, if◌then◌else◌, none, pos,
  sym, ◌/◌, Result, [], ap, arith, drop, equal, equal_iff, false, if_either, inl, inr, length, not,
  ok, refl, rejected, some, true, ◌++◌, ◌-◌, ◌==◌, ◌∙◌, ◌∷◌, ◌≡◌, ◌⊎◌,
}
use policy_driven_rate_limit.Double.{Doubles}
use policy_driven_rate_limit.Policy.{Policy, Request}
use policy_driven_rate_limit.Resolver.{resolve}
use policy_driven_rate_limit.Engine.{
  RateLimitStrategy, PolicyEngine, EvaluationResult, ensure_policy, evaluate_detailed,
}
use policy_driven_rate_limit.Engine.Valid.{IsValid, ensure_policy-IsValid}
use policy_driven_rate_limit.Engine.View.{
  strategy_of, strategy_of-policies, has_tenant-none, has_tenant-some, evaluate_found,
}
use policy_driven_rate_limit.Database.{Database, max_audit_records}
use policy_driven_rate_limit.Database.Bounds.{log_request-keeps}
use policy_driven_rate_limit.Factory.{build_policy_key}
use policy_driven_rate_limit.Json.Encode.{encode_evaluate_response}
use policy_driven_rate_limit.Json.Decode.{decode_evaluate_request}
use policy_driven_rate_limit.Controller.{
  HttpRequest, HttpResponse, has_supported_content_type, authorize_tenant,
}
use policy_driven_rate_limit.Controller.Handlers.{
  Settings, Answers, RestController, next_count, audit_record, count_decision, answer_logged,
  answer_evaluated, evaluate_key, with_strategy, evaluate_policy, evaluate_resolved,
  evaluate_decoded, handle_evaluate,
}

-- The newest 100000 at most.
abbrev pub newest {ℓ} : {A : Type ℓ} → List A → List A
newest xs = drop (length xs - max_audit_records) xs

module _ {D S W : Type 0} where
  -- The decision was without error, it stands at the end of the history, and it is the answer.
  pub record Records (db : Database) (engine : PolicyEngine S) (world : W) (request : Request)
      (policy_key : Bytes) (evaluation : EvaluationResult) (r : RestController D S W × HttpResponse)
      : Type 0 where
    pub clean : evaluation.error ≡ []
    pub recorded : r.0.db.requests ≡ newest (db.requests ++ (audit_record request evaluation ∷ []))
    pub engine_kept : r.0.engine ≡ engine
    pub world_kept : r.0.world ≡ world
    pub answered :
        r.1.body
        ≡ encode_evaluate_response evaluation.allowed request policy_key evaluation.algorithm
            evaluation.state

  count_decision-keeps :
      (c : RestController D S W) (allowed : Bool)
      → ((count_decision c allowed).db ≡ c.db)
        × ((count_decision c allowed).engine ≡ c.engine)
        × ((count_decision c allowed).world ≡ c.world)
  count_decision-keeps c true = (refl, refl, refl)
  count_decision-keeps c false = (refl, refl, refl)

  answer_logged-Records :
      (c : RestController D S W) (request : Request) (policy_key : Bytes)
      (evaluation : EvaluationResult) (logged : Database × Bool)
      → evaluation.error ≡ []
      → (logged.1 ≡ true
          → logged.0.requests ≡ newest (c.db.requests ++ (audit_record request evaluation ∷ [])))
      → (answer_logged c request policy_key evaluation logged).1.status ≡ 200
      → Records c.db c.engine c.world request policy_key evaluation
          (answer_logged c request policy_key evaluation logged)
  unfolding answer_logged
  answer_logged-Records c request policy_key evaluation (db, false) clean h e =
      absurd (omega (arith, e))
  answer_logged-Records c request policy_key evaluation (db, true) clean h e =
      let kept = count_decision-keeps (record c { db = db }) evaluation.allowed in
      record {
        clean = clean;
        recorded = ap Database.requests kept.0 ∙ h refl;
        engine_kept = kept.1;
        world_kept = kept.2;
        answered = refl;
      }

  answer_evaluated-Records :
      (c : RestController D S W) (answers : Answers) (request : Request) (policy_key : Bytes)
      (evaluation : EvaluationResult)
      → (answer_evaluated c answers request policy_key evaluation).1.status ≡ 200
      → Records c.db c.engine c.world request policy_key evaluation
          (answer_evaluated c answers request policy_key evaluation)
  unfolding answer_evaluated
  answer_evaluated-Records c answers request policy_key evaluation =
      if_either
        (λ r. r.1.status ≡ 200 → Records c.db c.engine c.world request policy_key evaluation r)
        (not (equal evaluation.error [])) _ _ (λ _ e. absurd (omega (arith, e)))
        (λ none e.
          answer_logged-Records c request policy_key evaluation _
            ((equal_iff evaluation.error []).0 (ground (arith, none)))
            (log_request-keeps c.db (audit_record request evaluation) answers.compacted
              answers.append)
            e)

module _ {S W : Type 0} (interface : RateLimitStrategy S W) where
  -- What a strategy answers to a request, and what it then shows.
  abbrev asked : S → W → S × W × Bool
  asked s w = interface.allow_request s w

  abbrev shown : S → W → Bytes × W
  shown s w = interface.get_state (asked s w).0 (asked s w).1

module _ {D S W : Type 0} (interface : RateLimitStrategy S W) where
  -- A strategy was asked once, in a world, without error; that decision stands at the end of the
  -- history and is the answer, and of the strategies that were held only that of the key is another.
  pub record Decided (db : Database) (held : Bytes → Option S) (request : Request)
      (policy_key : Bytes) (s : S) (w : W) (r : RestController D S W × HttpResponse) : Type 0 where
    pub clean : interface.last_error (asked interface s w).0 ≡ []
    pub recorded :
        r.0.db.requests
        ≡ newest (
            db.requests
            ++ (record {
              tenant_id = request.tenant_id;
              timestamp_ms = pos (request.received_at / 1000000);
              result = if (asked interface s w).2 then codes "ALLOW" else codes "DENY";
              algorithm = interface.algorithm_name (asked interface s w).0;
              state_snapshot = (shown interface s w).0;
            }
                ∷ []))
    pub answered :
        r.1.body
        ≡ encode_evaluate_response
            (asked interface s w).2
            request
            policy_key
            (interface.algorithm_name (asked interface s w).0)
            (shown interface s w).0
    pub world_kept : r.0.world ≡ (shown interface s w).1
    pub strategies :
        (j : Bytes)
        → strategy_of r.0.engine j
          ≡ (if equal policy_key j then some (asked interface s w).0 else held j)

module _ {D S W : Type 0} ⦃d : Doubles D⦄ (interface : RateLimitStrategy S W) where
  evaluate_key-Records :
      (c : RestController D S W) (answers : Answers) (request : Request) (policy_key : Bytes)
      → (evaluate_key interface c answers request policy_key).1.status ≡ 200
      → Records c.db
          (evaluate_detailed interface c.engine policy_key c.world).0
          (evaluate_detailed interface c.engine policy_key c.world).1
          request
          policy_key
          (evaluate_detailed interface c.engine policy_key c.world).2
          (evaluate_key interface c answers request policy_key)
  unfolding evaluate_key
  evaluate_key-Records c answers request policy_key e =
      let (engine, world, evaluation) = evaluate_detailed interface c.engine policy_key c.world in
      answer_evaluated-Records (record c { engine = engine; world = world }) answers request
        policy_key evaluation e

  evaluate_key-Decided :
      (c : RestController D S W) (answers : Answers) (request : Request) (policy_key : Bytes)
      (s : S)
      → IsValid c.engine
      → strategy_of c.engine policy_key ≡ some s
      → (evaluate_key interface c answers request policy_key).1.status ≡ 200
      → Decided interface c.db
          (strategy_of c.engine)
          request
          policy_key
          s
          c.world
          (evaluate_key interface c answers request policy_key)
  evaluate_key-Decided c answers request policy_key s v held e =
      let (world_left, result, others) =
        evaluate_found interface c.engine policy_key s c.world v held in
      let records = evaluate_key-Records c answers request policy_key e in
      record {
        clean = sym (ap EvaluationResult.error result) ∙ records.clean;
        recorded =
            records.recorded
            ∙ ap (λ (x : EvaluationResult). newest (c.db.requests ++ (audit_record request x ∷ [])))
                result;
        answered =
            records.answered
            ∙ ap
                (λ (x : EvaluationResult).
                  encode_evaluate_response x.allowed request policy_key x.algorithm x.state)
                result;
        world_kept = records.world_kept ∙ world_left;
        strategies =
            λ j. ap (λ (x : PolicyEngine S). strategy_of x j) records.engine_kept ∙ others j;
      }

  module _ (create : Bytes → List (Bytes × D) → Bytes → W → Result S × W) where
    -- The strategy asked is the one that the key has, in the world as it is, or, where it has none,
    -- the one that `create` makes of the policy, in the world that this leaves.
    abbrev pub Decides :
        RestController D S W
        → Request
        → Policy D
        → Bytes
        → RestController D S W × HttpResponse
        → Type 0
    Decides c request policy policy_key r =
        (s : S) × (w : W) × (((strategy_of c.engine policy_key ≡ some s) × (w ≡ c.world))
          ⊎ ((strategy_of c.engine policy_key ≡ none)
              × (create policy.algorithm policy.params policy_key c.world ≡ (ok s, w))))
        × Decided interface c.db (strategy_of c.engine) request policy_key s w r

    with_strategy-Decides :
        (c : RestController D S W) (answers : Answers) (request : Request) (policy : Policy D)
        (policy_key : Bytes) (made : Result S × W)
        → IsValid c.engine
        → strategy_of c.engine policy_key ≡ none
        → create policy.algorithm policy.params policy_key c.world ≡ made
        → (with_strategy interface c answers request policy_key made).1.status ≡ 200
        → Decides c request policy policy_key
            (with_strategy interface c answers request policy_key made)
    unfolding with_strategy
    with_strategy-Decides c answers request policy policy_key (rejected message, world) v new m e =
        absurd (omega (arith, e))
    with_strategy-Decides c answers request policy policy_key (ok s, world) v new m e =
        let engine = (ensure_policy c.engine policy_key s).0 in
        let held = λ (j : Bytes). (strategy_of-policies c.engine policy_key j s v).2 in
        let there : strategy_of engine policy_key ≡ some s =
          held policy_key ∙ rw (equal_refl policy_key, new) refl in
        let decided =
          evaluate_key-Decided (record c { world = world; engine = engine }) answers request
            policy_key s (ensure_policy-IsValid c.engine policy_key s v) there e in
        (
          s,
          world,
          inr (new, m),
          record {
            clean = decided.clean;
            recorded = decided.recorded;
            answered = decided.answered;
            world_kept = decided.world_kept;
            strategies = λ j. decided.strategies j ∙ elim (Bool-cases (equal policy_key j)) [
              | inl same ↦ rw same refl
              | inr other ↦ rw other (held j ∙ rw other refl)
            ];
          },
        )

    evaluate_policy-Decides :
        (c : RestController D S W) (answers : Answers) (request : Request) (policy : Policy D)
        (policy_key : Bytes)
        → IsValid c.engine
        → (evaluate_policy interface create c answers request policy policy_key).1.status ≡ 200
        → Decides c request policy policy_key
            (evaluate_policy interface create c answers request policy policy_key)
    unfolding evaluate_policy
    evaluate_policy-Decides c answers request policy policy_key v =
        elim (Option-cases (strategy_of c.engine policy_key)) [
          | inl missing ↦
              rw (has_tenant-none c.engine policy_key v missing)
                (with_strategy-Decides c answers request policy policy_key _ v missing refl)
          | inr (s, held) ↦ rw (has_tenant-some c.engine policy_key s held) λ e. (
            s,
            c.world,
            inl (held, refl),
            evaluate_key-Decided c answers request policy_key s v held e,
          )
        ]

    -- The request was read from the body and let through, and the decision is made under the policy
    -- that the resolver gives.
    abbrev pub Granted :
        Settings
        → RestController D S W
        → HttpRequest
        → Result Request
        → RestController D S W × HttpResponse
        → Type 0
    Granted settings c req decoded r =
        (request : Request) × (policy : Policy D) × (decoded ≡ ok request)
        × ((authorize_tenant settings.tenant_tokens req request.tenant_id).status ≡ 200)
        × (resolve c.resolver request ≡ some policy)
        × Decides c request policy (build_policy_key request.tenant_id request.endpoint policy) r

    evaluate_decoded-Granted :
        (settings : Settings) (c : RestController D S W) (answers : Answers) (req : HttpRequest)
        (decoded : Result Request)
        → IsValid c.engine
        → (evaluate_decoded interface create settings c answers req decoded).1.status ≡ 200
        → Granted settings c req decoded
            (evaluate_decoded interface create settings c answers req decoded)
    unfolding evaluate_decoded evaluate_resolved
    evaluate_decoded-Granted settings c answers req (rejected message) v =
        λ e. absurd (omega (arith, e))
    evaluate_decoded-Granted settings c answers req (ok request) v =
        let auth = authorize_tenant settings.tenant_tokens req request.tenant_id in
        if_either (λ r. r.1.status ≡ 200 → Granted settings c req (ok request) r)
          (not (auth.status == 200)) _ _ (λ denied e. absurd (ground (arith, denied, e)))
          (λ granted. elim (Option-cases (resolve c.resolver request)) [
            | inl missing ↦ λ e. absurd (omega (arith, rw missing at e))
            | inr (policy, found) ↦ rw found λ e. (
              request,
              policy,
              refl,
              ground (arith, granted),
              found,
              evaluate_policy-Decides c answers request policy _ v e,
            )
          ])

    -- On a valid engine, if handle_evaluate answers 200, then a request was read from the body,
    -- authorize_tenant answered 200 for its tenant, and the resolver gave a policy for it. The
    -- strategy of the policy key, or, where it had none, the one that was then made of the
    -- algorithm and the parameters of that policy, was asked once and for its state, without error.
    -- The tenant and the time of the request and what the strategy decided and showed are the last
    -- entry of the audit history, which keeps the newest 100000; the body is the encoding of the
    -- same; the world is as the calls leave it; the key has the new strategy, and every other key
    -- the one that it had.
    pub handle_evaluate-Granted :
        (settings : Settings) (c : RestController D S W) (answers : Answers) (req : HttpRequest)
        → IsValid c.engine
        → (handle_evaluate interface create settings c answers req).1.status ≡ 200
        → Granted settings c req
            (decode_evaluate_request D req.body answers.received_at)
            (handle_evaluate interface create settings c answers req)
    unfolding handle_evaluate
    handle_evaluate-Granted settings c answers req v =
        if_either
          (λ r.
            r.1.status ≡ 200
            → Granted settings c req (decode_evaluate_request D req.body answers.received_at) r)
          (not (has_supported_content_type req)) _ _ (λ _ e. absurd (omega (arith, e)))
          (λ _ e.
            let counted = record c { evaluations = next_count c.evaluations } in
            evaluate_decoded-Granted settings counted answers req _ v e)
