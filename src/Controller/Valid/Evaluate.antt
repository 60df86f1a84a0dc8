-- ===== src/Controller/Valid/Evaluate.antt =====
-- `handleEvaluate` keeps the invariant of the controller.
use policy_driven_rate_limit.Prelude.{
  Bytes, List, Option, Result, arith, if_either, none, not, ok, rejected, some, ℕ, ◌+◌, ◌<◌, ◌==◌,
  ◌^◌,
}
use policy_driven_rate_limit.Double.{Doubles}
use policy_driven_rate_limit.Policy.{Policy, Request}
use policy_driven_rate_limit.Engine.{RateLimitStrategy, has_tenant, evaluate_detailed}
use policy_driven_rate_limit.Engine.Valid.{ensure_policy-IsValid, evaluate-IsValid}
use policy_driven_rate_limit.Controller.{HttpRequest, has_supported_content_type, authorize_tenant}
use policy_driven_rate_limit.Database.Bounds.{IsNoticed}
use policy_driven_rate_limit.Controller.Handlers.{
  Settings, Answers, RestController, next_count, evaluate_key, with_strategy, evaluate_policy,
  evaluate_resolved, evaluate_decoded, handle_evaluate,
}
use policy_driven_rate_limit.Controller.Valid.{
  IsValid, IsPending, Leaves, idle, with_engine-IsPending, answer_evaluated-IsValid,
}

module _ {D S W : Type 0} ⦃d : Doubles D⦄ (settings : Settings)
    (interface : RateLimitStrategy S W) where
  evaluate_key-IsValid :
      (n : ℕ) (c : RestController D S W) (answers : Answers) (told : IsNoticed answers.append)
      (request : Request) (policy_key : Bytes)
      → IsPending settings n c
      → Leaves settings n (evaluate_key interface c answers request policy_key)
  unfolding evaluate_key
  evaluate_key-IsValid n c answers told request policy_key v =
      answer_evaluated-IsValid settings n _ answers told request policy_key
        (evaluate_detailed interface c.engine policy_key c.world).2
        (with_engine-IsPending settings n c _ _
          (evaluate-IsValid interface c.engine policy_key c.world v.0.engine_valid) v)

  with_strategy-IsValid :
      (n : ℕ) (c : RestController D S W) (answers : Answers) (told : IsNoticed answers.append)
      (request : Request) (policy_key : Bytes) (made : Result S × W)
      → IsPending settings n c
      → Leaves settings n (with_strategy interface c answers request policy_key made)
  unfolding with_strategy
  with_strategy-IsValid n c answers told request policy_key (rejected message, world) v =
      idle settings n _ (with_engine-IsPending settings n c c.engine world v.0.engine_valid v)
  with_strategy-IsValid n c answers told request policy_key (ok strategy, world) v =
      evaluate_key-IsValid n _ answers told request policy_key (
        with_engine-IsPending settings n c _ world
          (ensure_policy-IsValid c.engine policy_key strategy v.0.engine_valid) v)

  module _ (create : Bytes → List (Bytes × D) → Bytes → W → Result S × W) where
    evaluate_policy-IsValid :
        (n : ℕ) (c : RestController D S W) (answers : Answers) (told : IsNoticed answers.append)
        (request : Request) (policy : Policy D) (policy_key : Bytes)
        → IsPending settings n c
        → Leaves settings n (evaluate_policy interface create c answers request policy policy_key)
    unfolding evaluate_policy
    evaluate_policy-IsValid n c answers told request policy policy_key v =
        if_either (Leaves settings n) (has_tenant c.engine policy_key) _ _
          (λ _. evaluate_key-IsValid n c answers told request policy_key v)
          (λ _. with_strategy-IsValid n c answers told request policy_key _ v)

    evaluate_resolved-IsValid :
        (n : ℕ) (c : RestController D S W) (answers : Answers) (told : IsNoticed answers.append)
        (request : Request) (found : Option (Policy D))
        → IsPending settings n c
        → Leaves settings n (evaluate_resolved interface create c answers request found)
    unfolding evaluate_resolved
    evaluate_resolved-IsValid n c answers told request none v = idle settings n c v
    evaluate_resolved-IsValid n c answers told request (some policy) v =
        evaluate_policy-IsValid n c answers told request policy _ v

    evaluate_decoded-IsValid :
        (n : ℕ) (c : RestController D S W) (answers : Answers) (told : IsNoticed answers.append)
        (req : HttpRequest) (decoded : Result Request)
        → IsPending settings n c
        → Leaves settings n (evaluate_decoded interface create settings c answers req decoded)
    unfolding evaluate_decoded
    evaluate_decoded-IsValid n c answers told req (rejected message) v = idle settings n c v
    evaluate_decoded-IsValid n c answers told req (ok request) v =
        let auth = authorize_tenant settings.tenant_tokens req request.tenant_id in
        if_either (Leaves settings n) (not (auth.status == 200)) _ _ (λ _. idle settings n c v)
          (λ _. evaluate_resolved-IsValid n c answers told request _ v)

    pub handle_evaluate-IsValid :
        (n : ℕ) (c : RestController D S W) (answers : Answers) (told : IsNoticed answers.append)
        (req : HttpRequest)
        → n + 1 < 2 ^ 64
        → IsValid settings n c
        → Leaves settings (n + 1) (handle_evaluate interface create settings c answers req)
    unfolding handle_evaluate
    handle_evaluate-IsValid n c answers told req few (s, k) =
        let v : IsPending settings (n + 1) (record c { evaluations = next_count c.evaluations }) = (
          s,
          record {
            decided = omega (arith, few, k.decided, k.counted);
            counted = omega (arith, k.counted);
          },
        ) in
        if_either (Leaves settings (n + 1)) (not (has_supported_content_type req)) _ _
          (λ _. idle settings (n + 1) _ v)
          (λ _. evaluate_decoded-IsValid (n + 1) _ answers told req _ v)
