-- ===== src/Controller/Valid/Run.antt =====
-- Every request keeps the invariant of the controller.
use policy_driven_rate_limit.Prelude.{
  All, Bytes, List, Result, [], arith, if_either, length, not, ok, refl, rejected, subst, ℕ, ◌++◌,
  ◌+◌, ◌<◌, ◌==◌, ◌^◌, ◌∷◌, ◌≡◌, ◌≢◌,
}
use policy_driven_rate_limit.Double.{Doubles}
use policy_driven_rate_limit.Policy.{Policy}
use policy_driven_rate_limit.Resolver.{PolicyResolver, set_policies, create}
use policy_driven_rate_limit.Resolver.Order.{sorted_policies-IsSorted, All-sorted}
use policy_driven_rate_limit.Engine.{RateLimitStrategy}
use policy_driven_rate_limit.Factory.{create_strategy}
use policy_driven_rate_limit.Strategy.Local.{LocalStrategy}
use policy_driven_rate_limit.Loader.Valid.{AllValid, save_to_file-ok}
use policy_driven_rate_limit.Controller.{HttpRequest, has_supported_content_type, authorize_admin}
use policy_driven_rate_limit.Database.Bounds.{IsNoticed}
use policy_driven_rate_limit.Controller.Handlers.{Settings, Answers, RestController}
use policy_driven_rate_limit.Controller.Admin.{
  install_policies, save_policies, add_policy, post_decoded, handle_post_policy,
}
use policy_driven_rate_limit.Controller.Routes.{
  Route, to_evaluate, to_get_policies, to_post_policy, to_health, to_metrics, to_nothing, route_of,
  handle_route, handle_request, after_requests,
}
use policy_driven_rate_limit.Controller.Valid.{IsValid, Leaves}
use policy_driven_rate_limit.Controller.Valid.Evaluate.{handle_evaluate-IsValid}

module _ {D : Type 0} ⦃d : Doubles D⦄ (settings : Settings) where
  -- The policies that may be installed: in order, and valid where there is a policy file.
  abbrev MayInstall : PolicyResolver D → Bytes × Result (Unit {0}) → Type 0
  MayInstall sorted saved =
      saved.1 ≡ ok tt → settings.policy_file_path ≢ [] → AllValid sorted.policies

  save_policies-AllValid :
      (path : Bytes) (answers : Answers) (file : Bytes) (sorted : PolicyResolver D)
      → (save_policies path answers file sorted).1 ≡ ok tt
      → path ≢ []
      → AllValid sorted.policies
  unfolding save_policies
  save_policies-AllValid [] answers file sorted e h = absurd (h refl)
  save_policies-AllValid (x ∷ path) answers file sorted e h =
      (save_to_file-ok (x ∷ path) file sorted.policies answers.opened answers.finished
        answers.replaced e).1

module _ {D S W : Type 0} ⦃d : Doubles D⦄ (settings : Settings) where
  install_policies-IsValid :
      (n : ℕ) (c : RestController D S W) (policy : Policy D) (sorted : PolicyResolver D)
      (saved : Bytes × Result (Unit {0}))
      → MayInstall settings sorted saved
      → IsValid settings n c
      → Leaves settings n (install_policies c policy sorted saved)
  unfolding install_policies set_policies
  install_policies-IsValid n c policy sorted (file, rejected message) m (s, k) =
      (s, record { decided = k.decided; counted = k.counted })
  install_policies-IsValid n c policy sorted (file, ok _) m (s, k) = (
    record {
      engine_valid = s.engine_valid;
      db_valid = s.db_valid;
      policies_sorted = sorted_policies-IsSorted sorted.policies;
      policies_valid = λ h. All-sorted _ sorted.policies (m refl h);
    },
    record { decided = k.decided; counted = k.counted },
  )

  add_policy-IsValid :
      (n : ℕ) (c : RestController D S W) (answers : Answers) (policy : Policy D)
      (made : Result (LocalStrategy D))
      → IsValid settings n c
      → Leaves settings n (add_policy settings c answers policy made)
  unfolding add_policy
  add_policy-IsValid n c answers policy (rejected message) v = v
  add_policy-IsValid n c answers policy (ok _) v =
      install_policies-IsValid n c policy (create (c.resolver.policies ++ (policy ∷ []))) _
        (save_policies-AllValid settings settings.policy_file_path answers c.policy_file _) v

  post_decoded-IsValid :
      (n : ℕ) (c : RestController D S W) (answers : Answers) (decoded : Result (Policy D))
      → IsValid settings n c
      → Leaves settings n (post_decoded settings c answers decoded)
  unfolding post_decoded
  post_decoded-IsValid n c answers (rejected message) v = v
  post_decoded-IsValid n c answers (ok policy) v =
      add_policy-IsValid n c answers policy
        (create_strategy policy.algorithm policy.params answers.steady_now) v

  pub handle_post_policy-IsValid :
      (n : ℕ) (c : RestController D S W) (answers : Answers) (req : HttpRequest)
      → IsValid settings n c
      → Leaves settings n (handle_post_policy settings c answers req)
  unfolding handle_post_policy
  handle_post_policy-IsValid n c answers req v =
      if_either (Leaves settings n) (not ((authorize_admin settings.admin_token req).status == 200))
        _ _ (λ _. v)
        (λ _.
          if_either (Leaves settings n) (not (has_supported_content_type req)) _ _ (λ _. v)
            (λ _. post_decoded-IsValid n c answers _ v))

module _ {D S W : Type 0} ⦃d : Doubles D⦄ (settings : Settings) (interface : RateLimitStrategy S W)
    (create : Bytes → List (Bytes × D) → Bytes → W → Result S × W) where
  more_requests :
      (n : ℕ) (c : RestController D S W) → IsValid settings n c → IsValid settings (n + 1) c
  more_requests n c (s, k) = (s, record { decided = k.decided; counted = omega (arith, k.counted) })

  handle_route-IsValid :
      (n : ℕ) (c : RestController D S W) (answers : Answers) (told : IsNoticed answers.append)
      (req : HttpRequest) (route : Route)
      → n + 1 < 2 ^ 64
      → IsValid settings n c
      → Leaves settings (n + 1) (handle_route interface create settings c answers req route)
  unfolding handle_route
  handle_route-IsValid n c answers told req to_evaluate few v =
      handle_evaluate-IsValid settings interface create n c answers told req few v
  handle_route-IsValid n c answers told req to_post_policy few v =
      more_requests n _ (handle_post_policy-IsValid settings n c answers req v)
  handle_route-IsValid n c answers told req to_get_policies few v = more_requests n c v
  handle_route-IsValid n c answers told req (to_health readiness) few v = more_requests n c v
  handle_route-IsValid n c answers told req to_metrics few v = more_requests n c v
  handle_route-IsValid n c answers told req to_nothing few v = more_requests n c v

  handle_request-IsValid :
      (n : ℕ) (c : RestController D S W) (answers : Answers) (told : IsNoticed answers.append)
      (req : HttpRequest)
      → n + 1 < 2 ^ 64
      → IsValid settings n c
      → Leaves settings (n + 1) (handle_request interface create settings c answers req)
  unfolding handle_request
  handle_request-IsValid n c answers told req few v =
      handle_route-IsValid n c answers told req (route_of req) few v

  -- Kept by any sequence of requests of any kind, whatever the clocks, the store and the file
  -- system answer, but that no flush of an append fails unnoticed, where it holds before with at
  -- most n evaluations, and n and the number of the requests are together below 2 to the 64th: each
  -- tenant of the registry keeps an entry of its own, the audit history is bounded and its file in
  -- step while it is available, the policies stay in descending order of priority and, where there
  -- is a policy file, valid, and the decisions and errors counted are no more than the evaluations,
  -- and these no more than n and the requests.
  pub after_requests-IsValid :
      (n : ℕ) (c : RestController D S W) (requests : List (Answers × HttpRequest))
      → n + length requests < 2 ^ 64
      → All (λ call. IsNoticed call.0.append) requests
      → IsValid settings n c
      → IsValid settings (n + length requests) (after_requests interface create settings c requests)
  unfolding after_requests
  after_requests-IsValid n c [] few told v =
      subst (λ (m : ℕ). IsValid {D = D} settings m c) (omega arith) v
  after_requests-IsValid n c ((answers, req) ∷ rest) few told v =
      subst
        (λ (m : ℕ). IsValid {D = D} settings m (
          after_requests interface create settings
            (handle_request interface create settings c answers req).0 rest))
        (omega arith)
        (after_requests-IsValid (n + 1) _ rest (omega (arith, few)) told.1
          (handle_request-IsValid n c answers told.0 req (omega (arith, few)) v))
