-- ===== src/Controller/Installs.antt =====
-- What a posted policy changes.
use policy_driven_rate_limit.Prelude.{
  Bytes, Result, Result-cases, [], ap, arith, if_either, inl, inr, not, ok, refl, rejected, ◌++◌,
  ◌==◌, ◌∷◌, ◌≡◌, ◌≢◌, ◌⊎◌,
}
use policy_driven_rate_limit.Double.{Doubles}
use policy_driven_rate_limit.Policy.{Policy}
use policy_driven_rate_limit.Resolver.{PolicyResolver, sorted_policies, set_policies, create}
use policy_driven_rate_limit.Resolver.Order.{
  sorted_policies-IsSorted, sorted_policies-perm, sorted_policies-IsSorted_self,
}
use policy_driven_rate_limit.Factory.{create_strategy}
use policy_driven_rate_limit.Strategy.Local.{LocalStrategy}
use policy_driven_rate_limit.Loader.{to_yaml}
use policy_driven_rate_limit.Loader.Valid.{save_to_file-ok, save_to_file-rejected}
use policy_driven_rate_limit.Json.Decode.{decode_policy}
use policy_driven_rate_limit.Controller.{
  HttpRequest, HttpResponse, has_supported_content_type, authorize_admin,
}
use policy_driven_rate_limit.Controller.Access.{authorize_admin-not_created}
use policy_driven_rate_limit.Controller.Handlers.{Settings, Answers, RestController}
use policy_driven_rate_limit.Controller.Admin.{
  install_policies, save_policies, add_policy, post_decoded, handle_post_policy,
}
use mathlib.Core.List.{Perm}

module _ {D : Type 0} ⦃d : Doubles D⦄ where
  save_policies-ok :
      (path : Bytes) (answers : Answers) (file : Bytes) (sorted : PolicyResolver D)
      → (save_policies path answers file sorted).1 ≡ ok tt
      → (path ≡ []) ⊎ ((save_policies path answers file sorted).0 ≡ to_yaml sorted.policies)
  unfolding save_policies
  save_policies-ok [] answers file sorted e = inl refl
  save_policies-ok (x ∷ path) answers file sorted e =
      inr
        (save_to_file-ok (x ∷ path) file sorted.policies answers.opened answers.finished
          answers.replaced e).0

  save_policies-rejected :
      (path : Bytes) (answers : Answers) (file : Bytes) (sorted : PolicyResolver D)
      (message : Bytes)
      → (save_policies path answers file sorted).1 ≡ rejected message
      → (save_policies path answers file sorted).0 ≡ file
  unfolding save_policies
  save_policies-rejected [] answers file sorted message e = refl
  save_policies-rejected (x ∷ path) answers file sorted message e =
      save_to_file-rejected (x ∷ path) file sorted.policies answers.opened answers.finished
        answers.replaced message e

module _ {D S W : Type 0} ⦃d : Doubles D⦄ (settings : Settings) where
  -- The resolver has one policy more, and so has the policy file where there is one.
  pub record Adds (c : RestController D S W) (policy : Policy D) (c' : RestController D S W)
      : Type 0 where
    pub one_more : Perm c'.resolver.policies (c.resolver.policies ++ (policy ∷ []))
    pub saved : (settings.policy_file_path ≡ []) ⊎ (c'.policy_file ≡ to_yaml c'.resolver.policies)

  -- Either the answer is 201 and `P` holds of the controller, or the controller is as it was.
  abbrev pub Commits :
      (RestController D S W → Type 0)
      → RestController D S W
      → RestController D S W × HttpResponse
      → Type 0
  Commits P c r = ((r.1.status ≡ 201) × P r.0) ⊎ ((r.1.status ≢ 201) × (r.0 ≡ c))

  install_policies-Commits :
      (c : RestController D S W) (policy : Policy D) (saved : Bytes × Result (Unit {0}))
      → (saved.1 ≡ ok tt
          → (settings.policy_file_path ≡ [])
            ⊎ (saved.0 ≡ to_yaml (sorted_policies (c.resolver.policies ++ (policy ∷ [])))))
      → ((message : Bytes) → saved.1 ≡ rejected message → saved.0 ≡ c.policy_file)
      → Commits
          (Adds c policy)
          c
          (install_policies c policy (create (c.resolver.policies ++ (policy ∷ []))) saved)
  unfolding install_policies create set_policies
  install_policies-Commits c policy (file, rejected message) done failed = inr (
    (λ e. omega (arith, e)),
    ap (λ (f : Bytes). record c { policy_file = f }) (failed message refl),
  )
  install_policies-Commits c policy (file, ok _) done failed =
      let all = c.resolver.policies ++ (policy ∷ []) in
      let again =
        sorted_policies-IsSorted_self (sorted_policies all) (sorted_policies-IsSorted all) in
      inl (
        refl,
        record { one_more = rw again (sorted_policies-perm all); saved = rw again (done refl) },
      )

  -- The policy was read from the body of an authorized request, a strategy can be made of it, and it
  -- was added.
  abbrev pub Posted : RestController D S W → Answers → HttpRequest → RestController D S W → Type 0
  Posted c answers req c' =
      (policy : Policy D) × ((authorize_admin settings.admin_token req).status ≡ 200)
      × (decode_policy req.body ≡ ok policy)
      × ((strategy : LocalStrategy D) × (create_strategy policy.algorithm policy.params
              answers.steady_now
            ≡ ok strategy))
      × Adds c policy c'

  add_policy-Commits :
      (c : RestController D S W) (answers : Answers) (policy : Policy D)
      (made : Result (LocalStrategy D))
      → Commits
          (λ c'. ((strategy : LocalStrategy D) × (made ≡ ok strategy)) × Adds c policy c')
          c
          (add_policy settings c answers policy made)
  unfolding add_policy create
  add_policy-Commits c answers policy (rejected message) = inr ((λ e. omega (arith, e)), refl)
  add_policy-Commits c answers policy (ok strategy) =
      let path = settings.policy_file_path in
      elim (install_policies-Commits c policy _ (save_policies-ok path answers c.policy_file _)
        (save_policies-rejected path answers c.policy_file _)) [
          | inl (created, adds) ↦ inl (created, ((strategy, refl), adds))
          | inr same ↦ inr same
        ]

  post_decoded-Commits :
      (c : RestController D S W) (answers : Answers) (req : HttpRequest)
      → (authorize_admin settings.admin_token req).status ≡ 200
      → Commits (Posted c answers req) c (post_decoded settings c answers (decode_policy req.body))
  unfolding post_decoded
  post_decoded-Commits c answers req granted =
      elim (Result-cases (decode_policy {D = D} req.body)) [
        | inl (message, failed) ↦ rw failed (inr ((λ e. omega (arith, e)), refl))
        | inr (policy, decoded) ↦
            rw decoded
              (elim (add_policy-Commits c answers policy
                (create_strategy policy.algorithm policy.params answers.steady_now)) [
                  | inl (created, (made, adds)) ↦ inl (created, (policy, granted, refl, made, adds))
                  | inr same ↦ inr same
                ])
      ]

  -- handle_post_policy either answers 201, and then the request passed authorize_admin, its body
  -- decodes to a policy of which a strategy can be made, the policies are the old ones and this one
  -- in some order, and the policy file, if there is one, is what to_yaml writes of them; or it
  -- answers otherwise, and the controller is as it was.
  pub handle_post_policy-Commits :
      (c : RestController D S W) (answers : Answers) (req : HttpRequest)
      → Commits (Posted c answers req) c (handle_post_policy settings c answers req)
  unfolding handle_post_policy
  handle_post_policy-Commits c answers req =
      let P = Commits (Posted c answers req) c in
      let auth = authorize_admin settings.admin_token req in
      if_either P (not (auth.status == 200)) _ _
        (λ denied. inr ((λ e. authorize_admin-not_created settings.admin_token req e), refl))
        (λ granted.
          if_either P (not (has_supported_content_type req)) _ _
            (λ _. inr ((λ e. omega (arith, e)), refl))
            (λ _. post_decoded-Commits c answers req (ground (arith, granted))))
