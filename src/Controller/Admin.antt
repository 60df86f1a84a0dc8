-- ===== src/Controller/Admin.antt =====
-- The handlers of api/RestController.cpp that ask for the admin token.
use policy_driven_rate_limit.Prelude.{
  Bytes, Result, [], codes, decimal, if◌then◌else◌, not, ok, rejected, ◌++◌, ◌==◌, ◌∷◌,
}
use policy_driven_rate_limit.Double.{Doubles}
use policy_driven_rate_limit.Policy.{Policy}
use policy_driven_rate_limit.Resolver.{PolicyResolver, set_policies}
use policy_driven_rate_limit.Resolver
use policy_driven_rate_limit.Factory.{create_strategy}
use policy_driven_rate_limit.Strategy.Local.{LocalStrategy}
use policy_driven_rate_limit.Loader.{save_to_file}
use policy_driven_rate_limit.Json.Encode.{encode_policy, encode_policies}
use policy_driven_rate_limit.Json.Decode.{decode_policy}
use policy_driven_rate_limit.Controller.{
  HttpRequest, HttpResponse, json, has_supported_content_type, authorize_admin,
}
use policy_driven_rate_limit.Controller.Handlers.{Settings, Answers, RestController, error_response}

module _ {D S W : Type 0} where
  unfoldable pub handle_metrics : Settings → RestController D S W → HttpRequest → HttpResponse
  handle_metrics settings c req =
      let auth = authorize_admin settings.admin_token req in
      if not (auth.status == 200)
      then auth
      else json 200 (
          codes "{\"evaluations\":"
          ++ (decimal c.evaluations
              ++ (codes ",\"allowed\":"
                  ++ (decimal c.allowed
                      ++ (codes ",\"denied\":"
                          ++ (decimal c.denied
                              ++ (codes ",\"dependencyErrors\":"
                                  ++ (decimal c.dependency_errors ++ (b'}' ∷ [])))))))))

module _ {D : Type 0} ⦃d : Doubles D⦄ where
  -- `policyFilePath_.empty() || saveToFile(...)`.
  unfoldable pub save_policies :
      Bytes → Answers → Bytes → PolicyResolver D → Bytes × Result (Unit {0})
  save_policies [] answers file sorted = (file, ok tt)
  save_policies (x ∷ path) answers file sorted =
      save_to_file (x ∷ path) file sorted.policies answers.opened answers.finished answers.replaced

module _ {D S W : Type 0} ⦃d : Doubles D⦄ where
  unfoldable pub handle_get_policies : Settings → RestController D S W → HttpRequest → HttpResponse
  handle_get_policies settings c req =
      let auth = authorize_admin settings.admin_token req in
      if not (auth.status == 200) then auth else json 200 (encode_policies c.resolver.policies)

  -- Behind the save: `resolver_.setPolicies(sorted.policies())`.
  unfoldable pub install_policies :
      RestController D S W
      → Policy D
      → PolicyResolver D
      → Bytes × Result (Unit {0})
      → RestController D S W × HttpResponse
  install_policies c policy sorted (file, rejected message) =
      (record c { policy_file = file }, error_response 500 message)
  install_policies c policy sorted (file, ok _) = (
    record c { policy_file = file; resolver = set_policies c.resolver sorted.policies },
    json 201 (encode_policy policy),
  )

  -- Behind `createStrategy`, whose result is only tested.
  unfoldable pub add_policy :
      Settings
      → RestController D S W
      → Answers
      → Policy D
      → Result (LocalStrategy D)
      → RestController D S W × HttpResponse
  unfolding install_policies save_policies
  add_policy settings c answers policy (rejected message) = (c, error_response 400 message)
  add_policy settings c answers policy (ok _) =
      let sorted = Resolver.create (c.resolver.policies ++ (policy ∷ [])) in
      install_policies c policy sorted
        (save_policies settings.policy_file_path answers c.policy_file sorted)

  -- Behind `decodePolicy`.
  unfoldable pub post_decoded :
      Settings
      → RestController D S W
      → Answers
      → Result (Policy D)
      → RestController D S W × HttpResponse
  unfolding add_policy
  post_decoded settings c answers (rejected message) = (c, error_response 400 message)
  post_decoded settings c answers (ok policy) =
      add_policy settings c answers policy
        (create_strategy policy.algorithm policy.params answers.steady_now)

  unfoldable pub handle_post_policy :
      Settings → RestController D S W → Answers → HttpRequest → RestController D S W × HttpResponse
  unfolding post_decoded
  handle_post_policy settings c answers req =
      let auth = authorize_admin settings.admin_token req in
      if not (auth.status == 200)
      then (c, auth)
      else if not (has_supported_content_type req)
      then (c, error_response 415 (codes "content-type must be application/json"))
      else post_decoded settings c answers (decode_policy req.body)
