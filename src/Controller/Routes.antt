-- ===== src/Controller/Routes.antt =====
-- `handleRequest` of api/RestController.cpp, and the requests of a whole run.
use policy_driven_rate_limit.Prelude.{
  Bool, Bytes, List, Result, [], codes, equal, false, if◌then◌else◌, insert_sorted, true, ◌&&◌,
  ◌||◌, ◌∷◌,
}
use policy_driven_rate_limit.Double.{Doubles}
use policy_driven_rate_limit.Engine.{RateLimitStrategy}
use policy_driven_rate_limit.Controller.{HttpRequest, HttpResponse, handle_health}
use policy_driven_rate_limit.Controller.Handlers.{
  Settings, Answers, RestController, error_response, handle_evaluate,
}
use policy_driven_rate_limit.Controller.Admin.{
  handle_get_policies, handle_post_policy, handle_metrics,
}

-- The methods that a path takes, for the header of a 405.
abbrev pub allowed_methods : Bytes → Bytes
allowed_methods path =
    if equal path (codes "/evaluate")
    then codes "POST"
    else if equal path (codes "/policies")
    then codes "GET, POST"
    else codes "GET"

abbrev pub known_path : Bytes → Bool
known_path path =
    equal path (codes "/evaluate")
    || equal path (codes "/policies")
    || equal path (codes "/health/live")
    || equal path (codes "/health/ready")
    || equal path (codes "/metrics")

-- The answer where no handler takes the request.
unfoldable pub refuse : Bytes → HttpResponse
refuse path =
    if known_path path
    then (let response = error_response 405 (codes "method not allowed") in
        record response {
          headers = insert_sorted (codes "Allow") (allowed_methods path) response.headers;
        })
    else error_response 404 (codes "not found")

-- `req.method == method && req.path == path`.
abbrev pub asks : HttpRequest → Bytes → Bytes → Bool
asks req method path = equal req.method method && equal req.path path

-- Which call of `handleRequest` takes a request.
pub data Route : Type 0 where
  to_evaluate : Route
  to_get_policies : Route
  to_post_policy : Route
  to_health : Bool → Route
  to_metrics : Route
  to_nothing : Route

-- The ladder of `handleRequest`.
unfoldable pub route_of : HttpRequest → Route
route_of req =
    if asks req (codes "POST") (codes "/evaluate")
    then to_evaluate
    else if asks req (codes "GET") (codes "/policies")
    then to_get_policies
    else if asks req (codes "POST") (codes "/policies")
    then to_post_policy
    else if asks req (codes "GET") (codes "/health/live")
    then to_health false
    else if asks req (codes "GET") (codes "/health/ready")
    then to_health true
    else if asks req (codes "GET") (codes "/metrics")
    then to_metrics
    else to_nothing

module _ {D S W : Type 0} ⦃d : Doubles D⦄ (interface : RateLimitStrategy S W)
    (create : Bytes → List (Bytes × D) → Bytes → W → Result S × W) where
  -- The call that a route stands for.
  unfoldable pub handle_route :
      Settings
      → RestController D S W
      → Answers
      → HttpRequest
      → Route
      → RestController D S W × HttpResponse
  unfolding refuse
  handle_route settings c answers req to_evaluate =
      handle_evaluate interface create settings c answers req
  handle_route settings c answers req to_get_policies = (c, handle_get_policies settings c req)
  handle_route settings c answers req to_post_policy = handle_post_policy settings c answers req
  handle_route settings c answers req (to_health readiness) =
      (c, handle_health readiness answers.state_healthy c.db.available)
  handle_route settings c answers req to_metrics = (c, handle_metrics settings c req)
  handle_route settings c answers req to_nothing = (c, refuse req.path)

  unfoldable pub handle_request :
      Settings → RestController D S W → Answers → HttpRequest → RestController D S W × HttpResponse
  unfolding handle_route route_of
  handle_request settings c answers req = handle_route settings c answers req (route_of req)

  -- The controller after a sequence of requests.
  unfoldable pub after_requests :
      Settings → RestController D S W → List (Answers × HttpRequest) → RestController D S W
  unfolding handle_request
  after_requests settings c [] = c
  after_requests settings c ((answers, req) ∷ rest) =
      after_requests settings (handle_request settings c answers req).0 rest
