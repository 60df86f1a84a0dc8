-- ===== src/Json/Decode.antt =====
-- `decodeEvaluateRequest` and `decodePolicy` of api/JsonCodec.cpp. An error that is never set is the
-- empty text.
pub mod Accepts
use policy_driven_rate_limit.Prelude.{
  Bool, Bytes, List, Option, Result, [], codes, equal, false, if◌then◌else◌, length, ltb, negsuc,
  none, not, ok, pos, rejected, require, some, true, ℕ, ◌&&◌, ◌>>=◌, ◌>>◌, ◌||◌, ◌∷◌,
}
use policy_driven_rate_limit.Double.{Doubles}
use policy_driven_rate_limit.Policy.{Policy, Request, default_policy, normalize_algorithm_name}
use policy_driven_rate_limit.Policy.Validate.{starts_with_slash}
use policy_driven_rate_limit.Json.Value.{JsonValue, Members, object, field}
use policy_driven_rate_limit.Json.Parser.{parse}
use policy_driven_rate_limit.Json.Fields.{has, read_string, read_number, reject_unknown, add_number}

unfoldable pub check_request : Bytes → Bytes → Result (Unit {0})
check_request tenant endpoint = do
  require (not (equal tenant [])) (codes "missing tenant")
  require (starts_with_slash endpoint) (codes "endpoint must be a non-empty absolute path")
  require (not (ltb 256 (length tenant) || ltb 2048 (length endpoint)))
      (codes "tenant or endpoint exceeds maximum length")

abbrev pub param_names : List Bytes
param_names =
    codes "capacity"
    ∷ codes "refillRate"
    ∷ codes "refill"
    ∷ codes "limit"
    ∷ codes "window"
    ∷ codes "leakRate"
    ∷ codes "leak"
    ∷ []

abbrev pub policy_names : List Bytes
policy_names =
    codes "priority"
    ∷ codes "match"
    ∷ codes "algorithm"
    ∷ codes "params"
    ∷ codes "tenant"
    ∷ codes "tenantId"
    ∷ codes "endpoint"
    ∷ codes "role"
    ∷ param_names

module _ {D : Type 0} ⦃d : Doubles D⦄ where
  -- `root.type != JsonValue::Object`.
  abbrev pub object_or : Bytes → JsonValue D → Result (Members D)
  object_or message (object fields) = ok fields
  object_or message _ = rejected message

  abbrev pub read_root : Bytes → Result (Members D)
  read_root body = parse body >>= object_or (codes "request body must be a JSON object")

  -- `tenant`, or its other name.
  unfoldable pub read_tenant : Members D → Result Bytes
  read_tenant root =
      if has (codes "tenant") root
      then read_string root (codes "tenant")
      else read_string root (codes "tenantId")

  unfoldable pub request_of : Members D → ℕ → Result Request
  unfolding read_tenant check_request
  request_of root now = do
    reject_unknown root (codes "tenant" ∷ codes "tenantId" ∷ codes "endpoint" ∷ codes "role" ∷ [])
    require (not (has (codes "role") root)) (codes "role is not supported")
    require (not (has (codes "tenant") root && has (codes "tenantId") root))
        (codes "provide tenant or tenantId, not both")
    tenant ← read_tenant root
    endpoint ← read_string root (codes "endpoint")
    check_request tenant endpoint
    ok (record { tenant_id = tenant; endpoint = endpoint; received_at = now })

  -- The limits of an int are limits on the double.
  unfoldable pub with_priority : Policy D → Option D → Result (Policy D)
  with_priority p none = ok p
  with_priority p (some priority) =
      require
        (not (
          not (d.eq (d.floor priority) priority)
          || d.lt priority (d.of_signed (negsuc 2147483647))
          || d.lt (d.of_signed (pos 2147483647)) priority))
        (codes "priority must be an integer")
      >> ok (record p { priority = d.to_signed priority })

  -- A field that is an object if it is there.
  abbrev pub optional_object : Bytes → Option (JsonValue D) → Result (Option (Members D))
  optional_object message none = ok none
  optional_object message (some value) = object_or message value >>= λ fields. ok (some fields)

  -- `match ? *match : root`, with the checks on what else there is.
  unfoldable pub match_source : Members D → Option (Members D) → Result (Members D)
  match_source root none = ok root
  match_source root (some fields) = do
    require
        (not
          (has (codes "tenant") root || has (codes "tenantId") root || has (codes "endpoint") root))
        (codes "put match fields either in match or at the top level, not both")
    reject_unknown fields (codes "tenant" ∷ codes "tenantId" ∷ codes "endpoint" ∷ codes "role" ∷ [])
    require (not (has (codes "role") fields)) (codes "role is not supported")
    ok fields

  -- A text that is not required is empty where it is missing.
  unfoldable pub optional_string : Members D → Bytes → Result Bytes
  optional_string fields name = if has name fields then read_string fields name else ok []

  unfoldable pub match_tenant_of : Members D → Result Bytes
  unfolding optional_string
  match_tenant_of source =
      if has (codes "tenant") source
      then read_string source (codes "tenant")
      else optional_string source (codes "tenantId")

  unfoldable pub with_tenant : Policy D → Bytes → Policy D
  with_tenant p [] = p
  with_tenant p (c ∷ cs) = record p { has_tenant = true; match_tenant = c ∷ cs }

  unfoldable pub with_endpoint : Policy D → Bytes → Policy D
  with_endpoint p [] = p
  with_endpoint p (c ∷ cs) = record p { has_endpoint = true; match_endpoint = c ∷ cs }

  unfoldable pub with_match : Policy D → Members D → Result (Policy D)
  unfolding match_tenant_of optional_string with_tenant with_endpoint
  with_match p source = do
    require (not (has (codes "tenant") source && has (codes "tenantId") source))
        (codes "provide tenant or tenantId, not both")
    tenant ← match_tenant_of source
    endpoint ← optional_string source (codes "endpoint")
    ok (with_endpoint (with_tenant p tenant) endpoint)

  unfoldable pub with_algorithm : Policy D → Members D → Result (Policy D)
  with_algorithm p root = do
    algorithm ← read_string root (codes "algorithm")
    require (not (equal algorithm [])) []
    ok (record p { algorithm = normalize_algorithm_name algorithm })

  abbrev pub has_any : List Bytes → Members D → Bool
  has_any [] fields = false
  has_any (name ∷ names) fields = has name fields || has_any names fields

  -- `params ? *params : root`.
  unfoldable pub param_source : Members D → Option (Members D) → Result (Members D)
  param_source root none = ok root
  param_source root (some fields) = do
    require (not (has_any param_names root))
        (codes "put algorithm parameters either in params or at the top level, not both")
    reject_unknown fields param_names
    ok fields

  unfoldable pub with_params : Policy D → Members D → Result (Policy D)
  with_params p source = do
    capacity ← add_number source (codes "capacity") (codes "capacity") p
    refill_rate ← add_number source (codes "refillRate") (codes "refill") capacity
    refill ← add_number source (codes "refill") (codes "refill") refill_rate
    limit ← add_number source (codes "limit") (codes "limit") refill
    window ← add_number source (codes "window") (codes "window") limit
    leak_rate ← add_number source (codes "leakRate") (codes "leakRate") window
    add_number source (codes "leak") (codes "leakRate") leak_rate

  unfoldable pub policy_of : Members D → Result (Policy D)
  unfolding with_priority match_source with_match with_algorithm param_source with_params
  policy_of root = do
    reject_unknown root policy_names
    require (not (has (codes "role") root)) (codes "role is not supported")
    priority ← read_number root (codes "priority")
    prioritized ← with_priority default_policy priority
    match_fields ← optional_object (codes "match must be an object") (field (codes "match") root)
    source ← match_source root match_fields
    matched ← with_match prioritized source
    named ← with_algorithm matched root
    params ← optional_object (codes "params must be an object") (field (codes "params") root)
    param_fields ← param_source root params
    with_params named param_fields

  unfoldable pub decode_policy : Bytes → Result (Policy D)
  unfolding policy_of
  decode_policy body = read_root body >>= policy_of

-- `now` is the reading of the clock in the constructor of `Request`.
unfoldable pub decode_evaluate_request : (D : Type 0) ⦃d : Doubles D⦄ → Bytes → ℕ → Result Request
unfolding request_of
decode_evaluate_request D body now = read_root {D = D} body >>= λ root. request_of root now
