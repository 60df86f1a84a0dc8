-- ===== src/Controller.antt =====
-- api/HttpTypes.h, and of api/RestController.cpp the reading of headers, the authorization, and the
-- health check.
pub mod Access
pub mod Handlers
pub mod Admin
pub mod Routes
pub mod Valid
pub mod Decides
pub mod Installs
use policy_driven_rate_limit.Prelude.{
  Bool, Bytes, List, Option, [], codes, equal, if◌then◌else◌, leb, length, lookup, none, not, some,
  take, ℕ, ◌%◌, ◌&&◌, ◌+◌, ◌==◌, ◌||◌, ◌∷◌,
}
use Prim.Native.Nat.{bit_or, bit_xor}
use policy_driven_rate_limit.Json.Encode.{encode_error}

pub record HttpRequest : Type 0 where
  pub method : Bytes
  pub path : Bytes
  pub headers : List (Bytes × Bytes)
  pub body : Bytes

pub record HttpResponse : Type 0 where
  pub status : ℕ
  pub headers : List (Bytes × Bytes)
  pub body : Bytes

-- `HttpResponse::json`.
abbrev pub json : ℕ → Bytes → HttpResponse
json status_code payload = record {
  status = status_code;
  headers =
      (codes "Connection", codes "close") ∷ (codes "Content-Type", codes "application/json") ∷ [];
  body = payload;
}

-- `std::tolower` in the C locale.
unfoldable pub to_lower : ℕ → ℕ
to_lower c = if leb b'A' c && leb c b'Z' then c + 32 else c

unfoldable pub lowered : Bytes → Bytes
unfolding to_lower
lowered [] = []
lowered (c ∷ cs) = to_lower c ∷ lowered cs

-- The texts are of one length, and agree byte by byte but for case.
unfoldable pub header_value : List (Bytes × Bytes) → Bytes → Bytes
unfolding lowered
header_value [] wanted = []
header_value ((name, value) ∷ headers) wanted =
    if equal (lowered name) (lowered wanted) then value else header_value headers wanted

-- The loop of `constantTimeEqual`, where the shorter text counts as if zeros followed it.
unfoldable pub difference_from : ℕ → Bytes → Bytes → ℕ
difference_from difference [] [] = difference
difference_from difference [] (y ∷ ys) = difference_from (bit_or difference (bit_xor 0 y)) [] ys
difference_from difference (x ∷ xs) [] = difference_from (bit_or difference (bit_xor x 0)) xs []
difference_from difference (x ∷ xs) (y ∷ ys) =
    difference_from (bit_or difference (bit_xor x y)) xs ys

-- The sizes are compared as unsigned char.
unfoldable pub constant_time_equal : Bytes → Bytes → Bool
unfolding difference_from
constant_time_equal a b = difference_from (bit_xor (length a) (length b) % 256) a b == 0

-- The text behind a prefix, and nothing where it does not begin so.
unfoldable pub behind_prefix : Bytes → Bytes → Bytes
behind_prefix [] value = value
behind_prefix (p ∷ ps) [] = []
behind_prefix (p ∷ ps) (c ∷ cs) = if p == c then behind_prefix ps cs else []

unfoldable pub bearer_token : HttpRequest → Bytes
unfolding header_value behind_prefix
bearer_token req =
    behind_prefix (codes "Bearer ") (header_value req.headers (codes "Authorization"))

unfoldable pub has_supported_content_type : HttpRequest → Bool
unfolding header_value lowered
has_supported_content_type req =
    let value = header_value req.headers (codes "Content-Type") in
    equal value []
    || equal (lowered value) (codes "application/json")
    || equal (take 17 (lowered value)) (codes "application/json;")

abbrev pub checked_token : Bytes → Option Bytes → Bytes → HttpResponse
checked_token token none denied = json 403 (encode_error denied)
checked_token token (some expected) denied =
    if constant_time_equal token expected
    then json 200 (codes "{}")
    else json 403 (encode_error denied)

unfoldable pub authorize_tenant : List (Bytes × Bytes) → HttpRequest → Bytes → HttpResponse
unfolding bearer_token
authorize_tenant [] req tenant = json 200 (codes "{}")
authorize_tenant (t ∷ tenant_tokens) req tenant =
    if equal (bearer_token req) []
    then json 401 (encode_error (codes "authentication required"))
    else checked_token (bearer_token req) (lookup tenant (t ∷ tenant_tokens))
        (codes "tenant access denied")

unfoldable pub authorize_admin : Bytes → HttpRequest → HttpResponse
unfolding bearer_token
authorize_admin [] req = json 200 (codes "{}")
authorize_admin (c ∷ cs) req =
    if equal (bearer_token req) []
    then json 401 (encode_error (codes "authentication required"))
    else checked_token (bearer_token req) (some (c ∷ cs)) (codes "admin access denied")

-- `state_healthy` is whether there is no store or its check succeeds.
unfoldable pub handle_health : Bool → Bool → Bool → HttpResponse
handle_health readiness state_healthy audit_healthy =
    if not readiness
    then json 200 (codes "{\"status\":\"ok\"}")
    else if state_healthy && audit_healthy
    then json 200 (codes "{\"status\":\"ready\"}")
    else json 503 (codes "{\"status\":\"unavailable\"}")
