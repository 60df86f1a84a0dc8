-- ===== src/Tests/Starting.antt =====
-- A server that starts.
use policy_driven_rate_limit.Prelude.{
  Bytes, List, Option, [], codes, decimal, equal, if◌then◌else◌, insert_sorted, length, lookup, ltb,
  none, ok, pos, refl, some, true, ℕ, ◌||◌, ◌∷◌, ◌≡◌, ◌≢◌, ◌≤◌,
}
use policy_driven_rate_limit.Double.{fixed}
use policy_driven_rate_limit.Policy.{Policy}
use policy_driven_rate_limit.Resolver.{create, set_policies, sorted_policies}
use policy_driven_rate_limit.Database.Rows.{split_from, split_lines}
use policy_driven_rate_limit.Database.{open_database}
use policy_driven_rate_limit.Loader.{load_from_file, load_lines, flush}
use policy_driven_rate_limit.RedisStore.{
  parse_reply, read_typed, read_line, read_line_from, encode_command, encode_args,
}
use policy_driven_rate_limit.RedisStore.Commands.{Redis, health, command, command_on, authenticate}
use policy_driven_rate_limit.Controller.{
  HttpRequest, bearer_token, header_value, lowered, behind_prefix, constant_time_equal,
  difference_from, authorize_tenant,
}
use policy_driven_rate_limit.Controller.Access.{Agree}
use policy_driven_rate_limit.Startup.{
  Outside, Deployment, start, start_with, read_configuration, redis_healthy, parse_tenant_tokens,
  add_entries, add_entry, split_entry, env_or_default, env_int_or_default, open_store,
}
use policy_driven_rate_limit.Startup.Secure.{IsSecure, start-IsSecure, start-Presents}

-- A variable of the environment.
environment : Bytes → Option Bytes
environment name =
    if equal name (codes "TENANT_API_KEYS")
    then some (codes "t=0123456789abcdef;")
    else if equal name (codes "REDIS_PASSWORD") || equal name (codes "ADMIN_API_KEY")
    then some (codes "fedcba9876543210")
    else none

-- Redis greets and answers.
abbrev friendly : Redis
friendly = record {
  connects = ok tt;
  sends = λ s. true;
  answers = λ s. if ltb 20 (length s) then codes "+OK\r\n" else codes "+PONG\r\n";
}

abbrev host : Outside
host = record {
  stoll = λ s. none;
  strtol = λ s. none;
  strtoll = λ s. none;
  atoi = λ s. pos 0;
  getenv = environment;
  file = λ path. some [];
  redis_at = λ name port. friendly;
}

abbrev tokens : List (Bytes × Bytes)
tokens = (codes "t", codes "0123456789abcdef") ∷ []

tokens_parse : parse_tenant_tokens (codes "t=0123456789abcdef;") ≡ ok tokens
unfolding parse_tenant_tokens add_entries add_entry split_entry split_from equal lookup
    insert_sorted
tokens_parse = refl

abbrev no_policies : List (Policy ℕ)
no_policies = []

nothing_loads : load_from_file host.strtol (codes "policy/policies.yaml") (some []) ≡ ok no_policies
unfolding load_from_file load_lines flush split_lines split_from create set_policies sorted_policies
nothing_loads = refl

redis_answers : (health host.strtoll friendly (codes "fedcba9876543210") none).1 ≡ true
unfolding health command command_on authenticate parse_reply read_typed read_line read_line_from
    equal encode_command encode_args decimal
redis_answers = refl

abbrev deployed : Deployment ℕ
deployed = record {
  settings = record {
    policy_file_path = codes "policy/policies.yaml";
    tenant_tokens = tokens;
    admin_token = codes "fedcba9876543210";
  };
  resolver = create no_policies;
  db = open_database host.stoll [];
  redis_host = codes "localhost";
  redis_port = pos 6379;
  redis_password = codes "fedcba9876543210";
  port = pos 8080;
  workers = pos 4;
  max_queue = pos 256;
}

host_starts : start ℕ host ≡ ok deployed
unfolding start start_with read_configuration redis_healthy environment env_or_default
    env_int_or_default open_store equal
host_starts = rw (tokens_parse, nothing_loads, redis_answers) refl

start-IsSecure_example : IsSecure deployed
start-IsSecure_example = start-IsSecure ℕ host deployed host_starts

abbrev with_token : HttpRequest
with_token = record {
  method = codes "POST";
  path = codes "/evaluate";
  headers = (codes "authorization", codes "Bearer 0123456789abcdef") ∷ [];
  body = [];
}

tenant_passes : (authorize_tenant tokens with_token (codes "t")).status ≡ 200
unfolding authorize_tenant bearer_token header_value lowered behind_prefix constant_time_equal
    difference_from equal lookup
tenant_passes = refl

start-Presents_example :
    (expected : Bytes) × (lookup (codes "t") tokens ≡ some expected)
    × Agree (bearer_token with_token) expected
    × (bearer_token with_token ≢ [])
    × (16 ≤ length expected)
start-Presents_example =
    start-Presents ℕ host deployed with_token (codes "t") host_starts tenant_passes
