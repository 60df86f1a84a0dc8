-- ===== src/Startup.antt =====
-- server_main.cpp: the configuration, its checks, and the objects that the server starts with. The
-- environment, `atoi`, the content of the files and what Redis answers are arguments.
pub mod Secure
use policy_driven_rate_limit.Prelude.{
  Bool, Bytes, List, Option, Result, [], codes, equal, if◌then◌else◌, insert_sorted, is_some, leb,
  length, lookup, lt_int, none, not, ok, pos, rejected, require, some, ℕ, ℤ, ◌&&◌, ◌++◌, ◌==◌,
  ◌>>=◌, ◌||◌, ◌∷◌, ◌>>◌,
}
use policy_driven_rate_limit.Double.{Doubles}
use policy_driven_rate_limit.Resolver.{PolicyResolver, create}
use policy_driven_rate_limit.Database.{Database, open_database}
use policy_driven_rate_limit.Database.Rows.{split_from}
use policy_driven_rate_limit.Loader.{load_from_file}
use policy_driven_rate_limit.RedisStore.Commands.{Redis, health}
use policy_driven_rate_limit.Controller.Handlers.{Settings}

unfoldable pub env_or_default : (Bytes → Option Bytes) → Bytes → Bytes → Bytes
env_or_default getenv name fallback = elim (getenv name) [ none ↦ fallback | some value ↦ value ]

unfoldable pub env_int_or_default : (Bytes → Option Bytes) → (Bytes → ℤ) → Bytes → ℤ → ℤ
env_int_or_default getenv atoi name fallback = elim (getenv name) [
  | none ↦ fallback
  | some value ↦ atoi value
]

-- The texts in front of the first '=' and behind it.
unfoldable pub split_entry : Bytes → Option (Bytes × Bytes)
split_entry [] = none
split_entry (c ∷ cs) =
    if c == b'='
    then some ([], cs)
    else elim (split_entry cs) [ none ↦ none | some (tenant, token) ↦ some (c ∷ tenant, token) ]

abbrev pub entry_error : Bytes
entry_error = codes "TENANT_API_KEYS must use tenant=token;tenant=token"

-- An entry that is not empty.
unfoldable pub add_entry :
    List (Bytes × Bytes) → Option (Bytes × Bytes) → Result (List (Bytes × Bytes))
add_entry tokens none = rejected entry_error
add_entry tokens (some (tenant, token)) = do
  require (not (equal tenant [] || equal token [])) entry_error
  require (leb 16 (length token)) (codes "tenant API tokens must contain at least 16 characters")
  require (not (is_some (lookup tenant tokens)))
      (codes "duplicate tenant in TENANT_API_KEYS: " ++ tenant)
  ok (insert_sorted tenant token tokens)

unfoldable pub add_entries : List (Bytes × Bytes) → List Bytes → Result (List (Bytes × Bytes))
unfolding add_entry split_entry
add_entries tokens [] = ok tokens
add_entries tokens ([] ∷ entries) = add_entries tokens entries
add_entries tokens ((c ∷ cs) ∷ entries) =
    add_entry tokens (split_entry (c ∷ cs)) >>= λ grown. add_entries grown entries

-- `if (tokens.empty()) error = ...`.
abbrev pub some_tokens : List (Bytes × Bytes) → Result (List (Bytes × Bytes))
some_tokens [] = rejected (codes "TENANT_API_KEYS must configure at least one tenant")
some_tokens (t ∷ tokens) = ok (t ∷ tokens)

unfoldable pub parse_tenant_tokens : Bytes → Result (List (Bytes × Bytes))
unfolding add_entries split_from
parse_tenant_tokens value = add_entries [] (split_from b';' [] value) >>= some_tokens

-- What the server is started with.
pub record Deployment (D : Type 0) : Type 0 where
  pub settings : Settings
  pub resolver : PolicyResolver D
  pub db : Database
  pub redis_host : Bytes
  pub redis_port : ℤ
  pub redis_password : Bytes
  pub port : ℤ
  pub workers : ℤ
  pub max_queue : ℤ

-- `n <= 0`, and `n > bound`.
abbrev pub is_positive : ℤ → Bool
is_positive n = lt_int (pos 0) n

abbrev pub at_most : ℕ → ℤ → Bool
at_most bound n = not (lt_int (pos bound) n)

abbrev pub valid_numbers : ℤ → ℤ → ℤ → ℤ → Bool
valid_numbers port redis_port workers max_queue =
    is_positive port
    && at_most 65535 port
    && is_positive redis_port
    && at_most 65535 redis_port
    && is_positive workers
    && at_most 256 workers
    && is_positive max_queue

-- What is outside the program: `stoll`, `strtol`, `strtoll` and `atoi` of the C library, the
-- environment, the files by their paths (none where one cannot be opened), and Redis by its address.
pub record Outside : Type 0 where
  pub stoll : Bytes → Option (ℤ × ℕ)
  pub strtol : Bytes → Option (ℤ × Bytes)
  pub strtoll : Bytes → Option (ℤ × Bytes)
  pub atoi : Bytes → ℤ
  pub getenv : Bytes → Option Bytes
  pub file : Bytes → Option Bytes
  pub redis_at : Bytes → ℤ → Redis

unfoldable pub open_store : Outside → Bytes → Result Database
open_store outside path = elim (outside.file path) [
  | none ↦ rejected (codes "audit store is required by the REST service")
  | some file ↦ ok (open_database outside.stoll file)
]

-- The local variables that `main` reads from the environment.
pub record Configuration : Type 0 where
  pub policy_file : Bytes
  pub db_path : Bytes
  pub redis_host : Bytes
  pub redis_password : Bytes
  pub admin_token : Bytes
  pub token_config : Bytes
  pub redis_port : ℤ
  pub port : ℤ
  pub workers : ℤ
  pub max_queue : ℤ

unfoldable pub read_configuration : Outside → Configuration
unfolding env_or_default env_int_or_default
read_configuration outside =
    let text = env_or_default outside.getenv in
    let number = env_int_or_default outside.getenv outside.atoi in
    record {
      policy_file = text (codes "POLICY_FILE") (codes "policy/policies.yaml");
      db_path = text (codes "AUDIT_STORE_PATH") (codes "rlimit_store.txt");
      redis_host = text (codes "REDIS_HOST") (codes "localhost");
      redis_password = text (codes "REDIS_PASSWORD") [];
      admin_token = text (codes "ADMIN_API_KEY") [];
      token_config = text (codes "TENANT_API_KEYS") [];
      redis_port = number (codes "REDIS_PORT") (pos 6379);
      port = number (codes "HTTP_PORT") (pos 8080);
      workers = number (codes "HTTP_WORKERS") (pos 4);
      max_queue = number (codes "HTTP_MAX_QUEUE") (pos 256);
    }

unfoldable pub redis_healthy : Outside → Configuration → Bool
redis_healthy outside c =
    (health outside.strtoll (outside.redis_at c.redis_host c.redis_port) c.redis_password none).1

-- The rest of `main` up to `server.run()`; an error is what is printed before it returns 1, without
-- the kind in brackets, and empty where Redis sets it.
unfoldable pub start_with :
    (D : Type 0) ⦃d : Doubles D⦄ → Outside → Configuration → Result (Deployment D)
unfolding parse_tenant_tokens open_store redis_healthy
start_with D outside c = do
  require (valid_numbers c.port c.redis_port c.workers c.max_queue)
      (codes "HTTP_PORT and REDIS_PORT must be valid TCP ports")
  require (leb 16 (length c.redis_password) && leb 16 (length c.admin_token))
      (codes "REDIS_PASSWORD and ADMIN_API_KEY must each contain at least 16 characters")
  tenant_tokens ← parse_tenant_tokens c.token_config
  policies ← load_from_file outside.strtol c.policy_file (outside.file c.policy_file)
  db ← open_store outside c.db_path
  require (redis_healthy outside c) []
  ok (record {
    settings = record {
      policy_file_path = c.policy_file;
      tenant_tokens = tenant_tokens;
      admin_token = c.admin_token;
    };
    resolver = create policies;
    db = db;
    redis_host = c.redis_host;
    redis_port = c.redis_port;
    redis_password = c.redis_password;
    port = c.port;
    workers = c.workers;
    max_queue = c.max_queue;
  })

unfoldable pub start : (D : Type 0) ⦃d : Doubles D⦄ → Outside → Result (Deployment D)
unfolding start_with read_configuration
start D outside = start_with D outside (read_configuration outside)
