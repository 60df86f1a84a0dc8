-- ===== src/Startup/Secure.antt =====
-- What a server that starts is configured with.
use policy_driven_rate_limit.Prelude.{
  >>-eq-ok, >>=-eq-ok, All, Bool, Bool-cases, Bytes, List, Option, [], arith, before, codes, equal,
  false, if_either, inl, inr, insert_sorted, is_some, leb, leb→le, length, lookup, none, not, ok,
  ok-injective, require, require-ok, some, subst, true, ℤ, ◌&&◌, ◌||◌, ◌∷◌, ◌≡◌, ◌≢◌, ◌≤◌,
}
use policy_driven_rate_limit.Double.{Doubles}
use policy_driven_rate_limit.Database.Rows.{split_from}
use policy_driven_rate_limit.Resolver.{create, set_policies}
use policy_driven_rate_limit.Resolver.Order.{IsSorted, sorted_policies-IsSorted, All-sorted}
use policy_driven_rate_limit.Loader.{load_from_file}
use policy_driven_rate_limit.Loader.Valid.{AllValid, load_from_file-AllValid}
use policy_driven_rate_limit.Controller.{HttpRequest, bearer_token, authorize_tenant}
use policy_driven_rate_limit.Controller.Access.{Agree, authorize_tenant-Presents}
use policy_driven_rate_limit.Startup.{
  split_entry, add_entry, add_entries, some_tokens, parse_tenant_tokens, open_store, Deployment,
  Outside, Configuration, read_configuration, redis_healthy, is_positive, at_most, valid_numbers,
  start_with, start,
}

-- A tenant with a name, and a token of 16 bytes at least.
abbrev pub IsStrong : Bytes × Bytes → Type 0
IsStrong (tenant, token) = (equal tenant [] ≡ false) × (16 ≤ length token)

insert_sorted-IsStrong :
    (tenant token : Bytes) (tokens : List (Bytes × Bytes))
    → IsStrong (tenant, token)
    → All IsStrong tokens
    → All IsStrong (insert_sorted tenant token tokens)
unfolding insert_sorted
insert_sorted-IsStrong tenant token [] h t = (h, tt)
insert_sorted-IsStrong tenant token ((j, w) ∷ tokens) h t =
    if_either (All IsStrong) (equal j tenant) _ _ (λ _. (h, t.1))
      (λ _.
        if_either (All IsStrong) (before tenant j) _ _ (λ _. (h, t))
          (λ _. (t.0, insert_sorted-IsStrong tenant token tokens h t.1)))

add_entry-IsStrong :
    (tokens : List (Bytes × Bytes)) (entry : Option (Bytes × Bytes)) {grown : List (Bytes × Bytes)}
    → All IsStrong tokens
    → add_entry tokens entry ≡ ok grown
    → All IsStrong grown
unfolding add_entry
add_entry-IsStrong tokens none t e = cc
add_entry-IsStrong tokens (some (tenant, token)) {grown} t e =
    let (named, e₁) = >>-eq-ok (require (not (equal tenant [] || equal token [])) _) _ e in
    let (long, e₂) = >>-eq-ok (require (leb 16 (length token)) _) _ e₁ in
    let (_, e₃) = >>-eq-ok (require (not (is_some (lookup tenant tokens))) _) _ e₂ in
    let n : not (equal tenant [] || equal token []) ≡ true = require-ok _ _ named in
    subst (λ ts. All IsStrong ts) (ok-injective _ grown e₃)
      (insert_sorted-IsStrong tenant token tokens
        (ground (arith, n), leb→le 16 (length token) (require-ok _ _ long)) t)

add_entries-IsStrong :
    (tokens : List (Bytes × Bytes)) (entries : List Bytes) {all : List (Bytes × Bytes)}
    → All IsStrong tokens
    → add_entries tokens entries ≡ ok all
    → All IsStrong all
unfolding add_entries
add_entries-IsStrong tokens [] {all} t e =
    subst (λ ts. All IsStrong ts) (ok-injective tokens all e) t
add_entries-IsStrong tokens ([] ∷ entries) t e = add_entries-IsStrong tokens entries t e
add_entries-IsStrong tokens ((c ∷ cs) ∷ entries) t e =
    let (grown, added, rest) = >>=-eq-ok (add_entry tokens (split_entry (c ∷ cs))) _ e in
    add_entries-IsStrong grown entries (add_entry-IsStrong tokens (split_entry (c ∷ cs)) t added)
      rest

some_tokens-ok :
    (all : List (Bytes × Bytes)) {tokens : List (Bytes × Bytes)}
    → some_tokens all ≡ ok tokens
    → (all ≡ tokens) × (tokens ≢ [])
some_tokens-ok [] e = cc
some_tokens-ok (t ∷ all) {tokens} e =
    let same = ok-injective (t ∷ all) tokens e in (same, λ none. cc (same, none))

parse_tenant_tokens-IsStrong :
    (value : Bytes) {tokens : List (Bytes × Bytes)}
    → parse_tenant_tokens value ≡ ok tokens
    → All IsStrong tokens × (tokens ≢ [])
unfolding parse_tenant_tokens
parse_tenant_tokens-IsStrong value {tokens} e =
    let entries = split_from b';' [] value in
    let (all, added, there) = >>=-eq-ok (add_entries [] entries) some_tokens e in
    let (same, some_there) = some_tokens-ok all there in
    (subst (λ ts. All IsStrong ts) same (add_entries-IsStrong [] entries tt added), some_there)

both : (a b : Bool) → (a && b) ≡ true → (a ≡ true) × (b ≡ true)
both a b h = ground arith

numbers_in_range :
    (port redis_port workers max_queue : ℤ)
    → valid_numbers port redis_port workers max_queue ≡ true
    → ((is_positive port && at_most 65535 port) ≡ true)
      × ((is_positive workers && is_positive max_queue) ≡ true)
numbers_in_range port redis_port workers max_queue h = ground arith

-- The checks of the configuration have passed, and the policies are those of a valid file.
pub record IsSecure {D : Type 0} ⦃d : Doubles D⦄ (deployment : Deployment D) : Type 0 where
  pub tokens_strong : All IsStrong deployment.settings.tenant_tokens
  pub tokens_some : deployment.settings.tenant_tokens ≢ []
  pub admin_strong : 16 ≤ length deployment.settings.admin_token
  pub port_valid : (is_positive deployment.port && at_most 65535 deployment.port) ≡ true
  pub workers_some : (is_positive deployment.workers && is_positive deployment.max_queue) ≡ true
  pub policies_valid : AllValid deployment.resolver.policies
  pub policies_sorted : IsSorted deployment.resolver.policies

module _ (D : Type 0) ⦃d : Doubles D⦄ where
  start_with-IsSecure :
      (outside : Outside) (c : Configuration) (deployment : Deployment D)
      → start_with D outside c ≡ ok deployment
      → IsSecure deployment
  unfolding start_with create set_policies
  start_with-IsSecure outside c deployment e =
      let port_error = codes "HTTP_PORT and REDIS_PORT must be valid TCP ports" in
      let secret_error =
        codes "REDIS_PASSWORD and ADMIN_API_KEY must each contain at least 16 characters" in
      let numbers = valid_numbers c.port c.redis_port c.workers c.max_queue in
      let (admitted, e₁) = >>-eq-ok (require numbers port_error) _ e in
      let secrets = leb 16 (length c.redis_password) && leb 16 (length c.admin_token) in
      let (kept, e₂) = >>-eq-ok (require secrets secret_error) _ e₁ in
      let (tokens, parsed, e₃) = >>=-eq-ok (parse_tenant_tokens c.token_config) _ e₂ in
      let text = outside.file c.policy_file in
      let (policies, loaded, e₄) =
        >>=-eq-ok (load_from_file {D = D} outside.strtol c.policy_file text) _ e₃ in
      let (db, opened, e₅) = >>=-eq-ok (open_store outside c.db_path) _ e₄ in
      let (_, e₆) = >>-eq-ok (require (redis_healthy outside c) []) _ e₅ in
      let strong = parse_tenant_tokens-IsStrong c.token_config parsed in
      let (valid, _) = load_from_file-AllValid outside.strtol c.policy_file text policies loaded in
      let in_range =
        numbers_in_range c.port c.redis_port c.workers c.max_queue
          (require-ok numbers port_error admitted) in
      subst (λ x. IsSecure x) (ok-injective _ deployment e₆)
        (record {
          tokens_strong = strong.0;
          tokens_some = strong.1;
          admin_strong =
              leb→le 16 (length c.admin_token)
                (both (leb 16 (length c.redis_password)) _
                  (require-ok secrets secret_error kept)).1;
          port_valid = in_range.0;
          workers_some = in_range.1;
          policies_valid = All-sorted _ policies valid;
          policies_sorted = sorted_policies-IsSorted policies;
        })

  -- A server that starts has at least one tenant token, each for a tenant with a name and of at
  -- least 16 bytes, an admin token of at least 16 bytes, a port from 1 to 65535, workers and room
  -- in the queue, and valid policies in descending order of priority.
  pub start-IsSecure :
      (outside : Outside) (deployment : Deployment D)
      → start D outside ≡ ok deployment
      → IsSecure deployment
  unfolding start
  start-IsSecure outside deployment e =
      start_with-IsSecure outside (read_configuration outside) deployment e

lookup-IsStrong :
    (tenant token : Bytes) (tokens : List (Bytes × Bytes))
    → All IsStrong tokens
    → lookup tenant tokens ≡ some token
    → 16 ≤ length token
unfolding lookup
lookup-IsStrong tenant token [] t e = cc
lookup-IsStrong tenant token ((j, w) ∷ tokens) t e = elim (Bool-cases (equal j tenant)) [
  | inl here ↦
      let same : some w ≡ some token = rw here at e in
      let w_token : w ≡ token = cc same in subst (λ (x : Bytes). 16 ≤ length x) w_token t.0.1
  | inr later ↦ lookup-IsStrong tenant token tokens t.1 (rw later at e)
]

module _ (D : Type 0) ⦃d : Doubles D⦄ where
  -- On a server that starts, a request that authorize_tenant lets through for a tenant has a bearer
  -- token that is not empty and agrees with the token configured for the tenant, which has at least
  -- 16 bytes: their bytes are the same at every place, where the shorter one counts as if zeros
  -- followed it, and their lengths agree in the lowest byte.
  pub start-Presents :
      (outside : Outside) (deployment : Deployment D) (req : HttpRequest) (tenant : Bytes)
      → start D outside ≡ ok deployment
      → (authorize_tenant deployment.settings.tenant_tokens req tenant).status ≡ 200
      → (expected : Bytes) × (lookup tenant deployment.settings.tenant_tokens ≡ some expected)
        × Agree (bearer_token req) expected
        × (bearer_token req ≢ [])
        × (16 ≤ length expected)
  start-Presents outside deployment req tenant e granted =
      let secure = start-IsSecure D outside deployment e in
      let ((expected, there, same), given) =
        authorize_tenant-Presents deployment.settings.tenant_tokens req tenant secure.tokens_some
          granted in
      (
        expected,
        there,
        same,
        given,
        lookup-IsStrong tenant expected deployment.settings.tenant_tokens secure.tokens_strong
            there,
      )
