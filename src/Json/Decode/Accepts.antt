-- ===== src/Json/Decode/Accepts.antt =====
-- The requests that `decodeEvaluateRequest` accepts.
use policy_driven_rate_limit.Prelude.{
  >>-eq-ok, >>=-eq-ok, Bytes, [], arith, before, codes, equal, false, length, ltb, not, ok,
  ok-injective, refl, require, require-ok, subst, true, ℕ, ◌++◌, ◌||◌, ◌∙◌, ◌∷◌, ◌≡◌, ◌≤◌,
}
use policy_driven_rate_limit.Double.{Doubles}
use policy_driven_rate_limit.Policy.{Request}
use policy_driven_rate_limit.Policy.Validate.{starts_with_slash}
use policy_driven_rate_limit.Json.Value.{
  Members, string, object, no_members, member, field, emplace,
}
use policy_driven_rate_limit.Json.Strings.{quote, escape_json, escape_char}
use policy_driven_rate_limit.Json.Parser.{skip_whitespace, parse}
use policy_driven_rate_limit.Json.Parser.Rounds.{parse_value-object}
use policy_driven_rate_limit.Json.Encode.Reads.{more, parse_whole, text-comma, text-end}
use policy_driven_rate_limit.Json.Fields.{has, read_string, reject_unknown}
use policy_driven_rate_limit.Json.Decode.{
  check_request, read_root, read_tenant, request_of, decode_evaluate_request,
}

-- The limits on a request, and the time that it was received.
abbrev pub IsAdmissible : ℕ → Request → Type 0
IsAdmissible now r =
    (equal r.tenant_id [] ≡ false)
    × (length r.tenant_id ≤ 256)
    × (starts_with_slash r.endpoint ≡ true)
    × (length r.endpoint ≤ 2048)
    × (r.received_at ≡ now)

within_limits :
    (t e : Bytes)
    → not (ltb 256 (length t) || ltb 2048 (length e)) ≡ true
    → (length t ≤ 256) × (length e ≤ 2048)
within_limits t e h = ground arith

check_request-ok :
    (t e : Bytes) (now : ℕ)
    → check_request t e ≡ ok tt
    → IsAdmissible now (record { tenant_id = t; endpoint = e; received_at = now })
unfolding check_request
check_request-ok t e now h =
    let (named, h₁) = >>-eq-ok _ _ h in
    let (absolute, bounded) = >>-eq-ok _ _ h₁ in
    let n : not (equal t []) ≡ true = require-ok _ _ named in
    let l = within_limits t e (require-ok _ _ bounded) in
    (ground (arith, n), l.0, require-ok _ _ absolute, l.1, refl)

module _ (D : Type 0) ⦃d : Doubles D⦄ where
  request_of-ok :
      (root : Members D) (now : ℕ) {r : Request} → request_of root now ≡ ok r → IsAdmissible now r
  unfolding request_of
  request_of-ok root now {r} h =
      let (_, h₁) = >>-eq-ok (reject_unknown root _) _ h in
      let (_, h₂) = >>-eq-ok (require (not (has (codes "role") root)) _) _ h₁ in
      let (_, h₃) = >>-eq-ok (require _ (codes "provide tenant or tenantId, not both")) _ h₂ in
      let (t, _, h₄) = >>=-eq-ok (read_tenant root) _ h₃ in
      let (e, _, h₅) = >>=-eq-ok (read_string root (codes "endpoint")) _ h₄ in
      let (checked, h₆) = >>-eq-ok (check_request t e) _ h₅ in
      subst (λ r. IsAdmissible now r) (ok-injective _ r h₆) (check_request-ok t e now checked)

  -- A body that decodes to a request gives a tenant that is not empty and has at most 256 bytes, an
  -- endpoint that starts with a slash and has at most 2048 bytes, and the time given.
  pub decode_evaluate_request-IsAdmissible :
      (body : Bytes) (now : ℕ) (r : Request)
      → decode_evaluate_request D body now ≡ ok r
      → IsAdmissible now r
  unfolding decode_evaluate_request
  decode_evaluate_request-IsAdmissible body now r h =
      let (root, _, done) = >>=-eq-ok (read_root {D = D} body) _ h in request_of-ok root now done

-- The body that names a tenant and an endpoint.
abbrev pub request_body : Bytes → Bytes → Bytes
request_body t e =
    codes "{\"tenant\":" ++ (quote t ++ (codes ",\"endpoint\":" ++ (quote e ++ (b'}' ∷ []))))

module _ (D : Type 0) ⦃d : Doubles D⦄ where
  request_members : Bytes → Bytes → Members D
  request_members t e =
      member (codes "endpoint") (string e) (member (codes "tenant") (string t) no_members)

  parse-request_body : (t e : Bytes) → parse (request_body t e) ≡ ok (object (request_members t e))
  unfolding request_members
  parse-request_body t e = parse_whole 4 _ _ (unfold skip_whitespace in refl) (omega arith) λ f.
      parse_value-object (more 3 f) 0 _ (omega arith)
      ∙ (unfold quote escape_json escape_char emplace field skip_whitespace before equal in
          text-comma (more 1 f) no_members (codes "tenant") t _ refl
          ∙ text-end (more 0 f) _ (codes "endpoint") e [] refl)

  check_request-passes :
      (t e : Bytes) (now : ℕ)
      → IsAdmissible now (record { tenant_id = t; endpoint = e; received_at = now })
      → check_request t e ≡ ok tt
  unfolding check_request
  check_request-passes t e now (named, t_short, absolute, e_short, _) =
      let short : (ltb 256 (length t) || ltb 2048 (length e)) ≡ false = ground arith in
      rw (named, absolute, short) refl

  -- A tenant that is not empty and has at most 256 bytes and an absolute endpoint of at most 2048
  -- bytes, quoted as the members of an object, decode to the request that names them, received at
  -- the time given.
  pub decode_evaluate_request-accepts :
      (tenant endpoint : Bytes) (now : ℕ)
      → IsAdmissible now (record { tenant_id = tenant; endpoint = endpoint; received_at = now })
      → decode_evaluate_request D (request_body tenant endpoint) now
        ≡ ok (record { tenant_id = tenant; endpoint = endpoint; received_at = now })
  unfolding decode_evaluate_request request_members request_of reject_unknown read_tenant
      read_string field equal
  decode_evaluate_request-accepts tenant endpoint now h =
      rw (parse-request_body tenant endpoint, check_request-passes tenant endpoint now h) refl
