-- ===== src/Json/Encode/Reads.antt =====
-- The parser reads what the encoders write.
use policy_driven_rate_limit.Prelude.{
  Bool, Bytes, [], ap, arith, before, codes, equal, false, if◌then◌else◌, is_some, length, ok, refl,
  suc, true, zero, ℕ, ◌++◌, ◌+◌, ◌-◌, ◌∙◌, ◌∷◌, ◌≡◌, ◌≤◌,
}
use policy_driven_rate_limit.Double.{Doubles}
use policy_driven_rate_limit.Policy.{Request}
use policy_driven_rate_limit.Json.Value.{
  JsonValue, Members, boolean, string, object, no_members, member, field, emplace, parsed,
}
use policy_driven_rate_limit.Json.Strings.{quote, escape_json, escape_char}
use policy_driven_rate_limit.Json.Parser.{
  skip_whitespace, value_at, parse_scalar, literal_or, consume_literal, parse_value, parse_members,
  enough, finish, parse,
}
use policy_driven_rate_limit.Json.Parser.Rounds.{
  parse_value-quote, parse_value-object, round-comma, round-end,
}
use policy_driven_rate_limit.Json.Encode.{encode_error, encode_evaluate_response}

-- `k + f` as a successor.
abbrev pub more : ℕ → ℕ → ℕ
more zero f = f
more (suc k) f = suc (more k f)

pub more-eq-add : (k f : ℕ) → more k f ≡ k + f
more-eq-add zero f = omega arith
more-eq-add (suc k) f = omega (arith, more-eq-add k f)

-- "ALLOW" or "DENY".
abbrev pub result_text : Bool → Bytes
result_text allowed = if allowed then codes "ALLOW" else codes "DENY"

module _ {D : Type 0} ⦃d : Doubles D⦄ where
  read_boolean :
      (f : ℕ) (b : Bool) (rest : Bytes)
      → parse_value {D = D} (suc f) 1 ((if b then codes "true" else codes "false") ++ (b',' ∷ rest))
        ≡ parsed (boolean b) (b',' ∷ rest)
  unfolding parse_value value_at skip_whitespace parse_scalar literal_or consume_literal
  read_boolean f true rest = refl
  read_boolean f false rest = refl

  -- A round whose value is a quoted text.
  pub text-comma :
      (f : ℕ) (fields : Members D) (key s rest : Bytes)
      → is_some (field key fields) ≡ false
      → parse_members (suc (suc f)) 1 fields (quote key ++ (b':' ∷ (quote s ++ (b',' ∷ rest))))
        ≡ parse_members (suc f) 1 (emplace key (string s) fields) (skip_whitespace rest)
  text-comma f fields key s rest fresh =
      round-comma (suc f) 1 fields key (string s) (quote s ++ (b',' ∷ rest)) rest fresh
        (parse_value-quote f 1 s (b',' ∷ rest) (omega arith))

  pub text-end :
      (f : ℕ) (fields : Members D) (key s rest : Bytes)
      → is_some (field key fields) ≡ false
      → parse_members (suc (suc f)) 1 fields (quote key ++ (b':' ∷ (quote s ++ (b'}' ∷ rest))))
        ≡ parsed (object (emplace key (string s) fields)) rest
  text-end f fields key s rest fresh =
      round-end (suc f) 1 fields key (string s) (quote s ++ (b'}' ∷ rest)) rest fresh
        (parse_value-quote f 1 s (b'}' ∷ rest) (omega arith))

  -- What the parser gives of a whole text, from what it gives with enough fuel.
  pub parse_whole :
      (k : ℕ) (s : Bytes) (v : JsonValue D)
      → skip_whitespace s ≡ s
      → k ≤ length s
      → ((f : ℕ) → parse_value (more k f) 0 s ≡ parsed v [])
      → parse s ≡ ok v
  unfolding parse finish
  parse_whole k s v flush large h =
      let whole : parse_value (enough s) 0 s ≡ parsed v [] =
        ap (λ (n : ℕ). parse_value {D = D} n 0 s) (omega (arith, more-eq-add k (enough s - k)))
        ∙ h (enough s - k) in
      rw (flush, whole) (unfold skip_whitespace in refl)

  pub parse-encode_error :
      (message : Bytes)
      → parse {D = D} (encode_error message)
        ≡ ok (object (member (codes "error") (string message) no_members))
  unfolding encode_error
  parse-encode_error message = parse_whole 3 _ _ (unfold skip_whitespace in refl) (omega arith) λ f.
      parse_value-object (suc (suc f)) 0 _ (omega arith)
      ∙ (unfold quote escape_json escape_char emplace field in
          text-end f no_members (codes "error") message [] refl)

  boolean-comma :
      (f : ℕ) (fields : Members D) (key rest : Bytes) (b : Bool)
      → is_some (field key fields) ≡ false
      → parse_members
          (suc (suc f))
          1
          fields
          (quote key ++ (b':' ∷ ((if b then codes "true" else codes "false") ++ (b',' ∷ rest))))
        ≡ parse_members (suc f) 1 (emplace key (boolean b) fields) (skip_whitespace rest)
  boolean-comma f fields key rest b fresh =
      round-comma (suc f) 1 fields key (boolean b) _ rest fresh (read_boolean f b rest)

  -- The members of a response, in the order of their keys.
  abbrev pub response_members : Bool → Request → Bytes → Bytes → Bytes → Members D
  response_members allowed req policy_key algorithm state =
      member (codes "algorithm") (string algorithm) (
        member (codes "allowed") (boolean allowed) (
          member (codes "endpoint") (string req.endpoint) (
            member (codes "policyKey") (string policy_key) (
              member (codes "result") (string (result_text allowed)) (
                member (codes "state") (string state)
                  (member (codes "tenant") (string req.tenant_id) no_members))))))

  -- The text of a decision stands unescaped.
  result_round :
      (allowed : Bool) (f : ℕ) (fields : Members D) (rest : Bytes)
      → is_some (field (codes "result") fields) ≡ false
      → parse_members
          (suc (suc f))
          1
          fields
          (codes "\"result\":\"" ++ (result_text allowed ++ (b'"' ∷ b',' ∷ rest)))
        ≡ parse_members
            (suc f)
            1
            (emplace (codes "result") (string (result_text allowed)) fields)
            (skip_whitespace rest)
  result_round true f fields rest fresh =
      unfold quote escape_json escape_char in
      text-comma f fields (codes "result") (codes "ALLOW") rest fresh
  result_round false f fields rest fresh =
      unfold quote escape_json escape_char in
      text-comma f fields (codes "result") (codes "DENY") rest fresh

  -- Parsing an encoded response gives the object with its seven members, whatever bytes its texts
  -- hold.
  pub parse-encode_evaluate_response :
      (allowed : Bool) (req : Request) (policy_key algorithm state : Bytes)
      → parse (encode_evaluate_response allowed req policy_key algorithm state)
        ≡ ok (object (response_members allowed req policy_key algorithm state))
  unfolding encode_evaluate_response
  parse-encode_evaluate_response allowed req policy_key algorithm state =
      parse_whole 9 _ _ (unfold skip_whitespace in refl) (omega arith) λ f.
        parse_value-object (more 8 f) 0 _ (omega arith)
        ∙ (unfold quote escape_json escape_char emplace field skip_whitespace before equal in
            boolean-comma (more 6 f) no_members (codes "allowed") _ allowed refl
            ∙ result_round allowed (more 5 f) _ _ refl
            ∙ text-comma (more 4 f) _ (codes "tenant") req.tenant_id _ refl
            ∙ text-comma (more 3 f) _ (codes "endpoint") req.endpoint _ refl
            ∙ text-comma (more 2 f) _ (codes "policyKey") policy_key _ refl
            ∙ text-comma (more 1 f) _ (codes "algorithm") algorithm _ refl
            ∙ text-end (more 0 f) _ (codes "state") state [] refl)
