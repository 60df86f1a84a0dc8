-- ===== src/Json/Parser/Rounds.antt =====
-- A round of the loop over members, as an equation: a quoted key, a colon and a value that is read.
use policy_driven_rate_limit.Prelude.{
  is_some, Bytes, arith, codes, false, ltb, refl, suc, ℕ, ◌++◌, ◌∙◌, ◌∷◌, ◌≡◌, ◌≤◌,
}
use policy_driven_rate_limit.Double.{Doubles}
use policy_driven_rate_limit.Json.Value.{
  JsonValue, Members, string, object, field, emplace, no_members, parsed, and_then,
}
use policy_driven_rate_limit.Json.Strings.{quote, parse_string}
use policy_driven_rate_limit.Json.Strings.RoundTrip.{parse_string-quote}
use policy_driven_rate_limit.Json.Parser.{
  skip_whitespace, value_at, open_object, next_round, expect_colon, add_member, parse_value,
  parse_members,
}

module _ {D : Type 0} ⦃d : Doubles D⦄ where
  -- A quoted text is read as a value, where the depth allows one.
  pub parse_value-quote :
      (f depth : ℕ) (s rest : Bytes)
      → depth ≤ 32
      → parse_value {D = D} (suc f) depth (quote s ++ rest) ≡ parsed (string s) rest
  unfolding parse_value value_at skip_whitespace quote
  parse_value-quote f depth s rest h =
      let shallow : ltb 32 depth ≡ false = ground arith in
      rw (shallow, parse_string-quote s rest) refl

  members_step :
      (g depth : ℕ) (fields : Members D) (s : Bytes)
      → parse_members (suc g) depth fields s ≡ (
          and_then (parse_string s) λ key r. and_then (expect_colon (skip_whitespace r)) λ _ t.
            and_then (parse_value g depth t) λ child u.
              and_then (add_member fields key child u) λ grown v.
                next_round b'}'
                  (codes "expected ',' or '}' in object")
                  (object grown)
                  (parse_members g depth grown)
                  (skip_whitespace v))
  unfolding parse_value
  members_step g depth fields s = refl

  -- What follows the value decides how the round ends.
  round :
      (g depth : ℕ) (fields : Members D) (key : Bytes) (value : JsonValue D) (text rest : Bytes)
      → is_some (field key fields) ≡ false
      → parse_value g depth text ≡ parsed value rest
      → parse_members (suc g) depth fields (quote key ++ (b':' ∷ text))
        ≡ next_round b'}'
            (codes "expected ',' or '}' in object")
            (object (emplace key value fields))
            (parse_members g depth (emplace key value fields))
            (skip_whitespace rest)
  unfolding expect_colon skip_whitespace add_member
  round g depth fields key value text rest fresh h =
      members_step g depth fields _ ∙ rw (parse_string-quote key (b':' ∷ text), h, fresh) refl

  pub round-comma :
      (g depth : ℕ) (fields : Members D) (key : Bytes) (value : JsonValue D) (text rest : Bytes)
      → is_some (field key fields) ≡ false
      → parse_value g depth text ≡ parsed value (b',' ∷ rest)
      → parse_members (suc g) depth fields (quote key ++ (b':' ∷ text))
        ≡ parse_members g depth (emplace key value fields) (skip_whitespace rest)
  unfolding next_round skip_whitespace
  round-comma g depth fields key value text rest fresh h =
      round g depth fields key value text (b',' ∷ rest) fresh h

  pub round-end :
      (g depth : ℕ) (fields : Members D) (key : Bytes) (value : JsonValue D) (text rest : Bytes)
      → is_some (field key fields) ≡ false
      → parse_value g depth text ≡ parsed value (b'}' ∷ rest)
      → parse_members (suc g) depth fields (quote key ++ (b':' ∷ text))
        ≡ parsed (object (emplace key value fields)) rest
  unfolding next_round skip_whitespace
  round-end g depth fields key value text rest fresh h =
      round g depth fields key value text (b'}' ∷ rest) fresh h

  -- An object whose first member follows its bracket at once.
  pub parse_value-object :
      (g depth : ℕ) (rest : Bytes)
      → depth ≤ 32
      → parse_value {D = D} (suc g) depth (b'{' ∷ b'"' ∷ rest)
        ≡ parse_members g (suc depth) no_members (b'"' ∷ rest)
  unfolding parse_value value_at open_object skip_whitespace
  parse_value-object g depth rest h =
      let shallow : ltb 32 depth ≡ false = ground arith in rw shallow refl
