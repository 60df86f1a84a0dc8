-- ===== src/Tests/Codec.antt =====
-- The JSON codec.
use policy_driven_rate_limit.Prelude.{
  Bytes, [], arith, codes, equal, ok, refl, true, ℕ, ◌++◌, ◌∷◌, ◌≡◌, ◌≢◌, ◌≤◌,
}
use policy_driven_rate_limit.Double.{fixed}
use policy_driven_rate_limit.Policy.{Request}
use policy_driven_rate_limit.Json.Value.{object, nesting, out_of_fuel}
use policy_driven_rate_limit.Json.Parser.{parse_value, enough, parse}
use policy_driven_rate_limit.Json.Parser.Total.{parse_value-fuel, parse-nesting}
use policy_driven_rate_limit.Json.Encode.{encode_evaluate_response}
use policy_driven_rate_limit.Json.Encode.Reads.{response_members, parse-encode_evaluate_response}
use policy_driven_rate_limit.Json.Decode.{decode_evaluate_request}
use policy_driven_rate_limit.Json.Decode.Accepts.{
  IsAdmissible, request_body, decode_evaluate_request-IsAdmissible, decode_evaluate_request-accepts,
}

-- A quote, a backslash, a line break and a control character.
abbrev odd_text : Bytes
odd_text = codes "a\"b\\\n" ++ (1 ∷ [])

-- Brackets that nothing closes.
parse_value-fuel_example : parse_value {D = ℕ} (enough (codes "[[{")) 0 (codes "[[{") ≢ out_of_fuel
parse_value-fuel_example = parse_value-fuel 0 (codes "[[{")

abbrev one_request : Request
one_request = record { tenant_id = codes "t"; endpoint = codes "/x"; received_at = 7 }

parse-encode_evaluate_response_example :
    parse {D = ℕ} (encode_evaluate_response true one_request odd_text (codes "LeakyBucket") [])
    ≡ ok (object (response_members true one_request odd_text (codes "LeakyBucket") []))
parse-encode_evaluate_response_example =
    parse-encode_evaluate_response true one_request odd_text (codes "LeakyBucket") []

parse-nesting_example :
    nesting {D = ℕ} (object (response_members true one_request odd_text (codes "LeakyBucket") []))
    ≤ 33
parse-nesting_example =
    parse-nesting (encode_evaluate_response true one_request odd_text (codes "LeakyBucket") [])
      (object (response_members true one_request odd_text (codes "LeakyBucket") []))
      (parse-encode_evaluate_response true one_request odd_text (codes "LeakyBucket") [])

one_request-IsAdmissible : IsAdmissible 7 one_request
unfolding equal
one_request-IsAdmissible = (refl, omega arith, refl, omega arith, refl)

decode_evaluate_request-accepts_example :
    decode_evaluate_request ℕ (request_body (codes "t") (codes "/x")) 7 ≡ ok one_request
decode_evaluate_request-accepts_example =
    decode_evaluate_request-accepts ℕ (codes "t") (codes "/x") 7 one_request-IsAdmissible

one_body_decodes :
    decode_evaluate_request ℕ (request_body (codes "t") (codes "/x")) 7 ≡ ok one_request
one_body_decodes =
    decode_evaluate_request-accepts ℕ (codes "t") (codes "/x") 7 one_request-IsAdmissible

decode_evaluate_request-IsAdmissible_example : IsAdmissible 7 one_request
decode_evaluate_request-IsAdmissible_example =
    decode_evaluate_request-IsAdmissible ℕ (request_body (codes "t") (codes "/x")) 7 one_request
      one_body_decodes
