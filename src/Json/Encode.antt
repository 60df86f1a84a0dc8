-- ===== src/Json/Encode.antt =====
-- The encoders of api/JsonCodec.cpp.
pub mod Reads
use policy_driven_rate_limit.Prelude.{
  Bool, Bytes, List, [], codes, if◌then◌else◌, show_int, ◌&&◌, ◌++◌, ◌∷◌,
}
use policy_driven_rate_limit.Double.{Doubles}
use policy_driven_rate_limit.Policy.{Policy, Request}
use policy_driven_rate_limit.Json.Strings.{quote}

unfoldable pub encode_error : Bytes → Bytes
encode_error message = codes "{\"error\":" ++ (quote message ++ (b'}' ∷ []))

unfoldable pub encode_evaluate_response : Bool → Request → Bytes → Bytes → Bytes → Bytes
encode_evaluate_response allowed req policy_key algorithm state =
    codes "{\"allowed\":"
    ++ ((if allowed then codes "true" else codes "false")
        ++ (codes ",\"result\":\""
            ++ ((if allowed then codes "ALLOW" else codes "DENY")
                ++ (codes "\",\"tenant\":"
                    ++ (quote req.tenant_id
                        ++ (codes ",\"endpoint\":"
                            ++ (quote req.endpoint
                                ++ (codes ",\"policyKey\":"
                                    ++ (quote policy_key
                                        ++ (codes ",\"algorithm\":"
                                            ++ (quote algorithm
                                                ++ (codes ",\"state\":"
                                                    ++ (quote state ++ (b'}' ∷ []))))))))))))))

module _ {D : Type 0} ⦃d : Doubles D⦄ where
  -- The parameters behind the first, each behind a comma.
  unfoldable pub encode_params_tail : List (Bytes × D) → Bytes
  encode_params_tail [] = []
  encode_params_tail ((name, value) ∷ rest) =
      b',' ∷ (quote name ++ (b':' ∷ (d.show_precise value ++ encode_params_tail rest)))

  unfoldable pub encode_params : List (Bytes × D) → Bytes
  unfolding encode_params_tail
  encode_params [] = []
  encode_params ((name, value) ∷ rest) =
      quote name ++ (b':' ∷ (d.show_precise value ++ encode_params_tail rest))

  unfoldable pub encode_match : Policy D → Bytes
  encode_match p =
      (if p.has_tenant then codes "\"tenant\":" ++ quote p.match_tenant else [])
      ++ ((if p.has_tenant && p.has_endpoint then b',' ∷ [] else [])
          ++ (if p.has_endpoint then codes "\"endpoint\":" ++ quote p.match_endpoint else []))

  unfoldable pub encode_policy : Policy D → Bytes
  unfolding encode_params encode_match
  encode_policy p =
      codes "{\"priority\":"
      ++ (show_int p.priority
          ++ (codes ",\"match\":{"
              ++ (encode_match p
                  ++ (codes "},\"algorithm\":"
                      ++ (quote p.algorithm
                          ++ (codes ",\"params\":{" ++ (encode_params p.params ++ codes "}}")))))))

  unfoldable pub encode_policies_tail : List (Policy D) → Bytes
  unfolding encode_policy
  encode_policies_tail [] = []
  encode_policies_tail (p ∷ ps) = b',' ∷ (encode_policy p ++ encode_policies_tail ps)

  unfoldable pub encode_policies : List (Policy D) → Bytes
  unfolding encode_policy encode_policies_tail
  encode_policies [] = codes "{\"policies\":[]}"
  encode_policies (p ∷ ps) =
      codes "{\"policies\":[" ++ (encode_policy p ++ (encode_policies_tail ps ++ codes "]}"))
