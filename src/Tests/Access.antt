-- ===== src/Tests/Access.antt =====
-- The authorization of requests.
use policy_driven_rate_limit.Prelude.{
  Bytes, List, [], codes, equal, lookup, refl, replicate, true, ◌++◌, ◌∷◌, ◌≡◌,
}
use policy_driven_rate_limit.Controller.{
  HttpRequest, bearer_token, header_value, lowered, behind_prefix, constant_time_equal,
  difference_from, authorize_tenant, authorize_admin,
}

abbrev with_token : HttpRequest
with_token = record {
  method = codes "GET";
  path = codes "/metrics";
  headers = (codes "authorization", codes "Bearer abc") ∷ [];
  body = [];
}

abbrev tokens : List (Bytes × Bytes)
tokens = (codes "t", codes "abc") ∷ []

tenant_passes : (authorize_tenant tokens with_token (codes "t")).status ≡ 200
unfolding authorize_tenant bearer_token header_value lowered behind_prefix constant_time_equal
    difference_from equal lookup
tenant_passes = refl

admin_passes : (authorize_admin (codes "abc") with_token).status ≡ 200
unfolding authorize_admin bearer_token header_value lowered behind_prefix constant_time_equal
    difference_from equal
admin_passes = refl

-- Two texts whose sizes differ by 256, of which the longer goes on with zeros, count as equal.
padded : constant_time_equal (codes "abc") (codes "abc" ++ replicate 256 0) ≡ true
unfolding constant_time_equal difference_from
padded = refl
