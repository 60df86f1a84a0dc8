-- ===== src/Tests/Loading.antt =====
-- The policy file.
use policy_driven_rate_limit.Prelude.{
  Bytes, Option, [], before, codes, equal, false, insert_sorted, lookup, number_from, ok, pos, refl,
  rejected, some, true, ℕ, ℤ, ◌∷◌, ◌≡◌,
}
use policy_driven_rate_limit.Double.{fixed}
use policy_driven_rate_limit.Policy.{Policy, default_policy, normalize_algorithm_name}
use policy_driven_rate_limit.Policy.Validate.{
  validate_policy_configuration, required_params, check_tenant, check_endpoint, check_ranges,
}
use policy_driven_rate_limit.Resolver.{create, set_policies, sorted_policies}
use policy_driven_rate_limit.Resolver.Order.{IsSorted}
use policy_driven_rate_limit.Database.Rows.{split_lines}
use policy_driven_rate_limit.Loader.{
  LoadState, initial, load_from_file, load_lines, load_line, flush, first_field, later_field,
  apply_field, apply_root_field, is_param_key, normalize_param_name, save_to_file, check_policies,
  write_policies,
}
use policy_driven_rate_limit.Loader.Lines.{
  strip_quotes, trim, skip_spaces, leading_spaces, remove_comment, comment_free, split_key_value,
  split_colon, key_value, unquote, parse_int, parse_double,
}
use policy_driven_rate_limit.Loader.Fields.{tenant_line, endpoint_line, load_line-match}
use policy_driven_rate_limit.Loader.Valid.{AllValid, load_from_file-AllValid}

-- Digits only.
abbrev read_digits : Bytes → Option (ℤ × Bytes)
read_digits s = some (pos (number_from 0 s), [])

abbrev inside_match : LoadState ℕ
inside_match = record initial { in_policy = true; in_match = true; match_indent = some 2 }

load_line-match_example :
    (load_line read_digits [] 3 inside_match (tenant_line (codes "a # b"))
      ≡ ok (record inside_match {
        current = record default_policy { has_tenant = true; match_tenant = codes "a # b" };
      }))
    × (load_line read_digits [] 3 inside_match (endpoint_line (codes "a # b"))
        ≡ ok (record inside_match {
          current = record default_policy { has_endpoint = true; match_endpoint = codes "a # b" };
        }))
load_line-match_example =
    load_line-match read_digits [] 3 inside_match (codes "a # b") refl refl refl

abbrev policy_text : Bytes
policy_text = codes "- priority: 7 # first\n  algorithm: FixedWindow\n  limit: 5\n  window: 1\n"

abbrev loaded : Policy ℕ
loaded = record default_policy {
  priority = pos 7;
  algorithm = codes "FixedWindowCounter";
  params = (codes "limit", 5000) ∷ (codes "window", 1000) ∷ [];
}

loads : load_from_file read_digits [] (some policy_text) ≡ ok (loaded ∷ [])
unfolding load_from_file split_lines load_lines flush first_field later_field apply_field trim
    skip_spaces remove_comment comment_free leading_spaces split_key_value split_colon key_value
    strip_quotes unquote apply_root_field parse_int parse_double number_from insert_sorted before
    is_param_key normalize_param_name create set_policies sorted_policies
    validate_policy_configuration normalize_algorithm_name equal required_params check_tenant
    check_endpoint lookup check_ranges
loads = refl

load_from_file-AllValid_example : AllValid (loaded ∷ []) × IsSorted (loaded ∷ [])
load_from_file-AllValid_example =
    load_from_file-AllValid read_digits [] (some policy_text) (loaded ∷ []) loads

unfinished :
    (save_to_file (codes "p") [] (loaded ∷ []) true false true).1
    ≡ rejected (codes "unable to finish policy file: p.tmp")
unfolding save_to_file check_policies write_policies validate_policy_configuration
    normalize_algorithm_name equal required_params check_tenant check_endpoint lookup check_ranges
unfinished = refl

finished : (save_to_file (codes "p") [] (loaded ∷ []) true true true).1 ≡ ok tt
unfolding save_to_file check_policies write_policies validate_policy_configuration
    normalize_algorithm_name equal required_params check_tenant check_endpoint lookup check_ranges
finished = refl
