-- ===== src/Loader/Fields.antt =====
-- The lines of a match that `toYaml` writes, as the loader reads them.
use policy_driven_rate_limit.Prelude.{
  Bytes, Option, ap, codes, equal, ok, refl, some, true, ℕ, ℤ, ◌++◌, ◌≡◌,
}
use policy_driven_rate_limit.Double.{Doubles}
use policy_driven_rate_limit.Loader.{
  LoadState, deeper, is_param_key, normalize_param_name, apply_match_field, apply_field,
  later_field, load_trimmed, load_line,
}
use policy_driven_rate_limit.Loader.Lines.{
  skip_spaces, trim, leading_spaces, comment_free, remove_comment, split_colon, split_key_value,
  key_value, escape_yaml, quote_yaml,
}
use policy_driven_rate_limit.Loader.Quoting.{
  comment_free-escape, strip_quotes-quote_yaml, trim_closed,
}

-- The lines that `toYaml` writes, without the line break.
abbrev pub tenant_line : Bytes → Bytes
tenant_line value = codes "    tenant: " ++ quote_yaml value

abbrev pub endpoint_line : Bytes → Bytes
endpoint_line value = codes "    endpoint: " ++ quote_yaml value

-- The line of tenant, behind its indentation.
tenant-remove_comment : (value : Bytes) → remove_comment (tenant_line value) ≡ tenant_line value
unfolding remove_comment comment_free quote_yaml
tenant-remove_comment value =
    ap (λ (s : Bytes). codes "    tenant: \"" ++ s) (comment_free-escape value b'"')

tenant-trim : (value : Bytes) → trim (tenant_line value) ≡ codes "tenant: " ++ quote_yaml value
unfolding trim skip_spaces quote_yaml
tenant-trim value = trim_closed b't' b'"' (codes "enant: \"" ++ escape_yaml value) refl refl

tenant-split_key_value :
    (value : Bytes)
    → split_key_value (codes "tenant: " ++ quote_yaml value) ≡ some (codes "tenant", value)
unfolding split_key_value split_colon key_value trim skip_spaces
tenant-split_key_value value =
    ap (λ (v : Bytes). some (codes "tenant", v)) (strip_quotes-quote_yaml value)

-- The line of endpoint, behind its indentation.
endpoint-remove_comment :
    (value : Bytes) → remove_comment (endpoint_line value) ≡ endpoint_line value
unfolding remove_comment comment_free quote_yaml
endpoint-remove_comment value =
    ap (λ (s : Bytes). codes "    endpoint: \"" ++ s) (comment_free-escape value b'"')

endpoint-trim :
    (value : Bytes) → trim (endpoint_line value) ≡ codes "endpoint: " ++ quote_yaml value
unfolding trim skip_spaces quote_yaml
endpoint-trim value = trim_closed b'e' b'"' (codes "ndpoint: \"" ++ escape_yaml value) refl refl

endpoint-split_key_value :
    (value : Bytes)
    → split_key_value (codes "endpoint: " ++ quote_yaml value) ≡ some (codes "endpoint", value)
unfolding split_key_value split_colon key_value trim skip_spaces
endpoint-split_key_value value =
    ap (λ (v : Bytes). some (codes "endpoint", v)) (strip_quotes-quote_yaml value)

module _ {D : Type 0} ⦃d : Doubles D⦄ (strtol : Bytes → Option (ℤ × Bytes)) where
  -- While the loader is in the match of a policy that is indented by less than four spaces, the
  -- tenant and endpoint lines that to_yaml writes for a value set that field of the match to the
  -- value, whatever quotes, comment signs or line breaks it holds.
  pub load_line-match :
      (path : Bytes) (line_no : ℕ) (st : LoadState D) (value : Bytes)
      → st.in_policy ≡ true
      → st.in_match ≡ true
      → deeper st.match_indent 4 ≡ true
      → (load_line strtol path line_no st (tenant_line value)
          ≡ ok (record st {
            current = record st.current { has_tenant = true; match_tenant = value };
            in_match = true;
          }))
        × (load_line strtol path line_no st (endpoint_line value)
            ≡ ok (record st {
              current = record st.current { has_endpoint = true; match_endpoint = value };
              in_match = true;
            }))
  unfolding load_line load_trimmed later_field apply_field apply_match_field equal is_param_key
      normalize_param_name leading_spaces quote_yaml
  load_line-match path line_no st value in_policy in_match inside = (
    rw
        (
          tenant-remove_comment value,
          tenant-trim value,
          in_policy,
          tenant-split_key_value value,
          in_match,
          inside,
        )
        refl,
    rw
        (
          endpoint-remove_comment value,
          endpoint-trim value,
          in_policy,
          endpoint-split_key_value value,
          in_match,
          inside,
        )
        refl,
  )
