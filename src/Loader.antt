-- ===== src/Loader.antt =====
-- policy/PolicyLoader.h and policy/PolicyLoader.cpp: `loadFromFile`, `toYaml` and `saveToFile`. The
-- file is a text, none where it cannot be opened; `strtol` is an argument.
pub mod Lines
pub mod Quoting
pub mod Fields
pub mod Valid
use policy_driven_rate_limit.Prelude.{
  Bool, Bytes, List, Option, Result, [], codes, decimal, equal, false, if◌then◌else◌, insert_sorted,
  ltb, none, not, ok, rejected, show_int, some, suc, true, ℕ, ℤ, ◌&&◌, ◌++◌, ◌==◌, ◌>>=◌, ◌>>◌,
  ◌||◌, ◌∷◌,
}
use policy_driven_rate_limit.Double.{Doubles}
use policy_driven_rate_limit.Policy.{Policy, default_policy, normalize_algorithm_name}
use policy_driven_rate_limit.Policy.Validate.{validate_policy_configuration}
use policy_driven_rate_limit.Resolver
use policy_driven_rate_limit.Resolver.{PolicyResolver}
use policy_driven_rate_limit.Database.Rows.{split_lines}
use policy_driven_rate_limit.Loader.Lines.{
  trim, leading_spaces, remove_comment, split_key_value, parse_int, parse_double, quote_yaml,
}

unfoldable pub normalize_param_name : Bytes → Bytes
normalize_param_name key =
    if equal key (codes "refillRate")
    then codes "refill"
    else if equal key (codes "leak")
    then codes "leakRate"
    else key

unfoldable pub is_param_key : Bytes → Bool
unfolding normalize_param_name
is_param_key key =
    let normalized = normalize_param_name key in
    equal normalized (codes "capacity")
    || equal normalized (codes "refill")
    || equal normalized (codes "limit")
    || equal normalized (codes "window")
    || equal normalized (codes "leakRate")

-- The local variables of `loadFromFile`; `match_indent` is none for -1.
pub record LoadState (D : Type 0) : Type 0 where
  pub policies : List (Policy D)
  pub current : Policy D
  pub in_policy : Bool
  pub in_match : Bool
  pub match_indent : Option ℕ
  pub order : ℕ

abbrev pub initial : {D : Type 0} → LoadState D
initial = record {
  policies = [];
  current = default_policy;
  in_policy = false;
  in_match = false;
  match_indent = none;
  order = 0;
}

-- `fail` with the error that a call left.
abbrev pub located {ℓ} : {A : Type ℓ} → Bytes → ℕ → Result A → Result A
located path line_no (ok x) = ok x
located path line_no (rejected message) =
    rejected (path ++ (b':' ∷ (decimal line_no ++ (codes ": " ++ message))))

abbrev pub in_file {ℓ} : {A : Type ℓ} → Bytes → Result A → Result A
in_file path (ok x) = ok x
in_file path (rejected message) = rejected (path ++ (codes ": " ++ message))

-- A value that a call found, or the message.
abbrev pub or_reject {ℓ} : {A : Type ℓ} → Option A → Bytes → Result A
or_reject none message = rejected message
or_reject (some x) message = ok x

abbrev pub deeper : Option ℕ → ℕ → Bool
deeper none indent = true
deeper (some match_indent) indent = ltb match_indent indent

module _ {D : Type 0} ⦃d : Doubles D⦄ (strtol : Bytes → Option (ℤ × Bytes)) where
  unfoldable pub apply_root_field : Policy D → Bytes → Bytes → Result (Policy D)
  unfolding is_param_key
  apply_root_field p key value =
      if equal key (codes "role")
      then rejected (codes "role matching is not supported in this build")
      else if equal key (codes "priority")
      then (do
        priority ← or_reject (parse_int strtol value) (codes "invalid priority value: " ++ value)
        ok (record p { priority = priority }))
      else if equal key (codes "algorithm")
      then ok (record p { algorithm = normalize_algorithm_name value })
      else if is_param_key key
      then (do
        number ←
            or_reject (parse_double value)
              (codes "invalid numeric value for " ++ (key ++ (codes ": " ++ value)))
        ok (record p { params = insert_sorted (normalize_param_name key) number p.params }))
      else rejected (codes "unknown policy field: " ++ key)

  unfoldable pub apply_match_field : Policy D → Bytes → Bytes → Result (Policy D)
  apply_match_field p key value =
      if equal key (codes "role")
      then rejected (codes "role matching is not supported in this build")
      else if equal key (codes "tenant") || equal key (codes "tenantId")
      then ok (record p { has_tenant = true; match_tenant = value })
      else if equal key (codes "endpoint")
      then ok (record p { has_endpoint = true; match_endpoint = value })
      else rejected (codes "unknown match field: " ++ key)

  module _ (path : Bytes) where
    unfoldable pub flush : LoadState D → Result (LoadState D)
    flush st =
        if st.in_policy
        then (in_file path (validate_policy_configuration st.current)
            >> ok (record st { policies = st.policies ++ (st.current ∷ []) }))
        else ok st

    -- `current = Policy()` and what follows it, up to the rest of the line.
    abbrev pub begin_policy : LoadState D → LoadState D
    begin_policy st = record st {
      current = record default_policy { order = st.order };
      in_policy = true;
      in_match = false;
      match_indent = none;
      order = suc st.order;
    }

    unfoldable pub first_field : ℕ → LoadState D → Bytes → Result (LoadState D)
    first_field line_no st [] = ok st
    first_field line_no st (c ∷ cs) = do
      (key, value) ←
          located path line_no
            (or_reject (split_key_value (c ∷ cs)) (codes "expected key: value after '-'"))
      current ← located path line_no (apply_root_field st.current key value)
      ok (record st { current = current })

    unfoldable pub apply_field : ℕ → LoadState D → ℕ → Bytes → Bytes → Result (LoadState D)
    unfolding is_param_key
    apply_field line_no st indent key value =
        let leaves =
          equal key (codes "algorithm") || equal key (codes "priority") || is_param_key key in
        let still_in_match = st.in_match && deeper st.match_indent indent && not leaves in
        do
          current ← located path line_no (
              if still_in_match
              then apply_match_field st.current key value
              else apply_root_field st.current key value)
          ok (record st { current = current; in_match = st.in_match && not leaves })

    unfoldable pub later_field : ℕ → LoadState D → ℕ → Bytes → Result (LoadState D)
    unfolding apply_field
    later_field line_no st indent trimmed =
        if not st.in_policy
        then located path line_no (rejected (codes "expected '-' to start a policy"))
        else if equal trimmed (codes "match:")
        then ok (record st { in_match = true; match_indent = some indent })
        else (do
          (key, value) ←
              located path line_no
                (or_reject (split_key_value trimmed) (codes "expected key: value"))
          apply_field line_no st indent key value)

    unfoldable pub load_trimmed : ℕ → LoadState D → ℕ → Bytes → Result (LoadState D)
    unfolding flush first_field later_field
    load_trimmed line_no st indent [] = ok st
    load_trimmed line_no st indent (c ∷ cs) =
        if c == b'-'
        then (do flushed ← flush st; first_field line_no (begin_policy flushed) (trim cs))
        else later_field line_no st indent (c ∷ cs)

    -- The body of the loop.
    unfoldable pub load_line : ℕ → LoadState D → Bytes → Result (LoadState D)
    unfolding load_trimmed
    load_line line_no st line =
        let uncommented = remove_comment line in
        load_trimmed line_no st (leading_spaces uncommented) (trim uncommented)

    unfoldable pub load_lines : ℕ → LoadState D → List Bytes → Result (LoadState D)
    unfolding load_line
    load_lines lines_read st [] = ok st
    load_lines lines_read st (line ∷ lines) =
        load_line (suc lines_read) st line >>= λ next. load_lines (suc lines_read) next lines

    unfoldable pub load_from_file : Option Bytes → Result (List (Policy D))
    unfolding load_lines flush
    load_from_file none = rejected (codes "unable to open policy file: " ++ path)
    load_from_file (some text) = do
      last_state ← load_lines 0 initial (split_lines text)
      flushed ← flush last_state
      ok (Resolver.create flushed.policies).policies

-- The name under which a parameter is written.
abbrev pub yaml_param_name : Bytes → Bytes
yaml_param_name key = if equal key (codes "refill") then codes "refillRate" else key

module _ {D : Type 0} ⦃d : Doubles D⦄ where
  unfoldable pub yaml_params : List (Bytes × D) → Bytes
  yaml_params [] = []
  yaml_params ((key, value) ∷ params) =
      codes "  "
      ++ (yaml_param_name key
          ++ (codes ": " ++ (d.show_plain value ++ (b'\n' ∷ yaml_params params))))

  unfoldable pub yaml_match : Policy D → Bytes
  yaml_match p =
      if p.has_tenant || p.has_endpoint
      then (codes "  match:\n"
          ++ ((if p.has_tenant
                then codes "    tenant: " ++ (quote_yaml p.match_tenant ++ (b'\n' ∷ []))
                else [])
              ++ (if p.has_endpoint
                  then codes "    endpoint: " ++ (quote_yaml p.match_endpoint ++ (b'\n' ∷ []))
                  else [])))
      else []

  unfoldable pub yaml_policy : Policy D → Bytes
  unfolding yaml_match yaml_params
  yaml_policy p =
      codes "- priority: "
      ++ (show_int p.priority
          ++ (b'\n'
              ∷ (yaml_match p
                  ++ (codes "  algorithm: " ++ (p.algorithm ++ (b'\n' ∷ yaml_params p.params))))))

  unfoldable pub to_yaml : List (Policy D) → Bytes
  unfolding yaml_policy
  to_yaml [] = []
  to_yaml (p ∷ ps) = yaml_policy p ++ to_yaml ps

  unfoldable pub check_policies : List (Policy D) → Result (Unit {0})
  check_policies [] = ok tt
  check_policies (p ∷ ps) = validate_policy_configuration p >> check_policies ps

  -- What follows the validation.
  unfoldable pub write_policies :
      Result (Unit {0})
      → Bytes
      → Bytes
      → List (Policy D)
      → Bool
      → Bool
      → Bool
      → Bytes × Result (Unit {0})
  unfolding to_yaml
  write_policies (rejected message) path file ps opened finished replaced = (file, rejected message)
  write_policies (ok _) path file ps opened finished replaced =
      if not opened
      then (file, rejected (codes "unable to write policy file: " ++ (path ++ codes ".tmp")))
      else if not finished
      then (file, rejected (codes "unable to finish policy file: " ++ (path ++ codes ".tmp")))
      else if not replaced
      then (file, rejected (codes "unable to atomically replace policy file: " ++ path))
      else (to_yaml ps, ok tt)

  -- What is in the file afterwards, and whether the save succeeded. `opened`, `finished` and
  -- `replaced` are what the file system does: the temporary file opens, takes the text, and is
  -- renamed.
  unfoldable pub save_to_file :
      Bytes → Bytes → List (Policy D) → Bool → Bool → Bool → Bytes × Result (Unit {0})
  unfolding check_policies write_policies
  save_to_file path file ps opened finished replaced =
      write_policies (check_policies ps) path file ps opened finished replaced
