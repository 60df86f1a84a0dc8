-- ===== src/Json/Fields.antt =====
-- `readString`, `readNumber`, `rejectUnknown` and `addNumber` of api/JsonCodec.cpp.
use policy_driven_rate_limit.Prelude.{
  Bool, Bytes, List, Option, Result, codes, insert_sorted, is_some, lookup, none, ok, rejected,
  require, some, ◌++◌, ◌>>=◌, ◌>>◌,
}
use policy_driven_rate_limit.Policy.{Policy}
use policy_driven_rate_limit.Policy.Validate.{is_member}
use policy_driven_rate_limit.Json.Value.{
  JsonValue, Members, number, string, no_members, member, field,
}

module _ {D : Type 0} where
  abbrev pub has : Bytes → Members D → Bool
  has name fields = is_some (field name fields)

  abbrev pub string_of : Bytes → JsonValue D → Result Bytes
  string_of name (string s) = ok s
  string_of name _ = rejected (name ++ codes " must be a string")

  abbrev pub string_found : Bytes → Option (JsonValue D) → Result Bytes
  string_found name none = rejected (codes "missing " ++ name)
  string_found name (some value) = string_of name value

  -- `readString` with `required`, as all calls have it.
  unfoldable pub read_string : Members D → Bytes → Result Bytes
  read_string fields name = string_found name (field name fields)

  abbrev pub number_of : Bytes → JsonValue D → Result (Option D)
  number_of name (number x) = ok (some x)
  number_of name _ = rejected (name ++ codes " must be a number")

  abbrev pub number_found : Bytes → Option (JsonValue D) → Result (Option D)
  number_found name none = ok none
  number_found name (some value) = number_of name value

  -- none where `present` is false.
  unfoldable pub read_number : Members D → Bytes → Result (Option D)
  read_number fields name = number_found name (field name fields)

  -- The first key, in the order of the map, that is not among the names.
  unfoldable pub reject_unknown : Members D → List Bytes → Result (Unit {0})
  reject_unknown no_members allowed = ok tt
  reject_unknown (member key value rest) allowed =
      require (is_member key allowed) (codes "unknown JSON field: " ++ key)
      >> reject_unknown rest allowed

  abbrev pub with_param : Policy D → Bytes → Option D → Option D → Result (Policy D)
  with_param p param_key none there = ok p
  with_param p param_key (some value) (some old) =
      rejected (codes "duplicate parameter alias: " ++ param_key)
  with_param p param_key (some value) none =
      ok (record p { params = insert_sorted param_key value p.params })

  unfoldable pub add_number : Members D → Bytes → Bytes → Policy D → Result (Policy D)
  unfolding read_number
  add_number fields json_key param_key p = read_number fields json_key >>= λ value.
      with_param p param_key value (lookup param_key p.params)
