-- ===== src/Json/Parser.antt =====
-- `JsonParser` of api/JsonCodec.cpp. What is left of the input stands for `pos_`. What a call leaves
-- is no structural part of its input, so a call of `parse_value` and a round of a loop take fuel.
pub mod Runs
pub mod Scan
pub mod Nesting
pub mod Total
pub mod Rounds
use policy_driven_rate_limit.Prelude.{
  Bytes, Option, Result, [], codes, decimal, false, if◌then◌else◌, is_digit, is_some, length, ltb,
  none, ok, rejected, some, suc, take, true, zero, ℕ, ◌&&◌, ◌*◌, ◌++◌, ◌+◌, ◌-◌, ◌==◌, ◌||◌, ◌∷◌,
}
use policy_driven_rate_limit.Double.{Doubles}
use policy_driven_rate_limit.Loader.Lines.{is_space, at_end}
use policy_driven_rate_limit.Json.Value.{
  JsonValue, Members, Items, null, boolean, number, string, object, array, no_members, no_items,
  Parsed, parsed, failed, out_of_fuel, and_then, field, emplace, push_back,
}
use policy_driven_rate_limit.Json.Strings.{parse_string}

unfoldable pub skip_whitespace : Bytes → Bytes
unfolding is_space
skip_whitespace [] = []
skip_whitespace (c ∷ cs) = if is_space c then skip_whitespace cs else c ∷ cs

-- `while (pos_ < input_.size() && isdigit(input_[pos_])) ++pos_;`
unfoldable pub skip_digits : Bytes → Bytes
skip_digits [] = []
skip_digits (c ∷ cs) = if is_digit c then skip_digits cs else c ∷ cs

-- `consume(expected)`, as what is left if it is there.
abbrev pub consume : ℕ → Bytes → Option Bytes
consume expected [] = none
consume expected (c ∷ cs) = if c == expected then some cs else none

-- What is left behind a literal at the front.
unfoldable pub consume_literal : Bytes → Bytes → Option Bytes
consume_literal [] s = some s
consume_literal (l ∷ ls) [] = none
consume_literal (l ∷ ls) (c ∷ cs) = if c == l then consume_literal ls cs else none

abbrev pub or_all : Option Bytes → Bytes → Bytes
or_all none s = s
or_all (some rest) s = rest

-- The digits behind a point or an exponent, at least one.
unfoldable pub some_digits : Bytes → Bytes → Parsed (Unit {0})
unfolding skip_digits
some_digits message s =
    if length (skip_digits s) == length s then failed message s else parsed tt (skip_digits s)

unfoldable pub integer_part : Bytes → Parsed (Unit {0})
unfolding skip_digits
integer_part [] = failed (codes "invalid JSON number") []
integer_part (c ∷ cs) =
    if c == b'0'
    then parsed tt cs
    else if is_digit c
    then parsed tt (skip_digits cs)
    else failed (codes "invalid JSON value") (c ∷ cs)

unfoldable pub fraction_part : Bytes → Parsed (Unit {0})
unfolding some_digits
fraction_part [] = parsed tt []
fraction_part (c ∷ cs) =
    if c == b'.' then some_digits (codes "invalid JSON fraction") cs else parsed tt (c ∷ cs)

-- Behind an `e`, without its sign.
unfoldable pub skip_sign : Bytes → Bytes
skip_sign [] = []
skip_sign (c ∷ cs) = if c == b'+' || c == b'-' then cs else c ∷ cs

unfoldable pub exponent_part : Bytes → Parsed (Unit {0})
unfolding some_digits skip_sign
exponent_part [] = parsed tt []
exponent_part (c ∷ cs) =
    if c == b'e' || c == b'E'
    then some_digits (codes "invalid JSON exponent") (skip_sign cs)
    else parsed tt (c ∷ cs)

-- The grammar of a number, as what is left behind it.
unfoldable pub scan_number : Bytes → Parsed (Unit {0})
unfolding integer_part fraction_part exponent_part
scan_number s =
    and_then (integer_part (or_all (consume b'-' s) s))
      λ _ r. and_then (fraction_part r) λ _ t. exponent_part t

unfoldable pub expect_colon : Bytes → Parsed (Unit {0})
expect_colon s = elim (consume b':' s) [
  | none ↦ failed (codes "expected ':' after object key") s
  | some rest ↦ parsed tt rest
]

-- The fuel for an input: two for each byte, and one more.
abbrev pub enough : Bytes → ℕ
enough s = 2 * length s + 1

module _ {D : Type 0} ⦃d : Doubles D⦄ where
  unfoldable pub read_number : Option (D × Bytes) → Bytes → Parsed (JsonValue D)
  read_number none rest = failed (codes "JSON number must be finite") rest
  read_number (some (value, behind)) rest =
      if at_end behind && d.is_finite value
      then parsed (number value) rest
      else failed (codes "JSON number must be finite") rest

  -- `token` is what the scan has passed over.
  unfoldable pub parse_number : Bytes → Parsed (JsonValue D)
  unfolding scan_number read_number
  parse_number s =
      and_then (scan_number s)
        λ _ rest. read_number (d.strtod (take (length s - length rest) s)) rest

  -- The ladder of literals; what is none is read as a number.
  unfoldable pub literal_or : Option Bytes → JsonValue D → Bytes → Parsed (JsonValue D)
  unfolding parse_number
  literal_or none value s = parse_number s
  literal_or (some rest) value s = parsed value rest

  unfoldable pub parse_scalar : ℕ → Bytes → Parsed (JsonValue D)
  unfolding literal_or consume_literal
  parse_scalar c s =
      if c == b't'
      then literal_or (consume_literal (codes "true") s) (boolean true) s
      else if c == b'f'
      then literal_or (consume_literal (codes "false") s) (boolean false) s
      else if c == b'n'
      then literal_or (consume_literal (codes "null") s) null s
      else parse_number s

  -- Behind the white space that follows an opening bracket: the closing one, or the loop.
  unfoldable pub open_object :
      (Members D → Bytes → Parsed (JsonValue D)) → Option Bytes → Bytes → Parsed (JsonValue D)
  open_object members (some rest) s = parsed (object no_members) rest
  open_object members none s = members no_members s

  unfoldable pub open_array :
      (Items D → Bytes → Parsed (JsonValue D)) → Option Bytes → Bytes → Parsed (JsonValue D)
  open_array items (some rest) s = parsed (array no_items) rest
  open_array items none s = items no_items s

  -- The body of `parseValue` behind the white space; the two loops are arguments.
  unfoldable pub value_at :
      (Members D → Bytes → Parsed (JsonValue D))
      → (Items D → Bytes → Parsed (JsonValue D))
      → Bytes
      → Parsed (JsonValue D)
  unfolding open_object open_array parse_scalar skip_whitespace parse_string
  value_at members items [] = failed (codes "unexpected end of JSON") []
  value_at members items (c ∷ cs) =
      if c == b'{'
      then open_object members (consume b'}' (skip_whitespace cs)) (skip_whitespace cs)
      else if c == b'['
      then open_array items (consume b']' (skip_whitespace cs)) (skip_whitespace cs)
      else if c == b'"'
      then and_then (parse_string (c ∷ cs)) (λ s rest. parsed (string s) rest)
      else parse_scalar c (c ∷ cs)

  -- Behind a member or an item: the closing bracket, or a comma and the next round.
  unfoldable pub next_round :
      ℕ → Bytes → JsonValue D → (Bytes → Parsed (JsonValue D)) → Bytes → Parsed (JsonValue D)
  unfolding skip_whitespace
  next_round closing message finished more [] = failed message []
  next_round closing message finished more (c ∷ cs) =
      if c == closing
      then parsed finished cs
      else if c == b','
      then more (skip_whitespace cs)
      else failed message (c ∷ cs)

  -- `emplace`, which fails on a key that is there.
  unfoldable pub add_member : Members D → Bytes → JsonValue D → Bytes → Parsed (Members D)
  unfolding field emplace
  add_member fields key child rest =
      if is_some (field key fields)
      then failed (codes "duplicate JSON key: " ++ key) rest
      else parsed (emplace key child fields) rest

  unfoldable mutual
    unfolding value_at next_round expect_colon add_member

    -- `parseValue`, with the fuel and the depth.
    pub parse_value : ℕ → ℕ → Bytes → Parsed (JsonValue D)
    parse_value zero depth s = out_of_fuel
    parse_value (suc fuel) depth s =
        let value =
          value_at (parse_members fuel (suc depth)) (parse_items fuel (suc depth))
            (skip_whitespace s) in
        if ltb 32 depth then failed (codes "JSON nesting limit exceeded") s else value

    -- The loop of `parseObject`.
    pub parse_members : ℕ → ℕ → Members D → Bytes → Parsed (JsonValue D)
    parse_members zero depth fields s = out_of_fuel
    parse_members (suc fuel) depth fields s = and_then (parse_string s) λ key r.
        and_then (expect_colon (skip_whitespace r)) λ _ t.
          and_then (parse_value fuel depth t) λ child u.
            and_then (add_member fields key child u) λ grown v.
              next_round b'}' (codes "expected ',' or '}' in object") (object grown)
                (parse_members fuel depth grown) (skip_whitespace v)

    -- The loop of `parseArray`.
    pub parse_items : ℕ → ℕ → Items D → Bytes → Parsed (JsonValue D)
    parse_items zero depth children s = out_of_fuel
    parse_items (suc fuel) depth children s = and_then (parse_value fuel depth s) λ child u.
        next_round b']' (codes "expected ',' or ']' in array") (array (push_back children child))
          (parse_items fuel depth (push_back children child)) (skip_whitespace u)

  unfoldable pub finish : Bytes → Parsed (JsonValue D) → Result (JsonValue D)
  unfolding skip_whitespace
  finish input (failed message rest) =
      rejected (message ++ (codes " at byte " ++ decimal (length input - length rest)))
  finish input out_of_fuel = rejected []
  finish input (parsed value rest) =
      if length (skip_whitespace rest) == 0
      then ok value
      else rejected (codes "unexpected trailing JSON content")

  unfoldable pub parse : Bytes → Result (JsonValue D)
  unfolding parse_value finish skip_whitespace
  parse input = finish input (parse_value (enough input) 0 (skip_whitespace input))
