-- ===== src/Json/Value.antt =====
-- `JsonValue` and the outcome of the parser's calls.
use policy_driven_rate_limit.Prelude.{
  Bool, Bytes, Option, before, equal, if◌then◌else◌, max, none, some, suc, ℕ,
}

-- The map of an object is in the order of its keys.
mutual
  pub data JsonValue (D : Type 0) : Type 0 where
    null : JsonValue D
    boolean : Bool → JsonValue D
    number : D → JsonValue D
    string : Bytes → JsonValue D
    object : Members D → JsonValue D
    array : Items D → JsonValue D

  pub data Members (D : Type 0) : Type 0 where
    no_members : Members D
    member : Bytes → JsonValue D → Members D → Members D

  pub data Items (D : Type 0) : Type 0 where
    no_items : Items D
    item : JsonValue D → Items D → Items D

-- A call of the parser gives a value and what is left of the input, or a message with what is left
-- where `pos_` stands. `out_of_fuel` has no counterpart in the program.
pub data Parsed {ℓ} (A : Type ℓ) : Type ℓ where
  parsed : A → Bytes → Parsed A
  failed : Bytes → Bytes → Parsed A
  out_of_fuel : Parsed A

abbrev pub and_then {ℓ κ} : {A : Type ℓ} {B : Type κ} → Parsed A → (A → Bytes → Parsed B) → Parsed B
and_then (parsed a rest) f = f a rest
and_then (failed message rest) f = failed message rest
and_then out_of_fuel f = out_of_fuel

module _ {D : Type 0} where
  -- `field`.
  unfoldable pub field : Bytes → Members D → Option (JsonValue D)
  field name no_members = none
  field name (member key value rest) = if equal key name then some value else field name rest

  -- `object.emplace(key, child)` where the key is not there.
  unfoldable pub emplace : Bytes → JsonValue D → Members D → Members D
  emplace key child no_members = member key child no_members
  emplace key child (member k value rest) =
      if before key k
      then member key child (member k value rest)
      else member k value (emplace key child rest)

  -- `array.push_back`.
  unfoldable pub push_back : Items D → JsonValue D → Items D
  push_back no_items child = item child no_items
  push_back (item value rest) child = item value (push_back rest child)

-- How deep objects and arrays are nested.
unfoldable mutual
  pub nesting : {D : Type 0} → JsonValue D → ℕ
  nesting null = 0
  nesting (boolean b) = 0
  nesting (number x) = 0
  nesting (string s) = 0
  nesting (object fields) = suc (nesting_members fields)
  nesting (array children) = suc (nesting_items children)

  pub nesting_members : {D : Type 0} → Members D → ℕ
  nesting_members no_members = 0
  nesting_members (member key value rest) = max (nesting value) (nesting_members rest)

  pub nesting_items : {D : Type 0} → Items D → ℕ
  nesting_items no_items = 0
  nesting_items (item value rest) = max (nesting value) (nesting_items rest)
