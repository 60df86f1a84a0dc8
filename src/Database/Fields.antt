-- ===== src/Database/Fields.antt =====
-- Percent escapes of Database.cpp: `encodeField`, `hexValue` and `decodeField`. A byte is a number
-- below 256.
use policy_driven_rate_limit.Prelude.{
  Bool, Bytes, Option, [], if◌then◌else◌, leb, length, ltb, none, some, suc, zero, ℕ, ◌%◌, ◌&&◌,
  ◌*◌, ◌++◌, ◌+◌, ◌-◌, ◌/◌, ◌==◌, ◌||◌, ◌∷◌,
}

abbrev between : ℕ → ℕ → ℕ → Bool
between lo hi c = leb lo c && leb c hi

-- `std::isalnum(c) || c == '-' || …` in the C locale.
unfoldable pub is_plain : ℕ → Bool
is_plain c =
    between b'0' b'9' c
    || between b'A' b'Z' c
    || between b'a' b'z' c
    || c == b'-'
    || c == b'_'
    || c == b'.'
    || c == b'~'

-- A digit as `std::hex << std::uppercase` prints it.
unfoldable pub hex_digit : ℕ → ℕ
hex_digit n = if ltb n 10 then 48 + n else 55 + n

-- What is written for one byte; `setw(2)` and `setfill('0')` give two digits.
unfoldable pub encode_byte : ℕ → Bytes
unfolding is_plain hex_digit
encode_byte c = if is_plain c then c ∷ [] else b'%' ∷ hex_digit (c / 16) ∷ hex_digit (c % 16) ∷ []

unfoldable pub encode_field : Bytes → Bytes
unfolding encode_byte
encode_field [] = []
encode_field (c ∷ cs) = encode_byte c ++ encode_field cs

-- none for -1.
unfoldable pub hex_value : ℕ → Option ℕ
hex_value c =
    if between b'0' b'9' c
    then some (c - b'0')
    else if between b'a' b'f' c
    then some (c - b'a' + 10)
    else if between b'A' b'F' c
    then some (c - b'A' + 10)
    else none

-- `(high << 4) | low` of two digits, if both are hexadecimal.
pub hex_pair : Option ℕ → Option ℕ → Option ℕ
hex_pair (some high) (some low) = some (high * 16 + low)
hex_pair _ _ = none

-- The loop of `decodeField`; the fuel bounds the bytes left.
unfoldable pub decode_from : ℕ → Bytes → Bytes
unfolding hex_pair hex_value
decode_from zero s = []
decode_from (suc f) [] = []
decode_from (suc f) (c ∷ []) = c ∷ []
decode_from (suc f) (c ∷ x ∷ []) = c ∷ decode_from f (x ∷ [])
decode_from (suc f) (c ∷ x ∷ y ∷ rest) =
    let literal = c ∷ decode_from f (x ∷ y ∷ rest) in
    let escaped = decode_from f rest in
    if c == b'%'
    then elim (hex_pair (hex_value x) (hex_value y)) [ none ↦ literal | some b ↦ b ∷ escaped ]
    else literal

unfoldable pub decode_field : Bytes → Bytes
unfolding decode_from
decode_field value = decode_from (length value) value
