-- ===== src/Json/Strings.antt =====
-- `parseString`, `escapeJson` and `quote` of api/JsonCodec.cpp.
pub mod RoundTrip
use policy_driven_rate_limit.Prelude.{
  Bytes, Option, [], codes, if◌then◌else◌, leb, ltb, none, some, ℕ, ◌%◌, ◌&&◌, ◌*◌, ◌++◌, ◌+◌, ◌-◌,
  ◌/◌, ◌==◌, ◌||◌, ◌∷◌,
}
use policy_driven_rate_limit.Json.Value.{Parsed, parsed, failed}

-- Where the loop of `parseString` stands: between characters, behind a backslash, or in a unicode
-- escape, with the digits that are missing and the number read so far.
pub data Mode : Type 0 where
  plain : Mode
  escaped : Mode
  unicode : ℕ → ℕ → Mode

-- What one byte does: it adds to the output, ends the string, or is refused.
pub data Step : Type 0 where
  emit : Bytes → Mode → Step
  close : Step
  refuse : Bytes → Step

unfoldable pub plain_step : ℕ → Step
plain_step c =
    if c == b'"'
    then close
    else if ltb c 32
    then refuse (codes "unescaped control character in string")
    else if c == b'\\'
    then emit [] escaped
    else emit (c ∷ []) plain

unfoldable pub escaped_step : ℕ → Step
escaped_step c =
    if c == b'"' || c == b'\\' || c == b'/'
    then emit (c ∷ []) plain
    else if c == b'b'
    then emit (8 ∷ []) plain
    else if c == b'f'
    then emit (12 ∷ []) plain
    else if c == b'n'
    then emit (10 ∷ []) plain
    else if c == b'r'
    then emit (13 ∷ []) plain
    else if c == b't'
    then emit (9 ∷ []) plain
    else if c == b'u'
    then emit [] (unicode 4 0)
    else refuse (codes "invalid JSON escape")

unfoldable pub hex_digit : ℕ → Option ℕ
hex_digit c =
    if leb b'0' c && leb c b'9'
    then some (c - b'0')
    else if leb b'a' c && leb c b'f'
    then some (c - b'a' + 10)
    else if leb b'A' c && leb c b'F'
    then some (c - b'A' + 10)
    else none

-- The bytes of UTF-8: `0xC0 | (code >> 6)` is a sum, since the bits do not meet.
unfoldable pub utf_bytes : ℕ → Bytes
utf_bytes code =
    if leb code 0x7F
    then code ∷ []
    else if leb code 0x7FF
    then (0xC0 + code / 64) ∷ (0x80 + code % 64) ∷ []
    else (0xE0 + code / 4096) ∷ (0x80 + code / 64 % 64) ∷ (0x80 + code % 64) ∷ []

unfoldable pub unicode_end : ℕ → Step
unfolding utf_bytes
unicode_end code =
    if leb 0xD800 code && leb code 0xDFFF
    then refuse (codes "unicode surrogate pairs are not supported")
    else emit (utf_bytes code) plain

unfoldable pub unicode_step : ℕ → ℕ → Option ℕ → Step
unfolding unicode_end
unicode_step missing code none = refuse (codes "invalid unicode escape")
unicode_step missing code (some digit) =
    if missing == 1
    then unicode_end (code * 16 + digit)
    else emit [] (unicode (missing - 1) (code * 16 + digit))

unfoldable pub step : Mode → ℕ → Step
unfolding plain_step escaped_step unicode_step hex_digit
step plain c = plain_step c
step escaped c = escaped_step c
step (unicode missing code) c = unicode_step missing code (hex_digit c)

-- The input ends inside the string.
abbrev pub cut_short : Mode → Bytes
cut_short plain = codes "unterminated JSON string"
cut_short escaped = codes "incomplete JSON escape"
cut_short (unicode missing code) = codes "incomplete unicode escape"

abbrev pub prepend : Bytes → Parsed Bytes → Parsed Bytes
prepend out (parsed s rest) = parsed (out ++ s) rest
prepend out (failed message rest) = failed message rest
prepend out Parsed.out_of_fuel = Parsed.out_of_fuel

-- The loop of `parseString`.
unfoldable pub string_body : Mode → Bytes → Parsed Bytes
unfolding step
string_body mode [] = failed (cut_short mode) []
string_body mode (c ∷ cs) = elim (step mode c) [
  | emit out next ↦ prepend out (string_body next cs)
  | close ↦ parsed [] cs
  | refuse message ↦ failed message cs
]

unfoldable pub parse_string : Bytes → Parsed Bytes
unfolding string_body
parse_string [] = failed (codes "expected JSON string") []
parse_string (c ∷ cs) =
    if c == b'"' then string_body plain cs else failed (codes "expected JSON string") (c ∷ cs)

-- A digit as `std::hex` prints it.
abbrev pub hex_char : ℕ → ℕ
hex_char n = if ltb n 10 then 48 + n else 87 + n

unfoldable pub escape_char : ℕ → Bytes
escape_char c =
    if c == b'\\' || c == b'"'
    then b'\\' ∷ c ∷ []
    else if c == 8
    then codes "\\b"
    else if c == 12
    then codes "\\f"
    else if c == 10
    then codes "\\n"
    else if c == 13
    then codes "\\r"
    else if c == 9
    then codes "\\t"
    else if ltb c 32
    then codes "\\u00" ++ (hex_char (c / 16) ∷ hex_char (c % 16) ∷ [])
    else c ∷ []

unfoldable pub escape_json : Bytes → Bytes
unfolding escape_char
escape_json [] = []
escape_json (c ∷ cs) = escape_char c ++ escape_json cs

unfoldable pub quote : Bytes → Bytes
unfolding escape_json
quote value = b'"' ∷ (escape_json value ++ (b'"' ∷ []))
