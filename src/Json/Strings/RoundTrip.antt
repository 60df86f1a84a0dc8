-- ===== src/Json/Strings/RoundTrip.antt =====
-- What `quote` writes is read back by `parseString`.
use policy_driven_rate_limit.Prelude.{
  Bool-cases, Bytes, [], ap, append_assoc, arith, codes, inl, inr, ltb, ltb→lt, refl, some, ℕ, ◌%◌,
  ◌++◌, ◌/◌, ◌<◌, ◌==◌, ◌||◌, ◌∙◌, ◌∷◌, ◌≡◌,
}
use policy_driven_rate_limit.Json.Value.{Parsed, parsed, failed}
use policy_driven_rate_limit.Json.Strings.{
  Mode, plain, escaped, unicode, emit, step, plain_step, escaped_step, unicode_step, unicode_end,
  utf_bytes, hex_digit, hex_char, prepend, string_body, parse_string, escape_char, escape_json,
  quote,
}

emit_step :
    (mode next : Mode) (c : ℕ) (out s : Bytes)
    → step mode c ≡ emit out next
    → string_body mode (c ∷ s) ≡ prepend out (string_body next s)
unfolding string_body
emit_step mode next c out s h = rw (h, string_body) refl

prepend-nil : (r : Parsed Bytes) → prepend [] r ≡ r
prepend-nil (parsed s rest) = refl
prepend-nil (failed message rest) = refl
prepend-nil Parsed.out_of_fuel = refl

hex_digit-hex_char : (n : ℕ) → n < 16 → hex_digit (hex_char n) ≡ some n
unfolding hex_digit
hex_digit-hex_char n h = ground arith

-- Behind a backslash, one more byte.
escape_pair :
    (c out : ℕ) (s : Bytes)
    → escaped_step c ≡ emit (out ∷ []) plain
    → string_body plain (b'\\' ∷ c ∷ s) ≡ prepend (out ∷ []) (string_body plain s)
unfolding step
escape_pair c out s h =
    emit_step plain escaped b'\\' [] (c ∷ s) (unfold plain_step in refl)
    ∙ prepend-nil _
    ∙ emit_step escaped plain c (out ∷ []) s h

silent_step :
    (mode next : Mode) (c : ℕ) (s : Bytes)
    → step mode c ≡ emit [] next
    → string_body mode (c ∷ s) ≡ string_body next s
silent_step mode next c s h = emit_step mode next c [] s h ∙ prepend-nil (string_body next s)

last_digit : (c : ℕ) → c < 32 → unicode_step 1 (c / 16) (some (c % 16)) ≡ emit (c ∷ []) plain
unfolding unicode_step unicode_end utf_bytes
last_digit c h = ground arith

unicode_escape :
    (c : ℕ) (s : Bytes)
    → c < 32
    → string_body plain (codes "\\u00" ++ (hex_char (c / 16) ∷ hex_char (c % 16) ∷ s))
      ≡ prepend (c ∷ []) (string_body plain s)
unicode_escape c s h =
    silent_step plain escaped b'\\' _ (unfold step plain_step in refl)
    ∙ silent_step escaped (unicode 4 0) b'u' _ (unfold step escaped_step in refl)
    ∙ silent_step (unicode 4 0) (unicode 3 0) b'0' _ (unfold step unicode_step hex_digit in refl)
    ∙ silent_step (unicode 3 0) (unicode 2 0) b'0' _ (unfold step unicode_step hex_digit in refl)
    ∙ silent_step (unicode 2 0) (unicode 1 (c / 16)) (hex_char (c / 16)) _ (
        unfold step in
        rw (hex_digit-hex_char (c / 16) (omega arith)) (unfold unicode_step in ground arith))
    ∙ emit_step (unicode 1 (c / 16)) plain (hex_char (c % 16)) (c ∷ []) s
        (unfold step in rw (hex_digit-hex_char (c % 16) (omega arith)) (last_digit c h))

body-escape_char :
    (c : ℕ) (s : Bytes)
    → string_body plain (escape_char c ++ s) ≡ prepend (c ∷ []) (string_body plain s)
unfolding escape_char
body-escape_char c s = elim (Bool-cases (c == b'\\' || c == b'"')) [
  | inl special ↦ rw special (escape_pair c c s (unfold escaped_step in ground arith))
  | inr common ↦ rw common (elim (Bool-cases (c == 8)) [
    | inl e ↦ rw e (escape_pair b'b' c s (unfold escaped_step in ground arith))
    | inr n8 ↦ rw n8 (elim (Bool-cases (c == 12)) [
      | inl e ↦ rw e (escape_pair b'f' c s (unfold escaped_step in ground arith))
      | inr n12 ↦ rw n12 (elim (Bool-cases (c == 10)) [
        | inl e ↦ rw e (escape_pair b'n' c s (unfold escaped_step in ground arith))
        | inr n10 ↦ rw n10 (elim (Bool-cases (c == 13)) [
          | inl e ↦ rw e (escape_pair b'r' c s (unfold escaped_step in ground arith))
          | inr n13 ↦ rw n13 (elim (Bool-cases (c == 9)) [
            | inl e ↦ rw e (escape_pair b't' c s (unfold escaped_step in ground arith))
            | inr n9 ↦ rw n9 (elim (Bool-cases (ltb c 32)) [
              | inl control ↦ rw control (unicode_escape c s (ltb→lt c 32 control))
              | inr printed ↦
                  rw printed
                    (emit_step plain plain c (c ∷ []) s (unfold step plain_step in ground arith))
            ])
          ])
        ])
      ])
    ])
  ])
]

pub body-escape_json :
    (s rest : Bytes) → string_body plain (escape_json s ++ (b'"' ∷ rest)) ≡ parsed s rest
unfolding escape_json
body-escape_json [] rest = unfold string_body step plain_step in refl
body-escape_json (c ∷ cs) rest =
    ap (string_body plain) (append_assoc (escape_char c) (escape_json cs) (b'"' ∷ rest))
    ∙ body-escape_char c (escape_json cs ++ (b'"' ∷ rest))
    ∙ ap (prepend (c ∷ [])) (body-escape_json cs rest)

-- A quoted text, whatever bytes it holds, is read back as it was, and what stands behind it is
-- left.
pub parse_string-quote : (s rest : Bytes) → parse_string (quote s ++ rest) ≡ parsed s rest
unfolding parse_string quote
parse_string-quote s rest =
    ap (string_body plain) (append_assoc (escape_json s) (b'"' ∷ []) rest) ∙ body-escape_json s rest
