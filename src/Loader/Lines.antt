-- ===== src/Loader/Lines.antt =====
-- The helpers on texts of policy/PolicyLoader.cpp.
use policy_driven_rate_limit.Prelude.{
  Bool, Bytes, Option, [], false, if◌then◌else◌, leb, ltb, negsuc, none, not, pos, reverse, some,
  suc, true, ℕ, ℤ, ◌&&◌, ◌++◌, ◌==◌, ◌||◌, ◌∷◌,
}
use policy_driven_rate_limit.Double.{Doubles}

-- `std::isspace` in the C locale.
unfoldable pub is_space : ℕ → Bool
is_space c = c == b' ' || (leb 9 c && leb c 13)

-- `while (first < s.size() && std::isspace(s[first])) ++first;`
unfoldable pub skip_spaces : Bytes → Bytes
unfolding is_space
skip_spaces [] = []
skip_spaces (c ∷ cs) = if is_space c then skip_spaces cs else c ∷ cs

-- The spaces at the front, and those at the back of what is left.
unfoldable pub trim : Bytes → Bytes
unfolding skip_spaces
trim s = reverse (skip_spaces (reverse (skip_spaces s)))

unfoldable pub leading_spaces : Bytes → ℕ
leading_spaces [] = 0
leading_spaces (c ∷ cs) = if c == b' ' then suc (leading_spaces cs) else 0

abbrev pub is_quote : ℕ → Bool
is_quote c = c == b'"' || c == b'\''

-- `inQuote` and `quote`, as the quote that is open; behind a quote that is not escaped.
abbrev pub turn_quote : Option ℕ → ℕ → Option ℕ
turn_quote none c = some c
turn_quote (some quote) c = if quote == c then none else some quote

abbrev pub next_quote : Option ℕ → ℕ → ℕ → Option ℕ
next_quote open_quote previous c =
    if is_quote c && not (previous == b'\\') then turn_quote open_quote c else open_quote

abbrev pub is_comment : Option ℕ → ℕ → Bool
is_comment none c = c == b'#'
is_comment (some quote) c = false

-- The loop of `removeComment`; `previous` is `s[i - 1]`, and 0 at the start.
unfoldable pub comment_free : Option ℕ → ℕ → Bytes → Bytes
comment_free open_quote previous [] = []
comment_free open_quote previous (c ∷ cs) =
    let now_open = next_quote open_quote previous c in
    if is_comment now_open c then [] else c ∷ comment_free now_open c cs

unfoldable pub remove_comment : Bytes → Bytes
unfolding comment_free
remove_comment s = comment_free none 0 s

unfoldable pub escaped_char : ℕ → ℕ
escaped_char c =
    if c == b'n' then b'\n' else if c == b'r' then b'\r' else if c == b't' then b'\t' else c

-- The loop that decodes a double-quoted text; the flag is `escaped`.
unfoldable pub unescape : Bool → Bytes → Bytes
unfolding escaped_char
unescape false [] = []
unescape true [] = b'\\' ∷ []
unescape false (c ∷ cs) =
    let rest = unescape (c == b'\\') cs in if c == b'\\' then rest else c ∷ rest
unescape true (c ∷ cs) = escaped_char c ∷ unescape false cs

-- `back()` and the text without it, of `c ∷ cs`.
unfoldable pub last_of : ℕ → Bytes → ℕ
last_of c [] = c
last_of c (x ∷ xs) = last_of x xs

unfoldable pub all_but_last : ℕ → Bytes → Bytes
all_but_last c [] = []
all_but_last c (x ∷ xs) = c ∷ all_but_last x xs

unfoldable pub unquote : Bytes → Bytes
unfolding unescape last_of all_but_last
unquote [] = []
unquote (c ∷ []) = c ∷ []
unquote (c ∷ x ∷ xs) =
    if c == b'"' && last_of x xs == b'"'
    then unescape false (all_but_last x xs)
    else if c == b'\'' && last_of x xs == b'\''
    then all_but_last x xs
    else c ∷ x ∷ xs

unfoldable pub strip_quotes : Bytes → Bytes
unfolding trim unquote
strip_quotes s = unquote (trim s)

-- The texts in front of the first colon and behind it.
unfoldable pub split_colon : Bytes → Option (Bytes × Bytes)
split_colon [] = none
split_colon (c ∷ cs) = if c == b':' then some ([], cs) else elim (split_colon cs) [
  | none ↦ none
  | some (before_colon, behind) ↦ some (c ∷ before_colon, behind)
]

-- none where `splitKeyValue` returns false.
unfoldable pub key_value : Bytes × Bytes → Option (Bytes × Bytes)
key_value (front, behind) = elim (trim front) [
  | [] ↦ none
  | c ∷ cs ↦ some (c ∷ cs, strip_quotes behind)
]

unfoldable pub split_key_value : Bytes → Option (Bytes × Bytes)
unfolding split_colon key_value
split_key_value line = elim (split_colon line) [ none ↦ none | some parts ↦ key_value parts ]

-- `*end == '\0'`.
abbrev pub at_end : Bytes → Bool
at_end [] = true
at_end (c ∷ cs) = c == 0

abbrev int_in_range : ℤ → Bool
int_in_range (pos n) = ltb n 2147483648
int_in_range (negsuc n) = ltb n 2147483648

-- `strtol` in base 10: the number, and the text behind it; none where `end` is the start.
unfoldable pub parse_int : (Bytes → Option (ℤ × Bytes)) → Bytes → Option ℤ
parse_int strtol value = elim (strtol value) [
  | none ↦ none
  | some (parsed, rest) ↦ if at_end rest && int_in_range parsed then some parsed else none
]

unfoldable pub parse_double : {D : Type 0} ⦃d : Doubles D⦄ → Bytes → Option D
parse_double ⦃d⦄ value = elim (d.strtod value) [
  | none ↦ none
  | some (parsed, rest) ↦ if at_end rest then some parsed else none
]

unfoldable pub escape_yaml : Bytes → Bytes
escape_yaml [] = []
escape_yaml (c ∷ cs) =
    let rest = escape_yaml cs in
    if c == b'\\' || c == b'"'
    then b'\\' ∷ c ∷ rest
    else if c == b'\n'
    then b'\\' ∷ b'n' ∷ rest
    else if c == b'\r'
    then b'\\' ∷ b'r' ∷ rest
    else if c == b'\t'
    then b'\\' ∷ b't' ∷ rest
    else c ∷ rest

unfoldable pub quote_yaml : Bytes → Bytes
unfolding escape_yaml
quote_yaml value = b'"' ∷ (escape_yaml value ++ (b'"' ∷ []))
