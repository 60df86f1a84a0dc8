-- ===== src/Json/Parser/Scan.antt =====
-- Every token of the parser consumes input.
use policy_driven_rate_limit.Prelude.{
  Bool-cases, Bytes, Option, [], arith, codes, false, inl, inr, is_digit, length, none, refl, some,
  take, true, ℕ, ◌&&◌, ◌+◌, ◌-◌, ◌<◌, ◌==◌, ◌||◌, ◌∷◌, ◌≡◌, ◌≤◌,
}
use policy_driven_rate_limit.Double.{Doubles}
use policy_driven_rate_limit.Loader.Lines.{at_end}
use policy_driven_rate_limit.Json.Value.{JsonValue, null, boolean, nesting, Parsed}
use policy_driven_rate_limit.Json.Strings.{
  Mode, Step, emit, close, refuse, step, prepend, string_body, parse_string, plain,
}
use policy_driven_rate_limit.Json.Parser.{
  skip_whitespace, skip_digits, consume, consume_literal, or_all, some_digits, integer_part,
  fraction_part, skip_sign, exponent_part, scan_number, read_number, parse_number, literal_or,
  parse_scalar, expect_colon,
}
use policy_driven_rate_limit.Json.Parser.Runs.{
  Runs, gives, refuses, Runs-if, Runs-and_then, Runs-weaken, Shorter, NoLonger,
}

pub skip_whitespace-le : (s : Bytes) → length (skip_whitespace s) ≤ length s
unfolding skip_whitespace
skip_whitespace-le [] = omega arith
skip_whitespace-le (c ∷ cs) = ground (arith, skip_whitespace-le cs)

skip_digits-le : (s : Bytes) → length (skip_digits s) ≤ length s
unfolding skip_digits
skip_digits-le [] = omega arith
skip_digits-le (c ∷ cs) = ground (arith, skip_digits-le cs)

skip_sign-le : (s : Bytes) → length (skip_sign s) ≤ length s
unfolding skip_sign
skip_sign-le [] = omega arith
skip_sign-le (c ∷ cs) = ground arith

prepend-Shorter :
    (out s : Bytes) (c : ℕ) (r : Parsed Bytes)
    → Runs (Shorter s) r
    → Runs (Shorter (c ∷ s)) (prepend out r)
prepend-Shorter out s c _ (gives h) = gives (omega arith)
prepend-Shorter out s c _ refuses = refuses

-- The cases of one byte of a string.
string_step-Shorter :
    (mode : Mode) (c : ℕ) (s : Bytes) (now : Step)
    → ((next : Mode) → Runs (Shorter s) (string_body next s))
    → step mode c ≡ now
    → Runs (Shorter (c ∷ s)) (string_body mode (c ∷ s))
unfolding string_body
string_step-Shorter mode c s (emit out next) ih e =
    rw (e, string_body) (prepend-Shorter out s c _ (ih next))
string_step-Shorter mode c s close ih e = rw (e, string_body) (gives (omega arith))
string_step-Shorter mode c s (refuse message) ih e = rw (e, string_body) refuses

pub string_body-Shorter : (mode : Mode) (s : Bytes) → Runs (Shorter s) (string_body mode s)
string_body-Shorter mode [] = unfold string_body in refuses
string_body-Shorter mode (c ∷ cs) =
    string_step-Shorter mode c cs (step mode c) (λ next. string_body-Shorter next cs) refl

pub parse_string-Shorter : (s : Bytes) → Runs (Shorter s) (parse_string s)
unfolding parse_string
parse_string-Shorter [] = refuses
parse_string-Shorter (c ∷ cs) =
    Runs-if (c == b'"') (λ h. Runs-weaken (λ a rest k. omega arith) (string_body-Shorter plain cs))
      (λ h. refuses)

pub expect_colon-Shorter : (s : Bytes) → Runs (Shorter s) (expect_colon s)
unfolding expect_colon
expect_colon-Shorter [] = refuses
expect_colon-Shorter (c ∷ cs) = elim (Bool-cases (c == b':')) [
  | inl colon ↦ rw (colon, expect_colon) (gives (omega arith))
  | inr other ↦ rw (other, expect_colon) refuses
]

some_digits-NoLonger : (message s : Bytes) → Runs (NoLonger s) (some_digits message s)
unfolding some_digits
some_digits-NoLonger message s =
    Runs-if (length (skip_digits s) == length s) (λ h. refuses) (λ h. gives (skip_digits-le s))

integer_part-Shorter : (s : Bytes) → Runs (Shorter s) (integer_part s)
unfolding integer_part
integer_part-Shorter [] = refuses
integer_part-Shorter (c ∷ cs) =
    Runs-if (c == b'0') (λ h. gives (omega arith))
      (λ h. Runs-if (is_digit c) (λ k. gives (omega (arith, skip_digits-le cs))) (λ k. refuses))

fraction_part-NoLonger : (s : Bytes) → Runs (NoLonger s) (fraction_part s)
unfolding fraction_part
fraction_part-NoLonger [] = gives (omega arith)
fraction_part-NoLonger (c ∷ cs) =
    Runs-if (c == b'.') (λ h. Runs-weaken (λ a rest k. omega arith) (some_digits-NoLonger _ cs))
      (λ h. gives (omega arith))

exponent_part-NoLonger : (s : Bytes) → Runs (NoLonger s) (exponent_part s)
unfolding exponent_part
exponent_part-NoLonger [] = gives (omega arith)
exponent_part-NoLonger (c ∷ cs) =
    Runs-if (c == b'e' || c == b'E')
      (λ h.
        Runs-weaken (λ a rest k. omega (arith, skip_sign-le cs))
          (some_digits-NoLonger _ (skip_sign cs)))
      (λ h. gives (omega arith))

or_all-consume-le : (c : ℕ) (s : Bytes) → length (or_all (consume c s) s) ≤ length s
or_all-consume-le c [] = omega arith
or_all-consume-le c (x ∷ xs) = ground arith

scan_number-Shorter : (s : Bytes) → Runs (Shorter s) (scan_number s)
unfolding scan_number
scan_number-Shorter s = Runs-and_then (integer_part-Shorter (or_all (consume b'-' s) s)) λ _ r p.
    Runs-and_then (fraction_part-NoLonger r) λ _ t q.
      Runs-weaken (λ a rest k. omega (arith, or_all-consume-le b'-' s)) (exponent_part-NoLonger t)

consume_literal-le :
    (l s : Bytes) (rest : Bytes)
    → consume_literal l s ≡ some rest
    → length rest + length l ≡ length s
unfolding consume_literal
consume_literal-le [] s rest e = ground arith
consume_literal-le (x ∷ l) [] rest e = cc
consume_literal-le (x ∷ l) (c ∷ cs) rest e = ground (arith, consume_literal-le l cs rest)

module _ {D : Type 0} ⦃d : Doubles D⦄ where
  -- A scalar is not nested.
  abbrev pub Flat : Bytes → JsonValue D → Bytes → Type 0
  Flat s value rest = (length rest < length s) × (nesting value ≡ 0)

  read_number-Flat :
      (s rest : Bytes) (read : Option (D × Bytes))
      → length rest < length s
      → Runs (Flat s) (read_number read rest)
  unfolding read_number nesting
  read_number-Flat s rest none h = refuses
  read_number-Flat s rest (some (value, behind)) h =
      Runs-if (at_end behind && d.is_finite value) (λ k. gives (h, refl)) (λ k. refuses)

  parse_number-Flat : (s : Bytes) → Runs (Flat s) (parse_number s)
  unfolding parse_number
  parse_number-Flat s =
      Runs-and_then (scan_number-Shorter s)
        λ _ rest p. read_number-Flat s rest (d.strtod (take (length s - length rest) s)) p

  literal_or-Flat :
      (l s : Bytes) (found : Option Bytes) (value : JsonValue D)
      → 0 < length l
      → nesting value ≡ 0
      → consume_literal l s ≡ found
      → Runs (Flat s) (literal_or found value s)
  unfolding literal_or
  literal_or-Flat l s none value h k e = parse_number-Flat s
  literal_or-Flat l s (some rest) value h k e =
      gives (omega (arith, consume_literal-le l s rest e), k)

  pub parse_scalar-Flat : (c : ℕ) (s : Bytes) → Runs (Flat s) (parse_scalar c s)
  unfolding parse_scalar nesting
  parse_scalar-Flat c s =
      Runs-if (c == b't')
        (λ h. literal_or-Flat (codes "true") s _ (boolean true) (omega arith) refl refl)
        (λ h.
          Runs-if (c == b'f')
            (λ h. literal_or-Flat (codes "false") s _ (boolean false) (omega arith) refl refl)
            (λ h.
              Runs-if (c == b'n')
                (λ h. literal_or-Flat (codes "null") s _ null (omega arith) refl refl)
                (λ h. parse_number-Flat s)))
