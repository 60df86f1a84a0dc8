-- ===== src/Loader/Quoting.antt =====
-- What `quoteYaml` writes is read back: by `stripQuotes`, and by the loader in a line of a match.
use policy_driven_rate_limit.Prelude.{
  Bool-cases, Bytes, [], ap, arith, false, inl, inr, refl, reverse, some, sym, ℕ, ◌++◌, ◌==◌, ◌||◌,
  ◌∙◌, ◌∷◌, ◌≡◌,
}
use mathlib.Core.List.{reverse-append, reverse-reverse}
use policy_driven_rate_limit.Loader.Lines.{
  is_space, skip_spaces, trim, next_quote, comment_free, escaped_char, unescape, last_of,
  all_but_last, unquote, strip_quotes, escape_yaml, quote_yaml,
}

unescape-escape : (s : Bytes) → unescape false (escape_yaml s) ≡ s
unfolding unescape escape_yaml escaped_char
unescape-escape [] = refl
unescape-escape (c ∷ cs) = ground (arith, unescape-escape cs)

last_of-append : (c d : ℕ) (xs : Bytes) → last_of c (xs ++ (d ∷ [])) ≡ d
unfolding last_of
last_of-append c d [] = refl
last_of-append c d (x ∷ xs) = last_of-append x d xs

all_but_last-append : (c d : ℕ) (xs : Bytes) → all_but_last c (xs ++ (d ∷ [])) ≡ c ∷ xs
unfolding all_but_last
all_but_last-append c d [] = refl
all_but_last-append c d (x ∷ xs) = ap (◌∷◌ c) (all_but_last-append x d xs)

unquote_quoted : (e : Bytes) → unquote (b'"' ∷ (e ++ (b'"' ∷ []))) ≡ unescape false e
unfolding unquote
unquote_quoted [] = unfold last_of all_but_last in refl
unquote_quoted (c ∷ cs) = rw (last_of-append c b'"' cs, all_but_last-append c b'"' cs) refl

skip_none : (c : ℕ) (xs : Bytes) → is_space c ≡ false → skip_spaces (c ∷ xs) ≡ c ∷ xs
unfolding skip_spaces
skip_none c xs h = rw h refl

-- A text with no space at either end is not trimmed.
pub trim_closed :
    (c d : ℕ) (xs : Bytes)
    → is_space c ≡ false
    → is_space d ≡ false
    → trim (c ∷ (xs ++ (d ∷ []))) ≡ c ∷ (xs ++ (d ∷ []))
unfolding trim
trim_closed c d xs h k =
    let text = c ∷ (xs ++ (d ∷ [])) in
    let backwards = reverse-append (c ∷ xs) (d ∷ []) in
    ap (λ s. reverse (skip_spaces (reverse s))) (skip_none c (xs ++ (d ∷ [])) h)
    ∙ (ap (λ s. reverse (skip_spaces s)) backwards
        ∙ (ap reverse (skip_none d (reverse (c ∷ xs)) k)
            ∙ (ap reverse (sym backwards) ∙ reverse-reverse text)))

-- Stripping the quotes of a text that was quoted, behind a space, gives back the text.
pub strip_quotes-quote_yaml : (s : Bytes) → strip_quotes (b' ' ∷ quote_yaml s) ≡ s
unfolding strip_quotes quote_yaml
strip_quotes-quote_yaml s =
    ap unquote (unfold trim skip_spaces in trim_closed b'"' b'"' (escape_yaml s) refl refl)
    ∙ (unquote_quoted (escape_yaml s) ∙ unescape-escape s)

comment_step :
    (previous c : ℕ) (rest : Bytes)
    → next_quote (some b'"') previous c ≡ some b'"'
    → comment_free (some b'"') c rest ≡ rest
    → comment_free (some b'"') previous (c ∷ rest) ≡ c ∷ rest
unfolding comment_free
comment_step previous c rest h k = rw (h, k) refl

close_quote : (previous : ℕ) → comment_free (some b'"') previous (b'"' ∷ []) ≡ b'"' ∷ []
unfolding comment_free
close_quote previous = ground arith

pub comment_free-escape :
    (s : Bytes) (previous : ℕ)
    → comment_free (some b'"') previous (escape_yaml s ++ (b'"' ∷ []))
      ≡ escape_yaml s ++ (b'"' ∷ [])
unfolding escape_yaml
comment_free-escape [] previous = close_quote previous
comment_free-escape (c ∷ cs) previous = elim (Bool-cases (c == b'\\' || c == b'"')) [
  | inl special ↦ rw special (
      comment_step previous b'\\' _ refl
        (comment_step b'\\' c _ (ground arith) (comment_free-escape cs c)))
  | inr plain ↦ rw plain (elim (Bool-cases (c == b'\n')) [
    | inl newline ↦ rw newline (
        comment_step previous b'\\' _ refl
          (comment_step b'\\' b'n' _ refl (comment_free-escape cs b'n')))
    | inr no_newline ↦ rw no_newline (elim (Bool-cases (c == b'\r')) [
      | inl return ↦ rw return (
          comment_step previous b'\\' _ refl
            (comment_step b'\\' b'r' _ refl (comment_free-escape cs b'r')))
      | inr no_return ↦ rw no_return (elim (Bool-cases (c == b'\t')) [
        | inl tab ↦ rw tab (
            comment_step previous b'\\' _ refl
              (comment_step b'\\' b't' _ refl (comment_free-escape cs b't')))
        | inr no_tab ↦
            rw no_tab (comment_step previous c _ (ground arith) (comment_free-escape cs c))
      ])
    ])
  ])
]
