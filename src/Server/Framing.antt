-- ===== src/Server/Framing.antt =====
-- A request is read whole, however its bytes are cut into calls of `recv`.
use policy_driven_rate_limit.Prelude.{
  All, Bool-cases, Bytes, List, Option, [], ap, append-nil, append_assoc, arith, false,
  if◌then◌else◌, inl, inr, leb, length, length-append, ltb, none, refl, some, suc, sym, ℕ, ◌&&◌,
  ◌++◌, ◌+◌, ◌<◌, ◌==◌, ◌∙◌, ◌∷◌, ◌≡◌, ◌≤◌, ◌⊎◌,
}
use policy_driven_rate_limit.Server.{split_headers, put_in_front}
use policy_driven_rate_limit.Server.Reading.{
  passed, parse_expected_body, max_header_bytes, Progress, goes_on, complete, check_headers,
  check_body, after_append, read_from, read_request,
}

put_in_front-some :
    (c : ℕ) (o : Option (Bytes × Bytes)) (head body : Bytes)
    → put_in_front c o ≡ some (head, body)
    → (h : Bytes) × (o ≡ some (h, body)) × (head ≡ c ∷ h)
put_in_front-some c none head body e = cc
put_in_front-some c (some (h, b)) head body e = (h, cc, cc)

-- What is known of a text that is only there up to some place: the end of the headers has not come,
-- or the same headers stand in front of a part of the same body.
abbrev IsFront : Bytes → Bytes → Bytes → Bytes → Type 0
IsFront raw more head body =
    ((split_headers raw ≡ none) × (length raw ≤ length head + 3))
    ⊎ ((rest : Bytes) × (split_headers raw ≡ some (head, rest)) × (rest ++ more ≡ body))

split_headers-short : (s : Bytes) → length s ≤ 3 → split_headers s ≡ none
unfolding split_headers
split_headers-short [] h = refl
split_headers-short (a ∷ []) h = refl
split_headers-short (a ∷ b ∷ []) h = refl
split_headers-short (a ∷ b ∷ c ∷ []) h = refl
split_headers-short (a ∷ b ∷ c ∷ d ∷ r) h = absurd (omega (arith, h))

split_headers-long :
    (a b c d : ℕ) (r : Bytes)
    → split_headers (a ∷ b ∷ c ∷ d ∷ r) ≡ (
        if a == 13 && b == 10 && c == 13 && d == 10
        then some ([], r)
        else put_in_front a (split_headers (b ∷ c ∷ d ∷ r)))
unfolding split_headers
split_headers-long a b c d r = refl

front-put_in_front :
    (a : ℕ) (raw more head body : Bytes)
    → IsFront raw more head body
    → ((put_in_front a (split_headers raw) ≡ none) × (suc (length raw) ≤ length (a ∷ head) + 3))
      ⊎ ((rest : Bytes) × (put_in_front a (split_headers raw) ≡ some (a ∷ head, rest))
          × (rest ++ more ≡ body))
front-put_in_front a raw more head body (inl (missing, short)) =
    inl (rw missing refl, omega (arith, short))
front-put_in_front a raw more head body (inr (rest, found, joined)) =
    inr (rest, rw found refl, joined)

split-IsFront :
    (raw more head body : Bytes)
    → split_headers (raw ++ more) ≡ some (head, body)
    → IsFront raw more head body
split-IsFront [] more head body e = inl (split_headers-short _ (omega arith), omega arith)
split-IsFront (a ∷ []) more head body e = inl (split_headers-short _ (omega arith), omega arith)
split-IsFront (a ∷ b ∷ []) more head body e = inl (split_headers-short _ (omega arith), omega arith)
split-IsFront (a ∷ b ∷ c ∷ []) more head body e =
    inl (split_headers-short _ (omega arith), omega arith)
split-IsFront (a ∷ b ∷ c ∷ d ∷ r) more head body e =
    elim (Bool-cases (a == 13 && b == 10 && c == 13 && d == 10)) [
      | inl ends ↦
          let found : some ([], r ++ more) ≡ some (head, body) =
            rw (split_headers-long a b c d (r ++ more), ends) at e in
          let top : [] ≡ head = cc found in
          inr (r, rw (split_headers-long a b c d r, ends, top) refl, cc found)
      | inr longer ↦
          let later : put_in_front a (split_headers (b ∷ c ∷ d ∷ (r ++ more))) ≡ some (head, body) =
            rw (split_headers-long a b c d (r ++ more), longer) at e in
          let (h, found, same) = put_in_front-some a _ head body later in
          rw (split_headers-long a b c d r, longer, same)
            (front-put_in_front a (b ∷ c ∷ d ∷ r) more h body
              (split-IsFront (b ∷ c ∷ d ∷ r) more h body found))
    ]

abbrev pub concat : List Bytes → Bytes
concat [] = []
concat (s ∷ ss) = s ++ concat ss

-- `recv` gave bytes.
abbrev pub IsReceived : List Bytes → Type 0
IsReceived = All (λ s. 0 < length s)

-- The loop either ends with the whole text, or goes on before it is there.
abbrev IsOnTrack : ℕ → Bytes → Bytes → Progress → Type 0
IsOnTrack n raw more p =
    ((p ≡ complete) × (more ≡ []))
    ⊎ ((known : Option ℕ) × (p ≡ goes_on known)
        × ((known ≡ none) ⊎ (known ≡ some n))
        × (0 < length more))

length-zero : (s : Bytes) → length s ≤ 0 → s ≡ []
length-zero [] h = refl
length-zero (c ∷ s) h = absurd (omega (arith, h))

check_body-IsOnTrack :
    (rest more body raw : Bytes)
    → rest ++ more ≡ body
    → IsOnTrack (length body) raw more (check_body (length body) rest)
unfolding check_body
check_body-IsOnTrack rest more body raw e =
    let sizes : length rest + length more ≡ length body =
      omega (arith, ap length e, length-append rest more) in
    let no_more : (length body == 0 && ltb 0 (length rest)) ≡ false = ground (arith, sizes) in
    elim (Bool-cases (leb (length body) (length rest))) [
      | inl whole ↦ inl (rw (no_more, whole) refl, length-zero more (ground (arith, sizes, whole)))
      | inr part ↦
          inr (some (length body), rw (no_more, part) refl, inr refl, ground (arith, sizes, part))
    ]

some-more :
    (raw more text : Bytes) {parts : Bytes × Bytes}
    → raw ++ more ≡ text
    → split_headers raw ≡ none
    → split_headers text ≡ some parts
    → 0 < length more
some-more raw [] text e missing found = cc (append-nil raw, e, missing, found)
some-more raw (c ∷ more) text e missing found = omega arith

module _ (text head body : Bytes) (found : split_headers text ≡ some (head, body))
    (framed : parse_expected_body head ≡ passed (length body))
    (small : length head + 3 ≤ max_header_bytes) where
  after_append-IsOnTrack :
      (raw more : Bytes) (expected : Option ℕ)
      → raw ++ more ≡ text
      → (expected ≡ none) ⊎ (expected ≡ some (length body))
      → IsOnTrack (length body) raw more (after_append raw expected (split_headers raw))
  unfolding after_append check_headers
  after_append-IsOnTrack raw more expected e known =
      elim (split-IsFront raw more head body (ap split_headers e ∙ found)) [
        | inl (missing, short) ↦
            let fits : ltb max_header_bytes (length raw) ≡ false = ground (arith, short, small) in
            inr (expected, rw (missing, fits) refl, known, some-more raw more text e missing found)
        | inr (rest, there, joined) ↦ elim known [
          | inl first ↦
              let fits : ltb max_header_bytes (length head) ≡ false = ground (arith, small) in
              rw (there, first, fits, framed) (check_body-IsOnTrack rest more body raw joined)
          | inr later ↦ rw (there, later) (check_body-IsOnTrack rest more body raw joined)
        ]
      ]

  read_from-whole :
      (chunks : List Bytes) (raw : Bytes) (expected : Option ℕ)
      → IsReceived chunks
      → raw ++ concat chunks ≡ text
      → 0 < length (concat chunks)
      → (expected ≡ none) ⊎ (expected ≡ some (length body))
      → read_from raw expected chunks ≡ passed text
  unfolding read_from
  read_from-whole [] raw expected r e h known = absurd (omega (arith, h))
  read_from-whole ([] ∷ chunks) raw expected r e h known = absurd (omega (arith, r.0))
  read_from-whole ((c ∷ cs) ∷ chunks) raw expected r e h known =
      let more = raw ++ (c ∷ cs) in
      let same : more ++ concat chunks ≡ text = append_assoc raw (c ∷ cs) (concat chunks) ∙ e in
      elim (after_append-IsOnTrack more (concat chunks) expected same known) [
        | inl (done, nothing) ↦
            let all : more ≡ text =
              sym (append-nil more) ∙ ap (λ (s : Bytes). more ++ s) (sym nothing) ∙ same in
            rw (done, all) refl
        | inr (next, on, known', left) ↦
            rw on (read_from-whole chunks more next r.1 same left known')
      ]

  -- Given a text whose headers, of at most 16381 bytes, announce the length of the body behind
  -- them: read_request returns the text, into whatever pieces, none of them empty, the calls of
  -- recv cut it.
  pub read_request-whole :
      (chunks : List Bytes)
      → IsReceived chunks
      → concat chunks ≡ text
      → read_request chunks ≡ passed text
  unfolding read_request
  read_request-whole chunks r e =
      read_from-whole chunks [] none r e
        (some-more [] (concat chunks) text e (split_headers-short [] (omega arith)) found)
        (inl refl)
