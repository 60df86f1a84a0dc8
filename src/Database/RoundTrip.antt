-- ===== src/Database/RoundTrip.antt =====
-- A field is read back as it was written.
use policy_driven_rate_limit.Prelude.{
  All, All-append, Bool-cases, Bytes, [], ap, arith, false, inl, inr, length, refl, some, suc, true,
  zero, ℕ, ◌%◌, ◌/◌, ◌<◌, ◌==◌, ◌∙◌, ◌∷◌, ◌≡◌, ◌≤◌,
}
use policy_driven_rate_limit.Database.Fields.{
  is_plain, hex_digit, encode_byte, encode_field, hex_value, hex_pair, decode_from, decode_field,
}

hex_value-hex_digit : (n : ℕ) → n < 16 → hex_value (hex_digit n) ≡ some n
unfolding hex_value hex_digit
hex_value-hex_digit n h = ground arith

-- A plain byte is no percent sign, and escapes itself.
plain-ne-percent : (c : ℕ) → is_plain c ≡ true → c == b'%' ≡ false
unfolding is_plain
plain-ne-percent c h = ground arith

decode_plain :
    (f c : ℕ) (rest : Bytes)
    → c == b'%' ≡ false
    → decode_from (suc f) (c ∷ rest) ≡ c ∷ decode_from f rest
unfolding decode_from
decode_plain zero c [] h = refl
decode_plain (suc f) c [] h = refl
decode_plain zero c (x ∷ []) h = refl
decode_plain (suc f) c (x ∷ []) h = refl
decode_plain zero c (x ∷ y ∷ rest) h = rw h
decode_plain (suc f) c (x ∷ y ∷ rest) h = rw h

decode_escape :
    (f c : ℕ) (rest : Bytes)
    → c < 256
    → decode_from (suc f) (b'%' ∷ hex_digit (c / 16) ∷ hex_digit (c % 16) ∷ rest)
      ≡ c ∷ decode_from f rest
unfolding decode_from
decode_escape f c rest h =
    rw
      (
        hex_value-hex_digit (c / 16) (omega arith),
        hex_value-hex_digit (c % 16) (omega arith),
        hex_pair,
      )
      (ap (λ (b : ℕ). b ∷ decode_from f rest) (omega arith))

decode-encode_from :
    (f : ℕ) (s : Bytes) → All (λ c. c < 256) s → length s ≤ f → decode_from f (encode_field s) ≡ s
unfolding encode_field
decode-encode_from zero [] b h = unfold decode_from in refl
decode-encode_from zero (c ∷ cs) b h = absurd (omega arith)
decode-encode_from (suc f) [] b h = unfold decode_from in refl
decode-encode_from (suc f) (c ∷ cs) b h =
    let rest = ap (◌∷◌ c) (decode-encode_from f cs b.1 (omega arith)) in
    elim (Bool-cases (is_plain c)) [
      | inl plain ↦
          rw (plain, encode_byte)
            (decode_plain f c (encode_field cs) (plain-ne-percent c plain) ∙ rest)
      | inr special ↦ rw (special, encode_byte) (decode_escape f c (encode_field cs) b.0 ∙ rest)
    ]

length-le-encode : (s : Bytes) → length s ≤ length (encode_field s)
unfolding encode_field
length-le-encode [] = omega arith
length-le-encode (c ∷ cs) = elim (Bool-cases (is_plain c)) [
  | inl plain ↦ rw (plain, encode_byte) (omega (arith, length-le-encode cs))
  | inr special ↦ rw (special, encode_byte) (omega (arith, length-le-encode cs))
]

-- Decoding gives back every text of bytes that was encoded.
pub decode-encode : (s : Bytes) → All (λ c. c < 256) s → decode_field (encode_field s) ≡ s
unfolding decode_field
decode-encode s b = decode-encode_from (length (encode_field s)) s b (length-le-encode s)

-- No byte of an encoding separates fields or lines.
abbrev pub IsInline : Bytes → Type 0
IsInline = All (λ c. ((c == b'\t') ≡ false) × ((c == b'\n') ≡ false))

byte-IsInline : (c : ℕ) → c < 256 → IsInline (encode_byte c)
unfolding encode_byte
byte-IsInline c h = elim (Bool-cases (is_plain c)) [
  | inl plain ↦ rw plain (unfold is_plain in ((ground arith, ground arith), tt))
  | inr special ↦ rw special (
      unfold hex_digit in
      ((refl, refl), ((ground arith, ground arith), ((ground arith, ground arith), tt))))
]

pub encode-IsInline : (s : Bytes) → All (λ c. c < 256) s → IsInline (encode_field s)
unfolding encode_field
encode-IsInline [] b = tt
encode-IsInline (c ∷ cs) b =
    All-append _ (encode_byte c) (encode_field cs) (byte-IsInline c b.0) (encode-IsInline cs b.1)
