-- ===== src/RedisStore/RoundTrip.antt =====
-- A command that is sent is, read as a reply, the array of its arguments.
use policy_driven_rate_limit.Prelude.{
  All, Bytes, List, Option, [], ap, append-nil, append_assoc, arith, decimal, decimal-IsDigits,
  decimal-nonempty, drop-append_length, false, is_digit, length, length-append, length-decimal, ltb,
  pos, refl, some, suc, sym, take-append_length, true, ℕ, ℤ, ◌++◌, ◌+◌, ◌<◌, ◌==◌, ◌^◌, ◌∙◌, ◌∷◌,
  ◌≡◌, ◌≤◌,
}
use policy_driven_rate_limit.RedisStore.{
  Reply, Replies, bulk_string, array, no_replies, reply_and, Received, received, and_then, max_line,
  max_bulk, max_items, read_line, read_line_from, read_bytes, parse_long_long, read_bulk,
  read_items, read_typed, parse_reply, encode_args, encode_command,
}

-- What `strtoll` does on a number that is printed and fits.
abbrev pub Reads : (Bytes → Option (ℤ × Bytes)) → Type 0
Reads strtoll = (n : ℕ) → n < 2 ^ 63 → strtoll (decimal n) ≡ some (pos n, [])

read_line_from-digits :
    (line s rest : Bytes)
    → All (λ c. is_digit c ≡ true) s
    → length line + length s ≤ max_line
    → read_line_from line (s ++ (13 ∷ 10 ∷ rest)) ≡ received (line ++ s) rest
unfolding read_line_from
read_line_from-digits line [] rest h fits =
    ap (λ (t : Bytes). received t rest) (sym (append-nil line))
read_line_from-digits line (c ∷ s) rest h fits =
    let plain : (c == 13) ≡ false = ground (arith, h.0) in
    let short : ltb max_line (length line + 1) ≡ false = ground (arith, fits) in
    rw (plain, short)
      (read_line_from-digits (line ++ (c ∷ [])) s rest h.1
          (omega (arith, fits, length-append line (c ∷ [])))
        ∙ ap (λ (t : Bytes). received t rest) (append_assoc line (c ∷ []) s))

-- A length that may be sent has at most eight digits.
read_line-decimal :
    (n : ℕ) (rest : Bytes)
    → n ≤ max_bulk
    → read_line (decimal n ++ (13 ∷ 10 ∷ rest)) ≡ received (decimal n) rest
unfolding read_line
read_line-decimal n rest h =
    read_line_from-digits [] (decimal n) rest (decimal-IsDigits n)
      (omega (arith, length-decimal 7 n (omega (arith, h))))

parse_long_long-some :
    (strtoll : Bytes → Option (ℤ × Bytes)) (s : Bytes) (n : ℤ)
    → 0 < length s
    → strtoll s ≡ some (n, [])
    → parse_long_long strtoll s ≡ some n
parse_long_long-some strtoll [] n h e = absurd (omega (arith, h))
parse_long_long-some strtoll (c ∷ s) n h e = rw (parse_long_long, e) refl

-- The arguments, each as a bulk string.
abbrev pub bulks : List Bytes → Replies
bulks [] = no_replies
bulks (arg ∷ args) = reply_and (bulk_string arg) (bulks args)

module _ (strtoll : Bytes → Option (ℤ × Bytes)) (reads : Reads strtoll) where
  parse_long_long-decimal :
      (n : ℕ) → n ≤ max_bulk → parse_long_long strtoll (decimal n) ≡ some (pos n)
  parse_long_long-decimal n h =
      parse_long_long-some strtoll (decimal n) (pos n) (decimal-nonempty n)
        (reads n (omega (arith, h)))

  read_bytes-exact :
      (arg rest : Bytes)
      → length arg ≤ max_bulk
      → read_bytes (length arg) (arg ++ (13 ∷ 10 ∷ rest)) ≡ received arg rest
  unfolding read_bytes
  read_bytes-exact arg rest h =
      let tail : Bytes = 13 ∷ 10 ∷ rest in
      let fits : ltb max_bulk (length arg) ≡ false = ground (arith, h) in
      let there : ltb (length (arg ++ tail)) (length arg) ≡ false =
        ground (arith, length-append arg tail) in
      rw (fits, there, take-append_length arg tail, drop-append_length arg tail) refl

  read_bulk-exact :
      (arg rest : Bytes)
      → length arg ≤ max_bulk
      → read_bulk strtoll (some (pos (length arg))) (arg ++ (13 ∷ 10 ∷ rest))
        ≡ received (bulk_string arg) rest
  read_bulk-exact arg rest h =
      let fits : ltb max_bulk (length arg) ≡ false = ground (arith, h) in
      rw (fits, read_bytes-exact arg rest h) refl

  read_typed-bulk :
      (parse : Bytes → Received Reply) (arg rest : Bytes)
      → length arg ≤ max_bulk
      → read_typed strtoll parse b'$'
          (decimal (length arg) ++ (13 ∷ 10 ∷ (arg ++ (13 ∷ 10 ∷ rest))))
        ≡ received (bulk_string arg) rest
  unfolding read_typed
  read_typed-bulk parse arg rest h =
      rw
        (
          read_line-decimal (length arg) (arg ++ (13 ∷ 10 ∷ rest)) h,
          parse_long_long-decimal (length arg) h,
        )
        (read_bulk-exact arg rest h)

  parse_reply-bulk :
      (levels : ℕ) (arg rest : Bytes)
      → length arg ≤ max_bulk
      → parse_reply strtoll
          (suc levels)
          (b'$' ∷ (decimal (length arg) ++ (13 ∷ 10 ∷ (arg ++ (13 ∷ 10 ∷ rest)))))
        ≡ received (bulk_string arg) rest
  unfolding parse_reply
  parse_reply-bulk levels arg rest h = read_typed-bulk (parse_reply strtoll levels) arg rest h

  args-append :
      (arg rest : Bytes) (args : List Bytes)
      → encode_args (arg ∷ args) ++ rest
        ≡ b'$'
          ∷ (decimal (length arg) ++ (13 ∷ 10 ∷ (arg ++ (13 ∷ 10 ∷ (encode_args args ++ rest)))))
  unfolding encode_args
  args-append arg rest args = ap (◌∷◌ b'$') (
      append_assoc (decimal (length arg)) _ rest
      ∙ ap (λ (t : Bytes). decimal (length arg) ++ (13 ∷ 10 ∷ t)) (append_assoc arg _ rest))

  items_step :
      (parse : Bytes → Received Reply) (count : ℕ) (s left : Bytes) (reply : Reply)
      → parse s ≡ received reply left
      → read_items strtoll parse (suc count) s ≡ (
          and_then
            (read_items strtoll parse count left)
            λ replies rest. received (reply_and reply replies) rest)
  unfolding read_items
  items_step parse count s left reply h = rw h refl

  read_items-encode_args :
      (levels : ℕ) (args : List Bytes) (rest : Bytes)
      → All (λ arg. length arg ≤ max_bulk) args
      → read_items strtoll
          (parse_reply strtoll (suc levels))
          (length args)
          (encode_args args ++ rest)
        ≡ received (bulks args) rest
  read_items-encode_args levels [] rest h = unfold read_items encode_args in refl
  read_items-encode_args levels (arg ∷ args) rest h =
      items_step (parse_reply strtoll (suc levels)) (length args) _ (encode_args args ++ rest)
        (bulk_string arg)
        (ap (parse_reply strtoll (suc levels)) (args-append arg rest args)
          ∙ parse_reply-bulk levels arg (encode_args args ++ rest) h.0)
      ∙ rw (read_items-encode_args levels args rest h.1) refl

  -- Given that strtoll reads back what is printed of a number below 2 to the 63rd: parse_reply,
  -- with two levels of nesting left at least, reads a command of at most 1024 arguments of at most
  -- 16 MiB each, whatever bytes they hold, as the array of the arguments, and leaves what stands
  -- behind it.
  pub parse_reply-encode_command :
      (levels : ℕ) (args : List Bytes) (rest : Bytes)
      → length args ≤ max_items
      → All (λ arg. length arg ≤ max_bulk) args
      → parse_reply strtoll (suc (suc levels)) (encode_command args ++ rest)
        ≡ received (array (bulks args)) rest
  unfolding encode_command parse_reply read_typed
  parse_reply-encode_command levels args rest few small =
      let fits : ltb max_items (length args) ≡ false = ground (arith, few) in
      rw
        (
          append_assoc (decimal (length args)) (13 ∷ 10 ∷ encode_args args) rest,
          read_line-decimal (length args) (encode_args args ++ rest) (omega (arith, few)),
          parse_long_long-decimal (length args) (omega (arith, few)),
          fits,
          read_items-encode_args levels args rest small,
        )
        refl
