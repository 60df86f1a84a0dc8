-- ===== src/RedisStore/Silent.antt =====
-- A command that fails without an error text.
use policy_driven_rate_limit.Prelude.{
  All, Bool, Bool-cases, Bytes, List, Option, [], arith, false, inl, inr, length, ltb, none, ok,
  refl, rejected, some, true, ℕ, ℤ, ◌++◌, ◌+◌, ◌==◌, ◌||◌, ◌∷◌, ◌≡◌, ◌⊎◌,
}
use policy_driven_rate_limit.RedisStore.{
  Reply, Received, failed, max_line, read_line, read_line_from, read_typed, parse_reply,
  encode_command,
}
use policy_driven_rate_limit.RedisStore.Commands.{Redis, command, command_on, eval, eval_args}

-- Bytes among which no line ends.
abbrev pub IsCut : Bytes → Type 0
IsCut = All (λ c. (c == 13) ≡ false)

-- The first byte of a reply.
abbrev pub is_type : ℕ → Bool
is_type c = c == b'+' || c == b'-' || c == b':' || c == b'$' || c == b'*'

read_line_from-cut : (line s : Bytes) → IsCut s → read_line_from line s ≡ failed []
unfolding read_line_from
read_line_from-cut line [] h = refl
read_line_from-cut line (c ∷ s) h = elim (Bool-cases (ltb max_line (length line + 1))) [
  | inl long ↦ rw (h.0, long) refl
  | inr short ↦ rw (h.0, short) (read_line_from-cut (line ++ (c ∷ [])) s h.1)
]

module _ (strtoll : Bytes → Option (ℤ × Bytes)) where
  read_typed-cut :
      (parse : Bytes → Received Reply) (type : ℕ) (s : Bytes)
      → is_type type ≡ true
      → IsCut s
      → read_typed strtoll parse type s ≡ failed []
  unfolding read_typed read_line
  read_typed-cut parse type s known h = rw (read_line_from-cut [] s h) (ground (arith, known))

  -- Nothing more could be sent, or the reply ends within its first line.
  abbrev pub IsBroken : Redis → Bytes → Type 0
  IsBroken redis encoded =
      (redis.sends encoded ≡ false)
      ⊎ ((type : ℕ) × (s : Bytes) × (is_type type ≡ true)
          × IsCut s
          × (redis.answers encoded ≡ type ∷ s))

  command_on-cut :
      (redis : Redis) (args : List Bytes)
      → IsBroken redis (encode_command args)
      → command_on strtoll redis (ok []) args ≡ (none, rejected [])
  unfolding command_on
  command_on-cut redis args (inl unsent) = rw unsent refl
  command_on-cut redis args (inr (type, s, known, cut, e)) =
      elim (Bool-cases (redis.sends (encode_command args))) [
        | inl sent ↦
            rw (sent, e, parse_reply, read_typed-cut (parse_reply strtoll 16) type s known cut) refl
        | inr unsent ↦ rw unsent refl
      ]

  -- On an open connection with nothing unread, if the command of eval cannot be sent, or its reply
  -- is a byte that announces a type and then bytes among which no line ends, eval fails with an
  -- empty error text and the connection is closed.
  pub eval-cut :
      (redis : Redis) (password script : Bytes) (keys args : List Bytes)
      → IsBroken redis (encode_command (eval_args script keys args))
      → eval strtoll redis password (some []) script keys args ≡ (none, rejected [])
  unfolding eval command
  eval-cut redis password script keys args h =
      rw (command_on-cut redis (eval_args script keys args) h) refl
