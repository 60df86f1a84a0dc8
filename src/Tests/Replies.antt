-- ===== src/Tests/Replies.antt =====
-- The client of Redis.
use policy_driven_rate_limit.Prelude.{
  Bytes, List, Option, [], ap, arith, codes, inr, none, number_from, number_from-decimal, ok, pos,
  refl, rejected, some, true, ℕ, ℤ, ◌++◌, ◌∷◌, ◌≡◌,
}
use policy_driven_rate_limit.RedisStore.{array, received, parse_reply, encode_command}
use policy_driven_rate_limit.RedisStore.RoundTrip.{Reads, bulks, parse_reply-encode_command}
use policy_driven_rate_limit.RedisStore.Commands.{Redis, all_levels, eval}
use policy_driven_rate_limit.RedisStore.Silent.{eval-cut}

-- Digits only.
abbrev read_digits : Bytes → Option (ℤ × Bytes)
read_digits s = some (pos (number_from 0 s), [])

read_digits-Reads : Reads read_digits
read_digits-Reads n h = ap (λ (m : ℕ). some (pos m, [])) (number_from-decimal n)

abbrev set_command : List Bytes
set_command = codes "SET" ∷ codes "k" ∷ (13 ∷ 10 ∷ []) ∷ []

parse_reply-encode_command_example :
    parse_reply read_digits all_levels (encode_command set_command ++ codes "+OK")
    ≡ received (array (bulks set_command)) (codes "+OK")
parse_reply-encode_command_example =
    parse_reply-encode_command read_digits read_digits-Reads 15 set_command (codes "+OK")
      (omega arith) (omega arith, (omega arith, (omega arith, tt)))

-- A connection that takes the command and ends within the answer.
abbrev lost : Redis
lost = record { connects = ok tt; sends = λ s. true; answers = λ s. codes "$12" }

eval-cut_example :
    eval read_digits lost [] (some []) (codes "return 1") (codes "k" ∷ []) [] ≡ (none, rejected [])
eval-cut_example =
    eval-cut read_digits lost [] (codes "return 1") (codes "k" ∷ []) []
      (inr (b'$', codes "12", refl, (refl, (refl, tt)), refl))
