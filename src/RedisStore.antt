-- ===== src/RedisStore.antt =====
-- storage/RedisStateStore.h and .cpp, and the default calls of storage/StateStore.h and .cpp. What
-- Redis sends on a connection is a text, at whose end `recv` fails; `strtoll` is an argument.
pub mod RoundTrip
pub mod Commands
pub mod Silent
use policy_driven_rate_limit.Prelude.{
  Bytes, List, Option, [], codes, decimal, drop, if◌then◌else◌, length, ltb, negsuc, none, pos,
  show_int, some, suc, take, zero, ℕ, ℤ, ◌&&◌, ◌++◌, ◌+◌, ◌==◌, ◌||◌, ◌∷◌,
}
use policy_driven_rate_limit.Loader.Lines.{at_end}

mutual
  pub data Reply : Type 0 where
    simple_string : Bytes → Reply
    bulk_string : Bytes → Reply
    integer : ℤ → Reply
    array : Replies → Reply
    nil : Reply

  pub data Replies : Type 0 where
    no_replies : Replies
    reply_and : Reply → Replies → Replies

-- What a call reads and what is left on the connection, or the error that it sets: a call that
-- returns false without one leaves it empty.
pub data Received {ℓ} (A : Type ℓ) : Type ℓ where
  failed : Bytes → Received A
  received : A → Bytes → Received A

abbrev pub and_then {ℓ κ} :
    {A : Type ℓ} {B : Type κ} → Received A → (A → Bytes → Received B) → Received B
and_then (failed error) next = failed error
and_then (received x rest) next = next x rest

abbrev pub max_line : ℕ
max_line = 65536

abbrev pub max_bulk : ℕ
max_bulk = 16777216

abbrev pub max_items : ℕ
max_items = 1024

-- Behind '\r'.
abbrev pub end_line : Bytes → Bytes → Received Bytes
end_line line [] = failed []
end_line line (c ∷ s) = if c == 10 then received line s else failed []

-- The loop of `readLine` behind the bytes of `line`.
unfoldable pub read_line_from : Bytes → Bytes → Received Bytes
read_line_from line [] = failed []
read_line_from line (c ∷ s) =
    let more = read_line_from (line ++ (c ∷ [])) s in
    if c == 13 then end_line line s else if ltb max_line (length line + 1) then failed [] else more

unfoldable pub read_line : Bytes → Received Bytes
unfolding read_line_from
read_line s = read_line_from [] s

-- `recvByte(cr) && recvByte(lf) && cr == '\r' && lf == '\n'`.
abbrev pub end_bytes : Bytes → Bytes → Received Bytes
end_bytes out (c ∷ d ∷ s) = if c == 13 && d == 10 then received out s else failed []
end_bytes out _ = failed []

unfoldable pub read_bytes : ℕ → Bytes → Received Bytes
read_bytes count s =
    if ltb max_bulk count || ltb (length s) count
    then failed []
    else end_bytes (take count s) (drop count s)

-- `strtoll` in base 10: the number, and the text behind it; none where there are no digits or the
-- number is out of range.
module _ (strtoll : Bytes → Option (ℤ × Bytes)) where
  abbrev pub parse_long_long : Bytes → Option ℤ
  parse_long_long [] = none
  parse_long_long (c ∷ cs) = elim (strtoll (c ∷ cs)) [
    | none ↦ none
    | some (parsed, rest) ↦ if at_end rest then some parsed else none
  ]

  abbrev pub read_integer : Option ℤ → Bytes → Received Reply
  read_integer none rest = failed (codes "invalid Redis integer reply")
  read_integer (some n) rest = received (integer n) rest

  -- The length of a bulk string: from -1, which is no string at all.
  abbrev pub read_bulk : Option ℤ → Bytes → Received Reply
  read_bulk none rest = failed (codes "invalid Redis bulk length")
  read_bulk (some (negsuc zero)) rest = received nil rest
  read_bulk (some (negsuc (suc n))) rest = failed (codes "invalid Redis bulk length")
  read_bulk (some (pos len)) rest =
      if ltb max_bulk len
      then failed (codes "Redis bulk response is too large")
      else and_then (read_bytes len rest) λ text left. received (bulk_string text) left

  -- The loop over the items.
  unfoldable pub read_items : (Bytes → Received Reply) → ℕ → Bytes → Received Replies
  read_items parse zero s = received no_replies s
  read_items parse (suc count) s = and_then (parse s) λ reply left.
      and_then (read_items parse count left) λ replies rest. received (reply_and reply replies) rest

  abbrev pub read_array : (Bytes → Received Reply) → Option ℤ → Bytes → Received Reply
  read_array parse none rest = failed (codes "invalid Redis array length")
  read_array parse (some (negsuc zero)) rest = received nil rest
  read_array parse (some (negsuc (suc n))) rest = failed (codes "invalid Redis array length")
  read_array parse (some (pos count)) rest =
      if ltb max_items count
      then failed (codes "Redis response array is too large")
      else and_then (read_items parse count rest) λ items left. received (array items) left

  -- The cases on the first byte.
  unfoldable pub read_typed : (Bytes → Received Reply) → ℕ → Bytes → Received Reply
  unfolding read_line read_bytes read_items
  read_typed parse type s =
      if type == b'+'
      then and_then (read_line s) (λ line rest. received (simple_string line) rest)
      else if type == b'-'
      then and_then (read_line s) (λ line rest. failed line)
      else if type == b':'
      then and_then (read_line s) (λ line rest. read_integer (parse_long_long line) rest)
      else if type == b'$'
      then and_then (read_line s) (λ line rest. read_bulk (parse_long_long line) rest)
      else if type == b'*'
      then and_then (read_line s) (λ line rest. read_array parse (parse_long_long line) rest)
      else failed (codes "unknown Redis response type")

  -- `levels` is 17 - depth: what is left of the limit on the nesting.
  unfoldable pub parse_reply : ℕ → Bytes → Received Reply
  unfolding read_typed
  parse_reply zero s = failed (codes "Redis response nesting limit exceeded")
  parse_reply (suc levels) [] = failed (codes "no response from Redis")
  parse_reply (suc levels) (type ∷ s) = read_typed (parse_reply levels) type s

unfoldable pub encode_args : List Bytes → Bytes
encode_args [] = []
encode_args (arg ∷ args) =
    b'$' ∷ (decimal (length arg) ++ (13 ∷ 10 ∷ (arg ++ (13 ∷ 10 ∷ encode_args args))))

unfoldable pub encode_command : List Bytes → Bytes
unfolding encode_args
encode_command args = b'*' ∷ (decimal (length args) ++ (13 ∷ 10 ∷ encode_args args))

unfoldable pub reply_to_string : Reply → Option Bytes
reply_to_string (bulk_string text) = some text
reply_to_string (simple_string text) = some text
reply_to_string (integer n) = some (show_int n)
reply_to_string _ = none
