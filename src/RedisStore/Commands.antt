-- ===== src/RedisStore/Commands.antt =====
-- `command` and the calls of storage/RedisStateStore.cpp. Each worker has one connection: none where
-- it is closed, or the bytes that came and are not read yet.
use policy_driven_rate_limit.Prelude.{
  Bool, Bytes, List, Option, Result, [], codes, decimal, equal, false, if◌then◌else◌, length, none,
  ok, pos, rejected, show_int, some, ℕ, ℤ, ◌++◌, ◌>>◌, ◌∷◌,
}
use policy_driven_rate_limit.RedisStore.{
  Reply, simple_string, integer, Received, failed, received, parse_reply, encode_command,
  reply_to_string,
}

-- What Redis and the network do in one call: whether a connection can be made, whether a text can be
-- sent, and what comes back for it before the connection ends or the time is out.
pub record Redis : Type 0 where
  pub connects : Result (Unit {0})
  pub sends : Bytes → Bool
  pub answers : Bytes → Bytes

-- The depth of a reply is at most 16.
abbrev pub all_levels : ℕ
all_levels = 17

-- `if (error.empty()) error = "Redis authentication failed";`
abbrev pub or_authentication_failed : Bytes → Bytes
or_authentication_failed [] = codes "Redis authentication failed"
or_authentication_failed (c ∷ error) = c ∷ error

abbrev pub check_auth : Received Reply → Result Bytes
check_auth (received (simple_string text) rest) =
    if equal text (codes "OK") then ok rest else rejected (or_authentication_failed [])
check_auth (received _ rest) = rejected (or_authentication_failed [])
check_auth (failed error) = rejected (or_authentication_failed error)

abbrev pub settle : Received Reply → Option Bytes × Result Reply
settle (failed error) = (none, rejected error)
settle (received reply rest) = (some rest, ok reply)

abbrev pub value_of : Result Reply → Option Bytes
value_of (rejected error) = none
value_of (ok reply) = reply_to_string reply

abbrev pub integer_of : Result Reply → ℤ
integer_of (ok (integer n)) = n
integer_of _ = pos 0

abbrev pub is_pong : Result Reply → Bool
is_pong (ok (simple_string text)) = equal text (codes "PONG")
is_pong _ = false

abbrev pub script_result : Option Bytes → Result Bytes
script_result none = rejected (codes "Redis script returned an unsupported reply type")
script_result (some result) = ok result

abbrev pub eval_result : Result Reply → Result Bytes
eval_result (rejected error) = rejected error
eval_result (ok reply) = script_result (reply_to_string reply)

abbrev pub eval_args : Bytes → List Bytes → List Bytes → List Bytes
eval_args script keys args = codes "EVAL" ∷ script ∷ decimal (length keys) ∷ (keys ++ args)

module _ (strtoll : Bytes → Option (ℤ × Bytes)) (redis : Redis) where
  -- A new connection, and the bytes that are left on it.
  unfoldable pub authenticate : Bytes → Result Bytes
  unfolding parse_reply
  authenticate [] = ok []
  authenticate (c ∷ password) =
      let auth = encode_command (codes "AUTH" ∷ (c ∷ password) ∷ []) in
      if redis.sends auth
      then check_auth (parse_reply strtoll all_levels (redis.answers auth))
      else rejected (or_authentication_failed [])

  -- On a connection; where it fails the connection is closed.
  unfoldable pub command_on : Result Bytes → List Bytes → Option Bytes × Result Reply
  unfolding encode_command parse_reply
  command_on (rejected error) args = (none, rejected error)
  command_on (ok unread) args =
      let encoded = encode_command args in
      if redis.sends encoded
      then settle (parse_reply strtoll all_levels (unread ++ redis.answers encoded))
      else (none, rejected [])

  unfoldable pub command : Bytes → Option Bytes → List Bytes → Option Bytes × Result Reply
  unfolding command_on authenticate
  command password none args = command_on (redis.connects >> authenticate password) args
  command password (some unread) args = command_on (ok unread) args

  unfoldable pub get : Bytes → Option Bytes → Bytes → Option Bytes × Option Bytes
  unfolding command reply_to_string
  get password connection key =
      let (connection', reply) = command password connection (codes "GET" ∷ key ∷ []) in
      (connection', value_of reply)

  unfoldable pub put : Bytes → Option Bytes → Bytes → Bytes → Option Bytes
  unfolding command
  put password connection key value =
      (command password connection (codes "SET" ∷ key ∷ value ∷ [])).0

  unfoldable pub incr : Bytes → Option Bytes → Bytes → Option Bytes × ℤ
  unfolding command
  incr password connection key =
      let (connection', reply) = command password connection (codes "INCR" ∷ key ∷ []) in
      (connection', integer_of reply)

  unfoldable pub expire : Bytes → Option Bytes → Bytes → ℤ → Option Bytes
  unfolding command
  expire password connection key seconds =
      (command password connection (codes "EXPIRE" ∷ key ∷ show_int seconds ∷ [])).0

  unfoldable pub health : Bytes → Option Bytes → Option Bytes × Bool
  unfolding command
  health password connection =
      let (connection', reply) = command password connection (codes "PING" ∷ []) in
      (connection', is_pong reply)

  unfoldable pub eval :
      Bytes → Option Bytes → Bytes → List Bytes → List Bytes → Option Bytes × Result Bytes
  unfolding command reply_to_string
  eval password connection script keys args =
      let (connection', reply) = command password connection (eval_args script keys args) in
      (connection', eval_result reply)
