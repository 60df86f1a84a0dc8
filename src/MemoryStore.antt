-- ===== src/MemoryStore.antt =====
-- storage/StateStore.h and storage/InMemoryStateStore.h and .cpp. Each call is one step under the
-- lock; the reading of the clock, in ticks, is an argument. `strtoll` is an argument too: the number
-- that it reads at the front of a text, 0 where there is none.
pub mod Laws
use policy_driven_rate_limit.Prelude.{
  Bool, Bytes, List, Option, false, if◌then◌else◌, insert, leb, lookup, negsuc, none, pos, remove,
  show_int, some, suc, zero, ℕ, ℤ, ◌*◌, ◌+◌, ◌==◌,
}

pub record InMemoryStateStore : Type 0 where
  pub values : List (Bytes × Bytes)
  pub expiry : List (Bytes × ℕ)

-- Whether the deadline of a key has passed.
abbrev pub has_expired : Option ℕ → ℕ → Bool
has_expired none now = false
has_expired (some deadline) now = leb deadline now

unfoldable pub evict_expired : InMemoryStateStore → Bytes → ℕ → InMemoryStateStore
evict_expired s key now =
    if has_expired (lookup key s.expiry) now
    then record { values = remove key s.values; expiry = remove key s.expiry }
    else s

unfoldable pub get : InMemoryStateStore → Bytes → ℕ → InMemoryStateStore × Option Bytes
unfolding evict_expired
get s key now = let evicted = evict_expired s key now in (evicted, lookup key evicted.values)

unfoldable pub put : InMemoryStateStore → Bytes → Bytes → InMemoryStateStore
put s key value = record s { values = insert key value s.values }

-- `++value` on a long long. At the largest one C++ leaves it undefined; here it wraps around.
abbrev pub next_int : ℤ → ℤ
next_int (pos n) = if n == 9223372036854775807 then negsuc 9223372036854775807 else pos (n + 1)
next_int (negsuc zero) = pos 0
next_int (negsuc (suc n)) = negsuc n

abbrev pub stored_int : (Bytes → ℤ) → Option Bytes → ℤ
stored_int strtoll none = pos 0
stored_int strtoll (some text) = strtoll text

unfoldable pub incr : (Bytes → ℤ) → InMemoryStateStore → Bytes → ℕ → InMemoryStateStore × ℤ
unfolding evict_expired
incr strtoll s key now =
    let evicted = evict_expired s key now in
    let value = next_int (stored_int strtoll (lookup key evicted.values)) in
    (record evicted { values = insert key (show_int value) evicted.values }, value)

-- `seconds` is not negative here, and a tick is a nanosecond.
unfoldable pub expire : InMemoryStateStore → Bytes → ℕ → ℕ → InMemoryStateStore
expire s key seconds now = record s { expiry = insert key (now + seconds * 1000000000) s.expiry }
