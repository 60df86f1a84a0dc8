-- ===== src/Tests/Memory.antt =====
-- The store in memory.
use policy_driven_rate_limit.Prelude.{
  Bytes, Option, [], ap, arith, codes, equal, lookup, none, pos, refl, show_int, some, ℕ, ℤ, ◌<◌,
  ◌^◌, ◌∷◌, ◌≡◌,
}
use policy_driven_rate_limit.MemoryStore.{InMemoryStateStore, get, put, stored_int}
use policy_driven_rate_limit.MemoryStore.Laws.{get-put, incr_all, stored-incr_all}
use policy_driven_rate_limit.Tests.Store.{reader, reader-Reads}

-- One key without a deadline.
abbrev one_key : InMemoryStateStore
one_key = record { values = (codes "k", codes "v") ∷ []; expiry = [] }

get-put_example : (get (put one_key (codes "k") (codes "w")) (codes "k") 5).1 ≡ some (codes "w")
unfolding equal lookup
get-put_example = get-put one_key (codes "k") (codes "k") (codes "w") 5

number_of : Option (ℤ × ℕ) → ℤ
number_of none = pos 0
number_of (some (n, consumed)) = n

read_number : Bytes → ℤ
read_number s = number_of (reader s)

reads_back : (n : ℕ) → n < 2 ^ 63 → read_number (show_int (pos n)) ≡ pos n
unfolding read_number number_of
reads_back n few = ap number_of (reader-Reads (pos n) few)

abbrev no_keys : InMemoryStateStore
no_keys = record { values = []; expiry = [] }

stored-incr_all_example :
    stored_int read_number
      (lookup (codes "k") (incr_all read_number no_keys (codes "k") (3 ∷ 4 ∷ [])).values)
    ≡ pos 2
unfolding lookup
stored-incr_all_example =
    stored-incr_all read_number reads_back no_keys (codes "k") 0 (3 ∷ 4 ∷ []) refl (omega arith)
      refl
