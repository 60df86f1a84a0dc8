-- ===== src/MemoryStore/Laws.antt =====
-- What the calls of the store in memory promise each other.
use policy_driven_rate_limit.Prelude.{
  Bool-cases, Bytes, List, [], ap, arith, equal, equal_refl, if◌then◌else◌, inl, inr, leb, length,
  lookup, lookup-insert, lookup-remove, none, not, pos, refl, show_int, some, ℕ, ℤ, ◌&&◌, ◌*◌, ◌+◌,
  ◌<◌, ◌^◌, ◌∙◌, ◌∷◌, ◌≡◌,
}
use policy_driven_rate_limit.MemoryStore.{
  InMemoryStateStore, has_expired, evict_expired, get, put, next_int, stored_int, incr, expire,
}

-- A value is there until its deadline.
get_value :
    (s : InMemoryStateStore) (j : Bytes) (now : ℕ)
    → (get s j now).1 ≡ (if has_expired (lookup j s.expiry) now then none else lookup j s.values)
unfolding get evict_expired
get_value s j now = elim (Bool-cases (has_expired (lookup j s.expiry) now)) [
  | inl gone ↦ rw gone (rw (lookup-remove j j s.values, equal_refl j) refl)
  | inr kept ↦ rw kept refl
]

-- After a value is put under a key, reading a key gives that value if it is that key and its
-- deadline, if it has one, has not passed; otherwise reading gives what it gave before.
pub get-put :
    (s : InMemoryStateStore) (k j value : Bytes) (now : ℕ)
    → (get (put s k value) j now).1 ≡ (
        if equal k j && not (has_expired (lookup j s.expiry) now)
        then some value
        else (get s j now).1)
unfolding put
get-put s k j value now =
    rw (get_value (put s k value) j now, get_value s j now, lookup-insert k j value s.values)
      (ground arith)

-- After a key is given a number of seconds, reading it gives nothing from that deadline on and its
-- value before; reading any other key gives what it gave before.
pub get-expire :
    (s : InMemoryStateStore) (k j : Bytes) (seconds start now : ℕ)
    → (get (expire s k seconds start) j now).1 ≡ (
        if equal k j
        then (if leb (start + seconds * 1000000000) now then none else lookup j s.values)
        else (get s j now).1)
unfolding expire
get-expire s k j seconds start now =
    rw
      (
        get_value (expire s k seconds start) j now,
        get_value s j now,
        lookup-insert k j (start + seconds * 1000000000) s.expiry,
      )
      (elim (Bool-cases (equal k j)) [ inl same ↦ rw same refl | inr other ↦ rw other refl ])

-- A run of increments of one key.
abbrev pub incr_all : (Bytes → ℤ) → InMemoryStateStore → Bytes → List ℕ → InMemoryStateStore
incr_all strtoll s key [] = s
incr_all strtoll s key (now ∷ ts) = incr_all strtoll (incr strtoll s key now).0 key ts

next_int_lem : (start : ℕ) → start + 1 < 2 ^ 63 → next_int (pos start) ≡ pos (start + 1)
next_int_lem start few = ground (arith, few)

module _ (strtoll : Bytes → ℤ)
    (reads : (n : ℕ) → n < 2 ^ 63 → strtoll (show_int (pos n)) ≡ pos n) where
  -- One increment of a key that does not expire.
  incr-stored :
      (s : InMemoryStateStore) (key : Bytes) (now start : ℕ)
      → lookup key s.expiry ≡ none
      → start + 1 < 2 ^ 63
      → stored_int strtoll (lookup key s.values) ≡ pos start
      → (lookup key (incr strtoll s key now).0.expiry ≡ none)
        × (stored_int strtoll (lookup key (incr strtoll s key now).0.values) ≡ pos (start + 1))
  unfolding incr evict_expired
  incr-stored s key now start e few h = rw e (
    e,
    ap (stored_int strtoll) (
          lookup-insert key key (show_int (next_int (stored_int strtoll (lookup key s.values))))
            s.values)
        ∙ rw (equal_refl key, h, next_int_lem start few) (reads (start + 1) few),
  )

  -- Given that strtoll reads back what is printed of a number below 2 to the 63rd: after a run of
  -- increments of a key that has no deadline, the number stored is the one at the start plus the
  -- number of increments, if that is below 2 to the 63rd.
  pub stored-incr_all :
      (s : InMemoryStateStore) (key : Bytes) (start : ℕ) (ts : List ℕ)
      → lookup key s.expiry ≡ none
      → start + length ts < 2 ^ 63
      → stored_int strtoll (lookup key s.values) ≡ pos start
      → stored_int strtoll (lookup key (incr_all strtoll s key ts).values) ≡ pos (start + length ts)
  stored-incr_all s key start [] e few h = h ∙ ap pos (omega arith)
  stored-incr_all s key start (now ∷ ts) e few h =
      let after = incr-stored s key now start e (omega (arith, few)) h in
      stored-incr_all (incr strtoll s key now).0 key (start + 1) ts after.0 (omega (arith, few))
        after.1
      ∙ ap pos (omega arith)
