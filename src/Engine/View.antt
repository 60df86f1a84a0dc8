-- ===== src/Engine/View.antt =====
-- The engine as a map from tenants to strategies.
use policy_driven_rate_limit.Prelude.{
  Bool-cases, Bytes, Option, Option-cases, [], ap, arith, equal, equal_iff, false, get_elem?,
  get_elem?-append_length, get_elem?-append_lt, get_elem?-set_ne, get_elem?-set_self,
  get_elem?-some, get_or, if◌then◌else◌, inl, inr, is_some, length, lookup, lookup-insert, none,
  not, refl, some, sym, true, ℕ, ◌∙◌, ◌∷◌, ◌≡◌,
}
use policy_driven_rate_limit.Engine.Valid.{IsValid}
use policy_driven_rate_limit.Engine.{
  RateLimitStrategy, PolicyEngine, no_result, set_policy, ensure_policy, find_entry, has_tenant,
  entry_of, store_entry, evaluate_at, evaluate_detailed, evaluate_strategy,
}

module _ {S : Type 0} where
  -- What the clients of the engine see.
  unfoldable pub strategy_of : PolicyEngine S → Bytes → Option S
  strategy_of e k = entry_of e (find_entry e k)

  strategy_of-entry :
      (e : PolicyEngine S) (k : Bytes) (o : Option ℕ)
      → find_entry e k ≡ o
      → strategy_of e k ≡ entry_of e o
  unfolding strategy_of
  strategy_of-entry e k o h = rw h

  pub strategy_of-some :
      (e : PolicyEngine S) (k : Bytes) (i : ℕ)
      → IsValid e
      → find_entry e k ≡ some i
      → (s : S) × (strategy_of e k ≡ some s)
  unfolding strategy_of
  strategy_of-some e k i v h = rw h (get_elem?-some e.entries i (v.in_range k i h))

  -- A tenant is there if it has a strategy.
  pub has_tenant-none :
      (e : PolicyEngine S) (k : Bytes) → IsValid e → strategy_of e k ≡ none → has_tenant e k ≡ false
  has_tenant-none e k v h = elim (Option-cases (find_entry e k)) [
    | inl missing ↦ unfold has_tenant find_entry in rw (missing, has_tenant)
    | inr (i, found) ↦ cc (h, (strategy_of-some e k i v found).1)
  ]

  pub has_tenant-some :
      (e : PolicyEngine S) (k : Bytes) (s : S) → strategy_of e k ≡ some s → has_tenant e k ≡ true
  unfolding strategy_of find_entry has_tenant
  has_tenant-some e k s h = ground arith

  -- On a valid engine, set_policy gives its tenant the new strategy and leaves that of every other
  -- tenant as it was.
  strategy_of-set_policy :
      (e : PolicyEngine S) (k j : Bytes) (s : S)
      → IsValid e
      → strategy_of (set_policy e k s) j ≡ (if equal k j then some s else strategy_of e j)
  unfolding strategy_of set_policy find_entry
  strategy_of-set_policy e k j s v =
      let added = lookup-insert k j (length e.entries) e.tenant_policies in
      elim (Bool-cases (equal k j)) [
        | inl same ↦ rw (added, same) (get_elem?-append_length e.entries [] s)
        | inr other ↦
            rw (added, other)
              (elim (Option-cases (lookup j e.tenant_policies)) [
                | inl missing ↦ rw (missing, entry_of)
                | inr (i, found) ↦
                    rw (found, entry_of)
                      (get_elem?-append_lt e.entries (s ∷ []) i (v.in_range j i found))
              ])
      ]

  -- A write to a tenant's entry touches no other tenant.
  strategy_of-store_entry :
      (e : PolicyEngine S) (k j : Bytes) (i : ℕ) (s : S)
      → IsValid e
      → find_entry e k ≡ some i
      → strategy_of (store_entry e (some i) s) j ≡ (if equal k j then some s else strategy_of e j)
  unfolding strategy_of find_entry
  strategy_of-store_entry e k j i s v h = elim (Bool-cases (equal k j)) [
    | inl same ↦
        rw (same, ← (equal_iff k j).0 same, h) (get_elem?-set_self e.entries i s (v.in_range k i h))
    | inr other ↦ rw other (elim (Option-cases (lookup j e.tenant_policies)) [
      | inl missing ↦ rw (missing, entry_of)
      | inr (m, found) ↦
          rw (found, entry_of)
            (get_elem?-set_ne e.entries i m s (λ shared.
              let one : find_entry e j ≡ some i = found ∙ ap some (sym shared) in
              cc (other, (equal_iff k j).1 (v.unshared k j i h one))))
    ])
  ]

  -- On a valid engine a tenant is there just if it has a strategy.
  has_tenant-strategy_of :
      (e : PolicyEngine S) (k : Bytes) → IsValid e → has_tenant e k ≡ is_some (strategy_of e k)
  has_tenant-strategy_of e k v = elim (Option-cases (strategy_of e k)) [
    | inl missing ↦ rw missing (has_tenant-none e k v missing)
    | inr (s, held) ↦ rw held (has_tenant-some e k s held)
  ]

  -- A strategy is given only where there is none, and the result says whether it was.
  strategy_of-ensure_policy :
      (e : PolicyEngine S) (k j : Bytes) (s : S)
      → IsValid e
      → ((ensure_policy e k s).1 ≡ not (is_some (strategy_of e k)))
        × (strategy_of (ensure_policy e k s).0 j
            ≡ (if equal k j then some (get_or (strategy_of e k) s) else strategy_of e j))
  unfolding ensure_policy
  strategy_of-ensure_policy e k j s v = elim (Option-cases (strategy_of e k)) [
    | inl missing ↦
        rw (has_tenant-none e k v missing, missing) (refl, strategy_of-set_policy e k j s v)
    | inr (t, held) ↦
        rw (has_tenant-some e k t held, held)
          (
            refl,
            elim (Bool-cases (equal k j)) [
              | inl same ↦ rw same (rw (← (equal_iff k j).0 same) held)
              | inr other ↦ rw other
            ],
          )
  ]

  -- On a valid engine, set_policy gives its tenant the new strategy; ensure_policy gives it the new
  -- strategy if it has none and otherwise leaves it the one that it has, and returns whether it had
  -- none; both leave the strategy of every other tenant as it was.
  pub strategy_of-policies :
      (e : PolicyEngine S) (k j : Bytes) (s : S)
      → IsValid e
      → (strategy_of (set_policy e k s) j ≡ (if equal k j then some s else strategy_of e j))
        × ((ensure_policy e k s).1 ≡ not (is_some (strategy_of e k)))
        × (strategy_of (ensure_policy e k s).0 j
            ≡ (if equal k j then some (get_or (strategy_of e k) s) else strategy_of e j))
  strategy_of-policies e k j s v =
      let ensured = strategy_of-ensure_policy e k j s v in
      (strategy_of-set_policy e k j s v, ensured.0, ensured.1)

module _ {S W : Type 0} (interface : RateLimitStrategy S W) where
  -- A tenant without a policy is not found, and nothing changes.
  pub evaluate_missing :
      (e : PolicyEngine S) (k : Bytes) (w : W)
      → strategy_of e k ≡ none
      → evaluate_detailed interface e k w ≡ (e, w, no_result)
  unfolding strategy_of evaluate_detailed evaluate_at
  evaluate_missing e k w h = rw (h, evaluate_at)

  -- On a valid engine whose tenant has a strategy, evaluate_detailed asks that strategy once and
  -- then for its state: the result is found, with the decision of the strategy, and with the
  -- algorithm, the state and the error text that the strategy then shows; the world is as these two
  -- calls leave it; the tenant has the new strategy, and every other tenant the one that it had.
  pub evaluate_found :
      (e : PolicyEngine S) (k : Bytes) (s : S) (w : W)
      → IsValid e
      → strategy_of e k ≡ some s
      → let (s', w', allowed) = interface.allow_request s w in
        let (state, w'') = interface.get_state s' w' in
        let (e', world, result) = evaluate_detailed interface e k w in
        (world ≡ w'')
        × (result ≡ record {
          found = true;
          allowed = allowed;
          algorithm = interface.algorithm_name s';
          state = state;
          error = interface.last_error s';
        })
        × ((j : Bytes) → strategy_of e' j ≡ (if equal k j then some s' else strategy_of e j))
  unfolding evaluate_detailed evaluate_at evaluate_strategy
  evaluate_found e k s w v h = elim (Option-cases (find_entry e k)) [
    | inl missing ↦ cc (h, strategy_of-entry e k none missing)
    | inr (i, found) ↦
        let held : get_elem? e.entries i ≡ some s =
          sym (strategy_of-entry e k (some i) found) ∙ h in
        rw (found, held) (refl, refl, λ j. strategy_of-store_entry e k j i _ v found)
  ]
