-- ===== src/Engine/Valid.antt =====
-- The registry points to entries that exist, and never two tenants to one entry.
use policy_driven_rate_limit.Prelude.{
  Bool-cases, Bytes, Option, [], arith, equal, equal_iff, if◌then◌else◌, inl, inr, length,
  length-append, length-set, lookup, lookup-insert, none, some, sym, ℕ, ◌+◌, ◌<◌, ◌∙◌, ◌∷◌, ◌≡◌,
}
use policy_driven_rate_limit.Engine.{
  RateLimitStrategy, PolicyEngine, empty, set_policy, ensure_policy, find_entry, has_tenant,
  store_entry, evaluate_at, evaluate_detailed, reset_at, reset_policy,
}

module _ {S : Type 0} where
  pub record IsValid (e : PolicyEngine S) : Type 0 where
    pub in_range : (k : Bytes) (i : ℕ) → find_entry e k ≡ some i → i < length e.entries
    pub unshared : (k j : Bytes) (i : ℕ) → find_entry e k ≡ some i → find_entry e j ≡ some i → k ≡ j

  pub empty-IsValid : IsValid empty
  unfolding find_entry lookup
  empty-IsValid = record { in_range = λ k i h. cc; unshared = λ k j i h g. cc }

  find_entry-set_policy :
      (e : PolicyEngine S) (k j : Bytes) (s : S)
      → find_entry (set_policy e k s) j
        ≡ (if equal k j then some (length e.entries) else find_entry e j)
  unfolding find_entry set_policy
  find_entry-set_policy e k j s = lookup-insert k j (length e.entries) e.tenant_policies

  length-set_policy :
      (e : PolicyEngine S) (k : Bytes) (s : S)
      → length (set_policy e k s).entries ≡ length e.entries + 1
  unfolding set_policy
  length-set_policy e k s = length-append e.entries (s ∷ [])

  -- A new policy gets an entry of its own.
  pub set_policy-IsValid :
      (e : PolicyEngine S) (k : Bytes) (s : S) → IsValid e → IsValid (set_policy e k s)
  set_policy-IsValid e k s v = record {
    in_range = λ j i h.
        let h' : (if equal k j then some (length e.entries) else find_entry e j) ≡ some i =
          sym (find_entry-set_policy e k j s) ∙ h in
        ground (arith, length-set_policy e k s, v.in_range j i);
    unshared = λ a b i h g.
        let h' : (if equal k a then some (length e.entries) else find_entry e a) ≡ some i =
          sym (find_entry-set_policy e k a s) ∙ h in
        let g' : (if equal k b then some (length e.entries) else find_entry e b) ≡ some i =
          sym (find_entry-set_policy e k b s) ∙ g in
        ground
          (arith, equal_iff k a, equal_iff k b, v.unshared a b i, v.in_range a i, v.in_range b i);
  }

  pub ensure_policy-IsValid :
      (e : PolicyEngine S) (k : Bytes) (s : S) → IsValid e → IsValid (ensure_policy e k s).0
  unfolding ensure_policy
  ensure_policy-IsValid e k s v = elim (Bool-cases (has_tenant e k)) [
    | inl there ↦ rw there v
    | inr new ↦ rw new (set_policy-IsValid e k s v)
  ]

  -- Writing to an entry leaves the registry alone.
  pub store_entry-IsValid :
      (e : PolicyEngine S) (o : Option ℕ) (s : S) → IsValid e → IsValid (store_entry e o s)
  unfolding find_entry
  store_entry-IsValid e none s v = v
  store_entry-IsValid e (some i) s v = record {
    in_range = λ k j h. omega (arith, length-set e.entries i s, v.in_range k j h);
    unshared = v.unshared;
  }

module _ {S W : Type 0} (interface : RateLimitStrategy S W) where
  evaluate_at-IsValid :
      (e : PolicyEngine S) (i : Option ℕ) (o : Option S) (w : W)
      → IsValid e
      → IsValid (evaluate_at interface e i o w).0
  unfolding evaluate_at
  evaluate_at-IsValid e i none w v = v
  evaluate_at-IsValid e i (some s) w v = store_entry-IsValid e i _ v

  reset_at-IsValid :
      (e : PolicyEngine S) (i : Option ℕ) (o : Option S) (w : W)
      → IsValid e
      → IsValid (reset_at interface e i o w).0
  unfolding reset_at
  reset_at-IsValid e i none w v = v
  reset_at-IsValid e i (some s) w v = store_entry-IsValid e i _ v

  -- An evaluation keeps the engine valid: each tenant points to an entry that exists, and no two
  -- tenants to one entry.
  pub evaluate-IsValid :
      (e : PolicyEngine S) (k : Bytes) (w : W)
      → IsValid e
      → IsValid (evaluate_detailed interface e k w).0
  unfolding evaluate_detailed
  evaluate-IsValid e k w v = evaluate_at-IsValid e (find_entry e k) _ w v

  pub reset_policy-IsValid :
      (e : PolicyEngine S) (k : Bytes) (w : W)
      → IsValid e
      → IsValid (reset_policy interface e k w).0
  unfolding reset_policy
  reset_policy-IsValid e k w v = reset_at-IsValid e (find_entry e k) _ w v
