-- ===== src/Engine/Interleaving.antt =====
-- Calls of several threads, one after the other in whatever order the locks let them through. Whoever
-- made sure of a policy finds it, whatever calls come between.
use policy_driven_rate_limit.Prelude.{
  Bool-cases, Bytes, List, Option, Option-cases, [], ap, arith, equal, equal_iff, false,
  if◌then◌else◌, inl, inr, length, lookup-insert, none, refl, some, true, ℕ, ◌∙◌, ◌∷◌, ◌≡◌,
}
use policy_driven_rate_limit.Engine.{
  RateLimitStrategy, PolicyEngine, EvaluationResult, set_policy, ensure_policy, find_entry,
  has_tenant, store_entry, evaluate_at, evaluate_detailed, reset_at, reset_policy,
}
use policy_driven_rate_limit.Engine.Valid.{
  IsValid, set_policy-IsValid, evaluate-IsValid, reset_policy-IsValid,
}
use policy_driven_rate_limit.Engine.View.{strategy_of-some, evaluate_found}

-- A call that changes the registry or an entry.
pub data Call (S : Type 0) : Type 0 where
  setting : Bytes → S → Call S
  ensuring : Bytes → S → Call S
  evaluating : Bytes → Call S
  resetting : Bytes → Call S

module _ {S : Type 0} where
  -- The key is in the registry of a sound engine.
  abbrev pub Knows : Bytes → PolicyEngine S → Type 0
  Knows k e = IsValid e × ((i : ℕ) × (find_entry e k ≡ some i))

  set_policy-Knows :
      (e : PolicyEngine S) (k j : Bytes) (s : S) → Knows k e → Knows k (set_policy e j s)
  set_policy-Knows e k j s (v, (i, found)) =
      let added : find_entry (set_policy e j s) k
          ≡ (if equal j k then some (length e.entries) else find_entry e k) =
        unfold find_entry set_policy in lookup-insert j k (length e.entries) e.tenant_policies in
      elim (Bool-cases (equal j k)) [
        | inl same ↦ (set_policy-IsValid e j s v, (length e.entries, added ∙ rw same refl))
        | inr other ↦ (set_policy-IsValid e j s v, (i, added ∙ rw other found))
      ]

  ensure_policy-Knows :
      (e : PolicyEngine S) (k j : Bytes) (s : S) → Knows k e → Knows k (ensure_policy e j s).0
  unfolding ensure_policy
  ensure_policy-Knows e k j s h = elim (Bool-cases (has_tenant e j)) [
    | inl there ↦ rw there h
    | inr new ↦ rw new (set_policy-Knows e k j s h)
  ]

  find_entry-store_entry :
      (e : PolicyEngine S) (o : Option ℕ) (s : S) (k : Bytes)
      → find_entry (store_entry e o s) k ≡ find_entry e k
  unfolding find_entry
  find_entry-store_entry e none s k = refl
  find_entry-store_entry e (some i) s k = refl

  has_tenant-found :
      (e : PolicyEngine S) (k : Bytes) (i : ℕ) → find_entry e k ≡ some i → has_tenant e k ≡ true
  unfolding find_entry has_tenant
  has_tenant-found e k i h = ground (arith, h)

  has_tenant-missing :
      (e : PolicyEngine S) (k : Bytes) → find_entry e k ≡ none → has_tenant e k ≡ false
  unfolding find_entry has_tenant
  has_tenant-missing e k h = ground (arith, h)

  -- Whoever makes sure of a policy knows it.
  ensured-Knows :
      (e : PolicyEngine S) (k : Bytes) (s : S) → IsValid e → Knows k (ensure_policy e k s).0
  unfolding ensure_policy
  ensured-Knows e k s v = elim (Option-cases (find_entry e k)) [
    | inl missing ↦ rw (has_tenant-missing e k missing) (
      set_policy-IsValid e k s v,
      (
        length e.entries,
        (unfold find_entry set_policy in
            rw (lookup-insert k k (length e.entries) e.tenant_policies, (equal_iff k k).1 refl)
              refl),
      ),
    )
    | inr (i, found) ↦ rw (has_tenant-found e k i found) (v, (i, found))
  ]

module _ {S W : Type 0} (interface : RateLimitStrategy S W) where
  evaluate_at-keeps :
      (e : PolicyEngine S) (i : Option ℕ) (o : Option S) (w : W) (k : Bytes)
      → find_entry (evaluate_at interface e i o w).0 k ≡ find_entry e k
  unfolding evaluate_at
  evaluate_at-keeps e i none w k = refl
  evaluate_at-keeps e i (some s) w k = find_entry-store_entry e i _ k

  reset_at-keeps :
      (e : PolicyEngine S) (i : Option ℕ) (o : Option S) (w : W) (k : Bytes)
      → find_entry (reset_at interface e i o w).0 k ≡ find_entry e k
  unfolding reset_at
  reset_at-keeps e i none w k = refl
  reset_at-keeps e i (some s) w k = find_entry-store_entry e i _ k

  evaluate_detailed-keeps :
      (e : PolicyEngine S) (j : Bytes) (w : W) (k : Bytes)
      → find_entry (evaluate_detailed interface e j w).0 k ≡ find_entry e k
  unfolding evaluate_detailed
  evaluate_detailed-keeps e j w k = evaluate_at-keeps e (find_entry e j) _ w k

  reset_policy-keeps :
      (e : PolicyEngine S) (j : Bytes) (w : W) (k : Bytes)
      → find_entry (reset_policy interface e j w).0 k ≡ find_entry e k
  unfolding reset_policy
  reset_policy-keeps e j w k = reset_at-keeps e (find_entry e j) _ w k

  abbrev pub after_call : PolicyEngine S × W → Call S → PolicyEngine S × W
  after_call (e, w) (setting k s) = (set_policy e k s, w)
  after_call (e, w) (ensuring k s) = ((ensure_policy e k s).0, w)
  after_call (e, w) (evaluating k) = let (e', w', _) = evaluate_detailed interface e k w in (e', w')
  after_call (e, w) (resetting k) = reset_policy interface e k w

  abbrev pub after_calls : PolicyEngine S × W → List (Call S) → PolicyEngine S × W
  after_calls p [] = p
  after_calls p (c ∷ cs) = after_calls (after_call p c) cs

  after_call-Knows :
      (p : PolicyEngine S × W) (c : Call S) (k : Bytes) → Knows k p.0 → Knows k (after_call p c).0
  after_call-Knows (e, w) (setting j s) k h = set_policy-Knows e k j s h
  after_call-Knows (e, w) (ensuring j s) k h = ensure_policy-Knows e k j s h
  after_call-Knows (e, w) (evaluating j) k (v, (i, found)) =
      (evaluate-IsValid interface e j w v, (i, evaluate_detailed-keeps e j w k ∙ found))
  after_call-Knows (e, w) (resetting j) k (v, (i, found)) =
      (reset_policy-IsValid interface e j w v, (i, reset_policy-keeps e j w k ∙ found))

  after_calls-Knows :
      (p : PolicyEngine S × W) (cs : List (Call S)) (k : Bytes)
      → Knows k p.0
      → Knows k (after_calls p cs).0
  after_calls-Knows p [] k h = h
  after_calls-Knows p (c ∷ cs) k h =
      after_calls-Knows (after_call p c) cs k (after_call-Knows p c k h)

  -- On a valid engine, once a thread has made sure of a policy for a key, its evaluation of the key
  -- finds a strategy, whatever calls of other threads set, ensure, evaluate or reset policies in
  -- between.
  pub ensured_evaluates :
      (e : PolicyEngine S) (w : W) (k : Bytes) (s : S) (others : List (Call S))
      → IsValid e
      → (evaluate_detailed interface
          (after_calls ((ensure_policy e k s).0, w) others).0
          k
          (after_calls ((ensure_policy e k s).0, w) others).1).2.found
        ≡ true
  ensured_evaluates e w k s others v =
      let p = after_calls ((ensure_policy e k s).0, w) others in
      let (sound, (i, there)) =
        after_calls-Knows ((ensure_policy e k s).0, w) others k (ensured-Knows e k s v) in
      let (t, known) = strategy_of-some p.0 k i sound there in
      ap EvaluationResult.found (evaluate_found interface p.0 k t p.1 sound known).1
