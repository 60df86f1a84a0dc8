-- ===== src/Engine.antt =====
-- PolicyEngine.h and PolicyEngine.cpp over any strategy. An entry is an object that the registry
-- points to: here an index into the list of all entries made. The registry's lock covers
-- `findEntry`, the entry's lock what follows it, and a call is the two steps in a row.
pub mod View
pub mod Valid
pub mod Interleaving
use policy_driven_rate_limit.Prelude.{
  Bool, Bytes, List, Option, [], codes, false, get_elem?, if◌then◌else◌, insert, length, lookup,
  none, set, some, true, ℕ, ◌++◌, ◌∷◌,
}

-- `RateLimitStrategy`: an object of type `S` that uses a world `W`, such as the clock or a store.
pub record RateLimitStrategy (S W : Type 0) : Type 0 where
  pub allow_request : S → W → S × W × Bool
  pub get_state : S → W → Bytes × W
  pub reset : S → W → S × W
  pub algorithm_name : S → Bytes
  pub last_error : S → Bytes

pub record EvaluationResult : Type 0 where
  pub found : Bool
  pub allowed : Bool
  pub algorithm : Bytes
  pub state : Bytes
  pub error : Bytes

abbrev pub no_result : EvaluationResult
no_result = record { found = false; allowed = false; algorithm = []; state = []; error = [] }

-- The entries made so far, and `tenantPolicies_`.
pub record PolicyEngine (S : Type 0) : Type 0 where
  pub entries : List S
  pub tenant_policies : List (Bytes × ℕ)

module _ {S : Type 0} where
  abbrev pub empty : PolicyEngine S
  empty = record { entries = []; tenant_policies = [] }

  unfoldable pub set_policy : PolicyEngine S → Bytes → S → PolicyEngine S
  set_policy e tenant_id strategy = record {
    entries = e.entries ++ (strategy ∷ []);
    tenant_policies = insert tenant_id (length e.entries) e.tenant_policies;
  }

  unfoldable pub find_entry : PolicyEngine S → Bytes → Option ℕ
  find_entry e tenant_id = lookup tenant_id e.tenant_policies

  unfoldable pub has_tenant : PolicyEngine S → Bytes → Bool
  has_tenant e tenant_id = elim (lookup tenant_id e.tenant_policies) [
    | none ↦ false
    | some _ ↦ true
  ]

  -- The strategy of an entry that `findEntry` gave.
  abbrev pub entry_of : PolicyEngine S → Option ℕ → Option S
  entry_of e none = none
  entry_of e (some i) = get_elem? e.entries i

  abbrev pub store_entry : PolicyEngine S → Option ℕ → S → PolicyEngine S
  store_entry e none s = e
  store_entry e (some i) s = record e { entries = set e.entries i s }

  unfoldable pub ensure_policy : PolicyEngine S → Bytes → S → PolicyEngine S × Bool
  unfolding has_tenant set_policy
  ensure_policy e tenant_id strategy =
      if has_tenant e tenant_id then (e, false) else (set_policy e tenant_id strategy, true)

module _ {S W : Type 0} (interface : RateLimitStrategy S W) where
  open interface use {allow_request, get_state, reset, algorithm_name, last_error}

  -- What `evaluateDetailed` does under the lock of the entry.
  unfoldable pub evaluate_strategy : S → W → S × W × EvaluationResult
  evaluate_strategy s w =
      let (s', w', allowed) = allow_request s w in
      let (state, w'') = get_state s' w' in
      (
        s',
        w'',
        record {
          found = true;
          allowed = allowed;
          algorithm = algorithm_name s';
          state = state;
          error = last_error s';
        },
      )

  evaluate_at : PolicyEngine S → Option ℕ → Option S → W → PolicyEngine S × W × EvaluationResult
  evaluate_at e i none w = (e, w, no_result)
  evaluate_at e i (some s) w =
      let (s', w', result) = evaluate_strategy s w in (store_entry e i s', w', result)

  unfoldable pub evaluate_detailed :
      PolicyEngine S → Bytes → W → PolicyEngine S × W × EvaluationResult
  unfolding evaluate_at find_entry
  evaluate_detailed e tenant_id w =
      evaluate_at e (find_entry e tenant_id) (entry_of e (find_entry e tenant_id)) w

  unfoldable pub evaluate : PolicyEngine S → Bytes → W → PolicyEngine S × W × Bool
  unfolding evaluate_detailed
  evaluate e tenant_id w =
      let (e', w', result) = evaluate_detailed e tenant_id w in (e', w', result.allowed)

  -- What `evaluateUnsafe` does without the lock of the entry, where no other call comes between.
  unsafe_at : PolicyEngine S → Option ℕ → Option S → W → PolicyEngine S × W × Bool
  unsafe_at e i none w = (e, w, false)
  unsafe_at e i (some s) w =
      let (s', w', allowed) = allow_request s w in (store_entry e i s', w', allowed)

  unfoldable pub evaluate_unsafe : PolicyEngine S → Bytes → W → PolicyEngine S × W × Bool
  unfolding unsafe_at find_entry
  evaluate_unsafe e tenant_id w =
      unsafe_at e (find_entry e tenant_id) (entry_of e (find_entry e tenant_id)) w

  get_state_at : Option S → W → Bytes × W
  get_state_at none w = (codes "No policy set", w)
  get_state_at (some s) w = get_state s w

  unfoldable pub engine_state : PolicyEngine S → Bytes → W → Bytes × W
  unfolding get_state_at find_entry
  engine_state e tenant_id w = get_state_at (entry_of e (find_entry e tenant_id)) w

  unfoldable pub get_algorithm : PolicyEngine S → Bytes → Bytes
  unfolding find_entry
  get_algorithm e tenant_id = elim (entry_of e (find_entry e tenant_id)) [
    | none ↦ codes "None"
    | some s ↦ algorithm_name s
  ]

  reset_at : PolicyEngine S → Option ℕ → Option S → W → PolicyEngine S × W
  reset_at e i none w = (e, w)
  reset_at e i (some s) w = let (s', w') = reset s w in (store_entry e i s', w')

  unfoldable pub reset_policy : PolicyEngine S → Bytes → W → PolicyEngine S × W
  unfolding reset_at find_entry
  reset_policy e tenant_id w =
      reset_at e (find_entry e tenant_id) (entry_of e (find_entry e tenant_id)) w
