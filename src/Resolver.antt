-- ===== src/Resolver.antt =====
-- policy/PolicyResolver.h and policy/PolicyResolver.cpp. The lock is held for each call, so a call is
-- one step.
pub mod Order
pub mod Selection
use policy_driven_rate_limit.Prelude.{List, Option, [], if◌then◌else◌, lt_int, none, some, ◌∷◌}
use policy_driven_rate_limit.Policy.{Policy, Request, matches}

-- `std::stable_sort` by descending priority: among the results that its contract allows there is one
-- only, and insertion behind all that are not smaller computes it.
insert_policy : {D : Type 0} → Policy D → List (Policy D) → List (Policy D)
insert_policy p [] = p ∷ []
insert_policy p (q ∷ qs) =
    if lt_int p.priority q.priority then q ∷ insert_policy p qs else p ∷ q ∷ qs

unfoldable pub sorted_policies : {D : Type 0} → List (Policy D) → List (Policy D)
unfolding insert_policy
sorted_policies [] = []
sorted_policies (p ∷ ps) = insert_policy p (sorted_policies ps)

pub record PolicyResolver (D : Type 0) : Type 0 where
  pub policies : List (Policy D)

unfoldable pub set_policies : {D : Type 0} → PolicyResolver D → List (Policy D) → PolicyResolver D
unfolding sorted_policies
set_policies r policies = record r { policies = sorted_policies policies }

-- The constructor.
unfoldable pub create : {D : Type 0} → List (Policy D) → PolicyResolver D
unfolding set_policies
create policies = set_policies (record { policies = [] }) policies

-- The loop of `resolve`.
unfoldable pub first_match : {D : Type 0} → List (Policy D) → Request → Option (Policy D)
unfolding matches
first_match [] req = none
first_match (candidate ∷ rest) req =
    if matches candidate req then some candidate else first_match rest req

unfoldable pub resolve : {D : Type 0} → PolicyResolver D → Request → Option (Policy D)
unfolding first_match
resolve r req = first_match r.policies req
