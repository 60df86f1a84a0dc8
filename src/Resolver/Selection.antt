-- ===== src/Resolver/Selection.antt =====
-- What `resolve` picks.
use policy_driven_rate_limit.Prelude.{
  Bool-cases, List, Option, [], arith, if◌then◌else◌, inl, inr, lt_int, none, refl, some, sym, ◌∙◌,
  ◌∷◌, ◌≡◌,
}
use policy_driven_rate_limit.Policy.{Policy, Request, matches}
use policy_driven_rate_limit.Resolver.Order.{IsTop, IsSorted, IsTop-mono, sorted_policies-IsSorted}
use policy_driven_rate_limit.Resolver.{
  PolicyResolver, insert_policy, sorted_policies, first_match, set_policies, resolve,
}

module _ {D : Type 0} where
  -- The better of a policy and the best of those behind it: the one in front, but for a higher priority.
  abbrev prefer : Policy D → Option (Policy D) → Option (Policy D)
  prefer p none = some p
  prefer p (some q) = if lt_int p.priority q.priority then some q else some p

  -- The specification, on the policies in the order given: of those that match, one of the highest
  -- priority, and of these the first.
  abbrev pub best : List (Policy D) → Request → Option (Policy D)
  best [] req = none
  best (p ∷ ps) req = if matches p req then prefer p (best ps req) else best ps req

  first_match_top :
      (p : Policy D) (ps : List (Policy D)) (req : Request)
      → IsTop p ps
      → prefer p (first_match ps req) ≡ some p
  unfolding first_match
  first_match_top p [] req t = refl
  first_match_top p (q ∷ ps) req t = elim (Bool-cases (matches q req)) [
    | inl hit ↦ rw (hit, t.0)
    | inr miss ↦ rw miss (first_match_top p ps req t.1)
  ]

  first_match-insert :
      (p : Policy D) (ps : List (Policy D)) (req : Request)
      → IsSorted ps
      → first_match (insert_policy p ps) req
        ≡ (if matches p req then prefer p (first_match ps req) else first_match ps req)
  unfolding first_match insert_policy
  first_match-insert p [] req s = refl
  first_match-insert p (q ∷ ps) req s = elim (Bool-cases (lt_int p.priority q.priority)) [
    | inl later ↦ rw later (ground (arith, first_match-insert p ps req s.1))
    | inr first ↦ rw first (elim (Bool-cases (matches p req)) [
      | inl hit ↦ rw hit (sym (first_match_top p (q ∷ ps) req (first, IsTop-mono p q ps first s.0)))
      | inr miss ↦ rw miss
    ])
  ]

  first_match-sorted :
      (ps : List (Policy D)) (req : Request) → first_match (sorted_policies ps) req ≡ best ps req
  unfolding sorted_policies
  first_match-sorted [] req = unfold first_match in refl
  first_match-sorted (p ∷ ps) req =
      first_match-insert p (sorted_policies ps) req (sorted_policies-IsSorted ps)
      ∙ rw (first_match-sorted ps req)

  -- After set_policies, resolve returns what a single pass over the policies in the order given
  -- picks: of those that match the request, the first of the highest priority, and none if none
  -- matches.
  pub resolve-best :
      (r : PolicyResolver D) (ps : List (Policy D)) (req : Request)
      → resolve (set_policies r ps) req ≡ best ps req
  unfolding resolve set_policies
  resolve-best r ps req = first_match-sorted ps req
