-- ===== src/Resolver/Order.antt =====
-- The resolver's list: the policies given, by descending priority, and in file order where equal.
use policy_driven_rate_limit.Prelude.{
  All, Bool-cases, List, [], arith, false, inl, inr, lt_int, pos, refl, true, ℤ, ◌∷◌, ◌≡◌,
}
use policy_driven_rate_limit.Policy.{Policy}
use policy_driven_rate_limit.Resolver.{insert_policy, sorted_policies}
use mathlib.Core.List.{Perm}
use mathlib.Core.List.Perm

-- No smaller than, on priorities.
pub not_lt_trans : (a b c : ℤ) → lt_int a b ≡ false → lt_int b c ≡ false → lt_int a c ≡ false
not_lt_trans (pos a) (pos b) (pos c) p q = ground arith
not_lt_trans _ _ _ p q = ground arith

pub lt→not_lt : (a b : ℤ) → lt_int a b ≡ true → lt_int b a ≡ false
lt→not_lt (pos a) (pos b) p = ground arith
lt→not_lt _ _ p = ground arith

module _ {D : Type 0} where
  -- No policy of the list comes before `p`.
  abbrev pub IsTop : Policy D → List (Policy D) → Type 0
  IsTop p = All (λ q. lt_int p.priority q.priority ≡ false)

  abbrev pub IsSorted : List (Policy D) → Type 0
  IsSorted [] = Unit {0}
  IsSorted (p ∷ ps) = IsTop p ps × IsSorted ps

  pub IsTop-mono :
      (p q : Policy D) (ps : List (Policy D))
      → lt_int p.priority q.priority ≡ false
      → IsTop q ps
      → IsTop p ps
  IsTop-mono p q [] h t = tt
  IsTop-mono p q (r ∷ ps) h t =
      (not_lt_trans p.priority q.priority r.priority h t.0, IsTop-mono p q ps h t.1)

  insert-IsTop :
      (p q : Policy D) (ps : List (Policy D))
      → lt_int p.priority q.priority ≡ false
      → IsTop p ps
      → IsTop p (insert_policy q ps)
  unfolding insert_policy
  insert-IsTop p q [] h t = (h, tt)
  insert-IsTop p q (r ∷ ps) h t = elim (Bool-cases (lt_int q.priority r.priority)) [
    | inl later ↦ rw later (t.0, insert-IsTop p q ps h t.1)
    | inr first ↦ rw first (h, t)
  ]

  insert-IsSorted :
      (p : Policy D) (ps : List (Policy D)) → IsSorted ps → IsSorted (insert_policy p ps)
  unfolding insert_policy
  insert-IsSorted p [] s = (tt, tt)
  insert-IsSorted p (q ∷ ps) s = elim (Bool-cases (lt_int p.priority q.priority)) [
    | inl later ↦
        rw later (
          insert-IsTop q p ps (lt→not_lt p.priority q.priority later) s.0,
          insert-IsSorted p ps s.1,
        )
    | inr first ↦ rw first ((first, IsTop-mono p q ps first s.0), s)
  ]

  pub sorted_policies-IsSorted : (ps : List (Policy D)) → IsSorted (sorted_policies ps)
  unfolding sorted_policies
  sorted_policies-IsSorted [] = tt
  sorted_policies-IsSorted (p ∷ ps) =
      insert-IsSorted p (sorted_policies ps) (sorted_policies-IsSorted ps)

  insert-perm : (p : Policy D) (ps : List (Policy D)) → Perm (insert_policy p ps) (p ∷ ps)
  unfolding insert_policy
  insert-perm p [] = Perm.refl (p ∷ [])
  insert-perm p (q ∷ ps) = elim (Bool-cases (lt_int p.priority q.priority)) [
    | inl later ↦ rw later (Perm.trans (Perm.cons q (insert-perm p ps)) (Perm.swap p q ps))
    | inr first ↦ rw first (Perm.refl (p ∷ q ∷ ps))
  ]

  pub sorted_policies-perm : (ps : List (Policy D)) → Perm (sorted_policies ps) ps
  unfolding sorted_policies
  sorted_policies-perm [] = Perm.refl []
  sorted_policies-perm (p ∷ ps) =
      Perm.trans (insert-perm p (sorted_policies ps)) (Perm.cons p (sorted_policies-perm ps))

  -- Sorting the policies permutes them, and puts them in descending order of priority.
  pub sorted_policies_lem :
      (ps : List (Policy D)) → Perm (sorted_policies ps) ps × IsSorted (sorted_policies ps)
  sorted_policies_lem ps = (sorted_policies-perm ps, sorted_policies-IsSorted ps)

  insert_sorted_top :
      (p : Policy D) (ps : List (Policy D)) → IsTop p ps → insert_policy p ps ≡ p ∷ ps
  unfolding insert_policy
  insert_sorted_top p [] t = refl
  insert_sorted_top p (q ∷ ps) t = rw t.0

  -- A sorted list is left as it is, so the loader and the controller may sort again.
  pub sorted_policies-IsSorted_self : (ps : List (Policy D)) → IsSorted ps → sorted_policies ps ≡ ps
  unfolding sorted_policies
  sorted_policies-IsSorted_self [] s = refl
  sorted_policies-IsSorted_self (p ∷ ps) s =
      rw (sorted_policies-IsSorted_self ps s.1) (insert_sorted_top p ps s.0)

  -- What holds of all policies holds of them when they are sorted.
  All-insert {ℓ} :
      (P : Policy D → Type ℓ) (p : Policy D) (ps : List (Policy D))
      → P p
      → All P ps
      → All P (insert_policy p ps)
  unfolding insert_policy
  All-insert P p [] h t = (h, tt)
  All-insert P p (q ∷ ps) h t = elim (Bool-cases (lt_int p.priority q.priority)) [
    | inl later ↦ rw later (t.0, All-insert P p ps h t.1)
    | inr first ↦ rw first (h, t)
  ]

  pub All-sorted {ℓ} :
      (P : Policy D → Type ℓ) (ps : List (Policy D)) → All P ps → All P (sorted_policies ps)
  unfolding sorted_policies
  All-sorted P [] t = tt
  All-sorted P (p ∷ ps) t = All-insert P p (sorted_policies ps) t.0 (All-sorted P ps t.1)
