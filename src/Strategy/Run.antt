-- ===== src/Strategy/Run.antt =====
-- A strategy under a sequence of requests, each with the reading of the clock when it comes.
use policy_driven_rate_limit.Prelude.{
  Bool, List, [], arith, if◌then◌else◌, refl, ℕ, ◌++◌, ◌+◌, ◌∷◌, ◌≡◌, ◌≤◌,
}

-- 1 for an admitted request.
abbrev pub tally : Bool → ℕ
tally b = if b then 1 else 0

module _ {S : Type 0} (allow_request : S → ℕ → S × Bool) where
  -- The state behind all requests, and how many were admitted.
  abbrev pub final : S → List ℕ → S
  final s [] = s
  final s (t ∷ ts) = final (allow_request s t).0 ts

  abbrev pub admitted : S → List ℕ → ℕ
  admitted s [] = 0
  admitted s (t ∷ ts) = tally (allow_request s t).1 + admitted (allow_request s t).0 ts

-- The readings never go back, and the first is not before `t`: what `steady_clock` promises.
abbrev pub IsSteady : ℕ → List ℕ → Type 0
IsSteady t [] = Unit {0}
IsSteady t (u ∷ us) = (t ≤ u) × IsSteady u us

module _ {S : Type 0} (allow_request : S → ℕ → S × Bool) where
  pub final-append :
      (s : S) (ts us : List ℕ)
      → final allow_request s (ts ++ us) ≡ final allow_request (final allow_request s ts) us
  final-append s [] us = refl
  final-append s (t ∷ ts) us = final-append (allow_request s t).0 ts us

  pub admitted-append :
      (s : S) (ts us : List ℕ)
      → admitted allow_request s (ts ++ us)
        ≡ admitted allow_request s ts + admitted allow_request (final allow_request s ts) us
  admitted-append s [] us = omega arith
  admitted-append s (t ∷ ts) us = omega (arith, admitted-append (allow_request s t).0 ts us)
