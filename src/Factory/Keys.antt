-- ===== src/Factory/Keys.antt =====
-- Policy keys keep tenants, endpoints and algorithms apart.
use policy_driven_rate_limit.Prelude.{
  Bytes, append-injective, decimal, decimal-injective, length, refl, ℕ, ◌++◌, ◌∷◌, ◌≡◌,
}
use policy_driven_rate_limit.Double.{Doubles}
use policy_driven_rate_limit.Policy.{Policy, normalize_algorithm_name, params_string}
use policy_driven_rate_limit.Factory.{build_policy_key}

-- A text behind its length and a colon.
prefixed-injective :
    (a b r s : Bytes)
    → decimal (length a) ++ (b':' ∷ (a ++ r)) ≡ decimal (length b) ++ (b':' ∷ (b ++ s))
    → (a ≡ b) × (r ≡ s)
prefixed-injective a b r s h =
    let (lengths, rest) = decimal-injective (length a) (length b) b':' (a ++ r) (b ++ s) refl h in
    append-injective a b r s lengths rest

tails : (c : ℕ) (r s : Bytes) → c ∷ r ≡ c ∷ s → r ≡ s
tails c r s h = cc

-- Policy keys are equal only for one tenant, one endpoint, and one text of the normalized algorithm
-- and the parameters.
pub build_policy_key-injective :
    {D : Type 0} ⦃d : Doubles D⦄ (t u e f : Bytes) (p q : Policy D)
    → build_policy_key t e p ≡ build_policy_key u f q
    → (t ≡ u)
      × (e ≡ f)
      × (normalize_algorithm_name p.algorithm ++ (b'|' ∷ params_string p.params)
          ≡ normalize_algorithm_name q.algorithm ++ (b'|' ∷ params_string q.params))
unfolding build_policy_key
build_policy_key-injective t u e f p q h =
    let (tenants, rest) = prefixed-injective t u _ _ h in
    let (endpoints, rest') = prefixed-injective e f _ _ (tails b'|' _ _ rest) in
    (tenants, endpoints, tails b'|' _ _ rest')
