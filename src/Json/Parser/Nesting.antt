-- ===== src/Json/Parser/Nesting.antt =====
-- How deep an object or an array is once a child is added.
use policy_driven_rate_limit.Prelude.{Bool-cases, Bytes, arith, before, inl, inr, ℕ, ◌≤◌}
use policy_driven_rate_limit.Json.Value.{
  JsonValue, Members, Items, no_members, member, no_items, item, emplace, push_back, nesting,
  nesting_members, nesting_items,
}

module _ {D : Type 0} where
  pub nesting-emplace :
      (n : ℕ) (key : Bytes) (child : JsonValue D) (fields : Members D)
      → nesting child ≤ n
      → nesting_members fields ≤ n
      → nesting_members (emplace key child fields) ≤ n
  unfolding emplace nesting
  nesting-emplace n key child no_members h k = omega arith
  nesting-emplace n key child (member k v rest) h b = elim (Bool-cases (before key k)) [
    | inl first ↦ rw first (omega arith)
    | inr later ↦ rw later (omega (arith, nesting-emplace n key child rest h (omega arith)))
  ]

  pub nesting-push_back :
      (n : ℕ) (children : Items D) (child : JsonValue D)
      → nesting child ≤ n
      → nesting_items children ≤ n
      → nesting_items (push_back children child) ≤ n
  unfolding push_back nesting
  nesting-push_back n no_items child h k = omega arith
  nesting-push_back n (item v rest) child h k =
      omega (arith, nesting-push_back n rest child h (omega arith))
