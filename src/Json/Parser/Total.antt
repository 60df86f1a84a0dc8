-- ===== src/Json/Parser/Total.antt =====
-- The parser ends on every input, and what it accepts is nested no deeper than the limit.
use policy_driven_rate_limit.Prelude.{
  Bool-cases, Bytes, Option, [], ap, arith, inl, inr, is_some, length, ltb, none, ok, refl, some,
  subst, suc, zero, ℕ, ◌*◌, ◌+◌, ◌-◌, ◌<◌, ◌==◌, ◌∷◌, ◌≡◌, ◌≢◌, ◌≤◌,
}
use policy_driven_rate_limit.Double.{Doubles}
use policy_driven_rate_limit.Json.Value.{
  JsonValue, Members, Items, object, array, no_members, no_items, Parsed, out_of_fuel, field,
  push_back, nesting, nesting_members, nesting_items,
}
use policy_driven_rate_limit.Json.Parser.{
  skip_whitespace, consume, open_object, open_array, value_at, next_round, add_member, parse_value,
  parse_members, parse_items, enough, finish, parse,
}
use policy_driven_rate_limit.Json.Parser.Nesting.{nesting-emplace, nesting-push_back}
use policy_driven_rate_limit.Json.Parser.Runs.{
  Runs, gives, refuses, Runs-if, Runs-and_then, Runs-weaken, Runs-fuel,
}
use policy_driven_rate_limit.Json.Parser.Scan.{
  skip_whitespace-le, parse_string-Shorter, expect_colon-Shorter, parse_scalar-Flat,
}

consume-Shorter : (c : ℕ) (s rest : Bytes) → consume c s ≡ some rest → length rest < length s
consume-Shorter c [] rest e = cc
consume-Shorter c (x ∷ xs) rest e = ground arith

module _ {D : Type 0} where
  -- A value at a depth, and what a loop gives at the depth of its children.
  abbrev AtDepth : ℕ → Bytes → JsonValue D → Bytes → Type 0
  AtDepth depth s value rest = (length rest < length s) × (nesting value + depth ≤ 33)

  abbrev InLoop : ℕ → Bytes → JsonValue D → Bytes → Type 0
  InLoop depth s value rest = (length rest < length s) × (nesting value + depth ≤ 34)

module _ {D : Type 0} ⦃d : Doubles D⦄ where
  open_object-AtDepth :
      (members : Members D → Bytes → Parsed (JsonValue D)) (depth c : ℕ) (s : Bytes)
      (found : Option Bytes)
      → depth ≤ 32
      → Runs (InLoop (suc depth) (skip_whitespace s)) (members no_members (skip_whitespace s))
      → consume b'}' (skip_whitespace s) ≡ found
      → Runs (AtDepth depth (c ∷ s)) (open_object members found (skip_whitespace s))
  unfolding open_object nesting
  open_object-AtDepth members depth c s none h loop e =
      Runs-weaken (λ v rest k. omega (arith, skip_whitespace-le s)) loop
  open_object-AtDepth members depth c s (some rest) h loop e = gives (
    omega (arith, skip_whitespace-le s, consume-Shorter b'}' (skip_whitespace s) rest e),
    omega arith,
  )

  open_array-AtDepth :
      (items : Items D → Bytes → Parsed (JsonValue D)) (depth c : ℕ) (s : Bytes)
      (found : Option Bytes)
      → depth ≤ 32
      → Runs (InLoop (suc depth) (skip_whitespace s)) (items no_items (skip_whitespace s))
      → consume b']' (skip_whitespace s) ≡ found
      → Runs (AtDepth depth (c ∷ s)) (open_array items found (skip_whitespace s))
  unfolding open_array nesting
  open_array-AtDepth items depth c s none h loop e =
      Runs-weaken (λ v rest k. omega (arith, skip_whitespace-le s)) loop
  open_array-AtDepth items depth c s (some rest) h loop e = gives (
    omega (arith, skip_whitespace-le s, consume-Shorter b']' (skip_whitespace s) rest e),
    omega arith,
  )

  value_at-AtDepth :
      (members : Members D → Bytes → Parsed (JsonValue D))
      (items : Items D → Bytes → Parsed (JsonValue D)) (depth : ℕ) (s : Bytes)
      → depth ≤ 32
      → ((t : Bytes) → length t < length s → Runs (InLoop (suc depth) t) (members no_members t))
      → ((t : Bytes) → length t < length s → Runs (InLoop (suc depth) t) (items no_items t))
      → Runs (AtDepth depth s) (value_at members items s)
  unfolding value_at
  value_at-AtDepth members items depth [] h ms is = refuses
  value_at-AtDepth members items depth (c ∷ cs) h ms is =
      let inner : length (skip_whitespace cs) < suc (length cs) =
        omega (arith, skip_whitespace-le cs) in
      Runs-if (c == b'{')
        (λ _. open_object-AtDepth members depth c cs _ h (ms (skip_whitespace cs) inner) refl)
        (λ _.
          Runs-if (c == b'[')
            (λ _. open_array-AtDepth items depth c cs _ h (is (skip_whitespace cs) inner) refl)
            (λ _.
              Runs-if (c == b'"')
                (λ _.
                  Runs-and_then (parse_string-Shorter (c ∷ cs))
                    λ s rest k. gives (k, unfold nesting in omega arith))
                (λ _.
                  Runs-weaken (λ v rest k. (k.0, omega (arith, k.1)))
                    (parse_scalar-Flat c (c ∷ cs)))))

  next_round-InLoop :
      (depth closing : ℕ) (message : Bytes) (finished : JsonValue D)
      (more : Bytes → Parsed (JsonValue D)) (s t : Bytes)
      → length t < length s
      → nesting finished + depth ≤ 34
      → ((u : Bytes) → length u < length t → Runs (InLoop depth u) (more u))
      → Runs (InLoop depth s) (next_round closing message finished more t)
  unfolding next_round
  next_round-InLoop depth closing message finished more s [] h k loop = refuses
  next_round-InLoop depth closing message finished more s (c ∷ cs) h k loop =
      Runs-if (c == closing) (λ _. gives (omega arith, k))
        (λ _.
          Runs-if (c == b',')
            (λ _.
              Runs-weaken (λ v rest p. (omega (arith, p.0, skip_whitespace-le cs), p.1))
                (loop (skip_whitespace cs) (omega (arith, skip_whitespace-le cs))))
            (λ _. refuses))

  add_member-Runs :
      (n : ℕ) (fields : Members D) (key : Bytes) (child : JsonValue D) (s : Bytes)
      → nesting child ≤ n
      → nesting_members fields ≤ n
      → Runs
          (λ grown rest. (rest ≡ s) × (nesting_members grown ≤ n))
          (add_member fields key child s)
  unfolding add_member
  add_member-Runs n fields key child s h k =
      Runs-if (is_some (field key fields)) (λ _. refuses)
        (λ _. gives (refl, nesting-emplace n key child fields h k))

  mutual
    unfolding parse_value nesting

    parse_value-AtDepth :
        (fuel depth : ℕ) (s : Bytes)
        → 2 * length s < fuel
        → Runs (AtDepth {D = D} depth s) (parse_value fuel depth s)
    parse_value-AtDepth zero depth s h = absurd (omega arith)
    parse_value-AtDepth (suc fuel) depth s h =
        Runs-if (ltb 32 depth) (λ _. refuses)
          (λ shallow.
            let within : depth ≤ 32 = ground arith in
            Runs-weaken (λ v rest k. (omega (arith, k.0, skip_whitespace-le s), k.1))
              (value_at-AtDepth (parse_members fuel (suc depth)) (parse_items fuel (suc depth))
                depth (skip_whitespace s) within
                (λ t k.
                  parse_members-InLoop fuel (suc depth) no_members t
                    (omega (arith, k, skip_whitespace-le s)) (omega arith))
                (λ t k.
                  parse_items-InLoop fuel (suc depth) no_items t
                    (omega (arith, k, skip_whitespace-le s)) (omega arith))))

    parse_members-InLoop :
        (fuel depth : ℕ) (fields : Members D) (s : Bytes)
        → 2 * length s + 1 < fuel
        → nesting_members fields + depth ≤ 33
        → Runs (InLoop {D = D} depth s) (parse_members fuel depth fields s)
    parse_members-InLoop zero depth fields s h k = absurd (omega arith)
    parse_members-InLoop (suc fuel) depth fields s h k =
        Runs-and_then (parse_string-Shorter s) λ key r p.
          Runs-and_then (expect_colon-Shorter (skip_whitespace r)) λ _ t q.
            Runs-and_then
              (parse_value-AtDepth fuel depth t (omega (arith, p, q, skip_whitespace-le r)))
              λ child u c.
                Runs-and_then
                  (add_member-Runs (33 - depth) fields key child u (omega (arith, c.1))
                    (omega arith))
                  λ grown v g.
                    next_round-InLoop depth b'}' _ (object grown) (parse_members fuel depth grown) s
                      (skip_whitespace v)
                      (omega (
                        arith,
                        p,
                        q,
                        c.0,
                        ap length g.0,
                        skip_whitespace-le r,
                        skip_whitespace-le v,
                      ))
                      (omega (arith, g.1))
                      (λ w k.
                        parse_members-InLoop fuel depth grown w
                          (omega (
                            arith,
                            p,
                            q,
                            c.0,
                            ap length g.0,
                            skip_whitespace-le r,
                            skip_whitespace-le v,
                          ))
                          (omega (arith, g.1)))

    parse_items-InLoop :
        (fuel depth : ℕ) (children : Items D) (s : Bytes)
        → 2 * length s + 1 < fuel
        → nesting_items children + depth ≤ 33
        → Runs (InLoop {D = D} depth s) (parse_items fuel depth children s)
    parse_items-InLoop zero depth children s h k = absurd (omega arith)
    parse_items-InLoop (suc fuel) depth children s h k =
        Runs-and_then (parse_value-AtDepth fuel depth s (omega arith)) λ child u c.
          let grown =
            nesting-push_back (33 - depth) children child (omega (arith, c.1)) (omega arith) in
          next_round-InLoop depth b']' _ (array (push_back children child))
            (parse_items fuel depth (push_back children child)) s (skip_whitespace u)
            (omega (arith, c.0, skip_whitespace-le u)) (omega (arith, grown))
            (λ w k.
              parse_items-InLoop fuel depth (push_back children child) w
                (omega (arith, c.0, skip_whitespace-le u)) (omega (arith, grown)))

  -- Twice the length of a text and one more is fuel enough to parse it, at any depth: the parser
  -- never runs out.
  pub parse_value-fuel :
      (depth : ℕ) (s : Bytes) → parse_value {D = D} (enough s) depth s ≢ out_of_fuel
  parse_value-fuel depth s = Runs-fuel (parse_value-AtDepth (enough s) depth s (omega arith))

  finish-nesting :
      (input s : Bytes) (r : Parsed (JsonValue D)) (v : JsonValue D)
      → Runs (AtDepth 0 s) r
      → finish input r ≡ ok v
      → nesting v ≤ 33
  unfolding finish
  finish-nesting input s _ v refuses e = cc
  finish-nesting input s _ v (gives {a = a} {rest = rest} h) e =
      elim (Bool-cases (length (skip_whitespace rest) == 0)) [
        | inl whole ↦
            let same : a ≡ v = cc (rw whole at e) in
            subst (λ w. nesting w ≤ 33) same (omega (arith, h.1))
        | inr trailing ↦ cc (rw trailing at e)
      ]

  -- What parse accepts is nested at most 33 levels deep.
  pub parse-nesting : (s : Bytes) (v : JsonValue D) → parse s ≡ ok v → nesting v ≤ 33
  unfolding parse
  parse-nesting s v e =
      finish-nesting s (skip_whitespace s) _ v
        (parse_value-AtDepth (enough s) 0 (skip_whitespace s) (omega (arith, skip_whitespace-le s)))
        e
