-- ===== src/Controller/Access.antt =====
-- Who is let through.
use policy_driven_rate_limit.Prelude.{
  Bool-cases, Bytes, List, Option, [], arith, bit_or-zero, bit_xor-zero, equal, equal_iff,
  get_elem?, get_or, inl, inr, length, lookup, none, refl, some, suc, sym, xor_mod_256, zero, ℕ,
  ◌%◌, true, ◌∷◌, ◌≡◌, ◌≢◌,
}
use Prim.Native.Nat.{bit_or, bit_xor}
use policy_driven_rate_limit.Controller.{
  HttpRequest, bearer_token, difference_from, constant_time_equal, checked_token, authorize_tenant,
  authorize_admin,
}

-- Byte by byte the same, where the shorter text counts as if zeros followed it, and of lengths that
-- agree in their lowest byte.
abbrev pub Agree : Bytes → Bytes → Type 0
Agree a b =
    (length a % 256 ≡ length b % 256)
    × ((i : ℕ) → get_or (get_elem? a i) 0 ≡ get_or (get_elem? b i) 0)

both_at :
    (x y : ℕ) (xs ys : Bytes)
    → x ≡ y
    → ((i : ℕ) → get_or (get_elem? xs i) 0 ≡ get_or (get_elem? ys i) 0)
    → (i : ℕ) → get_or (get_elem? (x ∷ xs) i) 0 ≡ get_or (get_elem? (y ∷ ys) i) 0
both_at x y xs ys e h zero = e
both_at x y xs ys e h (suc i) = h i

left_at :
    (x : ℕ) (xs : Bytes)
    → x ≡ 0
    → ((i : ℕ) → get_or (get_elem? xs i) 0 ≡ 0)
    → (i : ℕ) → get_or (get_elem? (x ∷ xs) i) 0 ≡ 0
left_at x xs e h zero = e
left_at x xs e h (suc i) = h i

no_difference :
    (difference : ℕ) (a b : Bytes)
    → difference_from difference a b ≡ 0
    → (difference ≡ 0) × ((i : ℕ) → get_or (get_elem? a i) 0 ≡ get_or (get_elem? b i) 0)
unfolding difference_from
no_difference difference [] [] h = (h, λ i. refl)
no_difference difference [] (y ∷ ys) h =
    let (none_yet, rest) = no_difference (bit_or difference (bit_xor 0 y)) [] ys h in
    let (before, here) = bit_or-zero difference (bit_xor 0 y) none_yet in
    (before, λ i. sym (left_at y ys (sym (bit_xor-zero 0 y here)) (λ j. sym (rest j)) i))
no_difference difference (x ∷ xs) [] h =
    let (none_yet, rest) = no_difference (bit_or difference (bit_xor x 0)) xs [] h in
    let (before, here) = bit_or-zero difference (bit_xor x 0) none_yet in
    (before, left_at x xs (bit_xor-zero x 0 here) rest)
no_difference difference (x ∷ xs) (y ∷ ys) h =
    let (none_yet, rest) = no_difference (bit_or difference (bit_xor x y)) xs ys h in
    let (before, here) = bit_or-zero difference (bit_xor x y) none_yet in
    (before, both_at x y xs ys (bit_xor-zero x y here) rest)

constant_time_equal-Agree : (a b : Bytes) → constant_time_equal a b ≡ true → Agree a b
unfolding constant_time_equal
constant_time_equal-Agree a b h =
    let (lengths, bytes) = no_difference _ a b (ground (arith, h)) in
    (xor_mod_256 (length a) (length b) lengths, bytes)

-- A token was asked for, and is the one expected.
abbrev pub Presents : Bytes → Option Bytes → Type 0
Presents token stored = (expected : Bytes) × (stored ≡ some expected) × Agree token expected

checked_token-Presents :
    (token : Bytes) (stored : Option Bytes) (denied : Bytes)
    → (checked_token token stored denied).status ≡ 200
    → Presents token stored
checked_token-Presents token none denied e = absurd (omega (arith, e))
checked_token-Presents token (some expected) denied e =
    elim (Bool-cases (constant_time_equal token expected)) [
      | inl same ↦ (expected, refl, constant_time_equal-Agree token expected same)
      | inr differs ↦ absurd (omega (arith, rw differs at e))
    ]

-- Where tenant tokens are configured and authorize_tenant answers 200, the tenant has a token, the
-- bearer token of the request is not empty, and the two agree.
pub authorize_tenant-Presents :
    (tokens : List (Bytes × Bytes)) (req : HttpRequest) (tenant : Bytes)
    → tokens ≢ []
    → (authorize_tenant tokens req tenant).status ≡ 200
    → Presents (bearer_token req) (lookup tenant tokens) × (bearer_token req ≢ [])
unfolding authorize_tenant
authorize_tenant-Presents [] req tenant ne e = absurd (ne refl)
authorize_tenant-Presents (t ∷ tokens) req tenant ne e =
    elim (Bool-cases (equal (bearer_token req) [])) [
      | inl missing ↦ absurd (omega (arith, rw missing at e))
      | inr given ↦ (
        checked_token-Presents (bearer_token req) (lookup tenant (t ∷ tokens)) _ (rw given at e),
        λ same. cc (given, (equal_iff (bearer_token req) []).1 same),
      )
    ]

-- Where an admin token is configured and authorize_admin answers 200, constant_time_equal finds
-- the bearer token of the request equal to it.
pub authorize_admin-Presents :
    (admin_token : Bytes) (req : HttpRequest)
    → admin_token ≢ []
    → (authorize_admin admin_token req).status ≡ 200
    → constant_time_equal (bearer_token req) admin_token ≡ true
unfolding authorize_admin
authorize_admin-Presents [] req ne e = absurd (ne refl)
authorize_admin-Presents (c ∷ cs) req ne e = elim (Bool-cases (equal (bearer_token req) [])) [
  | inl missing ↦ absurd (omega (arith, rw missing at e))
  | inr given ↦ elim (Bool-cases (constant_time_equal (bearer_token req) (c ∷ cs))) [
    | inl same ↦ same
    | inr differs ↦ absurd (omega (arith, rw (given, differs) at e))
  ]
]

-- Authorization answers 200, 401 or 403.
pub authorize_admin-not_created :
    (admin_token : Bytes) (req : HttpRequest) → (authorize_admin admin_token req).status ≢ 201
unfolding authorize_admin
authorize_admin-not_created [] req e = omega (arith, e)
authorize_admin-not_created (c ∷ cs) req e = ground (arith, e)
