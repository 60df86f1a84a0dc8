-- ===== src/Strategy/SlidingWindowLog/Bounds.antt =====
-- The log against a history that forgets nothing.
use policy_driven_rate_limit.Prelude.{
  All, All-append, Bool, Bool-cases, List, [], ap, arith, false, if◌then◌else◌, inl, inr, length,
  ltb, refl, true, ℕ, ◌++◌, ◌+◌, ◌∙◌, ◌∷◌, ◌≡◌, ◌≤◌,
}
use policy_driven_rate_limit.Double.{Doubles, DoubleLaws}
use policy_driven_rate_limit.Strategy.Run.{IsSteady}
use policy_driven_rate_limit.Strategy.SlidingWindowLog.{
  create, outdated, evict_old_entries, allow_request,
}

-- What the class decides on each request of a sequence.
abbrev pub decisions : {S : Type 0} → (S → ℕ → S × Bool) → S → List ℕ → List Bool
decisions f s [] = []
decisions f s (t ∷ ts) = (f s t).1 ∷ decisions f (f s t).0 ts

abbrev IsSorted : List ℕ → Type 0
IsSorted [] = Unit {0}
IsSorted (x ∷ xs) = All (λ y. x ≤ y) xs × IsSorted xs

IsSorted-concat :
    (xs : List ℕ) (t : ℕ) → IsSorted xs → All (λ x. x ≤ t) xs → IsSorted (xs ++ (t ∷ []))
IsSorted-concat [] t s h = (tt, tt)
IsSorted-concat (x ∷ xs) t s h =
    (All-append (λ y. x ≤ y) xs (t ∷ []) s.0 (h.0, tt), IsSorted-concat xs t s.1 h.1)

All-le : (s t : ℕ) (xs : List ℕ) → s ≤ t → All (λ x. x ≤ s) xs → All (λ x. x ≤ t) xs
All-le s t [] h k = tt
All-le s t (x ∷ xs) h k = (omega arith, All-le s t xs h k.1)

module _ {D : Type 0} ⦃d : Doubles D⦄ where
  -- Whether an instant is at least the window older than `now`, in nanoseconds.
  abbrev past : D → ℕ → ℕ → Bool
  past w now x = d.le (d.nanoseconds x) (d.sub (d.nanoseconds now) (d.to_nanoseconds w))

  -- How many of the instants `xs` lie in the window that ends at `now`.
  abbrev pub in_window : D → ℕ → List ℕ → ℕ
  in_window w now [] = 0
  in_window w now (x ∷ xs) = (if past w now x then 0 else 1) + in_window w now xs

  -- The specification: all admitted requests are remembered, and one is admitted if fewer than
  -- `limit` of them lie in the window that ends with it.
  abbrev pub spec_decisions : ℕ → D → List ℕ → List ℕ → List Bool
  spec_decisions limit w history [] = []
  spec_decisions limit w history (t ∷ ts) =
      if ltb (in_window w t history) limit
      then true ∷ spec_decisions limit w (history ++ (t ∷ [])) ts
      else false ∷ spec_decisions limit w history ts

  pub in_window-append :
      (w : D) (now : ℕ) (xs ys : List ℕ)
      → in_window w now (xs ++ ys) ≡ in_window w now xs + in_window w now ys
  in_window-append w now [] ys = omega arith
  in_window-append w now (x ∷ xs) ys = omega (arith, in_window-append w now xs ys)

  pub in_window-le-length : (w : D) (now : ℕ) (xs : List ℕ) → in_window w now xs ≤ length xs
  in_window-le-length w now [] = omega arith
  in_window-le-length w now (x ∷ xs) = ground (arith, in_window-le-length w now xs)

module _ {D : Type 0} ⦃d : Doubles D⦄ (l : DoubleLaws d) (w : D)
    (fin : d.is_finite (d.to_nanoseconds w) ≡ true) where
  -- What is past stays so, and what is older is past too.
  past_mono :
      (now later tp older : ℕ)
      → now ≤ later
      → older ≤ tp
      → past w now tp ≡ true
      → past w later older ≡ true
  past_mono now later tp older h k old = l.le_trans _ _ _ (l.nanoseconds_mono older tp k) (
      l.le_trans _ _ _ old (
        l.sub_mono _ _ (d.to_nanoseconds w) (l.nanoseconds_finite now) (l.nanoseconds_finite later)
          fin (l.nanoseconds_mono now later h)))

  pub in_window-evict :
      (now later : ℕ) (xs : List ℕ)
      → now ≤ later
      → in_window w later (evict_old_entries w now xs) ≡ in_window w later xs
  unfolding evict_old_entries outdated
  in_window-evict now later [] h = refl
  in_window-evict now later (x ∷ xs) h = elim (Bool-cases (past w now x)) [
    | inl old ↦
        rw (old, past_mono now later x x h (omega arith) old)
          (omega (arith, in_window-evict now later xs h))
    | inr new ↦ rw new
  ]

  All-in_window :
      (now x : ℕ) (xs : List ℕ)
      → past w now x ≡ false
      → All (λ y. x ≤ y) xs
      → in_window w now xs ≡ length xs
  All-in_window now x [] new h = refl
  All-in_window now x (y ∷ ys) new h = elim (Bool-cases (past w now y)) [
    | inl old ↦ absurd (cc (past_mono now now y x (omega arith) h.0 old))
    | inr new' ↦ rw new' (omega (arith, All-in_window now x ys new h.1))
  ]

  -- On a log in order, eviction leaves just what lies in the window.
  length-evict :
      (now : ℕ) (xs : List ℕ)
      → IsSorted xs
      → length (evict_old_entries w now xs) ≡ in_window w now xs
  unfolding evict_old_entries outdated
  length-evict now [] s = refl
  length-evict now (x ∷ xs) s = elim (Bool-cases (past w now x)) [
    | inl old ↦ rw old (omega (arith, length-evict now xs s.1))
    | inr new ↦ rw new (omega (arith, All-in_window now x xs new s.0))
  ]

  evict-IsSorted : (now : ℕ) (xs : List ℕ) → IsSorted xs → IsSorted (evict_old_entries w now xs)
  unfolding evict_old_entries outdated
  evict-IsSorted now [] s = tt
  evict-IsSorted now (x ∷ xs) s = ground (arith, evict-IsSorted now xs s.1)

  evict-All :
      (now t : ℕ) (xs : List ℕ)
      → All (λ x. x ≤ t) xs
      → All (λ x. x ≤ t) (evict_old_entries w now xs)
  unfolding evict_old_entries outdated
  evict-All now t [] h = tt
  evict-All now t (x ∷ xs) h = ground (arith, evict-All now t xs h.1)

  -- The log and the history agree on every window that ends now or later.
  abbrev Agrees : ℕ → List ℕ → List ℕ → Type 0
  Agrees last history log = (t : ℕ) → last ≤ t → in_window w t log ≡ in_window w t history

  Agrees-concat :
      (last now : ℕ) (history log : List ℕ)
      → last ≤ now
      → Agrees last history log
      → Agrees now (history ++ (now ∷ [])) (evict_old_entries w now log ++ (now ∷ []))
  Agrees-concat last now history log h a t k = omega (
    arith,
    in_window-append w t (evict_old_entries w now log) (now ∷ []),
    in_window-append w t history (now ∷ []),
    in_window-evict now t log k,
    a t (omega arith),
  )

  Agrees-evict :
      (last now : ℕ) (history log : List ℕ)
      → last ≤ now
      → Agrees last history log
      → Agrees now history (evict_old_entries w now log)
  Agrees-evict last now history log h a t k = in_window-evict now t log k ∙ a t (omega arith)

  decisions-spec :
      (last limit : ℕ) (history log ts : List ℕ)
      → IsSteady last ts
      → IsSorted log
      → All (λ x. x ≤ last) log
      → Agrees last history log
      → decisions allow_request (record { limit = limit; window_secs = w; log = log }) ts
        ≡ spec_decisions limit w history ts
  unfolding allow_request
  decisions-spec last limit history log [] st s b a = refl
  decisions-spec last limit history log (t ∷ ts) st s b a =
      let kept = evict_old_entries w t log in
      let count : length kept ≡ in_window w t history = length-evict t log s ∙ a t st.0 in
      let kept_sorted = evict-IsSorted t log s in
      let kept_below = evict-All t t log (All-le last t log st.0 b) in
      elim (Bool-cases (ltb (in_window w t history) limit)) [
        | inl room ↦
            rw (count, room)
              (ap (◌∷◌ true) (
                decisions-spec t limit (history ++ (t ∷ [])) (kept ++ (t ∷ [])) ts st.1
                  (IsSorted-concat kept t kept_sorted kept_below)
                  (All-append (λ x. x ≤ t) kept (t ∷ []) kept_below (omega arith, tt))
                  (Agrees-concat last t history log st.0 a)))
        | inr full ↦
            rw (count, full)
              (ap (◌∷◌ false) (
                decisions-spec t limit history kept ts st.1 kept_sorted kept_below
                  (Agrees-evict last t history log st.0 a)))
      ]

module _ {D : Type 0} ⦃d : Doubles D⦄ (l : DoubleLaws d) where
  -- Given the laws of doubles in Double.Laws: for a window that is finite as a double of
  -- nanoseconds, and requests whose clock readings never go back behind the start, a new sliding
  -- log, which evicts old entries for good, gives the same answers as a specification that
  -- remembers every admitted request and counts those in the window.
  pub decisions-create :
      (limit : ℕ) (w : D) (start : ℕ) (ts : List ℕ)
      → d.is_finite (d.to_nanoseconds w) ≡ true
      → IsSteady start ts
      → decisions allow_request (create limit w) ts ≡ spec_decisions limit w [] ts
  unfolding create
  decisions-create limit w start ts fin st =
      decisions-spec l w fin start limit [] [] ts st tt tt (λ t h. refl)
