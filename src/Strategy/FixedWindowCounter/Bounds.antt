-- ===== src/Strategy/FixedWindowCounter/Bounds.antt =====
-- What a fixed window admits: its limit, and twice that over the edge of two windows.
use policy_driven_rate_limit.Prelude.{
  All, All-replicate, Bool, List, [], arith, false, fun_ext, length, length-replicate, min, refl,
  replicate, subst, suc, sym, true, zero, ℕ, ◌*◌, ◌++◌, ◌+◌, ◌-◌, ◌∙◌, ◌∷◌, ◌≡◌, ◌≤◌,
}
use policy_driven_rate_limit.Double.{Doubles, seconds_between, seconds_between-steady}
use policy_driven_rate_limit.Strategy.Run.{final, admitted, tally, admitted-append}
use policy_driven_rate_limit.Strategy.FixedWindowCounter.{
  FixedWindowCounter, create, window_expired, count_request, allow_request,
}

module _ {D : Type 0} ⦃d : Doubles D⦄ where
  -- Never more than `limit` requests are counted in a window, so the int does not overflow.
  pub allow_request-le-limit :
      (b : FixedWindowCounter D) (now : ℕ)
      → b.counter ≤ b.limit
      → ((allow_request b now).0.counter ≤ b.limit) × ((allow_request b now).0.limit ≡ b.limit)
  unfolding allow_request
  allow_request-le-limit b now h = ground arith

  count_request_inside :
      (b : FixedWindowCounter D) (now : ℕ)
      → window_expired b now ≡ false
      → allow_request b now ≡ count_request b
  unfolding allow_request
  count_request_inside b now h = rw h

  window_expired-count :
      (b : FixedWindowCounter D) (now : ℕ)
      → window_expired (count_request b).0 now ≡ window_expired b now
  unfolding count_request window_expired
  window_expired-count b now = ground arith

  count_request_cases :
      (b : FixedWindowCounter D)
      → ((count_request b).0.limit ≡ b.limit)
        × ((count_request b).0.counter ≡ b.counter + tally (count_request b).1)
        × (tally (count_request b).1 ≡ min 1 (b.limit - b.counter))
  unfolding count_request
  count_request_cases b = ground arith

  -- Of a sequence of requests before the window expires, a fixed window admits the smaller of what
  -- the counter leaves of the limit and the number of the requests.
  pub admitted_in_window :
      (b : FixedWindowCounter D) (ts : List ℕ)
      → All (λ t. window_expired b t ≡ false) ts
      → admitted allow_request b ts ≡ min (b.limit - b.counter) (length ts)
  admitted_in_window b [] h = omega arith
  admitted_in_window b (t ∷ ts) h =
      let b' = (count_request b).0 in
      let inside : All (λ u. window_expired b' u ≡ false) ts =
        rw (fun_ext (window_expired-count b)) h.1 in
      let later = admitted_in_window b' ts inside in
      rw (count_request_inside b t h.0) (omega (arith, count_request_cases b, later))

  count_request_frame :
      (b : FixedWindowCounter D) (now : ℕ)
      → window_expired b now ≡ false
      → ((allow_request b now).0.limit ≡ b.limit)
        × ((allow_request b now).0.window_secs ≡ b.window_secs)
        × ((allow_request b now).0.window_start ≡ b.window_start)
  unfolding allow_request
  count_request_frame b now h = ground arith

  -- Requests before the window expires leave its start, its length and the limit alone.
  final_in_window :
      (b : FixedWindowCounter D) (ts : List ℕ)
      → All (λ t. window_expired b t ≡ false) ts
      → ((final allow_request b ts).limit ≡ b.limit)
        × ((final allow_request b ts).window_secs ≡ b.window_secs)
        × ((final allow_request b ts).window_start ≡ b.window_start)
  final_in_window b [] h = (refl, refl, refl)
  final_in_window b (t ∷ ts) h =
      let b' = (allow_request b t).0 in
      let f = count_request_frame b t h.0 in
      let same : (λ u. window_expired b' u) ≡ (λ u. window_expired b u) =
        rw (count_request_inside b t h.0) (fun_ext (window_expired-count b)) in
      let inside : All (λ u. window_expired b' u ≡ false) ts =
        subst (λ (g : ℕ → Bool). All (λ u. g u ≡ false) ts) (sym same) h.1 in
      let later = final_in_window b' ts inside in (later.0 ∙ f.0, later.1 ∙ f.1, later.2 ∙ f.2)

  -- How many windows a sequence of requests opens.
  abbrev pub openings : FixedWindowCounter D → List ℕ → ℕ
  openings b [] = 0
  openings b (t ∷ ts) = tally (window_expired b t) + openings (allow_request b t).0 ts

  request_counts :
      (b : FixedWindowCounter D) (now : ℕ)
      → b.counter ≤ b.limit
      → tally (allow_request b now).1 + b.counter
        ≤ (allow_request b now).0.counter + tally (window_expired b now) * b.limit
  unfolding allow_request
  request_counts b now h = ground arith

  -- Over any sequence of requests to a fixed window whose counter is within the limit, the counter
  -- and the admitted requests are at most the limit once, and once more for each window opened.
  pub admitted-le-openings :
      (b : FixedWindowCounter D) (ts : List ℕ)
      → b.counter ≤ b.limit
      → b.counter + admitted allow_request b ts ≤ b.limit + openings b ts * b.limit
  admitted-le-openings b [] h = omega arith
  admitted-le-openings b (t ∷ ts) h =
      let b' = (allow_request b t).0 in
      let kept = allow_request-le-limit b t h in
      let later = admitted-le-openings b' ts (rw kept.1 kept.0) in
      let rest : b'.counter + admitted allow_request b' ts ≤ b.limit + openings b' ts * b.limit =
        rw kept.1 at later in
      omega (arith, request_counts b t h, rest)

  -- A request in an expired window is one in a new window.
  reopen : FixedWindowCounter D → ℕ → FixedWindowCounter D
  reopen b now = record b { counter = 0; window_start = now }

  request_reopens :
      (b : FixedWindowCounter D) (now : ℕ)
      → window_expired b now ≡ true
      → window_expired (reopen b now) now ≡ false
      → allow_request b now ≡ allow_request (reopen b now) now
  unfolding allow_request reopen
  request_reopens b now old new = rw (old, new)

  admitted_reopens :
      (b : FixedWindowCounter D) (n now : ℕ)
      → window_expired b now ≡ true
      → window_expired (reopen b now) now ≡ false
      → admitted allow_request b (replicate n now) ≡ min b.limit n
  unfolding reopen
  admitted_reopens b zero now old new = omega arith
  admitted_reopens b (suc n) now old new =
      let inside = All-replicate (λ t. window_expired (reopen b now) t ≡ false) (suc n) now new in
      let all = admitted_in_window (reopen b now) (replicate (suc n) now) inside in
      rw (request_reopens b now old new) (omega (arith, all, length-replicate n now))

  window_expired_from :
      (b : FixedWindowCounter D) (window_secs : D) (start now : ℕ)
      → b.window_secs ≡ window_secs
      → b.window_start ≡ start
      → window_expired b now ≡ d.le window_secs (seconds_between start now)
  unfolding window_expired
  window_expired_from b window_secs start now p q = rw (p, q)

  -- A window has not expired when it opens, if its length is positive.
  window_opens :
      (b : FixedWindowCounter D) (window_secs : D) (now : ℕ)
      → b.window_secs ≡ window_secs
      → d.le window_secs (d.seconds 0) ≡ false
      → window_expired (reopen b now) now ≡ false
  unfolding reopen
  window_opens b window_secs now p positive =
      let zero_long : now - now ≡ 0 = omega arith in
      window_expired_from (reopen b now) window_secs now now p refl
      ∙ rw (seconds_between-steady now now (omega arith), zero_long) positive

  -- A new fixed window of positive length admits `limit` requests at one instant before it expires
  -- and `limit` more at one instant at which it has expired, all of them, however close the two
  -- instants are.
  pub boundary_burst :
      (limit : ℕ) (window_secs : D) (start late next : ℕ)
      → d.le window_secs (d.seconds 0) ≡ false
      → d.le window_secs (seconds_between start late) ≡ false
      → d.le window_secs (seconds_between start next) ≡ true
      → admitted allow_request
          (create limit window_secs start)
          (replicate limit late ++ replicate limit next)
        ≡ limit + limit
  unfolding create
  boundary_burst limit window_secs start late next positive inside after =
      let b = create limit window_secs start in
      let inside_all =
        All-replicate (λ t. window_expired b t ≡ false) limit late
          (window_expired_from b window_secs start late refl refl ∙ inside) in
      let first = admitted_in_window b (replicate limit late) inside_all in
      let f = final_in_window b (replicate limit late) inside_all in
      let second =
        admitted_reopens (final allow_request b (replicate limit late)) limit next
          (window_expired_from _ window_secs start next f.1 f.2 ∙ after)
          (window_opens _ window_secs next f.1 positive) in
      omega (
        arith,
        admitted-append allow_request b (replicate limit late) (replicate limit next),
        first,
        second,
        f.0,
        length-replicate limit late,
      )
