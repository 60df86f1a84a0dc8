-- ===== src/Strategy/SlidingWindowLog/Window.antt =====
-- How much the log admits within one window.
use policy_driven_rate_limit.Prelude.{
  All, Bool, Bool-cases, List, [], arith, if◌then◌else◌, inl, inr, length, length-append, ltb,
  ltb→lt, true, ℕ, ◌++◌, ◌∷◌, ◌≡◌, ◌≤◌,
}
use policy_driven_rate_limit.Double.{Doubles, DoubleLaws}
use policy_driven_rate_limit.Strategy.SlidingWindowLog.{evict_old_entries, allow_request}
use policy_driven_rate_limit.Strategy.SlidingWindowLog.Bounds.{
  in_window, in_window-append, in_window-le-length, in_window-evict,
}

-- The readings at which requests are admitted.
abbrev pub admitted_times : {S : Type 0} → (S → ℕ → S × Bool) → S → List ℕ → List ℕ
admitted_times f s [] = []
admitted_times f s (t ∷ ts) =
    let rest = admitted_times f (f s t).0 ts in if (f s t).1 then t ∷ rest else rest

module _ {D : Type 0} ⦃d : Doubles D⦄ (l : DoubleLaws d) where
  pub evict-shorter :
      (w : D) (now : ℕ) (log : List ℕ) → length (evict_old_entries w now log) ≤ length log
  unfolding evict_old_entries
  evict-shorter w now [] = omega arith
  evict-shorter w now (x ∷ log) = ground (arith, evict-shorter w now log)

  -- Given the laws of doubles in Double.Laws: for a window that is finite as a double of
  -- nanoseconds and a log within the limit, if no request comes after an instant, then of the log
  -- and the requests admitted at most `limit` lie in the window that ends at that instant, in
  -- whatever order the clock readings come.
  pub window_bound :
      (limit : ℕ) (w : D) (log ts : List ℕ) (now : ℕ)
      → d.is_finite (d.to_nanoseconds w) ≡ true
      → length log ≤ limit
      → All (λ t. t ≤ now) ts
      → in_window w now (
          log
          ++ admitted_times allow_request (record { limit = limit; window_secs = w; log = log }) ts)
        ≤ limit
  unfolding allow_request
  window_bound limit w log [] now fin h b =
      omega (arith, h, in_window-append w now log [], in_window-le-length w now log)
  window_bound limit w log (t ∷ ts) now fin h b =
      let kept = evict_old_entries w t log in
      let same = in_window-evict l w fin t now log b.0 in
      elim (Bool-cases (ltb (length kept) limit)) [
        | inl room ↦
            let log' = kept ++ (t ∷ []) in
            let times =
              admitted_times allow_request (record { limit = limit; window_secs = w; log = log' })
                ts in
            let later =
              window_bound limit w log' ts now fin
                (omega (arith, ltb→lt (length kept) limit room, length-append kept (t ∷ []))) b.1 in
            rw room (
              omega (
                arith,
                same,
                later,
                in_window-append w now log (t ∷ times),
                in_window-append w now log' times,
                in_window-append w now kept (t ∷ []),
              ))
        | inr full ↦
            let times =
              admitted_times allow_request (record { limit = limit; window_secs = w; log = kept })
                ts in
            let later =
              window_bound limit w kept ts now fin (omega (arith, evict-shorter w t log, h)) b.1 in
            rw full (
              omega (
                arith,
                same,
                later,
                in_window-append w now log times,
                in_window-append w now kept times,
              ))
      ]
