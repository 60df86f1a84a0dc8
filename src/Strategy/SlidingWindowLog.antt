-- ===== src/Strategy/SlidingWindowLog.antt =====
-- SlidingWindowLog.h and SlidingWindowLog.cpp. The deque is a list with its front first. `limit_` is
-- an int that is not negative, as validation has it.
pub mod Bounds
pub mod Window
use policy_driven_rate_limit.Prelude.{
  Bool, Bytes, List, [], codes, decimal, false, if◌then◌else◌, length, ltb, true, ℕ, ◌++◌, ◌+◌, ◌∷◌,
}
use policy_driven_rate_limit.Double.{Doubles}

pub record SlidingWindowLog (D : Type 0) : Type 0 where
  pub limit : ℕ
  pub window_secs : D
  pub log : List ℕ

module _ {D : Type 0} ⦃d : Doubles D⦄ where
  unfoldable pub create : ℕ → D → SlidingWindowLog D
  create limit window_secs = record { limit = limit; window_secs = window_secs; log = [] }

  -- `now - duration<double>(windowSecs_)`: its type counts nanoseconds in a double.
  unfoldable pub cutoff : D → ℕ → D
  cutoff window_secs now = d.sub (d.nanoseconds now) (d.to_nanoseconds window_secs)

  -- `tp <= cutoff`, the time point converted to the type of the cutoff.
  unfoldable pub outdated : D → ℕ → ℕ → Bool
  unfolding cutoff
  outdated window_secs now tp = d.le (d.nanoseconds tp) (cutoff window_secs now)

  -- `while (!log_.empty() && log_.front() <= cutoff) log_.pop_front();`
  unfoldable pub evict_old_entries : D → ℕ → List ℕ → List ℕ
  evict_old_entries window_secs now [] = []
  evict_old_entries window_secs now (tp ∷ log) =
      if outdated window_secs now tp then evict_old_entries window_secs now log else tp ∷ log

  unfoldable pub record_request : SlidingWindowLog D → ℕ → SlidingWindowLog D × Bool
  record_request b now =
      if ltb (length b.log) b.limit
      then (record b { log = b.log ++ (now ∷ []) }, true)
      else (b, false)

  unfoldable pub allow_request : SlidingWindowLog D → ℕ → SlidingWindowLog D × Bool
  unfolding evict_old_entries record_request
  allow_request b now =
      record_request (record b { log = evict_old_entries b.window_secs now b.log }) now

  -- `for (tp : log_) if (tp > cutoff) ++active;`
  unfoldable pub active : D → ℕ → List ℕ → ℕ
  unfolding cutoff
  active window_secs now [] = 0
  active window_secs now (tp ∷ log) =
      (if d.lt (cutoff window_secs now) (d.nanoseconds tp) then 1 else 0)
      + active window_secs now log

  unfoldable pub get_state : SlidingWindowLog D → ℕ → Bytes
  unfolding active
  get_state b now =
      codes "log_size="
      ++ (decimal (active b.window_secs now b.log)
          ++ (codes "/"
              ++ (decimal b.limit
                  ++ (codes " window=" ++ (d.show_plain b.window_secs ++ codes "s")))))

  unfoldable pub reset : SlidingWindowLog D → SlidingWindowLog D
  reset b = record b { log = [] }

abbrev pub algorithm_name : Bytes
algorithm_name = codes "SlidingWindowLog"
