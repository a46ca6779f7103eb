-- ===== src/Host/Clock.antt =====
-- What the loops that wait rely on: `time.time()` does not go back, and `time.sleep(n)` takes at
-- least `n` seconds.
use stir_main.Base.{ℕ, ◌+◌, ◌*◌, ◌≤◌, ◌∷◌}
use stir_main.Host.{Host, Trace, Event, slept}

pub record ClockRuns (h : Host) : Type 0 where
  pub steady : (e : Event) (t : Trace) → h.clock t ≤ h.clock (e ∷ t)
  pub sleeps : (n : ℕ) (t : Trace) → h.clock t + n * h.second ≤ h.clock (slept n ∷ t)
