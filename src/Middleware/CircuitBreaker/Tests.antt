-- ===== src/Middleware/CircuitBreaker/Tests.antt =====
-- The breaker on concrete calls.
use purp_tape.Base.{
  ℕ, ◌+◌, ◌<◌, ◌≡◌, refl, some, none, [], ◌∷◌, ◌++◌, List, length, ◌≤◌, ◌↔◌, arith,
}
use purp_tape.Base.Int.{pos}
use purp_tape.Middleware.CircuitBreaker.{CircuitBreaker, CircuitBreakerState, closed, open_, half}
use purp_tape.Middleware.CircuitBreaker.Laws.{IsSound}
use purp_tape.Middleware.CircuitBreaker.Runs.{
  Call, Fails, counted, streak, IsCalm, run, trips_at_threshold, heals_after_successes,
}

abbrev breaker : CircuitBreakerState → ℕ → CircuitBreaker
breaker state failures = record {
  state = state;
  failure_count = pos failures;
  success_count = pos 0;
  failure_threshold = pos 2;
  success_threshold = pos 2;
  timeout = 100;
  last_failure_time = 50;
}

abbrev failing : ℕ → Call
failing now = record { result = some "down"; now = now; ended = now }

abbrev good : ℕ → Call
good now = record { result = none; now = now; ended = now }

abbrev calls : List Call
calls = failing 1 ∷ good 2 ∷ failing 3 ∷ []

trips_at_threshold_example :
    ((run (breaker closed 0) calls).state ≡ closed)
    × (((run (breaker closed 0) (calls ++ (failing 4 ∷ []))).state ≡ open_)
        ↔ (Fails (failing 4) × (2 ≤ streak 0 calls + 1)))
unfolding IsCalm counted
trips_at_threshold_example =
    trips_at_threshold 2 (omega arith) (breaker closed 0) 0 calls (failing 4) refl refl refl
      (omega arith, (omega arith, (omega arith, omega arith)))

heals_after_successes_example :
    (length (good 151 ∷ good 160 ∷ []) < 2
      → (run (breaker open_ 2) (good 151 ∷ good 160 ∷ [])).state ≡ half)
    × (length (good 151 ∷ good 160 ∷ []) ≡ 2
        → ((run (breaker open_ 2) (good 151 ∷ good 160 ∷ [])).state ≡ closed)
          × ((run (breaker open_ 2) (good 151 ∷ good 160 ∷ [])).failure_count ≡ pos 0))
heals_after_successes_example =
    heals_after_successes 2 (omega arith) (breaker open_ 2) (good 151) (good 160 ∷ []) refl
      (omega arith) refl (refl, (refl, tt))

half-IsSound : IsSound 2 (breaker half 2)
half-IsSound = record { counted = refl; limited = refl; fits = omega arith }
