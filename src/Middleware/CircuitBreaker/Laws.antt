-- ===== src/Middleware/CircuitBreaker/Laws.antt =====
-- The circuit breaker as a state machine: what each state lets happen, when it trips, how it heals.
use purp_tape.Base.{ℕ, ◌+◌, ◌≤◌, ◌<◌, ◌≡◌, ◌↔◌, String, Option, some, arith}
use purp_tape.Base.Int.{pos, max_int, pos_part}
use purp_tape.Middleware.CircuitBreaker.{
  CircuitBreaker, CircuitBreakerState, closed, open_, half, refused, wrapped, call,
}

-- Closed means that the failures counted are below the threshold, open and half-open that they
-- have reached it.
abbrev pub Fits : CircuitBreakerState → ℕ → ℕ → Type 0
Fits closed failures threshold = failures < threshold
Fits open_ failures threshold = threshold ≤ failures
Fits half failures threshold = threshold ≤ failures

-- A breaker with a threshold of `threshold` failures, whose counter is not negative and fits its
-- state.
pub record IsSound (threshold : ℕ) (cb : CircuitBreaker) : Type 0 where
  pub counted : cb.failure_count ≡ pos (pos_part cb.failure_count)
  pub limited : cb.failure_threshold ≡ pos threshold
  pub fits : Fits cb.state (pos_part cb.failure_count) threshold

-- Whatever the function does, a call keeps the breaker sound and counts at most one more failure,
-- as long as the counter has not reached the largest int.
pub call-IsSound :
    (threshold : ℕ) (cb : CircuitBreaker) (result : Option String) (now ended : ℕ)
    → 0 < threshold
    → pos_part cb.failure_count < max_int
    → IsSound threshold cb
    → IsSound threshold (call cb result now ended).0
      × (pos_part (call cb result now ended).0.failure_count ≤ pos_part cb.failure_count + 1)
unfolding call
call-IsSound threshold cb result now ended h m v =
    (record { counted = ground arith; limited = ground arith; fits = ground arith }, ground arith)

-- A call is refused exactly if the breaker is open and its timeout, counted from the last failure,
-- has not passed; and then nothing changes.
pub refused_iff :
    (cb : CircuitBreaker) (result : Option String) (now ended : ℕ)
    → (((call cb result now ended).1 ≡ refused)
        ↔ ((cb.state ≡ open_) × (now ≤ cb.last_failure_time + cb.timeout)))
      × ((call cb result now ended).1 ≡ refused → (call cb result now ended).0 ≡ cb)
unfolding call
refused_iff cb result now ended =
    ((λ h. (ground arith, ground arith), λ h. ground arith), λ h. ground arith)

-- One failure of a half-open breaker opens it again for a full timeout, and the error says so.
pub half_failure_reopens :
    (threshold : ℕ) (cb : CircuitBreaker) (err : String) (now ended : ℕ)
    → IsSound threshold cb
    → pos_part cb.failure_count < max_int
    → cb.state ≡ half
    → ((call cb (some err) now ended).0.state ≡ open_)
      × ((call cb (some err) now ended).0.last_failure_time ≡ ended)
      × ((call cb (some err) now ended).1 ≡ wrapped err)
unfolding call
half_failure_reopens threshold cb err now ended v m h = (ground arith, ground arith, ground arith)
