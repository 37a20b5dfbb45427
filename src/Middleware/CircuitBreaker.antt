-- ===== src/Middleware/CircuitBreaker.antt =====
-- backend/internal/middleware/enterprise.go: the circuit breaker. `Call` holds `cb.mu` throughout,
-- so a call is one step; the guarded function is given by its result and by the time it ends.
pub mod Laws
pub mod Runs
mod Tests
use purp_tape.Base.{ℕ, ◌+◌, ◌≡◌, Bool, true, false, String, Option, none, some, ltb, if◌then◌else◌}
use purp_tape.Base.Int.{ℤ, pos, incr, le_int}

pub data CircuitBreakerState : Type 0 where
  closed open_ half : CircuitBreakerState

pub record CircuitBreaker : Type 0 where
  pub state : CircuitBreakerState
  pub failure_count : ℤ
  pub success_count : ℤ
  pub failure_threshold : ℤ
  pub success_threshold : ℤ
  pub timeout : ℕ
  pub last_failure_time : ℕ

-- `fail` is the error of the function, `wrapped` the same under "circuit breaker open: %w", and
-- `refused` is the error of a call that did not reach the function.
pub data Outcome : Type 0 where
  ok refused : Outcome
  fail wrapped : String → Outcome

pub new_circuit_breaker : ℤ → ℤ → ℕ → CircuitBreaker
new_circuit_breaker failure_threshold success_threshold timeout = record {
  state = closed;
  failure_count = pos 0;
  success_count = pos 0;
  failure_threshold = failure_threshold;
  success_threshold = success_threshold;
  timeout = timeout;
  last_failure_time = 0;
}

-- After fn() returned nil.
on_success : CircuitBreaker → CircuitBreakerState → CircuitBreaker
on_success cb half =
    if le_int cb.success_threshold (incr cb.success_count)
    then record cb { state = closed; failure_count = pos 0; success_count = incr cb.success_count }
    else record cb { success_count = incr cb.success_count }
on_success cb closed = record cb { failure_count = pos 0 }
on_success cb open_ = cb

-- After fn() returned an error at time `ended`.
on_failure : CircuitBreaker → String → ℕ → CircuitBreaker × Outcome
on_failure cb err ended =
    if le_int cb.failure_threshold (incr cb.failure_count)
    then (
      record cb { state = open_; failure_count = incr cb.failure_count; last_failure_time = ended },
      wrapped err,
    )
    else (record cb { failure_count = incr cb.failure_count; last_failure_time = ended }, fail err)

-- err := fn() and what follows it.
execute : CircuitBreaker → Option String → ℕ → CircuitBreaker × Outcome
unfolding on_success on_failure
execute cb none ended = (on_success cb cb.state, ok)
execute cb (some err) ended = on_failure cb err ended

-- The test at the head of `Call`, on the state read.
enter : CircuitBreaker → CircuitBreakerState → Option String → ℕ → ℕ → CircuitBreaker × Outcome
unfolding execute
enter cb open_ result now ended =
    if ltb (cb.last_failure_time + cb.timeout) now
    then execute (record cb { state = half; success_count = pos 0 }) result ended
    else (cb, refused)
enter cb closed result now ended = execute cb result ended
enter cb half result now ended = execute cb result ended

-- `now` is the time of the call and `ended` the time at which the function has returned.
pub call : CircuitBreaker → Option String → ℕ → ℕ → CircuitBreaker × Outcome
unfolding enter
call cb result now ended = enter cb cb.state result now ended
