-- ===== src/Middleware/Configurable.antt =====
-- backend/internal/middleware/rate_limiter.go: the limiter that `main` puts before every route.
-- The part under `rl.mu` is one step, `track`. Times are nanoseconds; the window is configured in
-- whole seconds and is not negative.
pub mod Laws
mod Tests
use purp_tape.Base.{
  ℕ, ◌+◌, ◌*◌, ◌≡◌, Bool, true, false, String, none, some, List, [], ◌∷◌, ltb, if◌then◌else◌, Dict,
  empty, insert, delete_if,
}
use purp_tape.Base.Int.{ℤ, pos, negsuc, incr, lt_int, sub_int}
use purp_tape.Base.Text.{decimal}
use purp_tape.Http.{Request, Reply, error, next}
use purp_tape.Middleware.ClientIp.{extract_rate_limit_key}

pub record ConfigurableRequestTracker : Type 0 where
  pub count : ℤ
  pub reset_at : ℕ
  pub exceeds : ℤ

pub record ConfigurableRateLimiter : Type 0 where
  pub rate_limit_requests : ℤ
  pub rate_limit_window_seconds : ℕ
  pub counts : Dict ConfigurableRequestTracker

abbrev pub second : ℕ
second = 1_000_000_000

-- 5 * time.Minute
abbrev pub grace : ℕ
grace = 300 * second

abbrev pub window : ConfigurableRateLimiter → ℕ
window rl = rl.rate_limit_window_seconds * second

pub new_configurable_rate_limiter : ℤ → ℕ → ConfigurableRateLimiter
new_configurable_rate_limiter requests seconds = record {
  rate_limit_requests = requests;
  rate_limit_window_seconds = seconds;
  counts = empty;
}

abbrev put : String → ConfigurableRequestTracker → ConfigurableRateLimiter → ConfigurableRateLimiter
put key tracker rl = record rl { counts = insert key tracker rl.counts }

fresh : ConfigurableRateLimiter → String → ℕ → ConfigurableRateLimiter
fresh rl key now =
    put key (record { count = pos 1; reset_at = now + window rl; exceeds = pos 0 }) rl

-- tracker.count++ and what follows it.
counted :
    ConfigurableRateLimiter → String → ConfigurableRequestTracker → ConfigurableRateLimiter × Bool
counted rl key tracker =
    if lt_int rl.rate_limit_requests (incr tracker.count)
    then (
      put key (record tracker { count = incr tracker.count; exceeds = incr tracker.exceeds }) rl,
      false,
    )
    else (put key (record tracker { count = incr tracker.count }) rl, true)

-- The part of the handler between Lock and Unlock: whether the request is let through.
pub track : ConfigurableRateLimiter → String → ℕ → ConfigurableRateLimiter × Bool
unfolding fresh counted
track rl key now = elim (rl.counts key) [
  | none ↦ (fresh rl key now, true)
  | some tracker ↦
      if ltb tracker.reset_at now then (fresh rl key now, true) else counted rl key tracker
]

answer : Request → ConfigurableRateLimiter × Bool → ConfigurableRateLimiter × Reply
answer r (rl, true) = (rl, next r)
answer r (rl, false) = (
  rl,
  error (("Retry-After", decimal rl.rate_limit_window_seconds) ∷ []) 429 "rate limit exceeded",
)

pub rate_limit_middleware : ConfigurableRateLimiter → ℕ → Request → ConfigurableRateLimiter × Reply
unfolding answer track
rate_limit_middleware rl now r = answer r (track rl (extract_rate_limit_key r) now)

pub cleanup : ConfigurableRateLimiter → ℕ → ConfigurableRateLimiter
cleanup rl now = record rl {
  counts =
      delete_if (λ (tracker : ConfigurableRequestTracker). ltb (tracker.reset_at + grace) now)
        rl.counts;
}

-- What GetRateLimitStatus reports, with and without a tracker for the key.
pub data RateLimitStatus : Type 0 where
  untracked : (requests_remaining : ℤ) (reset_at : ℕ) → RateLimitStatus
  tracked : (current_count requests_remaining : ℤ) (reset_at limit_window : ℕ) → RateLimitStatus

abbrev at_least_zero : ℤ → ℤ
at_least_zero (pos n) = pos n
at_least_zero (negsuc n) = pos 0

pub get_rate_limit_status : ConfigurableRateLimiter → String → ℕ → RateLimitStatus
get_rate_limit_status rl key now = elim (rl.counts key) [
  | none ↦ untracked rl.rate_limit_requests (now + window rl)
  | some tracker ↦
      tracked tracker.count (at_least_zero (sub_int rl.rate_limit_requests tracker.count))
        tracker.reset_at (window rl)
]
