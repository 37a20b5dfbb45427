-- ===== src/Middleware/RateLimit.antt =====
-- backend/internal/middleware/rate_limit.go: the fixed-window limiter keyed by client address.
-- Every method holds `rl.mu` for its whole body, so a call is one step. Times are nanoseconds.
pub mod Laws
pub mod Window
pub mod Cleanup
mod Tests
use purp_tape.Base.{
  ℕ, ◌+◌, ◌%◌, ◌^◌, ◌≡◌, Bool, true, false, String, none, some, List, [], ◌∷◌, ltb, leb,
  if◌then◌else◌, Dict, empty, insert, delete_if, str_eq,
}
use purp_tape.Base.Text.{split_host_port}
use purp_tape.Http.{Request, Reply, error, next}

pub record RateLimitEntry : Type 0 where
  pub count : ℕ
  pub window_start : ℕ

pub record RateLimiter : Type 0 where
  pub requests : Dict RateLimitEntry

abbrev pub uint32 : ℕ
uint32 = 2 ^ 32

abbrev pub window_duration : ℕ
window_duration = 60_000_000_000

abbrev pub cleanup_age : ℕ
cleanup_age = 120_000_000_000

pub new_rate_limiter : RateLimiter
new_rate_limiter = record { requests = empty }

abbrev put : String → RateLimitEntry → RateLimiter → RateLimiter
put identifier entry rl = record { requests = insert identifier entry rl.requests }

-- The part of the body behind the map read, on the entry found.
check_entry : RateLimiter → String → ℕ → ℕ → RateLimitEntry → RateLimiter × Bool
check_entry rl identifier limit_per_minute now entry =
    if ltb (entry.window_start + window_duration) now
    then (put identifier (record { count = 1; window_start = now }) rl, true)
    else if leb limit_per_minute entry.count
    then (rl, false)
    else (put identifier (record entry { count = (entry.count + 1) % uint32 }) rl, true)

pub is_allowed_with_limit : RateLimiter → String → ℕ → ℕ → RateLimiter × Bool
unfolding check_entry
is_allowed_with_limit rl identifier limit_per_minute now = elim (rl.requests identifier) [
  | none ↦ (put identifier (record { count = 1; window_start = now }) rl, true)
  | some entry ↦ check_entry rl identifier limit_per_minute now entry
]

pub is_allowed : RateLimiter → String → ℕ → RateLimiter × Bool
is_allowed rl identifier now = is_allowed_with_limit rl identifier 100 now

pub cleanup : RateLimiter → ℕ → RateLimiter
cleanup rl now = record {
  requests =
      delete_if (λ (entry : RateLimitEntry). ltb (entry.window_start + cleanup_age) now)
        rl.requests;
}

-- The client's name: the whole X-Forwarded-For header where it is set, else the host part of the
-- remote address, or all of the address if it does not split.
pub client_ip : Request → String
client_ip r =
    let host : String = elim (split_host_port r.remote_addr) [
      | none ↦ r.remote_addr
      | some ip ↦ ip
    ] in
    if str_eq (r.header "X-Forwarded-For") "" then host else r.header "X-Forwarded-For"

answer : String → Request → RateLimiter × Bool → RateLimiter × Reply
answer message r (rl, true) = (rl, next r)
answer message r (rl, false) = (rl, error (("Retry-After", "60") ∷ []) 429 message)

pub rate_limit_middleware : RateLimiter → ℕ → Request → RateLimiter × Reply
unfolding answer is_allowed
rate_limit_middleware rl now r =
    answer "Too many requests. Maximum 100 requests per minute." r (is_allowed rl (client_ip r) now)

pub strict_rate_limit_middleware : RateLimiter → ℕ → Request → RateLimiter × Reply
unfolding answer
strict_rate_limit_middleware rl now r =
    answer "Too many requests. Maximum 10 requests per minute." r
      (is_allowed_with_limit rl (client_ip r) 10 now)

-- What can happen to a limiter: a request under some limit, or a tick of the cleaning goroutine.
pub data Event : Type 0 where
  request : String → ℕ → ℕ → Event
  clean : ℕ → Event

abbrev pub time : Event → ℕ
time (request identifier limit now) = now
time (clean now) = now

pub step : RateLimiter → Event → RateLimiter
step rl (request identifier limit now) = (is_allowed_with_limit rl identifier limit now).0
step rl (clean now) = cleanup rl now

-- The answers given to the requests of a history, in order.
pub answers : RateLimiter → List Event → List Bool
answers rl [] = []
answers rl (request identifier limit now ∷ es) =
    (is_allowed_with_limit rl identifier limit now).1
    ∷ answers (is_allowed_with_limit rl identifier limit now).0 es
answers rl (clean now ∷ es) = answers (cleanup rl now) es
