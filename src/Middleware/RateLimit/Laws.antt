-- ===== src/Middleware/RateLimit/Laws.antt =====
-- What one call of the limiter does to the entries of the map.
use purp_tape.Base.{ℕ, ◌≤◌, ◌<◌, ◌≡◌, ◌≢◌, String, false, none, some, arith, eq_iff}
use purp_tape.Middleware.RateLimit.{
  RateLimitEntry, RateLimiter, uint32, is_allowed_with_limit, rate_limit_middleware,
  strict_rate_limit_middleware, client_ip,
}
use purp_tape.Http.{Request, next}

-- A call for one client leaves the entry of every other client as it was.
pub is_allowed-other :
    (rl : RateLimiter) (identifier other : String) (limit now : ℕ)
    → identifier ≢ other
    → (is_allowed_with_limit rl identifier limit now).0.requests other ≡ rl.requests other
unfolding is_allowed_with_limit
is_allowed-other rl identifier other limit now h = ground (arith, eq_iff identifier other)

-- The counter of every entry is at least 1 and fits a uint32.
abbrev pub IsValid : RateLimiter → Type 0
IsValid rl =
    (identifier : String) (entry : RateLimitEntry)
    → rl.requests identifier ≡ some entry
    → (1 ≤ entry.count) × (entry.count < uint32)

-- Under a limit that is a uint32, every call keeps the counters within 1 .. 2^32 - 1: the
-- increment never wraps to 0.
pub is_allowed-IsValid :
    (rl : RateLimiter) (identifier : String) (limit now : ℕ)
    → limit < uint32
    → IsValid rl
    → IsValid (is_allowed_with_limit rl identifier limit now).0
unfolding is_allowed_with_limit
is_allowed-IsValid rl identifier limit now h v other entry e =
    ground (arith, eq_iff identifier other, v identifier, v other entry)

-- The limiter believes the X-Forwarded-For header: a request that brings a value of that header
-- which the limiter does not know is let through, however many requests its own address has made.
pub forwarded_for_bypass :
    (rl : RateLimiter) (now : ℕ) (r : Request)
    → r.header "X-Forwarded-For" ≢ ""
    → rl.requests (r.header "X-Forwarded-For") ≡ none
    → ((rate_limit_middleware rl now r).1 ≡ next r)
      × ((strict_rate_limit_middleware rl now r).1 ≡ next r)
unfolding rate_limit_middleware strict_rate_limit_middleware client_ip is_allowed_with_limit
forwarded_for_bypass rl now r h e = (
  ground (arith, eq_iff (r.header "X-Forwarded-For") ""),
  ground (arith, eq_iff (r.header "X-Forwarded-For") ""),
)

-- A request that is refused leaves the limiter as it was: being refused does not prolong the wait.
pub refused_unchanged :
    (rl : RateLimiter) (identifier : String) (limit now : ℕ)
    → (is_allowed_with_limit rl identifier limit now).1 ≡ false
    → (is_allowed_with_limit rl identifier limit now).0 ≡ rl
unfolding is_allowed_with_limit
refused_unchanged rl identifier limit now h = ground arith
