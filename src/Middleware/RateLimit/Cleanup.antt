-- ===== src/Middleware/RateLimit/Cleanup.antt =====
-- middleware/rate_limit.go: the cleaning goroutine among the requests.
use purp_tape.Base.{
  ℕ, ◌+◌, ◌≤◌, ◌<◌, ◌≡◌, refl, ap₂, ◌⊎◌, inl, String, none, some, List, [], ◌∷◌, arith, eq_iff,
}
use purp_tape.Middleware.RateLimit.{
  RateLimitEntry, RateLimiter, is_allowed_with_limit, cleanup, window_duration, Event, request,
  clean, time, answers,
}

-- The events stand in the order of time, none before `t`.
abbrev pub InOrder : ℕ → List Event → Type 0
InOrder t [] = Unit
InOrder t (e ∷ es) = (t ≤ time e) × InOrder (time e) es

pub requests_only : List Event → List Event
requests_only [] = []
requests_only (request identifier limit now ∷ es) = request identifier limit now ∷ requests_only es
requests_only (clean now ∷ es) = requests_only es

-- At one key the cleaned limiter has the same entry, or has lost one whose window is over at `t`.
abbrev SameAt : ℕ → RateLimiter → RateLimiter → String → Type 0
SameAt t cleaned rl k =
    (cleaned.requests k ≡ rl.requests k)
    ⊎ ((entry : RateLimitEntry) × (cleaned.requests k ≡ none)
        × (rl.requests k ≡ some entry)
        × (entry.window_start + window_duration < t))

abbrev Same : ℕ → RateLimiter → RateLimiter → Type 0
Same t cleaned rl = (k : String) → SameAt t cleaned rl k

cleanup-Same :
    (t now : ℕ) (cleaned rl : RateLimiter)
    → t ≤ now
    → Same t cleaned rl
    → Same now (cleanup cleaned now) rl
unfolding cleanup
cleanup-Same t now cleaned rl h same k = ground (arith, same k)

is_allowed_answer :
    (t now : ℕ) (cleaned rl : RateLimiter) (identifier : String) (limit : ℕ)
    → t ≤ now
    → Same t cleaned rl
    → (is_allowed_with_limit cleaned identifier limit now).1
      ≡ (is_allowed_with_limit rl identifier limit now).1
unfolding is_allowed_with_limit
is_allowed_answer t now cleaned rl identifier limit h same = ground (arith, same identifier)

is_allowed-Same :
    (t now : ℕ) (cleaned rl : RateLimiter) (identifier : String) (limit : ℕ)
    → t ≤ now
    → Same t cleaned rl
    → Same now
        (is_allowed_with_limit cleaned identifier limit now).0
        (is_allowed_with_limit rl identifier limit now).0
unfolding is_allowed_with_limit
is_allowed-Same t now cleaned rl identifier limit h same k =
    ground (arith, eq_iff identifier k, same identifier, same k)

answers-Same :
    (t : ℕ) (cleaned rl : RateLimiter) (es : List Event)
    → InOrder t es
    → Same t cleaned rl
    → answers cleaned es ≡ answers rl (requests_only es)
unfolding answers requests_only
answers-Same t cleaned rl [] h same = refl
answers-Same t cleaned rl (request identifier limit now ∷ es) (h, hs) same =
    ap₂ ◌∷◌ (is_allowed_answer t now cleaned rl identifier limit h same)
      (answers-Same now _ _ es hs (is_allowed-Same t now cleaned rl identifier limit h same))
answers-Same t cleaned rl (clean now ∷ es) (h, hs) same =
    answers-Same now (cleanup cleaned now) rl es hs (cleanup-Same t now cleaned rl h same)

-- In a history in the order of time, the requests get the answers that they get if the map is
-- never cleaned.
pub answers-requests_only :
    (t : ℕ) (rl : RateLimiter) (es : List Event)
    → InOrder t es
    → answers rl es ≡ answers rl (requests_only es)
answers-requests_only t rl es h = answers-Same t rl rl es h (λ k. inl refl)
