-- ===== src/Middleware/Configurable/Laws.antt =====
-- The quota of a window, what the status report says of it, and the cleaning goroutine.
use purp_tape.Base.{
  ℕ, ◌+◌, ◌-◌, ◌≤◌, ◌<◌, ◌≡◌, min, true, ◌&&◌, String, Option, none, some, List, [], ◌∷◌, arith,
  eq_iff, eq_refl, if◌then◌else◌, str_eq, All,
}
use purp_tape.Base.Int.{pos, max_int}
use purp_tape.Middleware.Configurable.{
  ConfigurableRateLimiter, ConfigurableRequestTracker, track, cleanup, window, tracked,
  get_rate_limit_status,
}

-- A request under a key, or a tick of the cleaning goroutine.
pub data Event : Type 0 where
  request : String → ℕ → Event
  clean : ℕ → Event

abbrev pub time : Event → ℕ
time (request key now) = now
time (clean now) = now

pub step : ConfigurableRateLimiter → Event → ConfigurableRateLimiter
step rl (request key now) = (track rl key now).0
step rl (clean now) = cleanup rl now

-- 1 for a request under the key, and for one that is let through; else 0.
unfoldable pub ask : String → Event → ℕ
ask key (request k now) = if str_eq k key then 1 else 0
ask key (clean now) = 0

pub grant : String → ConfigurableRateLimiter → Event → ℕ
grant key rl (request k now) = if str_eq k key && (track rl k now).1 then 1 else 0
grant key rl (clean now) = 0

unfoldable pub asked : String → List Event → ℕ
asked key [] = 0
asked key (e ∷ es) = ask key e + asked key es

pub granted : String → ConfigurableRateLimiter → List Event → ℕ
granted key rl [] = 0
granted key rl (e ∷ es) = grant key rl e + granted key (step rl e) es

-- The limiter has this tracker under the key, with `count` requests counted.
pub record Holds (key : String) (count reset limit : ℕ) (rl : ConfigurableRateLimiter)
    (tracker : ConfigurableRequestTracker) : Type 0 where
  pub entry : rl.counts key ≡ some tracker
  pub counted : tracker.count ≡ pos count
  pub resets : tracker.reset_at ≡ reset
  pub limited : rl.rate_limit_requests ≡ pos limit

abbrev or_else {ℓ} : {A : Type ℓ} → A → Option A → A
or_else a none = a
or_else a (some b) = b

module _ (key : String) (limit reset : ℕ) where
  grant_one :
      (count : ℕ) (rl : ConfigurableRateLimiter) (tracker : ConfigurableRequestTracker) (e : Event)
      → Holds key count reset limit rl tracker
      → count < max_int
      → time e ≤ reset
      → grant key rl e ≡ min (ask key e) (limit - count)
  unfolding grant ask track
  grant_one count rl tracker (request k now) h m w = ground (arith, eq_iff k key)
  grant_one count rl tracker (clean now) h m w = omega arith

  step-Holds :
      (count : ℕ) (rl : ConfigurableRateLimiter) (tracker : ConfigurableRequestTracker) (e : Event)
      → Holds key count reset limit rl tracker
      → count < max_int
      → time e ≤ reset
      → Holds key
          (count + ask key e)
          reset
          limit
          (step rl e)
          (or_else tracker ((step rl e).counts key))
  unfolding step ask track cleanup
  step-Holds count rl tracker (request k now) h m w = record {
    entry = ground (arith, eq_iff k key);
    counted = ground (arith, eq_iff k key);
    resets = ground (arith, eq_iff k key);
    limited = ground (arith, eq_iff k key);
  }
  step-Holds count rl tracker (clean now) h m w = record {
    entry = ground arith;
    counted = ground arith;
    resets = ground arith;
    limited = ground arith;
  }

  -- While the tracker of a key has not reached its reset time, a history lets through as many
  -- requests under the key as it makes, up to what is left of the limit; requests under other keys
  -- and the cleaning goroutine make no difference. The counter must not reach the largest int.
  pub granted-window :
      (count : ℕ) (rl : ConfigurableRateLimiter) (tracker : ConfigurableRequestTracker)
      (es : List Event)
      → Holds key count reset limit rl tracker
      → count + asked key es < max_int
      → All (λ e. time e ≤ reset) es
      → granted key rl es ≡ min (asked key es) (limit - count)
  unfolding granted asked
  granted-window count rl tracker [] h m w = omega arith
  granted-window count rl tracker (e ∷ es) h m (w, ws) = omega (
    arith,
    grant_one count rl tracker e h (omega arith) w,
    granted-window (count + ask key e) (step rl e) _ es
        (step-Holds count rl tracker e h (omega arith) w) (omega arith) ws,
  )

-- The remaining requests that the status reports for a tracked key are those that the rest of its
-- window lets through: a history before the reset time gets as many of its requests through as it
-- makes, up to that number.
pub granted-get_rate_limit_status :
    (key : String) (limit reset count remaining now : ℕ) (rl : ConfigurableRateLimiter)
    (tracker : ConfigurableRequestTracker) (es : List Event)
    → Holds key count reset limit rl tracker
    → limit ≤ max_int
    → count + asked key es < max_int
    → All (λ e. time e ≤ reset) es
    → get_rate_limit_status rl key now ≡ tracked (pos count) (pos remaining) reset (window rl)
    → granted key rl es ≡ min (asked key es) remaining
unfolding get_rate_limit_status
granted-get_rate_limit_status key limit reset count remaining now rl tracker es h l m w s =
    let left : remaining ≡ limit - count = ground arith in
    omega (arith, granted-window key limit reset count rl tracker es h m w)

-- The status does not look at the clock: of a key that has used up its window it goes on reporting
-- that nothing is left after the reset time, when the next request is let through.
pub status_after_reset :
    (key : String) (limit reset count now : ℕ) (rl : ConfigurableRateLimiter)
    (tracker : ConfigurableRequestTracker)
    → Holds key count reset limit rl tracker
    → limit ≤ count
    → count ≤ max_int
    → reset < now
    → (get_rate_limit_status rl key now ≡ tracked (pos count) (pos 0) reset (window rl))
      × ((track rl key now).1 ≡ true)
unfolding get_rate_limit_status track
status_after_reset key limit reset count now rl tracker h l m w = (ground arith, ground arith)

-- Cleaning is not observable: a request that comes after a cleaning gets the same answer, and
-- leaves the same tracker under its key, as if there had been no cleaning.
pub track-cleanup :
    (rl : ConfigurableRateLimiter) (key : String) (now later : ℕ)
    → now ≤ later
    → ((track (cleanup rl now) key later).1 ≡ (track rl key later).1)
      × ((track (cleanup rl now) key later).0.counts key ≡ (track rl key later).0.counts key)
unfolding track cleanup
track-cleanup rl key now later h = (ground arith, ground (arith, eq_refl key))
