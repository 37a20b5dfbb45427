-- ===== src/Middleware/RateLimit/Window.antt =====
-- How many requests of one client a window lets through, whatever else happens meanwhile.
use purp_tape.Base.{
  ℕ, ◌+◌, ◌*◌, ◌-◌, ◌≤◌, ◌<◌, ◌≡◌, refl, min, ◌&&◌, String, none, some, List, [], ◌∷◌, ◌++◌, arith,
  eq_iff, eq_refl, if◌then◌else◌, str_eq, All, suc, zero, replicate,
}
use native.Mathlib.Nat.{add_assoc, add-zero}
use purp_tape.Middleware.RateLimit.{
  RateLimitEntry, RateLimiter, uint32, is_allowed_with_limit, cleanup, window_duration, Event,
  request, clean, step,
}

-- 1 if the event is a request of this client that is let through, else 0.
pub grant : String → RateLimiter → Event → ℕ
grant client rl (request identifier limit now) =
    if str_eq identifier client && (is_allowed_with_limit rl identifier limit now).1 then 1 else 0
grant client rl (clean now) = 0

-- The requests of this client that a history lets through, and those that it makes.
pub granted : String → RateLimiter → List Event → ℕ
granted client rl [] = 0
granted client rl (e ∷ es) = grant client rl e + granted client (step rl e) es

pub run : RateLimiter → List Event → RateLimiter
run rl [] = rl
run rl (e ∷ es) = run (step rl e) es

pub ask : String → Event → ℕ
ask client (request identifier limit now) = if str_eq identifier client then 1 else 0
ask client (clean now) = 0

pub asked : String → List Event → ℕ
asked client [] = 0
asked client (e ∷ es) = ask client e + asked client es

-- The event happens within the window that began at `start`, and asks under this limit if it is
-- the client's.
abbrev pub InWindow : String → ℕ → ℕ → Event → Type 0
InWindow client limit start (request identifier limit' now) =
    (now ≤ start + window_duration) × (identifier ≡ client → limit' ≡ limit)
InWindow client limit start (clean now) = now ≤ start + window_duration

module _ (client : String) (limit : ℕ) (small : limit < uint32) where
  grant_one :
      (rl : RateLimiter) (entry : RateLimitEntry) (e : Event)
      → rl.requests client ≡ some entry
      → entry.count ≤ limit
      → InWindow client limit entry.window_start e
      → grant client rl e ≡ min (ask client e) (limit - entry.count)
  unfolding grant ask is_allowed_with_limit
  grant_one rl entry (request identifier limit' now) h c (w, same) =
      ground (arith, eq_iff identifier client, same)
  grant_one rl entry (clean now) h c w = omega arith

  step_entry :
      (rl : RateLimiter) (entry : RateLimitEntry) (e : Event)
      → rl.requests client ≡ some entry
      → entry.count ≤ limit
      → InWindow client limit entry.window_start e
      → (step rl e).requests client
        ≡ some
            (record { count = entry.count + grant client rl e; window_start = entry.window_start })
  unfolding grant step is_allowed_with_limit cleanup
  step_entry rl entry (request identifier limit' now) h c (w, same) =
      ground (arith, eq_iff identifier client, same)
  step_entry rl entry (clean now) h c w = ground arith

  -- From an entry with `count` requests used up, a history within its window lets through as many
  -- requests of the client as it makes, up to the rest of the limit. Requests of other clients and
  -- the cleaning goroutine, in any order between them, make no difference.
  pub granted-eq-min :
      (rl : RateLimiter) (entry : RateLimitEntry) (es : List Event)
      → rl.requests client ≡ some entry
      → entry.count ≤ limit
      → All (InWindow client limit entry.window_start) es
      → granted client rl es ≡ min (asked client es) (limit - entry.count)
  unfolding granted asked
  granted-eq-min rl entry [] h c w = omega arith
  granted-eq-min rl entry (e ∷ es) h c (w, ws) =
      let one = grant_one rl entry e h c w in
      let used = entry.count + grant client rl e in
      let rest =
        granted-eq-min (step rl e) (record { count = used; window_start = entry.window_start }) es
          (step_entry rl entry e h c w) (omega (arith, one)) ws in
      omega (arith, one, rest)

  run_entry :
      (rl : RateLimiter) (entry : RateLimitEntry) (es : List Event)
      → rl.requests client ≡ some entry
      → entry.count ≤ limit
      → All (InWindow client limit entry.window_start) es
      → (run rl es).requests client
        ≡ some (record {
          count = entry.count + granted client rl es;
          window_start = entry.window_start;
        })
  unfolding granted run
  run_entry rl entry [] h c w = rw (add-zero entry.count) h
  run_entry rl entry (e ∷ es) h c (w, ws) =
      let one = grant_one rl entry e h c w in
      let used = entry.count + grant client rl e in
      rw (← add_assoc entry.count (grant client rl e) (granted client (step rl e) es)) (
        run_entry (step rl e) (record { count = used; window_start = entry.window_start }) es
          (step_entry rl entry e h c w) (omega (arith, one)) ws)

module _ (client : String) where
  granted-append :
      (rl : RateLimiter) (es fs : List Event)
      → granted client rl (es ++ fs) ≡ granted client rl es + granted client (run rl es) fs
  unfolding granted run
  granted-append rl [] fs = omega arith
  granted-append rl (e ∷ es) fs = omega (arith, granted-append (step rl e) es fs)

  asked-replicate : (n limit now : ℕ) → asked client (replicate n (request client limit now)) ≡ n
  unfolding asked ask
  asked-replicate zero limit now = refl
  asked-replicate (suc n) limit now = ground (arith, eq_refl client, asked-replicate n limit now)

  InWindow-replicate :
      (n limit start now : ℕ)
      → now ≤ start + window_duration
      → All (InWindow client limit start) (replicate n (request client limit now))
  InWindow-replicate zero limit start now h = tt
  InWindow-replicate (suc n) limit start now h =
      ((h, λ _. refl), InWindow-replicate n limit start now h)

  -- `n` requests in a window that has room for them are all let through.
  granted-replicate :
      (n limit now : ℕ) (rl : RateLimiter) (entry : RateLimitEntry)
      → limit < uint32
      → rl.requests client ≡ some entry
      → entry.count + n ≤ limit
      → now ≤ entry.window_start + window_duration
      → granted client rl (replicate n (request client limit now)) ≡ n
  granted-replicate n limit now rl entry small h c w = omega (
    arith,
    granted-eq-min client limit small rl entry (replicate n (request client limit now)) h
        (omega arith) (InWindow-replicate n limit entry.window_start now w),
    asked-replicate n limit now,
  )

-- The requests of a client that is new at time `start`: one then, `l` at the end of its window,
-- and `l + 1` one nanosecond after that.
abbrev pub burst : String → ℕ → ℕ → List Event
burst client l start =
    request client (suc l) start
    ∷ (replicate l (request client (suc l) (start + window_duration))
        ++ (request client (suc l) (start + window_duration + 1)
            ∷ replicate l (request client (suc l) (start + window_duration + 1))))

fresh_step :
    (client : String) (limit now : ℕ) (rl : RateLimiter)
    → rl.requests client ≡ none
    → (grant client rl (request client limit now) ≡ 1)
      × ((step rl (request client limit now)).requests client
          ≡ some (record { count = 1; window_start = now }))
unfolding grant step is_allowed_with_limit
fresh_step client limit now rl h = ground (arith, eq_refl client)

late_step :
    (client : String) (limit now : ℕ) (rl : RateLimiter) (entry : RateLimitEntry)
    → rl.requests client ≡ some entry
    → entry.window_start + window_duration < now
    → (grant client rl (request client limit now) ≡ 1)
      × ((step rl (request client limit now)).requests client
          ≡ some (record { count = 1; window_start = now }))
unfolding grant step is_allowed_with_limit
late_step client limit now rl entry h w = ground (arith, eq_refl client)

-- Under a limit of `l + 1` per window, a client unknown to the limiter gets `2 * l + 2` requests
-- through within one window's length and a nanosecond, all but the first of them within one
-- nanosecond.
pub granted-burst :
    (client : String) (l start : ℕ) (rl : RateLimiter)
    → suc l < uint32
    → rl.requests client ≡ none
    → granted client rl (burst client l start) ≡ 2 * l + 2
unfolding granted
granted-burst client l start rl small h =
    let late = start + window_duration + 1 in
    let es = replicate l (request client (suc l) (start + window_duration)) in
    let first = fresh_step client (suc l) start rl h in
    let s = step rl (request client (suc l) start) in
    let e : RateLimitEntry = record { count = 1; window_start = start } in
    let used =
      run_entry client (suc l) small s e es first.1 (omega arith)
        (InWindow-replicate client l (suc l) start (start + window_duration) (omega arith)) in
    let next = late_step client (suc l) late (run s es) _ used (omega arith) in
    let e' : RateLimitEntry = record { count = 1; window_start = late } in
    omega (
      arith,
      first.0,
      granted-append client s es
          (request client (suc l) late ∷ replicate l (request client (suc l) late)),
      granted-replicate client l (suc l) (start + window_duration) s e small first.1 (omega arith)
          (omega arith),
      next.0,
      granted-replicate client l (suc l) late (step (run s es) (request client (suc l) late)) e'
          small next.1 (omega arith) (omega arith),
    )
