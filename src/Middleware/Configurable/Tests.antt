-- ===== src/Middleware/Configurable/Tests.antt =====
-- The configurable limiter on a concrete history.
use purp_tape.Base.{◌-◌, ◌≡◌, refl, min, List, [], ◌∷◌, arith, empty, insert}
use purp_tape.Base.Int.{pos}
use purp_tape.Middleware.Configurable.{ConfigurableRateLimiter, ConfigurableRequestTracker}
use purp_tape.Middleware.Configurable.Laws.{
  Event, request, clean, ask, Holds, granted, asked, granted-window,
}

abbrev two_counted : ConfigurableRequestTracker
two_counted = record { count = pos 2; reset_at = 100; exceeds = pos 0 }

abbrev limiter : ConfigurableRateLimiter
limiter = record {
  rate_limit_requests = pos 3;
  rate_limit_window_seconds = 60;
  counts = insert "ip:1.2.3.4" two_counted empty;
}

abbrev history : List Event
history = request "ip:1.2.3.4" 10 ∷ clean 20 ∷ request "ip:1.2.3.4" 30 ∷ []

limiter-Holds : Holds "ip:1.2.3.4" 2 100 3 limiter two_counted
limiter-Holds = record { entry = refl; counted = refl; resets = refl; limited = refl }

granted-window_example :
    granted "ip:1.2.3.4" limiter history ≡ min (asked "ip:1.2.3.4" history) (3 - 2)
unfolding asked ask
granted-window_example =
    granted-window "ip:1.2.3.4" 3 100 2 limiter two_counted history limiter-Holds (omega arith)
      (omega arith, (omega arith, (omega arith, tt)))

abbrev used_up : ConfigurableRateLimiter
used_up = record limiter { rate_limit_requests = pos 2 }

used_up-Holds : Holds "ip:1.2.3.4" 2 100 2 used_up two_counted
used_up-Holds = record { entry = refl; counted = refl; resets = refl; limited = refl }
