-- ===== src/Middleware/RateLimit/Tests.antt =====
-- The limiter on concrete histories.
use purp_tape.Base.{
  ◌-◌, ◌≡◌, refl, ◌≢◌, min, String, List, [], ◌∷◌, arith, eq_iff, empty, insert, str_eq,
  if◌then◌else◌,
}
use purp_tape.Http.{Request}
use purp_tape.Middleware.RateLimit.{
  RateLimitEntry, RateLimiter, new_rate_limiter, Event, request, clean,
}
use purp_tape.Middleware.RateLimit.Laws.{IsValid}
use purp_tape.Middleware.RateLimit.Window.{granted, asked, granted-eq-min}

abbrev two_used : RateLimitEntry
two_used = record { count = 2; window_start = 0 }

abbrev busy : RateLimiter
busy = record { requests = insert "1.2.3.4" two_used empty }

abbrev history : List Event
history = request "1.2.3.4" 3 10 ∷ clean 20 ∷ request "1.2.3.4" 3 30 ∷ []

granted-eq-min_example : granted "1.2.3.4" busy history ≡ min (asked "1.2.3.4" history) (3 - 2)
granted-eq-min_example =
    granted-eq-min "1.2.3.4" 3 (omega arith) busy two_used history refl (omega arith)
      ((omega arith, λ e. refl), (omega arith, ((omega arith, λ e. refl), tt)))

other_client : ◌≢◌ {A = String} "5.6.7.8" "1.2.3.4"
other_client e = ground (arith, eq_iff "5.6.7.8" "1.2.3.4")

new-IsValid : IsValid new_rate_limiter
unfolding new_rate_limiter
new-IsValid identifier entry e = ground arith

abbrev forged : Request
forged = record {
  method = "GET";
  path = "/tracks";
  remote_addr = "1.2.3.4:5000";
  header = λ name. if str_eq name "X-Forwarded-For" then "9.9.9.9" else "";
  path_value = λ name. "";
  context = empty;
}

forged_header : forged.header "X-Forwarded-For" ≢ ""
forged_header e = ground (arith, eq_iff "9.9.9.9" "")
