-- ===== src/Cache/PresignedUrl/Tests.antt =====
-- The cache with a time to live of 100, after concrete operations.
use purp_tape.Base.{ℕ, ◌≡◌, refl, some, none, List, [], ◌∷◌, arith}
use purp_tape.Cache.PresignedUrl.{new_presigned_url_cache, get, run, Operation, sets, ticks}
use purp_tape.Cache.PresignedUrl.Laws.{recall, valid, get-run}

abbrev operations : List (ℕ × Operation)
operations = (10, sets "a.mp3" "url1") ∷ (50, ticks) ∷ (60, sets "b.mp3" "url2") ∷ (120, ticks) ∷ []

get-run_example :
    get (run (new_presigned_url_cache 100) operations) 130 "b.mp3"
    ≡ valid 130 100 (recall "b.mp3" none operations)
get-run_example =
    get-run operations 100 130 "b.mp3"
      (omega arith, (omega arith, (omega arith, (omega arith, omega arith))))

-- The first URL has expired, the second has not.
get_tests :
    (get (run (new_presigned_url_cache 100) operations) 130 "b.mp3" ≡ some "url2")
    × (get (run (new_presigned_url_cache 100) operations) 130 "a.mp3" ≡ none)
unfolding get run new_presigned_url_cache
get_tests = (refl, refl)
