-- ===== src/Cache/Invalidation/Tests.antt =====
-- The key of a project, and the pattern of all projects.
use purp_tape.Base.{◌≡◌, ◌⊎◌, ◌↔◌, true, String}
use purp_tape.Cache.Invalidation.{matches_pattern}
use purp_tape.Cache.Invalidation.Laws.{IsBelow, matches_pattern_iff}

matches_pattern_iff_example :
    (matches_pattern "project:p" "project:*" ≡ true)
    ↔ (◌≡◌ {A = String} "project:p" "project:*" ⊎ IsBelow "project:p" "project:*")
matches_pattern_iff_example = matches_pattern_iff "project:p" "project:*"
