-- ===== src/Middleware/AccessCheck/Tests.antt =====
-- Cached checks on a server in memory.
use purp_tape.Base.{
  ℕ, ◌+◌, ◌<◌, ◌≤◌, ◌≡◌, ◌↔◌, refl, String, Option, none, [], ◌∷◌, arith, empty, insert, true,
  false, str_eq, if◌then◌else◌,
}
use purp_tape.Http.{next, Request}
use purp_tape.Db.{Database, ok}
use purp_tape.Db.AccessLists.{can_user_access_project}
use purp_tape.Cache.Redis.{Value, memory}
use purp_tape.Cache.AccessList.{cache_project_accessibility, minute}
use purp_tape.Middleware.AccessCheck.{
  accessibility, perform, check_project_access_cached, project_access_middleware,
}
use purp_tape.Middleware.AccessCheck.Laws.{IsLetThrough, check-perform, middleware_passes}

abbrev database : Database
database = record {
  available = true;
  no_rows_is_sql = false;
  has_avatar = λ user_id. true;
  projects = [];
  collaborators = [];
  project_shares = [];
  user_project_access = record { user_id = "ann"; project_id = "p1"; access_type = "owner" } ∷ [];
  user_track_access = [];
}

abbrev nothing : String → Option (Value × ℕ)
nothing k = none

-- The cache after bob's access to the project was stored at time 0.
abbrev allowed : String → Option (Value × ℕ)
allowed = (cache_project_accessibility memory nothing 0 "bob" "p1" true).0

check-perform_example :
    (20 < 0 + minute
      → check_project_access_cached memory
          (perform memory nothing 0 (accessibility "bob" "p1" true))
          database
          20
          "bob"
          "p1"
        ≡ (ok true, []))
    × (0 + minute ≤ 20
        → (check_project_access_cached memory
            (perform memory nothing 0 (accessibility "bob" "p1" true))
            database
            20
            "bob"
            "p1").0
          ≡ can_user_access_project database "bob" "p1")
unfolding cache_project_accessibility
check-perform_example =
    check-perform memory nothing database 0 20 "bob" "p1" true refl (omega arith)

abbrev visit : Request
visit = record {
  method = "GET";
  path = "/projects/p1";
  remote_addr = "1.2.3.4:5000";
  header = λ name. "";
  path_value = λ name. if str_eq name "project_id" then "p1" else "";
  context = insert "user_id" "ann" empty;
}

middleware_passes_example :
    ((project_access_middleware memory nothing database 20 visit).0 ≡ next visit)
    ↔ (IsLetThrough memory nothing database 20 visit × (visit ≡ visit))
middleware_passes_example = middleware_passes memory nothing database 20 visit visit
