-- ===== src/Performance/Tests.antt =====
-- A batch check on a server in memory.
use purp_tape.Base.{ℕ, ◌≡◌, refl, String, Option, none, List, [], ◌∷◌, true, false}
use purp_tape.Db.{Database, ok}
use purp_tape.Db.AccessLists.{is_access_type}
use purp_tape.Cache.Redis.{Value, memory}
use purp_tape.Cache.AccessList.{get_user_project_access_list}
use purp_tape.Performance.{Track, filter_accessible_tracks}
use purp_tape.Performance.Laws.{allowed, filter_accessible_tracks-allowed}

abbrev database : Database
database = record {
  available = true;
  no_rows_is_sql = false;
  has_avatar = λ user_id. true;
  projects = [];
  collaborators = [];
  project_shares = [];
  user_project_access = record { user_id = "ann"; project_id = "p1"; access_type = "owner" } ∷ [];
  user_track_access = [];
}

abbrev nothing : String → Option (Value × ℕ)
nothing k = none

abbrev tracks : List Track
tracks = record { id = "t1"; project_id = "p1" } ∷ record { id = "t2"; project_id = "p2" } ∷ []

filter_accessible_tracks-allowed_example :
    (filter_accessible_tracks memory nothing database 0 "ann" tracks).0
    ≡ ok (allowed database "ann" tracks)
unfolding get_user_project_access_list is_access_type
filter_accessible_tracks-allowed_example =
    filter_accessible_tracks-allowed memory nothing database 0 "ann" tracks refl refl (refl, tt)
