-- ===== src/Handlers/Rollback/Tests.antt =====
-- Ann rolls her track "t" back from its version 2 to version 1, and reads its history.
use purp_tape.Base.{
  ℕ, ◌≡◌, refl, ◌≢◌, true, false, String, some, [], ◌∷◌, empty, insert, str_eq, if◌then◌else◌,
}
use purp_tape.Base.Numbers.{atoi}
use purp_tape.Http.{Request}
use purp_tape.Db.{Database}
use purp_tape.Db.Projects.{get_project_by_id}
use purp_tape.Db.Tracks.{
  TrackVersion, latest_version, get_track_by_id, get_latest_track_version,
  get_track_version_by_number, update_track_active_version,
}
use purp_tape.Helpers.Requests.{get_user_id}
use purp_tape.Handlers.Shares.Links.{owns}
use purp_tape.Handlers.Tracks.{Media, found_track, found_version}
use purp_tape.Handlers.Rollback.{version_number_of, rollback_track_version}
use purp_tape.Handlers.Rollback.History.{History, infos}
use purp_tape.Handlers.Rollback.Laws.{rollback_track_version-IsUnmoved}

abbrev database : Database
database = record {
  available = true;
  no_rows_is_sql = false;
  has_avatar = λ user_id. true;
  projects = record { id = "p"; user_id = "ann"; is_deleted = false } ∷ [];
  collaborators = [];
  project_shares = [];
  user_project_access = [];
  user_track_access = [];
}

abbrev version : String → ℕ → TrackVersion
version id number = record {
  id = id;
  track_id = "t";
  version_number = number;
  r2_object_key = id;
  file_size = 5;
  checksum = "c";
  is_deleted = false;
}

abbrev media : Media
media = record {
  tracks =
      record {
        id = "t";
        project_id = "p";
        user_id = "ann";
        name = "song";
        duration = 60;
        is_deleted = false;
      }
      ∷ [];
  versions = version "two" 2 ∷ version "one" 1 ∷ [];
  bucket = "two" ∷ "one" ∷ [];
}

abbrev by_ann : Request
by_ann = record {
  method = "POST";
  path = "/tracks/t/versions/1/rollback";
  remote_addr = "1.2.3.4:5000";
  header = λ name. "";
  path_value = λ name. if str_eq name "track_id" then "t" else "1";
  context = insert "user_id" "ann" empty;
}

rollback_track_version-IsUnmoved_example :
    ((rollback_track_version database media true by_ann).0.versions ≡ media.versions)
    × ((current : TrackVersion) × (latest_version "t" media.versions ≡ some current)
        × (current.version_number ≢ 1))
unfolding rollback_track_version get_user_id version_number_of atoi owns get_project_by_id
    get_track_by_id get_latest_track_version get_track_version_by_number update_track_active_version
    found_track found_version
rollback_track_version-IsUnmoved_example =
    rollback_track_version-IsUnmoved database media true by_ann 1 (version "one" 1) refl

abbrev history : History
history = record {
  track_id = "t";
  versions = infos "t" (some "two") media.versions;
  current = some "two";
  total = 2;
}
