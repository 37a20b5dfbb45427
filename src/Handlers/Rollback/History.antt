-- ===== src/Handlers/Rollback/History.antt =====
-- GetTrackVersionHistory of backend/internal/handlers/rollback.go.
pub mod Laws
use Prim.Native.String
use purp_tape.Base.{
  ℕ, Bool, false, not, String, Option, none, some, List, [], ◌∷◌, str_eq, if◌then◌else◌, length,
}
use purp_tape.Base.Text.{decimal}
use purp_tape.Http.{Request, Answer, refused, done}
use purp_tape.Db.{Database, DbResult, ok, failed}
use purp_tape.Db.Tracks.{Track, TrackVersion, get_track_by_id, get_latest_track_version}
use purp_tape.Db.Tracks.Versions.{get_track_versions}
use purp_tape.Helpers.Requests.{get_user_id}
use purp_tape.Handlers.Tracks.{Media, found_track, found_version, is_visible_to}

pub record VersionInfo : Type 0 where
  pub track_version : TrackVersion
  pub is_current : Bool
  pub can_rollback : Bool
  pub rollback_url : String

-- The body of the answer; `current` is an id.
pub record History : Type 0 where
  pub track_id : String
  pub versions : List VersionInfo
  pub current : Option String
  pub total : ℕ

unfoldable pub id_of : Option TrackVersion → Option String
id_of none = none
id_of (some v) = some v.id

unfoldable pub is_id : Option String → TrackVersion → Bool
is_id none v = false
is_id (some id) v = str_eq id v.id

rollback_path : String → TrackVersion → String
rollback_path track_id v = String.◌++◌ "/tracks/" (
    String.◌++◌ track_id
      (String.◌++◌ "/versions/" (String.◌++◌ (decimal v.version_number) "/rollback")))

unfoldable pub infos : String → Option String → List TrackVersion → List VersionInfo
unfolding is_id rollback_path
infos track_id current [] = []
infos track_id current (v ∷ vs) =
    record {
      track_version = v;
      is_current = is_id current v;
      can_rollback = not (is_id current v);
      rollback_url = rollback_path track_id v;
    }
    ∷ infos track_id current vs

-- `latest_reached` says whether the query for the latest version is executed, whose error is ignored.
module _ (db : Database) (media : Media) (latest_reached : Bool) (r : Request) where
  unfoldable pub latest : Option TrackVersion
  unfolding found_version
  latest =
      if latest_reached
      then found_version (get_latest_track_version db (r.path_value "track_id") media.versions)
      else none

  unfoldable pub told : Option String → DbResult (List TrackVersion) → Answer History
  unfolding infos
  told current failed = refused [] 500 "internal server error"
  told current (ok versions) = done 200 (record {
    track_id = r.path_value "track_id";
    versions = infos (r.path_value "track_id") current versions;
    current = current;
    total = length versions;
  })

  unfoldable pub history_of : (user_id : String) → Option Track → Answer History
  unfolding told id_of latest
  history_of user_id none = refused [] 404 "track not found"
  history_of user_id (some track) =
      if is_visible_to db user_id track.project_id
      then told (id_of latest) (get_track_versions db (r.path_value "track_id") media.versions)
      else refused [] 403 "you don't have access to this track"

  unfoldable pub get_track_version_history : Answer History
  unfolding history_of
  get_track_version_history = elim (get_user_id r) [
    | none ↦ refused [] 401 "unauthorized"
    | some user_id ↦
        history_of user_id (found_track (get_track_by_id db (r.path_value "track_id") media.tracks))
  ]
