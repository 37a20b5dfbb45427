-- ===== src/Handlers/Rollback.antt =====
-- RollbackTrackVersion of backend/internal/handlers/rollback.go. The audit log is left out.
pub mod History
pub mod Laws
mod Tests
use purp_tape.Base.{
  ℕ, Bool, true, false, not, ◌&&◌, ◌||◌, String, Option, none, some, List, [], ◌∷◌, str_eq,
  if◌then◌else◌, ◌==◌,
}
use purp_tape.Base.Int.{ℤ, pos, negsuc}
use purp_tape.Base.Numbers.{atoi}
use purp_tape.Http.{Request, Answer, refused, done}
use purp_tape.Db.{Database, DbResult, ok, failed}
use purp_tape.Db.Tracks.{
  Track, TrackVersion, get_track_by_id, get_latest_track_version, get_track_version_by_number,
  update_track_active_version,
}
use purp_tape.Helpers.Requests.{get_user_id}
use purp_tape.Handlers.Shares.Links.{owns}
use purp_tape.Handlers.Tracks.{Media, found_track, found_version}

-- The body of the answer.
pub data RollbackReply : Type 0 where
  already_at : TrackVersion → RollbackReply
  rolled_back : ℕ → TrackVersion → RollbackReply

-- A number from 1 on.
unfoldable pub version_number_of : Option ℤ → Option ℕ
version_number_of none = none
version_number_of (some (negsuc n)) = none
version_number_of (some (pos n)) = if n == 0 then none else some n

module _ (db : Database) (media : Media) (reached : Bool) (r : Request) where
  unfoldable pub activated : ℕ → TrackVersion → Media × Answer RollbackReply
  activated number target =
      elim (update_track_active_version reached (r.path_value "track_id") media.tracks) [
        | none ↦ (media, refused [] 500 "internal server error")
        | some tracks ↦ (record media { tracks = tracks }, done 200 (rolled_back number target))
      ]

  unfoldable pub from_current :
      ℕ → TrackVersion → Option TrackVersion → Media × Answer RollbackReply
  unfolding activated
  from_current number target none = (media, refused [] 500 "internal server error")
  from_current number target (some current) =
      if current.version_number == number
      then (media, done 200 (already_at current))
      else activated number target

  unfoldable pub of_track :
      (user_id : String) → ℕ → TrackVersion → Option Track → Media × Answer RollbackReply
  unfolding from_current
  of_track user_id number target none = (media, refused [] 404 "track not found")
  of_track user_id number target (some track) =
      if owns db track.project_id user_id
      then from_current number target
          (found_version (get_latest_track_version db (r.path_value "track_id") media.versions))
      else (media, refused [] 403 "you don't have permission to rollback this track")

  unfoldable pub to_version :
      (user_id : String) → ℕ → DbResult TrackVersion → Media × Answer RollbackReply
  unfolding of_track
  to_version user_id number failed = (media, refused [] 404 "track version not found")
  to_version user_id number (ok target) =
      of_track user_id number target
        (found_track (get_track_by_id db (r.path_value "track_id") media.tracks))

  unfoldable pub rollback_as : (user_id : String) → Option ℕ → Media × Answer RollbackReply
  unfolding to_version
  rollback_as user_id none = (media, refused [] 400 "invalid version number")
  rollback_as user_id (some number) =
      to_version user_id number
        (get_track_version_by_number db (r.path_value "track_id") number media.versions)

  unfoldable pub rollback_track_version : Media × Answer RollbackReply
  unfolding rollback_as version_number_of
  rollback_track_version = elim (get_user_id r) [
    | none ↦ (media, refused [] 401 "unauthorized")
    | some user_id ↦ rollback_as user_id (version_number_of (atoi (r.path_value "version_number")))
  ]
