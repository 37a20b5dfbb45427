-- ===== src/Handlers/Tracks.antt =====
-- backend/internal/handlers/tracks.go: the tracks of a project, their versions, and where the files lie.
pub mod Uploads
pub mod Laws
mod Tests
use purp_tape.Base.{
  ℕ, ◌+◌, Bool, true, false, not, ◌&&◌, ◌||◌, String, Option, none, some, List, [], ◌∷◌, str_eq,
  if◌then◌else◌, ltb,
}
use purp_tape.Base.Text.{len, trim_space}
use purp_tape.Http.{Request, Answer, refused, done}
use purp_tape.Db.{Database, DbResult, Project, ok, failed}
use purp_tape.Db.Projects.{get_project_by_id}
use purp_tape.Db.Tracks
use purp_tape.Db.Tracks.{
  Track, TrackVersion, get_track_by_id, get_project_tracks_paginated, get_latest_track_version,
}
use purp_tape.Helpers.Requests.{get_user_id}

-- `bucket` holds the keys of the objects in R2.
pub record Media : Type 0 where
  pub tracks : List Track
  pub versions : List TrackVersion
  pub bucket : List String

-- validation.ValidateTrackName
pub is_track_name : String → Bool
is_track_name name = not (ltb (len (trim_space name)) 1) && not (ltb 255 (len (trim_space name)))

unfoldable pub is_visible_to : Database → String → String → Bool
is_visible_to db user_id project_id = elim (get_project_by_id db project_id user_id) [
  | ok p ↦ true
  | failed ↦ false
]

-- A track that the handlers find: neither an error nor nil.
unfoldable pub found_track : DbResult (Option Track) → Option Track
found_track failed = none
found_track (ok o) = o

unfoldable pub found_version : DbResult (Option TrackVersion) → Option TrackVersion
found_version failed = none
found_version (ok o) = o

-- The tracks of a page, their number, and whether there are more.
listed : ℕ → ℕ → DbResult (List Track × ℕ) → Answer (List Track × (ℕ × Bool))
listed limit offset failed = refused [] 500 "internal server error"
listed limit offset (ok (tracks, total)) = done 200 (tracks, (total, ltb (offset + limit) total))

module _ (db : Database) (media : Media) (r : Request) where
  -- `limit` and `offset` are those of the request, none of them negative, and their sum fits an int.
  pub list_tracks : (limit offset : ℕ) → Answer (List Track × (ℕ × Bool))
  unfolding is_visible_to listed
  list_tracks limit offset = elim (get_user_id r) [
    | none ↦ refused [] 401 "unauthorized"
    | some user_id ↦
        if is_visible_to db user_id (r.path_value "project_id")
        then listed limit offset
            (get_project_tracks_paginated db (r.path_value "project_id") limit offset media.tracks)
        else refused [] 403 "access denied"
  ]

  stored : Track → Media × Answer Track
  stored track = elim (Tracks.create_track db track media.tracks) [
    | none ↦ (media, refused [] 500 "internal server error")
    | some tracks ↦ (record media { tracks = tracks }, done 201 track)
  ]

  create_as : (id user_id : String) → Option String → Media × Answer Track
  unfolding stored is_track_name
  create_as id user_id none = (media, refused [] 400 "invalid request body")
  create_as id user_id (some name) =
      if is_track_name name
      then stored (record {
        id = id;
        project_id = r.path_value "project_id";
        user_id = user_id;
        name = name;
        duration = 0;
        is_deleted = false;
      })
      else (media, refused [] 400 "track name must be 1-255 characters")

  -- The body is the name, `none` where it is no JSON.
  pub create_track : (id : String) → Option String → Media × Answer Track
  unfolding create_as
  create_track id body = elim (get_user_id r) [
    | none ↦ (media, refused [] 401 "unauthorized")
    | some user_id ↦ create_as id user_id body
  ]

  delete_answer : DbResult Bool → Answer String
  delete_answer failed = refused [] 500 "internal server error"
  delete_answer (ok false) = refused [] 404 "track not found"
  delete_answer (ok true) = done 200 (r.path_value "track_id")

  deleted : Bool → Media × Answer String
  unfolding delete_answer
  deleted committed =
      let result =
        Tracks.delete_track committed (r.path_value "track_id") media.tracks media.versions in
      (record media { tracks = result.0.0; versions = result.0.1 }, delete_answer result.1)

  -- What a handler does with a track of the path, if the user may see its project.
  pub with_track : {A : Type 0} → (String → Bool) → Media × Answer A → Media × Answer A
  unfolding found_track is_visible_to
  with_track valid_id action = elim (get_user_id r) [
    | none ↦ (media, refused [] 401 "unauthorized")
    | some user_id ↦
        if not (valid_id (r.path_value "track_id"))
        then (media, refused [] 400 "invalid track id")
        else elim (found_track (get_track_by_id db (r.path_value "track_id") media.tracks)) [
          | none ↦ (media, refused [] 404 "track not found")
          | some track ↦
              if is_visible_to db user_id track.project_id
              then action
              else (media, refused [] 403 "access denied")
        ]
  ]

  -- `valid_id` is whether uuid.Parse reads the id.
  pub delete_track : (String → Bool) → (committed : Bool) → Media × Answer String
  unfolding with_track deleted
  delete_track valid_id committed = with_track valid_id (deleted committed)

  signed : (String → Option String) → Option TrackVersion → Answer (String × TrackVersion)
  signed sign none = refused [] 404 "no versions available"
  signed sign (some v) = elim (sign v.r2_object_key) [
    | none ↦ refused [] 500 "internal server error"
    | some url ↦ done 200 (url, v)
  ]

  -- `sign` makes a URL of one minute, or fails.
  pub get_signed_play_url :
      (String → Bool) → (String → Option String) → Answer (String × TrackVersion)
  unfolding with_track signed found_version
  get_signed_play_url valid_id sign =
      (with_track valid_id (
        media,
        signed sign
            (found_version (get_latest_track_version db (r.path_value "track_id") media.versions)),
      )).1
