-- ===== src/Db/Tracks.antt =====
-- The tracks and track_versions queries of backend/internal/db/queries.go, queries_analytics.go and
-- queries_access.go. Columns that nothing modelled reads are left out; `tracks` is in the order of
-- created_at, the latest first. (track_id, version_number) is unique.
pub mod Versions
pub mod Laws
use purp_tape.Base.{
  ℕ, ◌+◌, ◌/◌, ◌%◌, Bool, true, false, not, ◌&&◌, ◌||◌, String, Option, none, some, List, [], ◌∷◌,
  str_eq, if◌then◌else◌, ltb, ◌==◌, length,
}
use purp_tape.Db.{Database, DbResult, Project, ok, failed, query, row_or_nil}
use purp_tape.Db.Projects.{page, has_id, row_of}

pub record Track : Type 0 where
  pub id : String
  pub project_id : String
  pub user_id : String
  pub name : String
  pub duration : ℕ
  pub is_deleted : Bool

pub record TrackVersion : Type 0 where
  pub id : String
  pub track_id : String
  pub version_number : ℕ
  pub r2_object_key : String
  pub file_size : ℕ
  pub checksum : String
  pub is_deleted : Bool

-- WHERE id = $1 AND deleted_at IS NULL
unfoldable pub find_track : String → List Track → Option Track
find_track track_id [] = none
find_track track_id (t ∷ ts) =
    if str_eq t.id track_id && not t.is_deleted then some t else find_track track_id ts

unfoldable pub get_track_by_id : Database → String → List Track → DbResult (Option Track)
unfolding find_track
get_track_by_id db track_id tracks =
    if db.available then row_or_nil db (find_track track_id tracks) else failed

-- WHERE project_id = $1 AND deleted_at IS NULL
unfoldable pub tracks_of : String → List Track → List Track
tracks_of project_id [] = []
tracks_of project_id (t ∷ ts) =
    let rest = tracks_of project_id ts in
    if str_eq t.project_id project_id && not t.is_deleted then t ∷ rest else rest

unfoldable pub get_project_tracks : Database → String → List Track → DbResult (List Track)
unfolding tracks_of
get_project_tracks db project_id tracks = query db (tracks_of project_id tracks)

unfoldable pub get_project_tracks_paginated :
    Database → String → ℕ → ℕ → List Track → DbResult (List Track × ℕ)
unfolding tracks_of
get_project_tracks_paginated db project_id limit offset tracks =
    query db (page limit offset (tracks_of project_id tracks), length (tracks_of project_id tracks))

-- Of two versions the one with the higher number.
unfoldable pub newest : TrackVersion → Option TrackVersion → TrackVersion
newest v none = v
newest v (some w) = if ltb v.version_number w.version_number then w else v

-- WHERE track_id = $1 AND deleted_at IS NULL ORDER BY version_number DESC LIMIT 1
unfoldable pub latest_version : String → List TrackVersion → Option TrackVersion
unfolding newest
latest_version track_id [] = none
latest_version track_id (v ∷ vs) =
    let rest = latest_version track_id vs in
    if str_eq v.track_id track_id && not v.is_deleted then some (newest v rest) else rest

unfoldable pub get_latest_track_version :
    Database → String → List TrackVersion → DbResult (Option TrackVersion)
unfolding latest_version
get_latest_track_version db track_id versions =
    if db.available then row_or_nil db (latest_version track_id versions) else failed

-- COALESCE(MAX(version_number), 0) … WHERE track_id = $1
unfoldable pub latest_number : String → List TrackVersion → ℕ
latest_number track_id [] = 0
latest_number track_id (v ∷ vs) =
    let rest = latest_number track_id vs in
    if str_eq v.track_id track_id && ltb rest v.version_number then v.version_number else rest

unfoldable pub get_latest_track_version_number : Database → String → List TrackVersion → DbResult ℕ
unfolding latest_number
get_latest_track_version_number db track_id versions = query db (latest_number track_id versions)

-- The INSERT fails without the project, and on an id that the table has.
unfoldable pub has_track : String → List Track → Bool
has_track id [] = false
has_track id (t ∷ ts) = str_eq t.id id || has_track id ts

unfoldable pub create_track : Database → Track → List Track → Option (List Track)
unfolding has_track
create_track db track tracks =
    if db.available && has_id track.project_id db.projects && not (has_track track.id tracks)
    then some (track ∷ tracks)
    else none

-- WHERE track_id = $1 AND version_number = $2, also if it is deleted; no row is an error.
unfoldable pub numbered_version : String → ℕ → List TrackVersion → Option TrackVersion
numbered_version track_id number [] = none
numbered_version track_id number (v ∷ vs) =
    if str_eq v.track_id track_id && v.version_number == number
    then some v
    else numbered_version track_id number vs

unfoldable pub get_track_version_by_number :
    Database → String → ℕ → List TrackVersion → DbResult TrackVersion
unfolding numbered_version
get_track_version_by_number db track_id number versions =
    if db.available then row_of (numbered_version track_id number versions) else failed

-- Only updated_at is set, which nothing here reads; `none` is the error, also for a track without a row.
unfoldable pub update_track_active_version : Bool → String → List Track → Option (List Track)
unfolding has_track
update_track_active_version reached track_id tracks =
    if reached && has_track track_id tracks then some tracks else none

-- The first UPDATE of DeleteTrack, with the rows affected, and the second.
unfoldable pub track_deleted : String → List Track → List Track × Bool
track_deleted track_id [] = ([], false)
track_deleted track_id (t ∷ ts) =
    let rest = track_deleted track_id ts in
    if str_eq t.id track_id && not t.is_deleted
    then (record t { is_deleted = true } ∷ rest.0, true)
    else (t ∷ rest.0, rest.1)

unfoldable pub versions_deleted : String → List TrackVersion → List TrackVersion
versions_deleted track_id [] = []
versions_deleted track_id (v ∷ vs) =
    (if str_eq v.track_id track_id then record v { is_deleted = true } else v)
    ∷ versions_deleted track_id vs

-- `committed` says whether every statement of the transaction succeeds.
unfoldable pub delete_track :
    Bool
    → String
    → List Track
    → List TrackVersion
    → (List Track × List TrackVersion) × DbResult Bool
unfolding track_deleted versions_deleted
delete_track committed track_id tracks versions =
    if not committed
    then ((tracks, versions), failed)
    else if (track_deleted track_id tracks).1
    then (((track_deleted track_id tracks).0, versions_deleted track_id versions), ok true)
    else ((tracks, versions), ok false)

-- The joins of GetUserStorageUsed: the track is of a project of the user.
is_project_of : String → String → List Project → Bool
is_project_of project_id user_id [] = false
is_project_of project_id user_id (p ∷ ps) =
    str_eq p.id project_id && str_eq p.user_id user_id || is_project_of project_id user_id ps

is_track_of : Database → String → String → List Track → Bool
unfolding is_project_of
is_track_of db track_id user_id [] = false
is_track_of db track_id user_id (t ∷ ts) =
    str_eq t.id track_id && is_project_of t.project_id user_id db.projects
    || is_track_of db track_id user_id ts

bytes_of : Database → String → List Track → List TrackVersion → ℕ
unfolding is_track_of
bytes_of db user_id tracks [] = 0
bytes_of db user_id tracks (v ∷ vs) =
    let rest = bytes_of db user_id tracks vs in
    if is_track_of db v.track_id user_id tracks && not v.is_deleted
    then v.file_size + rest
    else rest

-- The sum is a NUMERIC, so that the quotient has a fraction: `reads_fraction` says whether the driver
-- cuts it off, or returns an error.
unfoldable pub get_user_storage_used :
    Database → Bool → String → List Track → List TrackVersion → DbResult ℕ
unfolding bytes_of
get_user_storage_used db reads_fraction user_id tracks versions =
    let bytes = bytes_of db user_id tracks versions in
    if db.available && (reads_fraction || bytes % 1_048_576 == 0)
    then ok (bytes / 1_048_576)
    else failed
