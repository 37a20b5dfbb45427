-- ===== src/Db/AccessLists.antt =====
-- The queries of backend/internal/db/queries.go over the denormalized access tables. The rows of a
-- SELECT DISTINCT come in the order of the table.
pub mod Laws
use purp_tape.Base.{Bool, true, false, ◌&&◌, ◌||◌, String, List, [], ◌∷◌, str_eq, if◌then◌else◌}
use purp_tape.Db.{Database, DbResult, UserProjectAccess, UserTrackAccess, query}

unfoldable pub contains : List String → String → Bool
contains [] x = false
contains (y ∷ ys) x = str_eq y x || contains ys x

-- Adds an entry in front, unless the list has it.
pub add_distinct : String → List String → List String
unfolding contains
add_distinct x xs = if contains xs x then xs else x ∷ xs

-- access_type IN ('owner', 'collaborator', 'shared')
unfoldable pub is_access_type : String → Bool
is_access_type t = str_eq t "owner" || str_eq t "collaborator" || str_eq t "shared"

pub project_ids : String → List UserProjectAccess → List String
unfolding add_distinct is_access_type
project_ids user_id [] = []
project_ids user_id (row ∷ rows) =
    let rest = project_ids user_id rows in
    if str_eq row.user_id user_id && is_access_type row.access_type
    then add_distinct row.project_id rest
    else rest

unfoldable pub get_user_project_access_list : Database → String → DbResult (List String)
unfolding project_ids
get_user_project_access_list db user_id = query db (project_ids user_id db.user_project_access)

track_ids : String → List UserTrackAccess → List String
unfolding add_distinct
track_ids user_id [] = []
track_ids user_id (row ∷ rows) =
    let rest = track_ids user_id rows in
    if str_eq row.user_id user_id then add_distinct row.track_id rest else rest

unfoldable pub get_user_track_access_list : Database → String → DbResult (List String)
unfolding track_ids
get_user_track_access_list db user_id = query db (track_ids user_id db.user_track_access)

pub has_project : String → String → List UserProjectAccess → Bool
has_project user_id project_id [] = false
has_project user_id project_id (row ∷ rows) =
    (str_eq row.user_id user_id && str_eq row.project_id project_id)
    || has_project user_id project_id rows

unfoldable pub can_user_access_project : Database → String → String → DbResult Bool
unfolding has_project
can_user_access_project db user_id project_id =
    query db (has_project user_id project_id db.user_project_access)

has_track : String → String → List UserTrackAccess → Bool
has_track user_id track_id [] = false
has_track user_id track_id (row ∷ rows) =
    (str_eq row.user_id user_id && str_eq row.track_id track_id) || has_track user_id track_id rows

unfoldable pub can_user_access_track : Database → String → String → DbResult Bool
unfolding has_track
can_user_access_track db user_id track_id =
    query db (has_track user_id track_id db.user_track_access)
