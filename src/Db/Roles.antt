-- ===== src/Db/Roles.antt =====
-- GetUserRoleOptimized of backend/internal/db/queries.go. The joins meet at most one collaborator
-- row, since (project_id, user_id) is unique, and one project row, since id is the primary key.
use purp_tape.Base.{
  Bool, true, false, not, ◌&&◌, String, Option, none, some, List, [], ◌∷◌, str_eq, if◌then◌else◌,
}
use purp_tape.Db.{Database, DbResult, Project, Collaborator, ProjectShare, ok, failed}

-- WHERE p.id = $1 LIMIT 1
unfoldable pub find_project : String → List Project → Option Project
find_project project_id [] = none
find_project project_id (p ∷ ps) =
    if str_eq p.id project_id then some p else find_project project_id ps

-- LEFT JOIN collaborators c ON p.id = c.project_id AND c.user_id = $2 AND c.deleted_at IS NULL
unfoldable pub find_collaborator : String → String → List Collaborator → Option Collaborator
find_collaborator project_id user_id [] = none
find_collaborator project_id user_id (c ∷ cs) =
    if str_eq c.project_id project_id && str_eq c.user_id user_id && not c.is_deleted
    then some c
    else find_collaborator project_id user_id cs

-- LEFT JOIN project_shares ps ON p.id = ps.project_id AND ps.shared_with_id = $2
--   AND ps.revoked_at IS NULL
unfoldable pub is_shared : String → String → List ProjectShare → Bool
is_shared project_id user_id [] = false
is_shared project_id user_id (s ∷ ss) =
    if str_eq s.project_id project_id && str_eq s.shared_with_id user_id && not s.is_revoked
    then true
    else is_shared project_id user_id ss

-- The COALESCE, on what the joins found.
unfoldable pub role_of : String → Project → Option Collaborator → Bool → String
role_of user_id p c shared =
    if str_eq p.user_id user_id
    then "owner"
    else elim c [ some c ↦ c.role | none ↦ if shared then "viewer" else "denied" ]

-- The row, which a missing project does not have.
unfoldable pub select_role : Database → String → String → Option String
unfolding role_of find_project find_collaborator is_shared
select_role db project_id user_id = elim (find_project project_id db.projects) [
  | none ↦ none
  | some p ↦ some (
      role_of user_id p (find_collaborator project_id user_id db.collaborators)
        (is_shared project_id user_id db.project_shares))
]

-- row.Scan, and the comparison of its error with sql.ErrNoRows.
unfoldable pub scanned : Database → Option String → DbResult String
scanned db none = if db.no_rows_is_sql then ok "denied" else failed
scanned db (some role) = ok role

unfoldable pub get_user_role_optimized : Database → String → String → DbResult String
unfolding select_role scanned
get_user_role_optimized db project_id user_id =
    if db.available then scanned db (select_role db project_id user_id) else failed
