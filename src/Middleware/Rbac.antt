-- ===== src/Middleware/Rbac.antt =====
-- backend/internal/middleware/rbac.go: the role of a user in a project, read from the database
-- into the request's context, and the guards that ask for a role.
pub mod Laws
pub mod Rows
mod Tests
use purp_tape.Base.{
  ℕ, Bool, true, false, String, Option, none, some, List, [], ◌∷◌, str_eq, leb, if◌then◌else◌,
  insert,
}
use purp_tape.Http.{Request, Reply, error, next}
use purp_tape.Db.{Database, DbResult, ok, failed}
use purp_tape.Db.Roles.{get_user_role_optimized}

-- The reply to the result of GetUserRoleOptimized.
with_role : String → Request → DbResult String → Reply
with_role project_id r failed = error [] 500 "internal server error"
with_role project_id r (ok role) =
    if str_eq role "denied"
    then error [] 403 "access denied"
    else next
        (record r { context = insert "project_id" project_id (insert "user_role" role r.context) })

rbac_for : Database → Request → String → Reply
unfolding with_role
rbac_for db r user_id =
    if str_eq user_id ""
    then error [] 401 "unauthorized"
    else if str_eq (r.path_value "project_id") ""
    then error [] 400 "missing project_id"
    else with_role (r.path_value "project_id") r
        (get_user_role_optimized db (r.path_value "project_id") user_id)

pub rbac_middleware : Database → Request → Reply
unfolding rbac_for
rbac_middleware db r = elim (r.context "user_id") [
  | none ↦ error [] 401 "unauthorized"
  | some user_id ↦ rbac_for db r user_id
]

-- hierarchy[role]
pub hierarchy : String → Option ℕ
hierarchy role =
    if str_eq role "viewer"
    then some 0
    else if str_eq role "commenter"
    then some 1
    else if str_eq role "editor"
    then some 2
    else if str_eq role "collaborator"
    then some 2
    else if str_eq role "owner"
    then some 3
    else none

compare_levels : Option ℕ → Option ℕ → Bool
compare_levels (some user_level) (some required_level) = leb required_level user_level
compare_levels none required = false
compare_levels (some user_level) none = false

pub check_role_access : String → String → Bool
unfolding compare_levels
check_role_access user_role required_role =
    compare_levels (hierarchy user_role) (hierarchy required_role)

pub enforce_role : String → Request → Reply
enforce_role required_role r = elim (r.context "user_role") [
  | none ↦ error [] 403 "permission denied"
  | some user_role ↦
      if str_eq user_role ""
      then error [] 403 "permission denied"
      else if check_role_access user_role required_role
      then next r
      else error [] 403 "insufficient permissions"
]

pub enforce_ownership : Request → Reply
enforce_ownership r = elim (r.context "user_role") [
  | none ↦ error [] 403 "only project owner can perform this action"
  | some user_role ↦
      if str_eq user_role "owner"
      then next r
      else error [] 403 "only project owner can perform this action"
]

pub enforce_modification_access : Request → Reply
enforce_modification_access r = elim (r.context "user_role") [
  | none ↦ error [] 403 "permission denied"
  | some role ↦
      if check_role_access role "editor"
      then next r
      else error [] 403 "insufficient permissions to modify content"
]

-- One guard behind another.
abbrev pub and_then : Reply → (Request → Reply) → Reply
and_then (error headers status message) guard = error headers status message
and_then (next r) guard = guard r
