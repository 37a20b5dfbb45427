-- ===== src/Handlers/Projects.antt =====
-- backend/internal/handlers/projects.go: making, showing and deleting a project. The rows of users, which
-- nothing here reads, and the audit log are left out.
pub mod Laws
mod Tests
use purp_tape.Base.{
  Bool, true, false, not, ◌&&◌, String, Option, none, some, List, [], ◌∷◌, str_eq, if◌then◌else◌,
  ltb,
}
use purp_tape.Base.Text.{len, trim_space}
use purp_tape.Http.{Request, Answer, refused, done}
use purp_tape.Db.{Database, DbResult, Project, ok, failed}
use purp_tape.Db.Projects
use purp_tape.Db.Projects.{get_project_by_id}
use purp_tape.Helpers.Requests.{get_user_id}

-- EnsureAuthUser returns no error: its statement is executed for an id that is not blank.
pub ensure_auth_user : Bool → String → Bool
ensure_auth_user reached user_id = not (str_eq (trim_space user_id) "") && reached

-- validation.SanitizeString, then ValidateProjectName and ValidateDescription.
pub is_project_name : String → Bool
is_project_name name =
    let trimmed = trim_space (trim_space name) in
    not (ltb (len trimmed) 1) && not (ltb 255 (len trimmed))

pub is_description : String → Bool
is_description text = not (ltb 2000 (len (trim_space (trim_space text))))

module _ (db : Database) (r : Request) where
  created : Database × DbResult Project → Database × Answer Project
  created (after, failed) = (db, refused [] 500 "internal server error")
  created (after, ok p) = (after, done 201 p)

  create_as : (id user_id : String) → Option (String × String) → Database × Answer Project
  unfolding created is_project_name is_description
  create_as id user_id none = (db, refused [] 400 "invalid request body")
  create_as id user_id (some (name, description)) =
      if not (is_project_name name)
      then (db, refused [] 400 "project name must be 1-255 characters")
      else if not (is_description description)
      then (db, refused [] 400 "description must be less than 2000 characters")
      else created (Projects.create_project db id user_id)

  -- The body is a name and a description.
  unfoldable pub create_project :
      (reached : Bool) (id : String) → Option (String × String) → Database × Answer Project
  unfolding create_as ensure_auth_user
  create_project reached id body = elim (get_user_id r) [
    | none ↦ (db, refused [] 401 "unauthorized")
    | some user_id ↦
        if ensure_auth_user reached user_id
        then create_as id user_id body
        else (db, refused [] 500 "internal server error")
  ]

  shown : DbResult Project → Answer Project
  shown failed = refused [] 404 "project not found"
  shown (ok p) = done 200 p

  unfoldable pub get_project : Answer Project
  unfolding shown
  get_project = elim (get_user_id r) [
    | none ↦ refused [] 401 "unauthorized"
    | some user_id ↦ shown (get_project_by_id db (r.path_value "id") user_id)
  ]

  pub delete_answer : DbResult Bool → Answer (Unit {0})
  delete_answer failed = refused [] 500 "internal server error"
  delete_answer (ok false) = refused [] 404 "project not found"
  delete_answer (ok true) = done 204 tt

  pub deleted_by : Database × DbResult Bool → Database × Answer (Unit {0})
  unfolding delete_answer
  deleted_by (after, result) = (after, delete_answer result)

  unfoldable pub delete_project : (committed : Bool) → Database × Answer (Unit {0})
  unfolding deleted_by
  delete_project committed = elim (get_user_id r) [
    | none ↦ (db, refused [] 401 "unauthorized")
    | some user_id ↦ deleted_by (Projects.delete_project db committed (r.path_value "id") user_id)
  ]
