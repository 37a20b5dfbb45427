-- ===== src/Middleware/Rbac/Tests.antt =====
-- Requests of an editor, on a concrete database.
use mathlib.Core.List.{Memᴰ}
use purp_tape.Base.{
  ◌≡◌, arith, eq_iff, ◌≢◌, refl, ◌↔◌, ◌⊎◌, inl, String, [], ◌∷◌, empty, insert, true, false, str_eq,
  if◌then◌else◌,
}
use purp_tape.Http.{Request, next}
use purp_tape.Db.{Database, Project, Collaborator}
use purp_tape.Db.Roles.{get_user_role_optimized}
use purp_tape.Middleware.Rbac.{rbac_middleware, enforce_modification_access, and_then}
use purp_tape.Middleware.Rbac.Laws.{MayModify, CanModify, modification_iff}
use purp_tape.Middleware.Rbac.Rows.{IsRowOf, modifier_rows}

abbrev project : Project
project = record { id = "p1"; user_id = "ann"; is_deleted = false }

abbrev editor : Collaborator
editor = record { project_id = "p1"; user_id = "bob"; role = "editor"; is_deleted = false }

abbrev database : Database
database = record {
  available = true;
  no_rows_is_sql = false;
  has_avatar = λ user_id. true;
  projects = project ∷ [];
  collaborators = editor ∷ [];
  project_shares = [];
  user_project_access = [];
  user_track_access = [];
}

abbrev edit : Request
edit = record {
  method = "PUT";
  path = "/projects/p1";
  remote_addr = "1.2.3.4:5000";
  header = λ name. "";
  path_value = λ name. if str_eq name "project_id" then "p1" else "";
  context = insert "user_id" "bob" empty;
}

modification_iff_example :
    ((r' : Request) × (and_then (rbac_middleware database edit) enforce_modification_access
        ≡ next r'))
    ↔ ((user_id role : String) × MayModify database edit user_id role)
modification_iff_example = modification_iff database edit

modifier_rows_example :
    (p : Project) × Memᴰ p database.projects
    × (p.id ≡ "p1")
    × ((p.user_id ≡ "bob")
        ⊎ ((c : Collaborator) × Memᴰ c database.collaborators
            × IsRowOf "p1" "bob" c
            × CanModify c.role))
unfolding get_user_role_optimized
modifier_rows_example = modifier_rows database "p1" "bob" "editor" refl (inl refl)

abbrev elsewhere : Request
elsewhere = record edit { path_value = λ name. if str_eq name "project_id" then "p9" else "" }

bob_named : ◌≢◌ {A = String} "bob" ""
bob_named e = ground (arith, eq_iff "bob" "")

elsewhere_named : ◌≢◌ {A = String} "p9" ""
elsewhere_named e = ground (arith, eq_iff "p9" "")
