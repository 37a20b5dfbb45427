-- ===== src/Db/Collaborators.antt =====
-- GetUserByEmail and AddCollaborator of backend/internal/db/queries_phase2.go. (project_id, user_id) is
-- unique in collaborators, an email in users; the columns that nothing reads are left out.
pub mod Laws
use purp_tape.Base.{
  Bool, true, false, not, ◌&&◌, String, Option, none, some, List, [], ◌∷◌, str_eq, if◌then◌else◌,
}
use purp_tape.Db.{Database, DbResult, Collaborator, ok, failed}

pub record User : Type 0 where
  pub id : String
  pub email : String
  pub is_deleted : Bool

-- WHERE email = $1 AND deleted_at IS NULL
unfoldable pub find_user : String → List User → Option User
find_user email [] = none
find_user email (u ∷ us) =
    if str_eq u.email email && not u.is_deleted then some u else find_user email us

unfoldable pub user_of_row : Database → Option User → DbResult User
user_of_row db none = failed
user_of_row db (some u) = if db.has_avatar u.id then ok u else failed

unfoldable pub get_user_by_email : Database → String → List User → DbResult User
unfolding find_user user_of_row
get_user_by_email db email users =
    if db.available then user_of_row db (find_user email users) else failed

-- INSERT … ON CONFLICT (project_id, user_id) DO UPDATE SET role = …, which leaves deleted_at.
unfoldable pub upsert_collaborator : Collaborator → List Collaborator → List Collaborator
upsert_collaborator new [] = new ∷ []
upsert_collaborator new (c ∷ cs) =
    if str_eq c.project_id new.project_id && str_eq c.user_id new.user_id
    then record c { role = new.role } ∷ cs
    else c ∷ upsert_collaborator new cs

-- `reached` says whether the statement is executed.
unfoldable pub add_collaborator : Bool → Collaborator → Database → Option Database
unfolding upsert_collaborator
add_collaborator reached new db =
    if reached
    then some (record db { collaborators = upsert_collaborator new db.collaborators })
    else none
