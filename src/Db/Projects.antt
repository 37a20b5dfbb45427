-- ===== src/Db/Projects.antt =====
-- The project queries of backend/internal/db/queries.go. Columns that no condition reads are left
-- out of the rows; `projects` is in the order in which a query without ORDER BY meets its rows.
pub mod Laws
use purp_tape.Base.{
  ℕ, Bool, true, false, not, ◌&&◌, ◌||◌, String, Option, none, some, List, [], ◌∷◌, ◌++◌, str_eq,
  if◌then◌else◌, length, take, drop,
}
use purp_tape.Db.{Database, DbResult, Project, ok, failed, query}
use purp_tape.Db.Roles.{is_shared}

-- WHERE id = $1 AND deleted_at IS NULL AND (user_id = $2 OR id IN (…))
pub is_visible : Database → String → String → Project → Bool
is_visible db project_id user_id p =
    str_eq p.id project_id
    && not p.is_deleted
    && (str_eq p.user_id user_id || is_shared p.id user_id db.project_shares)

pub find_visible : Database → String → String → List Project → Option Project
unfolding is_visible
find_visible db project_id user_id [] = none
find_visible db project_id user_id (p ∷ ps) =
    if is_visible db project_id user_id p then some p else find_visible db project_id user_id ps

-- row.Scan: no row is an error.
abbrev pub row_of {ℓ} : {A : Type ℓ} → Option A → DbResult A
row_of none = failed
row_of (some a) = ok a

unfoldable pub get_project_by_id : Database → String → String → DbResult Project
unfolding find_visible
get_project_by_id db project_id user_id =
    if db.available then row_of (find_visible db project_id user_id db.projects) else failed

-- UPDATE projects … WHERE id = $1 AND user_id = $2 AND deleted_at IS NULL, with the rows affected.
unfoldable pub deleted : String → String → List Project → List Project × Bool
deleted project_id user_id [] = ([], false)
deleted project_id user_id (p ∷ ps) =
    let rest = deleted project_id user_id ps in
    if str_eq p.id project_id && str_eq p.user_id user_id && not p.is_deleted
    then (record p { is_deleted = true } ∷ rest.0, true)
    else (p ∷ rest.0, rest.1)

-- `committed` says whether every statement of the transaction, its commit included, succeeds.
unfoldable pub delete_project : Database → Bool → String → String → Database × DbResult Bool
unfolding deleted
delete_project db committed project_id user_id =
    if committed
    then (
      record db { projects = (deleted project_id user_id db.projects).0 },
      ok (deleted project_id user_id db.projects).1,
    )
    else (db, failed)

-- The INSERT fails on a key that the table has.
unfoldable pub has_id : String → List Project → Bool
has_id id [] = false
has_id id (p ∷ ps) = str_eq p.id id || has_id id ps

unfoldable pub create_project : Database → String → String → Database × DbResult Project
unfolding has_id
create_project db id user_id =
    let p : Project = record { id = id; user_id = user_id; is_deleted = false } in
    if db.available && not (has_id id db.projects)
    then (record db { projects = p ∷ db.projects }, ok p)
    else (db, failed)

-- FROM projects p WHERE p.user_id = $1 AND p.deleted_at IS NULL
pub owned : String → List Project → List Project
owned user_id [] = []
owned user_id (p ∷ ps) =
    let rest = owned user_id ps in
    if str_eq p.user_id user_id && not p.is_deleted then p ∷ rest else rest

-- ORDER BY … LIMIT $2 OFFSET $3
abbrev pub page {ℓ} : {A : Type ℓ} → ℕ → ℕ → List A → List A
page limit offset rows = take limit (drop offset rows)

-- `projects` is in the order of updated_at, the latest first.
pub get_user_owned_projects_paginated : Database → String → ℕ → ℕ → DbResult (List Project × ℕ)
unfolding owned
get_user_owned_projects_paginated db user_id limit offset =
    query db (page limit offset (owned user_id db.projects), length (owned user_id db.projects))
