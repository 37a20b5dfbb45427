-- ===== src/Db/Projects/Laws.antt =====
-- Which projects a query finds, after deletions too, and the pages of a list.
use purp_tape.Base.{
  ◌≡◌, refl, ap, ◌∙◌, if◌then◌else◌, ◌≢◌, false, String, none, List, [], ◌∷◌, All, arith, eq_iff,
}
use purp_tape.Db.{Database, Project, ProjectShare, failed}
use purp_tape.Db.Roles.{is_shared}
use purp_tape.Db.Projects.{is_visible, find_visible, deleted, row_of, get_project_by_id}

is_shared-nameless :
    (project_id : String) (shares : List ProjectShare)
    → All (λ s. s.shared_with_id ≢ "") shares
    → is_shared project_id "" shares ≡ false
unfolding is_shared
is_shared-nameless project_id [] h = refl
is_shared-nameless project_id (s ∷ shares) (here, rest) =
    ground (arith, eq_iff s.shared_with_id "", is_shared-nameless project_id shares rest)

find_visible-nameless :
    (db : Database) (project_id : String) (projects : List Project)
    → All (λ p. p.user_id ≢ "") projects
    → All (λ s. s.shared_with_id ≢ "") db.project_shares
    → find_visible db project_id "" projects ≡ none
unfolding find_visible is_visible
find_visible-nameless db project_id [] named shared = refl
find_visible-nameless db project_id (p ∷ projects) (here, rest) shared = ground (
  arith,
  eq_iff p.user_id "",
  is_shared-nameless p.id db.project_shares shared,
  find_visible-nameless db project_id projects rest shared,
)

-- A user without a name sees no project.
pub get_project_by_id-nameless :
    (db : Database) (project_id : String)
    → All (λ p. p.user_id ≢ "") db.projects
    → All (λ s. s.shared_with_id ≢ "") db.project_shares
    → get_project_by_id db project_id "" ≡ failed
unfolding get_project_by_id
get_project_by_id-nameless db project_id named shared =
    ground (arith, find_visible-nameless db project_id db.projects named shared)

-- The rows with an id are of one user.
abbrev pub IsOwnedBy : String → String → List Project → Type 0
IsOwnedBy project_id user_id projects = All (λ p. p.id ≡ project_id → p.user_id ≡ user_id) projects

find_visible-deleted :
    (db : Database) (project_id user_id other : String) (projects : List Project)
    → IsOwnedBy project_id user_id projects
    → find_visible db project_id other (deleted project_id user_id projects).0 ≡ none
unfolding find_visible is_visible deleted
find_visible-deleted db project_id user_id other [] h = refl
find_visible-deleted db project_id user_id other (p ∷ projects) (here, rest) =
    let ih = find_visible-deleted db project_id user_id other projects rest in
    ground (arith, ih, here, eq_iff p.id project_id, eq_iff p.user_id user_id)

find_visible-others :
    (db : Database) (project_id user_id id other : String) (projects : List Project)
    → id ≢ project_id
    → find_visible db id other (deleted project_id user_id projects).0
      ≡ find_visible db id other projects
unfolding find_visible is_visible deleted
find_visible-others db project_id user_id id other [] n = refl
find_visible-others db project_id user_id id other (p ∷ projects) n =
    let ih = find_visible-others db project_id user_id id other projects n in
    ground (arith, ih, n, eq_iff p.id project_id, eq_iff p.id id)

find_visible_db :
    (db : Database) (rows : List Project) (id other : String) (projects : List Project)
    → find_visible (record db { projects = rows }) id other projects
      ≡ find_visible db id other projects
unfolding find_visible is_visible
find_visible_db db rows id other [] = refl
find_visible_db db rows id other (p ∷ projects) =
    let ih = find_visible_db db rows id other projects in ground (arith, ih)

-- A deleted project is found for nobody, and the others as before.
pub get_project_by_id-deleted :
    (db : Database) (project_id user_id other : String)
    → IsOwnedBy project_id user_id db.projects
    → get_project_by_id
        (record db { projects = (deleted project_id user_id db.projects).0 })
        project_id
        other
      ≡ failed
unfolding get_project_by_id
get_project_by_id-deleted db project_id user_id other h =
    let rows = (deleted project_id user_id db.projects).0 in
    let e =
      find_visible_db db rows project_id other rows
      ∙ find_visible-deleted db project_id user_id other db.projects h in
    ground (arith, e)

pub get_project_by_id-others :
    (db : Database) (project_id user_id id other : String)
    → id ≢ project_id
    → get_project_by_id
        (record db { projects = (deleted project_id user_id db.projects).0 })
        id
        other
      ≡ get_project_by_id db id other
unfolding get_project_by_id
get_project_by_id-others db project_id user_id id other n =
    let rows = (deleted project_id user_id db.projects).0 in
    let e =
      find_visible_db db rows id other rows
      ∙ find_visible-others db project_id user_id id other db.projects n in
    ap (λ x. if db.available then row_of x else failed) e
