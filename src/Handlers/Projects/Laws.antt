-- ===== src/Handlers/Projects/Laws.antt =====
-- backend/internal/handlers/projects.go: what a deletion leaves for everyone.
use purp_tape.Base.{◌≡◌, sym, ap, ◌∙◌, ◌≢◌, inl, inr, Bool, Bool-cases, String, some, arith}
use purp_tape.Http.{Request, done}
use purp_tape.Db.{Database, failed}
use purp_tape.Db.Projects
use purp_tape.Db.Projects.{deleted, get_project_by_id}
use purp_tape.Db.Projects.Laws.{IsOwnedBy, get_project_by_id-deleted, get_project_by_id-others}
use purp_tape.Helpers.Requests.{get_user_id}
use purp_tape.Handlers.Projects.{delete_answer, deleted_by, delete_project}

module _ (db : Database) (r : Request) (committed : Bool) where
  abbrev project_id : String
  project_id = r.path_value "id"

  deleted_by-done :
      (user_id : String)
      → (deleted_by db r (Projects.delete_project db committed project_id user_id)).1 ≡ done 204 tt
      → (deleted_by db r (Projects.delete_project db committed project_id user_id)).0
        ≡ record db { projects = (deleted project_id user_id db.projects).0 }
  unfolding deleted_by delete_answer Projects.delete_project
  deleted_by-done user_id h = elim (Bool-cases committed) [
    | inl c ↦ rw c
    | inr c ↦ absurd (ground (arith, h, c))
  ]

  -- After a project is deleted for its owner, whose the rows with its id are, nobody finds it, and every
  -- other project is found by whom it was found before.
  pub delete_project-done :
      (user_id : String)
      → get_user_id r ≡ some user_id
      → (delete_project db r committed).1 ≡ done 204 tt
      → IsOwnedBy project_id user_id db.projects
      → ((other : String)
          → get_project_by_id (delete_project db r committed).0 project_id other ≡ failed)
        × ((id other : String)
            → id ≢ project_id
            → get_project_by_id (delete_project db r committed).0 id other
              ≡ get_project_by_id db id other)
  unfolding delete_project
  delete_project-done user_id u h own =
      let as_user : delete_project db r committed
          ≡ deleted_by db r (Projects.delete_project db committed project_id user_id) =
        ground (arith, u) in
      let after =
        ap (λ x. x.0) as_user ∙ deleted_by-done user_id (ap (λ x. x.1) (sym as_user) ∙ h) in
      (
        λ other.
            ap (λ d. get_project_by_id d project_id other) after
            ∙ get_project_by_id-deleted db project_id user_id other own,
        λ id other n.
            ap (λ d. get_project_by_id d id other) after
            ∙ get_project_by_id-others db project_id user_id id other n,
      )
