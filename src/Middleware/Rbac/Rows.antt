-- ===== src/Middleware/Rbac/Rows.antt =====
-- What the role guards mean for the rows of the database.
use mathlib.Core.List.{Memᴰ}
use mathlib.Core.List.Memᴰ.{head, tail}
use purp_tape.Base.{
  ◌≡◌, ◌≢◌, refl, sym, ap, ◌∙◌, not, ◌&&◌, ◌⊎◌, inl, inr, true, false, String, Option, none, some,
  List, [], ◌∷◌, map, arith, eq_iff, subst, Bool-cases, str_eq,
}
use purp_tape.Db.{Database, ok, Project, Collaborator}
use purp_tape.Db.Roles.{get_user_role_optimized, find_project, find_collaborator}
use purp_tape.Http.{Request, error}
use purp_tape.Middleware.Rbac.{rbac_middleware}
use purp_tape.Middleware.Rbac.Laws.{CanModify, not-CanModify_denied, not-CanModify_viewer}

found_rows :
    (db : Database) (project_id user_id role : String)
    → get_user_role_optimized db project_id user_id ≡ ok role
    → CanModify role
    → (p : Project) × (find_project project_id db.projects ≡ some p)
      × ((p.user_id ≡ user_id)
          ⊎ ((c : Collaborator) × (find_collaborator project_id user_id db.collaborators ≡ some c)
              × CanModify c.role))
unfolding get_user_role_optimized
found_rows db project_id user_id role h m = with_project (find_project project_id db.projects) refl
  where
    with_collaborator :
        (p : Project)
        → find_project project_id db.projects ≡ some p
        → (o : Option Collaborator) → find_collaborator project_id user_id db.collaborators ≡ o
        → (p.user_id ≡ user_id)
          ⊎ ((c : Collaborator) × (find_collaborator project_id user_id db.collaborators ≡ some c)
              × CanModify c.role)
    with_collaborator p e none e' =
        let cases : (p.user_id ≡ user_id) ⊎ (role ≡ "viewer") ⊎ (role ≡ "denied") =
          ground (arith, eq_iff p.user_id user_id) in
        elim cases [
          | inl same ↦ inl same
          | inr (inl e'') ↦ absurd (not-CanModify_viewer (subst CanModify e'' m))
          | inr (inr e'') ↦ absurd (not-CanModify_denied (subst CanModify e'' m))
        ]
    with_collaborator p e (some c) e' =
        let cases : (p.user_id ≡ user_id) ⊎ (role ≡ c.role) =
          ground (arith, eq_iff p.user_id user_id) in
        elim cases [ inl same ↦ inl same | inr e'' ↦ inr (c, e', subst CanModify e'' m) ]

    with_project :
        (o : Option Project)
        → find_project project_id db.projects ≡ o
        → (p : Project) × (find_project project_id db.projects ≡ some p)
          × ((p.user_id ≡ user_id)
              ⊎ ((c : Collaborator) × (find_collaborator project_id user_id db.collaborators
                    ≡ some c)
                  × CanModify c.role))
    with_project none e =
        let denied : role ≡ "denied" = ground arith in
        absurd (not-CanModify_denied (subst CanModify denied m))
    with_project (some p) e =
        (p, e, with_collaborator p e (find_collaborator project_id user_id db.collaborators) refl)

-- A row of the project of the collaborator.
abbrev pub IsRowOf : String → String → Collaborator → Type 0
IsRowOf project_id user_id c =
    (c.project_id ≡ project_id) × (c.user_id ≡ user_id) × (c.is_deleted ≡ false)

find_project_row :
    (project_id : String) (ps : List Project) (p : Project)
    → find_project project_id ps ≡ some p
    → Memᴰ p ps × (p.id ≡ project_id)
unfolding get_user_role_optimized
find_project_row project_id [] p h = absurd (ground (arith, h))
find_project_row project_id (q ∷ ps) p h = elim (Bool-cases (str_eq q.id project_id)) [
  | inl e ↦
      let same : q ≡ p = ground (arith, h, e) in
      (head (sym same), ap (λ x. x.id) (sym same) ∙ (eq_iff q.id project_id).0 e)
  | inr e ↦
      let later : find_project project_id ps ≡ some p = ground (arith, h, e) in
      let row = find_project_row project_id ps p later in (tail row.0, row.1)
]

find_collaborator_row :
    (project_id user_id : String) (cs : List Collaborator) (c : Collaborator)
    → find_collaborator project_id user_id cs ≡ some c
    → Memᴰ c cs × IsRowOf project_id user_id c
unfolding get_user_role_optimized
find_collaborator_row project_id user_id [] c h = absurd (ground (arith, h))
find_collaborator_row project_id user_id (d ∷ cs) c h =
    elim (Bool-cases
      (str_eq d.project_id project_id && str_eq d.user_id user_id && not d.is_deleted)) [
        | inl e ↦
            let same : d ≡ c = ground (arith, h, e) in
            let row : IsRowOf project_id user_id d = (
              ground (arith, e, eq_iff d.project_id project_id),
              ground (arith, e, eq_iff d.user_id user_id),
              ground (arith, e),
            ) in
            (head (sym same), subst (IsRowOf project_id user_id) same row)
        | inr e ↦
            let later : find_collaborator project_id user_id cs ≡ some c = ground (arith, h, e) in
            let row = find_collaborator_row project_id user_id cs c later in (tail row.0, row.1)
      ]

-- A role that may modify a project is given only by rows of the database: there is a project with that
-- id, and the user owns it, or a row of collaborators that is not deleted has that project, that
-- user and such a role. A share never gives one.
pub modifier_rows :
    (db : Database) (project_id user_id role : String)
    → get_user_role_optimized db project_id user_id ≡ ok role
    → CanModify role
    → (p : Project) × Memᴰ p db.projects
      × (p.id ≡ project_id)
      × ((p.user_id ≡ user_id)
          ⊎ ((c : Collaborator) × Memᴰ c db.collaborators
              × IsRowOf project_id user_id c
              × CanModify c.role))
modifier_rows db project_id user_id role h m =
    let (p, found, by) = found_rows db project_id user_id role h m in
    let row = find_project_row project_id db.projects p found in
    (
      p,
      row.0,
      row.1,
      elim by [
        | inl owner ↦ inl owner
        | inr (c, found_c, can) ↦
            let row_c = find_collaborator_row project_id user_id db.collaborators c found_c in
            inr (c, row_c.0, row_c.1, can)
      ],
    )

-- The same rows with every project marked as deleted.
abbrev pub delete_all : List Project → List Project
delete_all = map (λ (p : Project). record p { is_deleted = true })

find-delete_all :
    (project_id : String) (ps : List Project)
    → ((find_project project_id ps ≡ none) × (find_project project_id (delete_all ps) ≡ none))
      ⊎ ((p : Project) × (find_project project_id ps ≡ some p)
          × (find_project project_id (delete_all ps) ≡ some (record p { is_deleted = true })))
unfolding get_user_role_optimized
find-delete_all project_id [] = inl (refl, refl)
find-delete_all project_id (p ∷ ps) = elim (Bool-cases (str_eq p.id project_id)) [
  | inl e ↦ inr (p, rw e, rw e)
  | inr e ↦ rw e (find-delete_all project_id ps)
]

-- The query does not look at deleted_at: a project keeps its roles when it is soft-deleted.
pub role_of_deleted :
    (db : Database) (project_id user_id : String)
    → get_user_role_optimized (record db { projects = delete_all db.projects }) project_id user_id
      ≡ get_user_role_optimized db project_id user_id
unfolding get_user_role_optimized
role_of_deleted db project_id user_id = ground (arith, find-delete_all project_id db.projects)

-- A request of a named user for a project that does not exist is answered as an internal error, and
-- not as denied, where the driver's error for a query without a row is not `sql.ErrNoRows` itself.
pub rbac_middleware-unknown_project :
    (db : Database) (r : Request) (user_id : String)
    → db.available ≡ true
    → db.no_rows_is_sql ≡ false
    → r.context "user_id" ≡ some user_id
    → user_id ≢ ""
    → r.path_value "project_id" ≢ ""
    → find_project (r.path_value "project_id") db.projects ≡ none
    → rbac_middleware db r ≡ error [] 500 "internal server error"
unfolding rbac_middleware get_user_role_optimized
rbac_middleware-unknown_project db r user_id up driver user named project missing =
    ground (arith, eq_iff user_id "", eq_iff (r.path_value "project_id") "")
