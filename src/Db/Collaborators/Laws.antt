-- ===== src/Db/Collaborators/Laws.antt =====
-- backend/internal/db: the role that a user has after AddCollaborator.
use purp_tape.Base.{
  ◌≡◌, refl, ◌≢◌, inl, inr, Bool, Bool-cases, true, false, ◌&&◌, ◌||◌, String, none, some, List, [],
  ◌∷◌, All, arith, str_eq, eq_iff, eq_refl,
}
use purp_tape.Db.{Database, Collaborator, Project, ok}
use purp_tape.Db.Roles.{
  find_project, find_collaborator, role_of, select_role, scanned, get_user_role_optimized,
}
use purp_tape.Db.Collaborators.{upsert_collaborator}

-- The rows of the pair are not deleted.
abbrev pub IsPresent : String → String → List Collaborator → Type 0
IsPresent project_id user_id cs =
    All
      (λ c.
        (str_eq c.project_id project_id && str_eq c.user_id user_id) ≡ true → c.is_deleted ≡ false)
      cs

-- The table has a row of the pair, deleted or not.
pub has_row : Collaborator → List Collaborator → Bool
has_row new [] = false
has_row new (c ∷ cs) =
    (str_eq c.project_id new.project_id && str_eq c.user_id new.user_id) || has_row new cs

pub find_collaborator-upsert :
    (new : Collaborator) (cs : List Collaborator)
    → new.is_deleted ≡ false
    → IsPresent new.project_id new.user_id cs
    → (c : Collaborator) × (find_collaborator new.project_id new.user_id
          (upsert_collaborator new cs)
        ≡ some c)
      × (c.role ≡ new.role)
unfolding upsert_collaborator find_collaborator
find_collaborator-upsert new [] there present =
    (new, rw (eq_refl new.project_id, eq_refl new.user_id, there), refl)
find_collaborator-upsert new (c ∷ cs) there (here, rest) =
    elim (Bool-cases (str_eq c.project_id new.project_id && str_eq c.user_id new.user_id)) [
      | inl it ↦
          let kept : c.is_deleted ≡ false = here it in
          (record c { role = new.role }, ground (arith, it, kept), refl)
      | inr other ↦
          let (d, found, role) = find_collaborator-upsert new cs there rest in
          (d, ground (arith, other, found), role)
    ]

select_role-upsert :
    (db : Database) (new : Collaborator) (p : Project)
    → find_project new.project_id db.projects ≡ some p
    → p.user_id ≢ new.user_id
    → new.is_deleted ≡ false
    → IsPresent new.project_id new.user_id db.collaborators
    → select_role
        (record db { collaborators = upsert_collaborator new db.collaborators })
        new.project_id
        new.user_id
      ≡ some new.role
unfolding select_role role_of
select_role-upsert db new p found n there present =
    let (c, row, role) = find_collaborator-upsert new db.collaborators there present in
    let other : str_eq p.user_id new.user_id ≡ false =
      ground (arith, eq_iff p.user_id new.user_id, n) in
    ground (arith, found, row, other, role)

-- The role query returns the role of the new row, for a user who does not own the project, if no row of
-- his in the project is deleted.
pub get_user_role_optimized-upsert :
    (db : Database) (new : Collaborator) (p : Project)
    → db.available ≡ true
    → find_project new.project_id db.projects ≡ some p
    → p.user_id ≢ new.user_id
    → new.is_deleted ≡ false
    → IsPresent new.project_id new.user_id db.collaborators
    → get_user_role_optimized
        (record db { collaborators = upsert_collaborator new db.collaborators })
        new.project_id
        new.user_id
      ≡ ok new.role
unfolding get_user_role_optimized scanned
get_user_role_optimized-upsert db new p up found n there present =
    let e = select_role-upsert db new p found n there present in ground (arith, up, e)

-- A row of the pair that is deleted stays so.
pub find_collaborator-deleted :
    (new : Collaborator) (cs : List Collaborator)
    → find_collaborator new.project_id new.user_id cs ≡ none
    → has_row new cs ≡ true
    → find_collaborator new.project_id new.user_id (upsert_collaborator new cs) ≡ none
unfolding upsert_collaborator find_collaborator has_row
find_collaborator-deleted new [] absent row = absurd (ground arith)
find_collaborator-deleted new (c ∷ cs) absent row =
    elim (Bool-cases (str_eq c.project_id new.project_id && str_eq c.user_id new.user_id)) [
      | inl it ↦ ground (arith, it, absent)
      | inr other ↦
          let a : find_collaborator new.project_id new.user_id cs ≡ none =
            ground (arith, other, absent) in
          let r : has_row new cs ≡ true = ground (arith, other, row) in
          let ih = find_collaborator-deleted new cs a r in ground (arith, other, ih)
    ]
