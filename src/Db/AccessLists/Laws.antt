-- ===== src/Db/AccessLists/Laws.antt =====
-- db/queries.go: the list of a user's projects, and the check of a single one.
use purp_tape.Base.{◌≡◌, refl, true, ◌||◌, String, List, [], ◌∷◌, arith, eq_iff, str_eq, All}
use purp_tape.Db.{UserProjectAccess}
use purp_tape.Db.AccessLists.{contains, add_distinct, is_access_type, project_ids, has_project}

-- CHECK (access_type IN ('owner', 'collaborator', 'shared')) of the table.
abbrev pub Checked : List UserProjectAccess → Type 0
Checked rows = All (λ row. is_access_type row.access_type ≡ true) rows

contains-add_distinct :
    (x y : String) (xs : List String)
    → contains (add_distinct x xs) y ≡ (str_eq x y || contains xs y)
unfolding add_distinct contains
contains-add_distinct x y xs = ground (arith, eq_iff x y)

pub contains-project_ids :
    (user_id project_id : String) (rows : List UserProjectAccess)
    → Checked rows
    → contains (project_ids user_id rows) project_id ≡ has_project user_id project_id rows
unfolding contains project_ids has_project
contains-project_ids user_id project_id [] checked = refl
contains-project_ids user_id project_id (row ∷ rows) (type_ok, checked) = ground (
  arith,
  contains-project_ids user_id project_id rows checked,
  contains-add_distinct row.project_id project_id (project_ids user_id rows),
)
