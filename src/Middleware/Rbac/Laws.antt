-- ===== src/Middleware/Rbac/Laws.antt =====
-- Who passes the role guards.
use purp_tape.Base.{
  ◌≡◌, refl, ◌⊎◌, inl, inr, ◌≢◌, ◌↔◌, true, String, Option, none, some, arith, eq_iff, insert,
  subst,
}
use purp_tape.Http.{Request, error, next}
use purp_tape.Db.{Database, DbResult, ok, failed}
use purp_tape.Db.Roles.{get_user_role_optimized}
use purp_tape.Middleware.Rbac.{
  rbac_middleware, check_role_access, hierarchy, enforce_modification_access, and_then,
}

-- Who has a role that a second role suffices for has every role that the second one has.
pub check_role_access_trans :
    (a b c : String)
    → check_role_access a b ≡ true
    → check_role_access b c ≡ true
    → check_role_access a c ≡ true
unfolding check_role_access
check_role_access_trans a b c p q = ground arith

-- The roles that may modify content.
abbrev pub CanModify : String → Type 0
CanModify role = (role ≡ "editor") ⊎ (role ≡ "collaborator") ⊎ (role ≡ "owner")

check_editor : (role : String) → check_role_access role "editor" ≡ true → CanModify role
unfolding check_role_access hierarchy
check_editor role h =
    ground (arith, eq_iff role "editor", eq_iff role "collaborator", eq_iff role "owner")

check_editor_of : (role : String) → CanModify role → check_role_access role "editor" ≡ true
unfolding check_role_access hierarchy
check_editor_of role (inl e) = rw e
check_editor_of role (inr (inl e)) = rw e
check_editor_of role (inr (inr e)) = rw e

pub not-CanModify_denied : ¬ CanModify "denied"
not-CanModify_denied (inl e) = ground (arith, eq_iff "denied" "editor")
not-CanModify_denied (inr (inl e)) = ground (arith, eq_iff "denied" "collaborator")
not-CanModify_denied (inr (inr e)) = ground (arith, eq_iff "denied" "owner")

pub not-CanModify_viewer : ¬ CanModify "viewer"
not-CanModify_viewer (inl e) = ground (arith, eq_iff "viewer" "editor")
not-CanModify_viewer (inr (inl e)) = ground (arith, eq_iff "viewer" "collaborator")
not-CanModify_viewer (inr (inr e)) = ground (arith, eq_iff "viewer" "owner")

-- The request is a modification of a project by a user whom the database gives a role that may
-- modify it.
pub record MayModify (db : Database) (r : Request) (user_id role : String) : Type 0 where
  pub user : r.context "user_id" ≡ some user_id
  pub user_named : user_id ≢ ""
  pub project_named : r.path_value "project_id" ≢ ""
  pub granted : get_user_role_optimized db (r.path_value "project_id") user_id ≡ ok role
  pub may_modify : CanModify role

module _ (db : Database) (r : Request) where
  passes_of :
      (r' : Request)
      → and_then (rbac_middleware db r) enforce_modification_access ≡ next r'
      → (user_id role : String) × MayModify db r user_id role
  unfolding rbac_middleware enforce_modification_access
  passes_of r' h = with_user (r.context "user_id") refl
    where
      with_result :
          (user_id : String)
          → r.context "user_id" ≡ some user_id
          → (result : DbResult String)
          → get_user_role_optimized db (r.path_value "project_id") user_id ≡ result
          → (u role : String) × MayModify db r u role
      with_result user_id u failed e = absurd (ground arith)
      with_result user_id u (ok role) e = (
        user_id,
        role,
        record {
          user = u;
          user_named = ground (arith, eq_iff user_id "");
          project_named = ground (arith, eq_iff (r.path_value "project_id") "");
          granted = e;
          may_modify = check_editor role (ground arith);
        },
      )

      with_user :
          (o : Option String) → r.context "user_id" ≡ o → (u role : String) × MayModify db r u role
      with_user none e = absurd (ground arith)
      with_user (some user_id) e =
          with_result user_id e (get_user_role_optimized db (r.path_value "project_id") user_id)
            refl

  -- What the handler gets: the request with the project and the role in its context.
  abbrev pub admitted : String → Request
  admitted role = record r {
    context = insert "project_id" (r.path_value "project_id") (insert "user_role" role r.context);
  }

  passes_if :
      (user_id role : String)
      → MayModify db r user_id role
      → and_then (rbac_middleware db r) enforce_modification_access ≡ next (admitted role)
  unfolding rbac_middleware enforce_modification_access
  passes_if user_id role m =
      let not_denied : role ≢ "denied" =
        λ e. not-CanModify_denied (subst CanModify e m.may_modify) in
      ground (
        arith,
        eq_iff user_id "",
        eq_iff (r.path_value "project_id") "",
        eq_iff role "denied",
        not_denied,
        check_editor_of role m.may_modify,
      )

  -- A request passes RBACMiddleware followed by EnforceModificationAccess, which the router installs for
  -- none of its routes, exactly if it names a user and a project, the database answers, and the role
  -- that it gives there is editor, collaborator or owner.
  pub modification_iff :
      ((r' : Request) × (and_then (rbac_middleware db r) enforce_modification_access ≡ next r'))
      ↔ ((user_id role : String) × MayModify db r user_id role)
  modification_iff = (λ h. passes_of h.0 h.1, λ m. (admitted m.1, passes_if m.0 m.1 m.2))

-- The role is read from the database alone: whatever headers the client sends, X-User-Role and
-- X-Is-Owner among them, the middleware gives the same answer and stores the same context.
pub rbac-header :
    (db : Database) (r : Request) (header : String → String)
    → rbac_middleware db (record r { header = header }) ≡ (elim (rbac_middleware db r) [
      | error headers status message ↦ error headers status message
      | next r' ↦ next (record r' { header = header })
    ])
unfolding rbac_middleware
rbac-header db r header = ground arith
