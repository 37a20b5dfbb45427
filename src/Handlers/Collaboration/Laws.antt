-- ===== src/Handlers/Collaboration/Laws.antt =====
-- backend/internal/handlers/collaboration.go: the role of a new collaborator, and what likes leave.
use purp_tape.Base.{
  ◌≡◌, refl, sym, ap, ◌∙◌, subst, ◌⊎◌, ◌≢◌, inl, inr, Bool, Bool-cases, true, false, ◌&&◌, String,
  Option-cases, none, some, List, [], ◌∷◌, arith, str_eq, if◌then◌else◌, eq_iff,
}
use purp_tape.Http.{Request, Answer, done, IsRefused}
use purp_tape.Db.{Database, Collaborator, Project, ok}
use purp_tape.Db.Roles.{find_project, get_user_role_optimized}
use purp_tape.Db.Collaborators
use purp_tape.Db.Collaborators.{User, get_user_by_email, upsert_collaborator}
use purp_tape.Db.Collaborators.Laws.{IsPresent, get_user_role_optimized-upsert}
use purp_tape.Db.Follows.{has_pair, create_like, delete_like}
use purp_tape.Db.Follows.Laws.{same, has_pair-inserted, has_pair-deleted}
use purp_tape.Helpers.Requests.{get_user_id}
use purp_tape.Handlers.Shares.Links.{owns}
use purp_tape.Handlers.Collaboration.{
  added, add_user, add_as, add_collaborator, answered, like_track, unlike_track,
}

not_same : (a b : String) → a ≢ b → str_eq a b ≡ false
not_same a b n = ground (arith, eq_iff a b, n)

module _ (db : Database) (users : List User) (r : Request) (reached : Bool) where
  -- A refused request changes nothing.
  abbrev pub IsKept : Database × Answer Collaborator → Type 0
  IsKept result = (result.0 ≡ db) × IsRefused result.1

  abbrev pub project_id : String
  project_id = r.path_value "project_id"

  -- The user of an e-mail address as a collaborator of the project of the request.
  abbrev pub invited : User → String → Collaborator
  invited u role = record {
    project_id = project_id;
    user_id = u.id;
    role = role;
    is_deleted = false;
  }

  abbrev pub IsOwner : String → Type 0
  IsOwner user_id = (get_user_id r ≡ some user_id) × (owns db project_id user_id ≡ true)

  added_of : Collaborator → Database × Answer Collaborator
  added_of new =
      (record db { collaborators = upsert_collaborator new db.collaborators }, done 201 new)

  added_cases :
      (new : Collaborator)
      → IsKept (added db users r reached new)
        ⊎ ((reached ≡ true) × (added db users r reached new ≡ added_of new))
  unfolding added Collaborators.add_collaborator added_of
  added_cases new = elim (Bool-cases reached) [
    | inl up ↦ inr (up, rw up)
    | inr down ↦ inl (rw down, ([], 500, "failed to add collaborator", rw down))
  ]

  add_user_cases :
      (user_id role : String) (u : User)
      → IsKept (add_user db users r reached user_id role (ok u))
        ⊎ ((reached ≡ true)
            × (u.id ≢ user_id)
            × (add_user db users r reached user_id role (ok u) ≡ added_of (invited u role)))
  unfolding add_user
  add_user_cases user_id role u = elim (Bool-cases (str_eq u.id user_id)) [
    | inl self ↦ inl (rw self, ([], 400, "cannot add yourself as collaborator", rw self))
    | inr other ↦ elim (added_cases (invited u role)) [
      | inl kept ↦ inl (rw other kept)
      | inr (up, q) ↦ inr (up, λ e. ground (arith, other, eq_iff u.id user_id, e), rw other q)
    ]
  ]

  add_as_cases :
      (user_id email role : String) (u : User)
      → get_user_by_email db email users ≡ ok u
      → IsKept (add_as db users r reached user_id (some (email, role)))
        ⊎ ((owns db project_id user_id ≡ true)
            × (reached ≡ true)
            × (u.id ≢ user_id)
            × (add_as db users r reached user_id (some (email, role)) ≡ added_of (invited u role)))
  unfolding add_as
  add_as_cases user_id email role u known = elim (Bool-cases (owns db project_id user_id)) [
    | inr stranger ↦ inl (rw stranger, ([], 403, "forbidden", rw stranger))
    | inl owner ↦
        let q : add_as db users r reached user_id (some (email, role))
            ≡ add_user db users r reached user_id role (ok u) =
          rw (owner, known) in
        elim (add_user_cases user_id role u) [
          | inl kept ↦ inl (subst IsKept (sym q) kept)
          | inr (up, other, e) ↦ inr (owner, up, other, q ∙ e)
        ]
  ]

  -- The role query returns the role for the user in the database after the request.
  abbrev pub IsAdded : User → String → Database × Answer Collaborator → Type 0
  IsAdded u role result =
      (result.1 ≡ done 201 (invited u role))
      × (get_user_role_optimized result.0 project_id u.id ≡ ok role)

  added_of-IsAdded :
      (role : String) (u : User) (p : Project)
      → db.available ≡ true
      → find_project project_id db.projects ≡ some p
      → p.user_id ≢ u.id
      → IsPresent project_id u.id db.collaborators
      → IsAdded u role (added_of (invited u role))
  unfolding added_of
  added_of-IsAdded role u p up found n present =
      (refl, get_user_role_optimized-upsert db (invited u role) p up found n refl present)

  made :
      (user_id email role : String) (u : User)
      → get_user_by_email db email users ≡ ok u
      → IsOwner user_id
      → u.id ≢ user_id
      → reached ≡ true
      → add_collaborator db users r reached (some (email, role)) ≡ added_of (invited u role)
  unfolding add_collaborator add_as add_user added Collaborators.add_collaborator added_of
  made user_id email role u known (e, owner) other there =
      rw (e, add_collaborator, owner, known, not_same u.id user_id other, there)

  -- A request to add a known user to a project of somebody else than him, in which he has no deleted row,
  -- is either refused, and then changes nothing, or it is of the owner of the project, and the role query
  -- then returns for the new collaborator the role of the request, whatever that is. The latter happens
  -- to every request of the owner for another user whose statement is executed.
  pub add_collaborator-role :
      (email role : String) (u : User) (p : Project)
      → get_user_by_email db email users ≡ ok u
      → db.available ≡ true
      → find_project project_id db.projects ≡ some p
      → p.user_id ≢ u.id
      → IsPresent project_id u.id db.collaborators
      → (IsKept (add_collaborator db users r reached (some (email, role)))
          ⊎ ((user_id : String) × IsOwner user_id
              × IsAdded u role (add_collaborator db users r reached (some (email, role)))))
        × ((user_id : String)
            → IsOwner user_id
            → u.id ≢ user_id
            → reached ≡ true
            → IsAdded u role (add_collaborator db users r reached (some (email, role))))
  unfolding add_collaborator
  add_collaborator-role email role u p known up found n present = (
    elim (Option-cases (get_user_id r)) [
      | inl e ↦ inl (rw (e, add_collaborator), ([], 401, "unauthorized", rw (e, add_collaborator)))
      | inr (user_id, e) ↦
          let q : add_collaborator db users r reached (some (email, role))
              ≡ add_as db users r reached user_id (some (email, role)) =
            rw (e, add_collaborator) in
          elim (add_as_cases user_id email role u known) [
            | inl kept ↦ inl (subst IsKept (sym q) kept)
            | inr (owner, there, other, q') ↦ inr (
              user_id,
              (e, owner),
              subst (IsAdded u role) (sym (q ∙ q')) (added_of-IsAdded role u p up found n present),
            )
          ]
    ],
    λ user_id owner other there.
        let q : add_collaborator db users r reached (some (email, role))
            ≡ added_of (invited u role) =
          made user_id email role u known owner other there in
        subst (IsAdded u role) (sym q) (added_of-IsAdded role u p up found n present),
  )

-- A request about a track, and whether its statement is executed.
pub data Action : Type 0 where
  like : Bool → Request → Action
  unlike : Bool → Request → Action

pub act_all : List Action → List (String × String) → List (String × String)
act_all [] rows = rows
act_all (like reached r ∷ actions) rows = act_all actions (like_track rows r reached).0
act_all (unlike reached r ∷ actions) rows = act_all actions (unlike_track rows r reached).0

-- The request is of the user, about the track.
unfoldable pub is_about : String → String → Request → Bool
is_about user_id track_id r = elim (get_user_id r) [
  | none ↦ false
  | some u ↦ same u (r.path_value "track_id") user_id track_id
]

-- The specification of one like: the last action of the user on the track.
unfoldable pub liked : String → String → List Action → Bool → Bool
liked user_id track_id [] old = old
liked user_id track_id (like reached r ∷ actions) old =
    liked user_id track_id actions (if reached && is_about user_id track_id r then true else old)
liked user_id track_id (unlike reached r ∷ actions) old =
    liked user_id track_id actions (if reached && is_about user_id track_id r then false else old)

has_pair-like :
    (x y : String) (rows : List (String × String)) (reached : Bool) (r : Request)
    → has_pair x y (like_track rows r reached).0
      ≡ (if reached && is_about x y r then true else has_pair x y rows)
unfolding like_track answered create_like is_about
has_pair-like x y rows reached r = elim (Option-cases (get_user_id r)) [
  | inl e ↦ ground (arith, e)
  | inr (u, e) ↦
      let new = has_pair-inserted u (r.path_value "track_id") x y rows in ground (arith, e, new)
]

has_pair-unlike :
    (x y : String) (rows : List (String × String)) (reached : Bool) (r : Request)
    → has_pair x y (unlike_track rows r reached).0
      ≡ (if reached && is_about x y r then false else has_pair x y rows)
unfolding unlike_track answered delete_like is_about
has_pair-unlike x y rows reached r = elim (Option-cases (get_user_id r)) [
  | inl e ↦ ground (arith, e)
  | inr (u, e) ↦
      let new = has_pair-deleted u (r.path_value "track_id") x y rows in ground (arith, e, new)
]

-- After any likes and their withdrawals, a user likes a track if his last executed request on it was a
-- like, or, without one, if he did before: the table refines a set.
pub act_all-liked :
    (x y : String) (actions : List Action) (rows : List (String × String))
    → has_pair x y (act_all actions rows) ≡ liked x y actions (has_pair x y rows)
unfolding act_all liked
act_all-liked x y [] rows = refl
act_all-liked x y (like reached r ∷ actions) rows =
    act_all-liked x y actions (like_track rows r reached).0
    ∙ ap (liked x y actions) (has_pair-like x y rows reached r)
act_all-liked x y (unlike reached r ∷ actions) rows =
    act_all-liked x y actions (unlike_track rows r reached).0
    ∙ ap (liked x y actions) (has_pair-unlike x y rows reached r)
