-- ===== src/Handlers/Collaboration.antt =====
-- backend/internal/handlers/collaboration.go: collaborators of a project, likes of tracks, and who follows
-- whom. Likes and follows are the pairs of their tables.
pub mod Laws
mod Tests
use purp_tape.Base.{
  Bool, true, false, not, ◌&&◌, String, Option, none, some, List, [], ◌∷◌, str_eq, if◌then◌else◌,
}
use purp_tape.Http.{Request, Answer, refused, done}
use purp_tape.Db.{Database, DbResult, Collaborator, ok, failed}
use purp_tape.Db.Collaborators
use purp_tape.Db.Collaborators.{User, get_user_by_email}
use purp_tape.Db.Follows.{
  create_like, delete_like, create_follow, delete_follow, get_following, get_followers,
}
use purp_tape.Handlers.Shares.Links.{owns}
use purp_tape.Helpers.Requests.{get_user_id}

module _ (db : Database) (users : List User) (r : Request) where
  unfoldable pub added : Bool → Collaborator → Database × Answer Collaborator
  added reached new = elim (Collaborators.add_collaborator reached new db) [
    | none ↦ (db, refused [] 500 "failed to add collaborator")
    | some after ↦ (after, done 201 new)
  ]

  unfoldable pub add_user :
      Bool → (user_id role : String) → DbResult User → Database × Answer Collaborator
  unfolding added
  add_user reached user_id role failed = (db, refused [] 404 "user not found")
  add_user reached user_id role (ok u) =
      if str_eq u.id user_id
      then (db, refused [] 400 "cannot add yourself as collaborator")
      else added reached (record {
        project_id = r.path_value "project_id";
        user_id = u.id;
        role = role;
        is_deleted = false;
      })

  -- The body is the e-mail address and the role, `none` where it is no JSON.
  unfoldable pub add_as :
      Bool → (user_id : String) → Option (String × String) → Database × Answer Collaborator
  unfolding add_user
  add_as reached user_id none = (db, refused [] 400 "invalid request")
  add_as reached user_id (some (email, role)) =
      if owns db (r.path_value "project_id") user_id
      then add_user reached user_id role (get_user_by_email db email users)
      else (db, refused [] 403 "forbidden")

  unfoldable pub add_collaborator :
      (reached : Bool) → Option (String × String) → Database × Answer Collaborator
  unfolding add_as
  add_collaborator reached body = elim (get_user_id r) [
    | none ↦ (db, refused [] 401 "unauthorized")
    | some user_id ↦ add_as reached user_id body
  ]

module _ (rows : List (String × String)) (r : Request) where
  -- What a handler answers of a statement.
  unfoldable pub answered :
      String → Bool → Option (List (String × String)) → List (String × String) × Answer Bool
  answered message created none = (rows, refused [] 500 message)
  answered message created (some after) = (after, done (if created then 201 else 204) created)

  unfoldable pub like_track : (reached : Bool) → List (String × String) × Answer Bool
  unfolding answered
  like_track reached = elim (get_user_id r) [
    | none ↦ (rows, refused [] 401 "unauthorized")
    | some user_id ↦
        answered "failed to like" true (create_like reached user_id (r.path_value "track_id") rows)
  ]

  unfoldable pub unlike_track : (reached : Bool) → List (String × String) × Answer Bool
  unfolding answered
  unlike_track reached = elim (get_user_id r) [
    | none ↦ (rows, refused [] 401 "unauthorized")
    | some user_id ↦
        answered "failed to unlike" false
          (delete_like reached user_id (r.path_value "track_id") rows)
  ]

  unfoldable pub follow_user : (reached : Bool) → List (String × String) × Answer Bool
  unfolding answered
  follow_user reached = elim (get_user_id r) [
    | none ↦ (rows, refused [] 401 "unauthorized")
    | some user_id ↦
        if str_eq user_id (r.path_value "user_id")
        then (rows, refused [] 400 "cannot follow yourself")
        else answered "failed to follow" true
            (create_follow reached user_id (r.path_value "user_id") rows)
  ]

  unfoldable pub unfollow_user : (reached : Bool) → List (String × String) × Answer Bool
  unfolding answered
  unfollow_user reached = elim (get_user_id r) [
    | none ↦ (rows, refused [] 401 "unauthorized")
    | some user_id ↦
        answered "failed to unfollow" false
          (delete_follow reached user_id (r.path_value "user_id") rows)
  ]

  listed : String → DbResult (List String) → Answer (List String)
  listed message failed = refused [] 500 message
  listed message (ok ids) = done 200 ids

  -- The ids of the users that are listed.
  pub get_following_of : Database → Answer (List String)
  unfolding listed
  get_following_of db = elim (get_user_id r) [
    | none ↦ refused [] 401 "unauthorized"
    | some user_id ↦ listed "failed to get following" (get_following db user_id rows)
  ]

  pub get_followers_of : Database → Answer (List String)
  unfolding listed
  get_followers_of db = elim (get_user_id r) [
    | none ↦ refused [] 401 "unauthorized"
    | some user_id ↦ listed "failed to get followers" (get_followers db user_id rows)
  ]
