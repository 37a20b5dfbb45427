-- ===== src/Handlers/Collaboration/Tests.antt =====
-- Ann makes Bob an editor of her project "p", and Bob likes a track of it.
use purp_tape.Base.{
  ◌≡◌, refl, ◌⊎◌, ◌≢◌, arith, eq_iff, true, false, String, some, List, [], ◌∷◌, empty, insert,
  str_eq, if◌then◌else◌,
}
use purp_tape.Http.{Request, Answer}
use purp_tape.Db.{Database, Collaborator}
use purp_tape.Db.Roles.{find_project}
use purp_tape.Db.Collaborators.{User, get_user_by_email}
use purp_tape.Db.Follows.{has_pair}
use purp_tape.Helpers.Requests.{get_user_id}
use purp_tape.Handlers.Collaboration.{add_collaborator}
use purp_tape.Handlers.Collaboration.Laws.{
  IsKept, IsOwner, IsAdded, add_collaborator-role, Action, like, unlike, act_all, is_about, liked,
  act_all-liked,
}

abbrev database : Database
database = record {
  available = true;
  no_rows_is_sql = false;
  has_avatar = λ user_id. true;
  projects = record { id = "p"; user_id = "ann"; is_deleted = false } ∷ [];
  collaborators = [];
  project_shares = [];
  user_project_access = [];
  user_track_access = [];
}

abbrev users : List User
users = record { id = "bob"; email = "bob@example.org"; is_deleted = false } ∷ []

abbrev by_user : String → Request
by_user user_id = record {
  method = "POST";
  path = "/";
  remote_addr = "1.2.3.4:5000";
  header = λ name. "";
  path_value = λ name. if str_eq name "project_id" then "p" else "t";
  context = insert "user_id" user_id empty;
}

named : (a b : String) → str_eq a b ≡ false → a ≢ b
named a b h = ground (arith, eq_iff a b, h)

abbrev bob_user : User
bob_user = record { id = "bob"; email = "bob@example.org"; is_deleted = false }

abbrev invitation : Database × Answer Collaborator
invitation =
    add_collaborator database users (by_user "ann") true (some ("bob@example.org", "editor"))

add_collaborator-role_example :
    (IsKept database users (by_user "ann") true invitation
      ⊎ ((user_id : String) × IsOwner database users (by_user "ann") true user_id
          × IsAdded database users (by_user "ann") true bob_user "editor" invitation))
    × ((user_id : String)
        → IsOwner database users (by_user "ann") true user_id
        → "bob" ≢ user_id
        → true ≡ true
        → IsAdded database users (by_user "ann") true bob_user "editor" invitation)
unfolding get_user_by_email find_project
add_collaborator-role_example =
    add_collaborator-role database users (by_user "ann") true "bob@example.org" "editor" bob_user
      (record { id = "p"; user_id = "ann"; is_deleted = false }) refl refl refl
      (named "ann" "bob" refl) tt

abbrev actions : List Action
actions =
    like true (by_user "bob") ∷ unlike false (by_user "bob") ∷ unlike true (by_user "ann") ∷ []

act_all-liked_example : has_pair "bob" "t" (act_all actions []) ≡ true
unfolding liked is_about get_user_id
act_all-liked_example = act_all-liked "bob" "t" actions []
