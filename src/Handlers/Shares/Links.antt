-- ===== src/Handlers/Shares/Links.antt =====
-- backend/internal/handlers/shares.go: the handlers that make, revoke and replace a link. bcrypt, the
-- random hash and the new id are arguments.
pub mod Laws
pub mod Create
pub mod Replace
use purp_tape.Base.{
  ℕ, ◌+◌, ◌*◌, Bool, true, false, not, ◌&&◌, ◌||◌, String, Option, none, some, List, [], ◌∷◌,
  str_eq, if◌then◌else◌, ltb,
}
use purp_tape.Base.Int.{ℤ, pos, negsuc}
use purp_tape.Http.{Request, Answer, refused, done}
use purp_tape.Db.{Database, DbResult, Project, ok, failed}
use purp_tape.Db.Projects.{get_project_by_id}
use purp_tape.Db.ShareLinks
use purp_tape.Db.ShareLinks.{ShareLink, create_share_link, get_share_link_by_hash}
use purp_tape.Helpers.Requests.{get_user_id}

-- The body of a request for a new link.
pub record LinkRequest : Type 0 where
  pub access_level : String
  pub is_public : Bool
  pub is_password_protected : Bool
  pub password : String
  pub expires_in_days : Option ℤ

-- validLevels
pub level_of : String → String
level_of level =
    if str_eq level "viewer" || str_eq level "commenter" || str_eq level "collaborator"
    then level
    else "viewer"

abbrev pub day : ℕ
day = 86_400_000_000_000

-- In UTC, where a day has 24 hours.
pub expiry_of : ℕ → Option ℤ → Option ℕ
expiry_of now none = none
expiry_of now (some (pos days)) = if ltb 0 days then some (now + days * day) else none
expiry_of now (some (negsuc n)) = none

-- The hash of a password, "" without one, and `none` where hashing fails.
pub hash_password : (String → Option String) → LinkRequest → Option String
hash_password bcrypt req =
    if req.is_password_protected && not (str_eq req.password "")
    then bcrypt req.password
    else some ""

pub new_link : String → String → String → String → String → ℕ → LinkRequest → ShareLink
unfolding level_of expiry_of
new_link id project_id user_id hash password_hash now req = record {
  id = id;
  project_id = project_id;
  creator_id = user_id;
  hash = hash;
  access_level = level_of req.access_level;
  is_public = req.is_public;
  is_password_protected = req.is_password_protected;
  password_hash = password_hash;
  expires_at = expiry_of now req.expires_in_days;
  revoked_at = none;
}

-- The table after an INSERT, and the answer.
pub stored :
    List ShareLink
    → ShareLink
    → String
    → Option (List ShareLink)
    → List ShareLink × Answer ShareLink
stored table link message none = (table, refused [] 500 message)
stored table link message (some table') = (table', done 201 link)

-- The project belongs to the user; every error of the read counts as no.
unfoldable pub owns : Database → String → String → Bool
owns db project_id user_id = elim (get_project_by_id db project_id user_id) [
  | ok project ↦ str_eq project.user_id user_id
  | failed ↦ false
]

-- The rest of the handler for the user of the request; `none` where hashing fails.
pub generate_with :
    List ShareLink
    → (created : Bool) (id hash project_id user_id : String) (now : ℕ) → LinkRequest
    → Option String
    → List ShareLink × Answer ShareLink
unfolding new_link stored
generate_with table created id hash project_id user_id now req none =
    (table, refused [] 500 "failed to hash password")
generate_with table created id hash project_id user_id now req (some password_hash) =
    let link = new_link id project_id user_id hash password_hash now req in
    stored table link "failed to create share link" (create_share_link created link table)

pub generate_as :
    Database
    → List ShareLink
    → (String → Option String)
    → (created : Bool) (id hash : String) (now : ℕ) → Request
    → String
    → Option LinkRequest
    → List ShareLink × Answer ShareLink
unfolding owns hash_password generate_with
generate_as db table bcrypt created id hash now r user_id none =
    (table, refused [] 400 "invalid request")
generate_as db table bcrypt created id hash now r user_id (some req) =
    if owns db (r.path_value "project_id") user_id
    then generate_with table created id hash (r.path_value "project_id") user_id now req
        (hash_password bcrypt req)
    else (table, refused [] 403 "forbidden")

unfoldable pub generate_share_link :
    Database
    → List ShareLink
    → (String → Option String)
    → (created : Bool) (id hash : String) (now : ℕ) → Request
    → Option LinkRequest
    → List ShareLink × Answer ShareLink
unfolding generate_as
generate_share_link db table bcrypt created id hash now r body = elim (get_user_id r) [
  | none ↦ (table, refused [] 401 "unauthorized")
  | some user_id ↦ generate_as db table bcrypt created id hash now r user_id body
]

-- The link exists, belongs to the project and was made by the user.
pub is_own_link : String → String → DbResult ShareLink → Bool
is_own_link project_id user_id failed = false
is_own_link project_id user_id (ok link) =
    str_eq link.project_id project_id && str_eq link.creator_id user_id

pub revoked : List ShareLink → Option (List ShareLink) → List ShareLink × Answer (Unit {0})
revoked table none = (table, refused [] 500 "internal server error")
revoked table (some table') = (table', done 204 tt)

pub revoke_as :
    Database
    → List ShareLink
    → (updated : Bool) (now : ℕ) → Request
    → String
    → List ShareLink × Answer (Unit {0})
unfolding owns is_own_link revoked
revoke_as db table updated now r user_id =
    let project_id = r.path_value "project_id" in
    let hash = r.path_value "share_hash" in
    if owns db project_id user_id
    then (if is_own_link project_id user_id (get_share_link_by_hash db hash table)
        then revoked table (ShareLinks.revoke_share_link updated now hash table)
        else (table, refused [] 404 "share link not found"))
    else (table, refused [] 403 "forbidden")

unfoldable pub revoke_share_link :
    Database
    → List ShareLink
    → (updated : Bool) (now : ℕ) → Request
    → List ShareLink × Answer (Unit {0})
unfolding revoke_as
revoke_share_link db table updated now r = elim (get_user_id r) [
  | none ↦ (table, refused [] 401 "unauthorized")
  | some user_id ↦ revoke_as db table updated now r user_id
]

-- The new link of a project with the settings of an old one.
pub renewed : String → String → String → String → ShareLink → ShareLink
renewed id project_id user_id new_hash link = record link {
  id = id;
  project_id = project_id;
  creator_id = user_id;
  hash = new_hash;
  revoked_at = none;
}

pub is_link_of : String → DbResult ShareLink → Option ShareLink
is_link_of project_id failed = none
is_link_of project_id (ok link) = if str_eq link.project_id project_id then some link else none

-- A failed UPDATE is logged, and the old link stays.
pub replaced : ℕ → String → (updated : Bool) → List ShareLink → List ShareLink
replaced now hash updated table = elim (ShareLinks.revoke_share_link updated now hash table) [
  | none ↦ table
  | some table' ↦ table'
]

pub regenerated :
    List ShareLink
    → (updated : Bool) → ℕ
    → String
    → ShareLink
    → Option (List ShareLink)
    → List ShareLink × Answer ShareLink
unfolding replaced
regenerated table updated now hash link none = (table, refused [] 500 "failed to regenerate")
regenerated table updated now hash link (some table') =
    (replaced now hash updated table', done 200 link)

-- The rest of the handler for the user of the request.
pub replace_found :
    List ShareLink
    → (created updated : Bool) (id project_id user_id new_hash : String) (now : ℕ) (hash : String)
    → Option ShareLink
    → List ShareLink × Answer ShareLink
unfolding renewed regenerated
replace_found table created updated id project_id user_id new_hash now hash none =
    (table, refused [] 404 "share link not found")
replace_found table created updated id project_id user_id new_hash now hash (some link) =
    let link' = renewed id project_id user_id new_hash link in
    regenerated table updated now hash link' (create_share_link created link' table)

pub regenerate_as :
    Database
    → List ShareLink
    → (created updated : Bool) (id new_hash : String) (now : ℕ) → Request
    → String
    → List ShareLink × Answer ShareLink
unfolding owns is_link_of replace_found
regenerate_as db table created updated id new_hash now r user_id =
    let hash = r.path_value "share_hash" in
    if owns db (r.path_value "project_id") user_id
    then replace_found table created updated id (r.path_value "project_id") user_id new_hash now
        hash (is_link_of (r.path_value "project_id") (get_share_link_by_hash db hash table))
    else (table, refused [] 403 "forbidden")

unfoldable pub regenerate_share_hash :
    Database
    → List ShareLink
    → (created updated : Bool) (id new_hash : String) (now : ℕ) → Request
    → List ShareLink × Answer ShareLink
unfolding regenerate_as
regenerate_share_hash db table created updated id new_hash now r = elim (get_user_id r) [
  | none ↦ (table, refused [] 401 "unauthorized")
  | some user_id ↦ regenerate_as db table created updated id new_hash now r user_id
]
