-- ===== src/Handlers/Shares/Access.antt =====
-- backend/internal/handlers/shares.go: the public handlers of a link. bcrypt is an argument.
pub mod Laws
pub mod Password
use purp_tape.Base.{
  ℕ, ◌+◌, ◌*◌, Bool, true, false, not, ◌&&◌, ◌||◌, String, Option, none, some, List, [], ◌∷◌,
  str_eq, if◌then◌else◌, ltb,
}
use purp_tape.Base.Int.{ℤ, pos, negsuc}
use purp_tape.Http.{Request, Answer, refused, done}
use purp_tape.Db.{Database, DbResult, Project, ok, failed}
use purp_tape.Db.Projects.{get_project_by_id}
use purp_tape.Db.ShareLinks.{ShareLink, get_share_link_by_hash}
use purp_tape.Handlers.Shares.Tokens.{
  TokenLibrary, generate_share_access_token, verify_share_access_token, extract_share_access_token,
}

-- link.ExpiresAt != nil && time.Now().After(*link.ExpiresAt)
pub is_expired : ℕ → Option ℕ → Bool
is_expired now none = false
is_expired now (some expires_at) = ltb expires_at now

abbrev pub is_set : Option ℕ → Bool
is_set none = false
is_set (some t) = true

pub show_project : DbResult Project → Answer Project
show_project failed = refused [] 404 "project not found"
show_project (ok project) = done 200 project

-- Fifteen minutes.
abbrev pub quarter : ℕ
quarter = 900_000_000_000

module _ (lib : TokenLibrary) (signing_key : String) where
  -- The checks on a link that was found: `none` lets the request on.
  pub refusal : ℕ → Request → ShareLink → Option (List (String × String) × ℕ × String)
  unfolding is_expired
  refusal now r link =
      if is_set link.revoked_at
      then some ([], 403, "share link revoked")
      else if is_expired now link.expires_at
      then some ([], 403, "share link expired")
      else if link.is_password_protected
          && (str_eq (extract_share_access_token r) ""
              || not (
                  verify_share_access_token lib now (extract_share_access_token r)
                    (r.path_value "share_hash") signing_key))
      then some (("X-Password-Required", "true") ∷ [], 401, "password required")
      else none

  pub show_link : Database → ℕ → Request → DbResult ShareLink → Answer Project
  unfolding show_project
  show_link db now r failed = refused [] 404 "share link not found"
  show_link db now r (ok link) = elim (refusal now r link) [
    | some (headers, status, message) ↦ refused headers status message
    | none ↦ show_project (get_project_by_id db link.project_id "")
  ]

  unfoldable pub get_project_by_share_hash :
      Database → List ShareLink → ℕ → Request → Answer Project
  unfolding show_link
  get_project_by_share_hash db table now r =
      show_link db now r (get_share_link_by_hash db (r.path_value "share_hash") table)

  -- `matches` is bcrypt.CompareHashAndPassword.
  pub verified : (String → String → Bool) → ℕ → String → String → DbResult ShareLink → Answer String
  verified matches now hash password failed = refused [] 404 "share link not found"
  verified matches now hash password (ok link) =
      if matches link.password_hash password
      then done 200 (generate_share_access_token lib now hash quarter signing_key)
      else refused [] 403 "invalid password"

  -- The answer holds the access token.
  unfoldable pub verify_share_password :
      Database
      → List ShareLink
      → (String → String → Bool)
      → ℕ
      → Request
      → Option String
      → Answer String
  unfolding verified
  verify_share_password db table matches now r none = refused [] 400 "invalid request"
  verify_share_password db table matches now r (some password) =
      if str_eq password ""
      then refused [] 400 "password required"
      else verified matches now (r.path_value "share_hash") password
          (get_share_link_by_hash db (r.path_value "share_hash") table)
