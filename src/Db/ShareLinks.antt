-- ===== src/Db/ShareLinks.antt =====
-- The share_links queries of backend/internal/db/queries_phase2.go. `hash` is unique; times are
-- nanoseconds. created_at and updated_at, which no condition reads, are left out.
pub mod Laws
use purp_tape.Base.{
  ℕ, Bool, true, false, String, Option, none, some, List, [], ◌∷◌, str_eq, if◌then◌else◌,
}
use purp_tape.Db.{Database, DbResult, ok, failed}
use purp_tape.Db.Projects.{row_of}

pub record ShareLink : Type 0 where
  pub id : String
  pub project_id : String
  pub creator_id : String
  pub hash : String
  pub access_level : String
  pub is_public : Bool
  pub is_password_protected : Bool
  pub password_hash : String
  pub expires_at : Option ℕ
  pub revoked_at : Option ℕ

-- WHERE hash = $1
unfoldable pub find_link : String → List ShareLink → Option ShareLink
find_link hash [] = none
find_link hash (l ∷ ls) = if str_eq l.hash hash then some l else find_link hash ls

-- The new table, if the statement is executed: the server is reached and the hash is new.
unfoldable pub create_share_link : Bool → ShareLink → List ShareLink → Option (List ShareLink)
unfolding find_link
create_share_link reached link table =
    if reached
    then elim (find_link link.hash table) [ none ↦ some (link ∷ table) | some l ↦ none ]
    else none

unfoldable pub get_share_link_by_hash : Database → String → List ShareLink → DbResult ShareLink
unfolding find_link
get_share_link_by_hash db hash table =
    if db.available then row_of (find_link hash table) else failed

-- UPDATE share_links SET revoked_at = NOW() … WHERE hash = $1
unfoldable pub revoke : ℕ → String → List ShareLink → List ShareLink
revoke now hash [] = []
revoke now hash (l ∷ ls) =
    (if str_eq l.hash hash then record l { revoked_at = some now } else l) ∷ revoke now hash ls

unfoldable pub revoke_share_link : Bool → ℕ → String → List ShareLink → Option (List ShareLink)
unfolding revoke
revoke_share_link reached now hash table = if reached then some (revoke now hash table) else none
