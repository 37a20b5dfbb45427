-- ===== src/Db.antt =====
-- backend/internal/db: the tables that the modelled queries read, and what the queries return.
-- A table is the list of its rows; `available` is false while the server cannot be reached, when
-- every query fails. `no_rows_is_sql` says whether the error that the driver gives for a query without
-- a row is `sql.ErrNoRows` itself, to which the source compares it; `has_avatar` whether avatar_url of a row of
-- users is set: NULL is not scanned into the string that it is read to.
pub mod Roles
pub mod AccessLists
pub mod Jobs
pub mod Projects
pub mod ShareLinks
pub mod Subscriptions
pub mod Tracks
pub mod OfflineDownloads
pub mod Collaborators
pub mod Follows
use purp_tape.Base.{Bool, true, false, String, Option, none, some, List, if◌then◌else◌}

pub record Project : Type 0 where
  pub id : String
  pub user_id : String
  pub is_deleted : Bool

-- UNIQUE(project_id, user_id); `is_deleted` stands for `deleted_at IS NOT NULL`.
pub record Collaborator : Type 0 where
  pub project_id : String
  pub user_id : String
  pub role : String
  pub is_deleted : Bool

pub record ProjectShare : Type 0 where
  pub project_id : String
  pub shared_with_id : String
  pub is_revoked : Bool

pub record UserProjectAccess : Type 0 where
  pub user_id : String
  pub project_id : String
  pub access_type : String

pub record UserTrackAccess : Type 0 where
  pub user_id : String
  pub track_id : String

pub record Database : Type 0 where
  pub available : Bool
  pub no_rows_is_sql : Bool
  pub has_avatar : String → Bool
  pub projects : List Project
  pub collaborators : List Collaborator
  pub project_shares : List ProjectShare
  pub user_project_access : List UserProjectAccess
  pub user_track_access : List UserTrackAccess

pub data DbResult {ℓ} (A : Type ℓ) : Type ℓ where
  ok : A → DbResult A
  failed : DbResult A

-- A query that succeeds with this result, if the server is reached.
abbrev pub query {ℓ} : {A : Type ℓ} → Database → A → DbResult A
query db a = if db.available then ok a else failed

-- A query for one row, whose result is nil without an error if the driver's error for no row is the one
-- that the source compares with.
abbrev pub row_or_nil {ℓ} : {A : Type ℓ} → Database → Option A → DbResult (Option A)
row_or_nil db none = if db.no_rows_is_sql then ok none else failed
row_or_nil db (some a) = ok (some a)

-- A query for a user that gives his id.
unfoldable pub user_row : Database → Option String → DbResult (Option String)
user_row db none = row_or_nil db none
user_row db (some user_id) = if db.has_avatar user_id then ok (some user_id) else failed
