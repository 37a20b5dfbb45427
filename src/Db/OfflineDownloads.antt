-- ===== src/Db/OfflineDownloads.antt =====
-- The offline_downloads queries of backend/internal/db/queries_access.go and queries.go. The table is in
-- the order of created_at, the latest first; times are nanoseconds. No INSERT or UPDATE of the source
-- sets expires_at, and no column that nothing reads is kept.
pub mod Laws
use purp_tape.Base.{
  ℕ, ◌+◌, Bool, true, false, not, ◌&&◌, ◌||◌, String, Option, none, some, List, [], ◌∷◌, str_eq,
  if◌then◌else◌, ltb, length,
}
use purp_tape.Db.{Database, DbResult, ok, failed, query, row_or_nil}

pub record OfflineDownload : Type 0 where
  pub id : String
  pub user_id : String
  pub track_version_id : String
  pub track_id : String
  pub project_id : String
  pub file_size_bytes : ℕ
  pub r2_object_key : String
  pub status : String
  pub title : String
  pub created_at : ℕ
  pub last_played_at : Option ℕ
  pub expires_at : Option ℕ

unfoldable pub is_completed : OfflineDownload → Bool
is_completed d = str_eq d.status "completed"

unfoldable pub completed_bytes : String → List OfflineDownload → ℕ
unfolding is_completed
completed_bytes user_id [] = 0
completed_bytes user_id (d ∷ ds) =
    let rest = completed_bytes user_id ds in
    if str_eq d.user_id user_id && is_completed d then d.file_size_bytes + rest else rest

-- The sum is a NUMERIC, which the driver reads if it fits an int64.
unfoldable pub get_offline_storage_used : Database → String → List OfflineDownload → DbResult ℕ
unfolding completed_bytes
get_offline_storage_used db user_id table =
    let total = completed_bytes user_id table in
    if db.available && ltb total 9_223_372_036_854_775_808 then ok total else failed

unfoldable pub completed_count : String → List OfflineDownload → ℕ
unfolding is_completed
completed_count user_id [] = 0
completed_count user_id (d ∷ ds) =
    let rest = completed_count user_id ds in
    if str_eq d.user_id user_id && is_completed d then 1 + rest else rest

unfoldable pub get_offline_download_count : Database → String → List OfflineDownload → DbResult ℕ
unfolding completed_count
get_offline_download_count db user_id table = query db (completed_count user_id table)

-- WHERE user_id = $1 AND track_version_id = $2 ORDER BY created_at DESC LIMIT 1
unfoldable pub find_for_version : String → String → List OfflineDownload → Option OfflineDownload
find_for_version user_id version_id [] = none
find_for_version user_id version_id (d ∷ ds) =
    if str_eq d.user_id user_id && str_eq d.track_version_id version_id
    then some d
    else find_for_version user_id version_id ds

unfoldable pub get_offline_download :
    Database → String → String → List OfflineDownload → DbResult (Option OfflineDownload)
unfolding find_for_version
get_offline_download db user_id version_id table =
    if db.available then row_or_nil db (find_for_version user_id version_id table) else failed

-- WHERE id = $1
unfoldable pub find_download : String → List OfflineDownload → Option OfflineDownload
find_download id [] = none
find_download id (d ∷ ds) = if str_eq d.id id then some d else find_download id ds

unfoldable pub get_offline_download_by_id :
    Database → String → List OfflineDownload → DbResult (Option OfflineDownload)
unfolding find_download
get_offline_download_by_id db id table =
    if db.available then row_or_nil db (find_download id table) else failed

-- `reached` says of this and the next whether the statement is executed; an id of the table is refused.
unfoldable pub create_offline_download :
    Bool → OfflineDownload → List OfflineDownload → Option (List OfflineDownload)
unfolding find_download
create_offline_download reached d table =
    if reached
    then elim (find_download d.id table) [ none ↦ some (d ∷ table) | some e ↦ none ]
    else none

unfoldable pub with_status : String → String → List OfflineDownload → List OfflineDownload
with_status id status [] = []
with_status id status (d ∷ ds) =
    (if str_eq d.id id then record d { status = status } else d) ∷ with_status id status ds

-- The metadata that the callers pass are not written.
unfoldable pub update_offline_download_status :
    Bool → String → String → List OfflineDownload → Option (List OfflineDownload)
unfolding with_status
update_offline_download_status reached id status table =
    if reached then some (with_status id status table) else none

unfoldable pub with_last_played : ℕ → String → List OfflineDownload → List OfflineDownload
with_last_played now id [] = []
with_last_played now id (d ∷ ds) =
    (if str_eq d.id id then record d { last_played_at = some now } else d)
    ∷ with_last_played now id ds

unfoldable pub update_offline_last_played :
    Bool → ℕ → String → List OfflineDownload → Option (List OfflineDownload)
unfolding with_last_played
update_offline_last_played reached now id table =
    if reached then some (with_last_played now id table) else none

-- WHERE user_id = $1 ORDER BY created_at DESC
unfoldable pub downloads_of : String → List OfflineDownload → List OfflineDownload
downloads_of user_id [] = []
downloads_of user_id (d ∷ ds) =
    let rest = downloads_of user_id ds in if str_eq d.user_id user_id then d ∷ rest else rest

unfoldable pub get_user_offline_downloads :
    Database → String → List OfflineDownload → DbResult (List OfflineDownload)
unfolding downloads_of
get_user_offline_downloads db user_id table = query db (downloads_of user_id table)

-- expires_at < NOW(), which is not true of NULL.
unfoldable pub is_past : ℕ → Option ℕ → Bool
is_past now none = false
is_past now (some t) = ltb t now

-- DELETE … WHERE status = 'completed' AND expires_at < NOW(), with the rows affected.
unfoldable pub expired_removed : ℕ → List OfflineDownload → List OfflineDownload × ℕ
unfolding is_completed is_past
expired_removed now [] = ([], 0)
expired_removed now (d ∷ ds) =
    let rest = expired_removed now ds in
    if is_completed d && is_past now d.expires_at
    then (rest.0, 1 + rest.1)
    else (d ∷ rest.0, rest.1)

unfoldable pub cleanup_expired_offline_downloads :
    Bool → ℕ → List OfflineDownload → Option (List OfflineDownload × ℕ)
unfolding expired_removed
cleanup_expired_offline_downloads reached now table =
    if reached then some (expired_removed now table) else none
