-- ===== src/Handlers/Offline.antt =====
-- backend/internal/handlers/offline_downloads.go, offline_sync.go and offline_maintenance.go: the copies
-- that a user keeps on a device, and their quota. A result is `none` where the handler panics, at a nil
-- pointer or at a request without a user.
pub mod Laws
pub mod Quota
pub mod Grant
mod Tests
use purp_tape.Base.{
  ℕ, ◌+◌, ◌%◌, ◌^◌, Bool, true, false, not, ◌&&◌, ◌||◌, String, Option, none, some, List, [], ◌∷◌,
  str_eq, if◌then◌else◌, ltb,
}
use purp_tape.Http.{Request, Answer, refused, done}
use purp_tape.Db.{Database, DbResult, Project, ok, failed}
use purp_tape.Db.Projects.{get_project_by_id}
use purp_tape.Db.Subscriptions.{Subscription, Plan, get_user_subscription}
use purp_tape.Db.Tracks.{
  Track, TrackVersion, get_track_by_id, get_latest_track_version, get_project_tracks,
}
use purp_tape.Db.OfflineDownloads.{
  OfflineDownload, is_completed, get_offline_storage_used, get_offline_download_count,
  get_offline_download, get_offline_download_by_id, create_offline_download,
  update_offline_download_status, update_offline_last_played, get_user_offline_downloads,
  cleanup_expired_offline_downloads,
}

-- The body of the answer: a copy that the user has, or the quota, what is used and what is asked for, or
-- the new row with the URL of the file. The cover's URL is always empty, since GetProjectByID reads none.
pub data DownloadReply : Type 0 where
  already : OfflineDownload → DownloadReply
  over_quota : (quota used needed : ℕ) → DownloadReply
  initiated : OfflineDownload → String → DownloadReply

unfoldable pub quota_of_tier : String → ℕ
quota_of_tier tier =
    if str_eq tier "pro"
    then 5_368_709_120
    else if str_eq tier "pro_plus" || str_eq tier "unlimited"
    then 21_474_836_480
    else 1_073_741_824

-- Without a subscription, or with an error, the quota is that of the free tier.
unfoldable pub offline_quota : DbResult Plan → ℕ
unfolding quota_of_tier
offline_quota failed = 1_073_741_824
offline_quota (ok plan) = quota_of_tier plan.tier

unfoldable pub or_zero : DbResult ℕ → ℕ
or_zero failed = 0
or_zero (ok n) = n

-- usedStorage + version.FileSize > offlineQuota, in int64: a sum from 2^63 on is negative.
unfoldable pub is_exceeded : (used size quota : ℕ) → Bool
is_exceeded used size quota =
    let total = (used + size) % 18_446_744_073_709_551_616 in
    ltb total 9_223_372_036_854_775_808 && ltb quota total

unfoldable pub completed_one : DbResult (Option OfflineDownload) → Option OfflineDownload
unfolding is_completed
completed_one failed = none
completed_one (ok none) = none
completed_one (ok (some d)) = if is_completed d then some d else none

module _ (db : Database) (table : List OfflineDownload) where
  unfoldable pub recorded :
      Bool → OfflineDownload → String → List OfflineDownload × Answer DownloadReply
  recorded reached d url = elim (create_offline_download reached d table) [
    | none ↦ (table, refused [] 500 "failed to initiate download")
    | some after ↦ (after, done 201 (initiated d url))
  ]

  unfoldable pub pending : (user_id id : String) → ℕ → Track → TrackVersion → OfflineDownload
  pending user_id id now track v = record {
    id = id;
    user_id = user_id;
    track_version_id = v.id;
    track_id = track.id;
    project_id = track.project_id;
    file_size_bytes = v.file_size;
    r2_object_key = v.r2_object_key;
    status = "pending";
    title = track.name;
    created_at = now;
    last_played_at = none;
    expires_at = none;
  }

  unfoldable pub fetched :
      (String → Option String)
      → Bool
      → OfflineDownload
      → List OfflineDownload × Answer DownloadReply
  unfolding recorded
  fetched sign reached d = elim (sign d.r2_object_key) [
    | none ↦ (table, refused [] 500 "failed to generate download URL")
    | some url ↦ recorded reached d url
  ]

  unfoldable pub checked :
      List Subscription
      → (String → Option String)
      → Bool
      → OfflineDownload
      → List OfflineDownload × Answer DownloadReply
  unfolding fetched offline_quota or_zero is_exceeded completed_one
  checked subscriptions sign reached d =
      let quota = offline_quota (get_user_subscription db d.user_id subscriptions) in
      let used = or_zero (get_offline_storage_used db d.user_id table) in
      elim (completed_one (get_offline_download db d.user_id d.track_version_id table)) [
        | some e ↦ (table, done 200 (already e))
        | none ↦
            if is_exceeded used d.file_size_bytes quota
            then (table, done 402 (over_quota quota used d.file_size_bytes))
            else fetched sign reached d
      ]

module _ (db : Database) (tracks : List Track) (versions : List TrackVersion)
    (subscriptions : List Subscription) (sign : String → Option String)
    (table : List OfflineDownload) where
  unfoldable pub of_project :
      Bool
      → (id user_id : String) → ℕ
      → Track
      → Option TrackVersion
      → DbResult Project
      → Option (List OfflineDownload × Answer DownloadReply)
  unfolding checked pending
  of_project reached id user_id now track version failed =
      some (table, refused [] 404 "project not found")
  of_project reached id user_id now track none (ok p) = none
  of_project reached id user_id now track (some v) (ok p) =
      some (checked db table subscriptions sign reached (pending db table user_id id now track v))

  unfoldable pub of_track :
      Bool
      → (id user_id : String) → ℕ
      → Option TrackVersion
      → DbResult (Option Track)
      → Option (List OfflineDownload × Answer DownloadReply)
  unfolding of_project
  of_track reached id user_id now version failed = some (table, refused [] 404 "track not found")
  of_track reached id user_id now version (ok none) = none
  of_track reached id user_id now version (ok (some t)) =
      of_project reached id user_id now t version (get_project_by_id db t.project_id user_id)

  unfoldable pub of_version :
      Bool
      → (id user_id track_id : String) → ℕ
      → DbResult (Option TrackVersion)
      → Option (List OfflineDownload × Answer DownloadReply)
  unfolding of_track
  of_version reached id user_id track_id now failed = some (table, refused [] 404 "track not found")
  of_version reached id user_id track_id now (ok version) =
      of_track reached id user_id now version (get_track_by_id db track_id tracks)

  -- `sign` makes a URL of a day, or fails.
  unfoldable pub initiate_download :
      (reached : Bool) (id : String) (now : ℕ)
      → Request
      → Option (List OfflineDownload × Answer DownloadReply)
  unfolding of_version
  initiate_download reached id now r = elim (r.context "user_id") [
    | none ↦ none
    | some user_id ↦
        of_version reached id user_id (r.path_value "track_id") now
          (get_latest_track_version db (r.path_value "track_id") versions)
  ]

module _ (db : Database) (table : List OfflineDownload) where
  unfoldable pub if_own :
      (user_id : String)
      → DbResult (Option OfflineDownload)
      → List OfflineDownload × Answer String
      → Option (List OfflineDownload × Answer String)
  if_own user_id failed action = some (table, refused [] 404 "download not found")
  if_own user_id (ok none) action = none
  if_own user_id (ok (some d)) action =
      if str_eq d.user_id user_id
      then some action
      else some (table, refused [] 404 "download not found")

  -- What the handlers of one download do with it, if it is the user's.
  unfoldable pub with_own :
      Request → List OfflineDownload × Answer String → Option (List OfflineDownload × Answer String)
  unfolding if_own
  with_own r action = elim (r.context "user_id") [
    | none ↦ none
    | some user_id ↦
        if_own user_id (get_offline_download_by_id db (r.path_value "download_id") table) action
  ]

  unfoldable pub changed :
      Bool → String → Request → String → ℕ → List OfflineDownload × Answer String
  changed reached status r message code =
      elim (update_offline_download_status reached (r.path_value "download_id") status table) [
        | none ↦ (table, refused [] 500 message)
        | some after ↦ (after, done code (r.path_value "download_id"))
      ]

  -- `is_json` says whether the body is read.
  unfoldable pub confirm_download :
      (reached is_json : Bool) → Request → Option (List OfflineDownload × Answer String)
  unfolding with_own changed
  confirm_download reached true r =
      with_own r (changed reached "completed" r "failed to confirm download" 200)
  confirm_download reached false r = elim (r.context "user_id") [
    | none ↦ none
    | some user_id ↦ some (table, refused [] 400 "invalid request")
  ]

  unfoldable pub delete_offline_download :
      (reached : Bool) → Request → Option (List OfflineDownload × Answer String)
  unfolding with_own changed
  delete_offline_download reached r =
      with_own r (changed reached "removed" r "failed to delete" 204)

  -- An error of the write is logged.
  unfoldable pub played : Bool → ℕ → Request → List OfflineDownload × Answer String
  played reached now r =
      elim (update_offline_last_played reached now (r.path_value "download_id") table) [
        | none ↦ (table, done 201 "logged")
        | some after ↦ (after, done 201 "logged")
      ]

  unfoldable pub log_offline_play :
      (reached is_json : Bool) → ℕ → Request → Option (List OfflineDownload × Answer String)
  unfolding with_own played
  log_offline_play reached true now r = with_own r (played reached now r)
  log_offline_play reached false now r = elim (r.context "user_id") [
    | none ↦ none
    | some user_id ↦ some (table, refused [] 400 "invalid request")
  ]

  listed : DbResult (List OfflineDownload) → Answer (List OfflineDownload)
  listed failed = refused [] 500 "failed to get downloads"
  listed (ok downloads) = done 200 downloads

  pub get_offline_downloads : Request → Option (Answer (List OfflineDownload))
  unfolding listed
  get_offline_downloads r = elim (r.context "user_id") [
    | none ↦ none
    | some user_id ↦ some (listed (get_user_offline_downloads db user_id table))
  ]

  -- The quota, what is used, the number of copies, and the tier; what is left and the percentage follow
  -- from the first two.
  pub get_offline_storage_status :
      List Subscription → Request → Option (Answer (ℕ × (ℕ × (ℕ × String))))
  unfolding offline_quota or_zero
  get_offline_storage_status subscriptions r = elim (r.context "user_id") [
    | none ↦ none
    | some user_id ↦ some (
        done 200 (
          offline_quota (get_user_subscription db user_id subscriptions),
          (
            or_zero (get_offline_storage_used db user_id table),
            (or_zero (get_offline_download_count db user_id table), "free"),
          ),
        ))
  ]

  -- The copies of all users.
  pub delete_all_expired_downloads : (reached : Bool) (now : ℕ) → List OfflineDownload × Answer ℕ
  delete_all_expired_downloads reached now =
      elim (cleanup_expired_offline_downloads reached now table) [
        | none ↦ (table, refused [] 500 "failed to cleanup expired downloads")
        | some (after, count) ↦ (after, done 200 count)
      ]
