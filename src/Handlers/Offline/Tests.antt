-- ===== src/Handlers/Offline/Tests.antt =====
-- Ann, of the free tier, her track "t" of 600 MiB, and the copies of it that she asks for.
use purp_tape.Base.{
  ◌+◌, ◌≤◌, ◌≡◌, refl, arith, true, false, String, Option, none, some, List, [], ◌∷◌, empty, insert,
  str_eq, if◌then◌else◌,
}
use purp_tape.Http.{Request, done}
use purp_tape.Db.{Database}
use purp_tape.Db.Projects.{get_project_by_id}
use purp_tape.Db.Subscriptions.{get_user_subscription, find_subscription}
use purp_tape.Db.Tracks.{Track, TrackVersion, get_track_by_id, get_latest_track_version}
use purp_tape.Db.OfflineDownloads.{
  OfflineDownload, completed_bytes, get_offline_storage_used, get_offline_download,
  create_offline_download,
}
use purp_tape.Handlers.Offline.{initiated, offline_quota, initiate_download}
use purp_tape.Handlers.Offline.Quota.{initiate_download-used}
use purp_tape.Handlers.Offline.Grant.{initiate_download-within}

abbrev database : Database
database = record {
  available = true;
  no_rows_is_sql = false;
  has_avatar = λ user_id. true;
  projects = record { id = "p"; user_id = "ann"; is_deleted = false } ∷ [];
  collaborators = [];
  project_shares = [];
  user_project_access = [];
  user_track_access = [];
}

abbrev track : Track
track = record {
  id = "t";
  project_id = "p";
  user_id = "ann";
  name = "song";
  duration = 60;
  is_deleted = false;
}

abbrev version : TrackVersion
version = record {
  id = "1";
  track_id = "t";
  version_number = 1;
  r2_object_key = "k";
  file_size = 629_145_600;
  checksum = "c";
  is_deleted = false;
}

abbrev request : Request
request = record {
  method = "POST";
  path = "/tracks/t/offline/download";
  remote_addr = "1.2.3.4:5000";
  header = λ name. "";
  path_value = λ name. if str_eq name "track_id" then "t" else "d";
  context = insert "user_id" "ann" empty;
}

abbrev sign : String → Option String
sign key = some key

-- The first copy, then a second one, which together are over the quota.
abbrev first : OfflineDownload
first = record {
  id = "d";
  user_id = "ann";
  track_version_id = "1";
  track_id = "t";
  project_id = "p";
  file_size_bytes = 629_145_600;
  r2_object_key = "k";
  status = "pending";
  title = "song";
  created_at = 5;
  last_played_at = none;
  expires_at = none;
}

abbrev second : OfflineDownload
second = record first { id = "e"; created_at = 9 }

initiate_download-within_example :
    (request.context "user_id" ≡ some "ann")
    × (second.status ≡ "pending")
    × (◌≡◌ {A = List OfflineDownload} (second ∷ first ∷ []) (second ∷ first ∷ []))
    × (completed_bytes "ann" (first ∷ []) + 629_145_600
        ≤ offline_quota (get_user_subscription database "ann" []))
unfolding initiate_download get_project_by_id get_track_by_id get_latest_track_version
    get_offline_storage_used get_offline_download create_offline_download get_user_subscription
    find_subscription
initiate_download-within_example =
    initiate_download-within database (first ∷ []) [] sign true (track ∷ []) (version ∷ []) "e" 9
      request (second ∷ first ∷ []) second "k" refl (ground arith)

initiate_download-used_example :
    completed_bytes "ann" (second ∷ first ∷ []) ≡ completed_bytes "ann" (first ∷ [])
unfolding initiate_download get_project_by_id get_track_by_id get_latest_track_version
    get_offline_storage_used get_offline_download create_offline_download get_user_subscription
    find_subscription
initiate_download-used_example =
    initiate_download-used database (first ∷ []) [] sign true (track ∷ []) (version ∷ []) "e" 9
      "ann" request (second ∷ first ∷ [], done 201 (initiated second "k")) refl
