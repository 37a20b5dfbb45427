-- ===== src/Handlers/Offline/Quota.antt =====
-- InitiateDownload of backend/internal/handlers/offline_downloads.go: the quota, and what counts.
use purp_tape.Base.{
  ℕ, ◌≡◌, refl, sym, ap, ◌∙◌, inl, inr, Bool, String, Option, Option-cases, none, some, List, [],
  arith,
}
use purp_tape.Http.{Request, Answer, refused}
use purp_tape.Db.{Database, DbResult, Project, ok, failed}
use purp_tape.Db.Projects.{get_project_by_id}
use purp_tape.Db.Subscriptions.{Subscription}
use purp_tape.Db.Tracks.{Track, TrackVersion, get_track_by_id, get_latest_track_version}
use purp_tape.Db.OfflineDownloads.{OfflineDownload, completed_bytes, create_offline_download}
use purp_tape.Db.OfflineDownloads.Laws.{completed_bytes-new}
use purp_tape.Handlers.Offline.{
  DownloadReply, recorded, pending, fetched, checked, of_project, of_track, of_version,
  initiate_download,
}

module _ (db : Database) (table : List OfflineDownload) (subscriptions : List Subscription)
    (sign : String → Option String) (reached : Bool) where
  fetched_used :
      (user_id : String) (d : OfflineDownload)
      → d.status ≡ "pending"
      → completed_bytes user_id (fetched db table sign reached d).0 ≡ completed_bytes user_id table
  unfolding fetched recorded create_offline_download
  fetched_used user_id d h = let new = completed_bytes-new user_id d table h in ground (arith, new)

  checked_used :
      (user_id : String) (d : OfflineDownload)
      → d.status ≡ "pending"
      → completed_bytes user_id (checked db table subscriptions sign reached d).0
        ≡ completed_bytes user_id table
  unfolding checked
  checked_used user_id d h = let new = fetched_used user_id d h in ground (arith, new)

  kept_used :
      (other message : String) (result : List OfflineDownload × Answer DownloadReply)
      → some (table, refused [] 404 message) ≡ some result
      → completed_bytes other result.0 ≡ completed_bytes other table
  kept_used other message result h =
      let q : (table, refused [] 404 message) ≡ result = ground (arith, h) in
      ap (λ x. completed_bytes other x.0) (sym q)

  module _ (tracks : List Track) (versions : List TrackVersion) (id : String) (now : ℕ) where
    of_project_used :
        (other user_id : String) (track : Track) (version : Option TrackVersion)
        (o : DbResult Project) (result : List OfflineDownload × Answer DownloadReply)
        → of_project db tracks versions subscriptions sign table reached id user_id now track
            version o
          ≡ some result
        → completed_bytes other result.0 ≡ completed_bytes other table
    unfolding of_project pending
    of_project_used other user_id track version failed result h =
        kept_used other "project not found" result h
    of_project_used other user_id track none (ok p) result h = absurd (ground arith)
    of_project_used other user_id track (some v) (ok p) result h =
        let d : OfflineDownload = pending db table user_id id now track v in
        let q : checked db table subscriptions sign reached d ≡ result = ground (arith, h) in
        ap (λ x. completed_bytes other x.0) (sym q) ∙ checked_used other d refl

    of_track_used :
        (other user_id : String) (version : Option TrackVersion) (o : DbResult (Option Track))
        (result : List OfflineDownload × Answer DownloadReply)
        → of_track db tracks versions subscriptions sign table reached id user_id now version o
          ≡ some result
        → completed_bytes other result.0 ≡ completed_bytes other table
    unfolding of_track
    of_track_used other user_id version failed result h = kept_used other "track not found" result h
    of_track_used other user_id version (ok none) result h = absurd (ground arith)
    of_track_used other user_id version (ok (some t)) result h =
        of_project_used other user_id t version (get_project_by_id db t.project_id user_id) result h

    of_version_used :
        (other user_id track_id : String) (o : DbResult (Option TrackVersion))
        (result : List OfflineDownload × Answer DownloadReply)
        → of_version db tracks versions subscriptions sign table reached id user_id track_id now o
          ≡ some result
        → completed_bytes other result.0 ≡ completed_bytes other table
    unfolding of_version
    of_version_used other user_id track_id failed result h =
        kept_used other "track not found" result h
    of_version_used other user_id track_id (ok version) result h =
        of_track_used other user_id version (get_track_by_id db track_id tracks) result h

    -- No request for a copy changes what counts of anyone's quota, also where it is granted.
    pub initiate_download-used :
        (other : String) (r : Request) (result : List OfflineDownload × Answer DownloadReply)
        → initiate_download db tracks versions subscriptions sign table reached id now r
          ≡ some result
        → completed_bytes other result.0 ≡ completed_bytes other table
    unfolding initiate_download
    initiate_download-used other r result h = elim (Option-cases (r.context "user_id")) [
      | inl e ↦ absurd (ground (arith, h, e))
      | inr (user_id, e) ↦
          let q : of_version db tracks versions subscriptions sign table reached id user_id
                (r.path_value "track_id") now
                (get_latest_track_version db (r.path_value "track_id") versions)
              ≡ some result =
            ground (arith, h, e) in
          of_version_used other user_id (r.path_value "track_id")
            (get_latest_track_version db (r.path_value "track_id") versions) result q
    ]
