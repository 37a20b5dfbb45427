-- ===== src/Handlers/Offline/Grant.antt =====
-- InitiateDownload of backend/internal/handlers/offline_downloads.go: a copy is granted within the quota.
use purp_tape.Base.{
  ℕ, ◌+◌, ◌≤◌, ◌<◌, ◌≡◌, refl, sym, ap, ◌∙◌, subst, inl, inr, Bool, true, false, String, Option,
  Option-cases, none, some, List, ◌∷◌, arith,
}
use purp_tape.Http.{Request, done}
use purp_tape.Db.{Database, DbResult, Project, ok, failed}
use purp_tape.Db.Projects.{get_project_by_id}
use purp_tape.Db.Subscriptions.{Subscription, get_user_subscription}
use purp_tape.Db.Tracks.{Track, TrackVersion, get_track_by_id, get_latest_track_version}
use purp_tape.Db.OfflineDownloads.{
  OfflineDownload, completed_bytes, get_offline_storage_used, create_offline_download,
}
use purp_tape.Handlers.Offline.{
  initiated, offline_quota, or_zero, is_exceeded, recorded, pending, fetched, checked, of_project,
  of_track, of_version, initiate_download,
}

not_exceeded :
    (used size quota : ℕ)
    → used + size < 9_223_372_036_854_775_808
    → is_exceeded used size quota ≡ false
    → used + size ≤ quota
unfolding is_exceeded
not_exceeded used size quota small h = ground (arith, small, h)

module _ (db : Database) (table : List OfflineDownload) (subscriptions : List Subscription)
    (sign : String → Option String) (reached : Bool) where
  fetched_new :
      (d e : OfflineDownload) (url : String)
      → (fetched db table sign reached d).1 ≡ done 201 (initiated e url)
      → (d ≡ e) × ((fetched db table sign reached d).0 ≡ e ∷ table)
  unfolding fetched recorded create_offline_download
  fetched_new d e url h = ground arith

  abbrev quota_of : String → ℕ
  quota_of user_id = offline_quota (get_user_subscription db user_id subscriptions)

  checked_new :
      (d e : OfflineDownload) (url : String)
      → (checked db table subscriptions sign reached d).1 ≡ done 201 (initiated e url)
      → (d ≡ e)
        × ((checked db table subscriptions sign reached d).0 ≡ e ∷ table)
        × (is_exceeded
              (or_zero (get_offline_storage_used db d.user_id table))
              d.file_size_bytes
              (quota_of d.user_id)
            ≡ false)
  unfolding checked
  checked_new d e url h = let new = fetched_new d e url in ground (arith, new)

  -- What a granted copy is: a pending row of the user, in front of the table, that is in his quota.
  abbrev IsGranted : String → List OfflineDownload → OfflineDownload → Type 0
  IsGranted user_id after e =
      (e.user_id ≡ user_id)
      × (e.status ≡ "pending")
      × (after ≡ e ∷ table)
      × (db.available ≡ true)
      × (is_exceeded (or_zero (get_offline_storage_used db user_id table)) e.file_size_bytes
            (quota_of user_id)
          ≡ false)

  available_of :
      (project_id user_id : String) (p : Project)
      → get_project_by_id db project_id user_id ≡ ok p
      → db.available ≡ true
  unfolding get_project_by_id
  available_of project_id user_id p h = ground (arith, h)

  module _ (tracks : List Track) (versions : List TrackVersion) (id : String) (now : ℕ) where
    of_project_new :
        (user_id : String) (track : Track) (version : Option TrackVersion) (o : DbResult Project)
        (after : List OfflineDownload) (e : OfflineDownload) (url : String)
        → get_project_by_id db track.project_id user_id ≡ o
        → of_project db tracks versions subscriptions sign table reached id user_id now track
            version o
          ≡ some (after, done 201 (initiated e url))
        → IsGranted user_id after e
    unfolding of_project pending
    of_project_new user_id track version failed after e url p h = absurd (ground arith)
    of_project_new user_id track none (ok a) after e url p h = absurd (ground arith)
    of_project_new user_id track (some v) (ok a) after e url p h =
        let d : OfflineDownload = pending db table user_id id now track v in
        let q : checked db table subscriptions sign reached d
            ≡ (after, done 201 (initiated e url)) =
          ground (arith, h) in
        let (same, added, room) = checked_new d e url (ap (λ x. x.1) q) in
        (
          ap (λ x. x.user_id) (sym same),
          ap (λ x. x.status) (sym same),
          ap (λ x. x.0) (sym q) ∙ added,
          available_of track.project_id user_id a p,
          subst
              (λ x.
                is_exceeded (or_zero (get_offline_storage_used db user_id table)) x.file_size_bytes
                  (quota_of user_id)
                ≡ false)
              same room,
        )

    of_track_new :
        (user_id : String) (version : Option TrackVersion) (o : DbResult (Option Track))
        (after : List OfflineDownload) (e : OfflineDownload) (url : String)
        → of_track db tracks versions subscriptions sign table reached id user_id now version o
          ≡ some (after, done 201 (initiated e url))
        → IsGranted user_id after e
    unfolding of_track
    of_track_new user_id version failed after e url h = absurd (ground arith)
    of_track_new user_id version (ok none) after e url h = absurd (ground arith)
    of_track_new user_id version (ok (some t)) after e url h =
        of_project_new user_id t version (get_project_by_id db t.project_id user_id) after e url
          refl h

    of_version_new :
        (user_id track_id : String) (o : DbResult (Option TrackVersion))
        (after : List OfflineDownload) (e : OfflineDownload) (url : String)
        → of_version db tracks versions subscriptions sign table reached id user_id track_id now o
          ≡ some (after, done 201 (initiated e url))
        → IsGranted user_id after e
    unfolding of_version
    of_version_new user_id track_id failed after e url h = absurd (ground arith)
    of_version_new user_id track_id (ok version) after e url h =
        of_track_new user_id version (get_track_by_id db track_id tracks) after e url h

    room_left :
        (user_id : String) (e : OfflineDownload)
        → db.available ≡ true
        → completed_bytes user_id table + e.file_size_bytes < 9_223_372_036_854_775_808
        → is_exceeded
            (or_zero (get_offline_storage_used db user_id table))
            e.file_size_bytes
            (quota_of user_id)
          ≡ false
        → completed_bytes user_id table + e.file_size_bytes ≤ quota_of user_id
    unfolding get_offline_storage_used or_zero
    room_left user_id e up small h =
        let used : or_zero (get_offline_storage_used db user_id table)
            ≡ completed_bytes user_id table =
          ground (arith, up, small) in
        not_exceeded (completed_bytes user_id table) e.file_size_bytes (quota_of user_id) small
          (ap (λ n. is_exceeded n e.file_size_bytes (quota_of user_id)) (sym used) ∙ h)

    -- A copy is granted to the user of the request, as a pending row in front of the table, and only if
    -- his completed copies with it are within the quota of his tier, as long as their sum fits an int64.
    pub initiate_download-within :
        (r : Request) (after : List OfflineDownload) (e : OfflineDownload) (url : String)
        → initiate_download db tracks versions subscriptions sign table reached id now r
          ≡ some (after, done 201 (initiated e url))
        → completed_bytes e.user_id table + e.file_size_bytes < 9_223_372_036_854_775_808
        → (r.context "user_id" ≡ some e.user_id)
          × (e.status ≡ "pending")
          × (after ≡ e ∷ table)
          × (completed_bytes e.user_id table + e.file_size_bytes ≤ quota_of e.user_id)
    unfolding initiate_download
    initiate_download-within r after e url h small = elim (Option-cases (r.context "user_id")) [
      | inl n ↦ absurd (ground (arith, h, n))
      | inr (user_id, u) ↦
          let q : of_version db tracks versions subscriptions sign table reached id user_id
                (r.path_value "track_id") now
                (get_latest_track_version db (r.path_value "track_id") versions)
              ≡ some (after, done 201 (initiated e url)) =
            ground (arith, h, u) in
          let (same, pending_row, added, up, room) =
            of_version_new user_id (r.path_value "track_id")
              (get_latest_track_version db (r.path_value "track_id") versions) after e url q in
          (
            u ∙ ap some (sym same),
            pending_row,
            added,
            room_left e.user_id e up small (
                subst
                  (λ x.
                    is_exceeded (or_zero (get_offline_storage_used db x table)) e.file_size_bytes
                      (quota_of x)
                    ≡ false)
                  (sym same) room),
          )
    ]
