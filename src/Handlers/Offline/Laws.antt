-- ===== src/Handlers/Offline/Laws.antt =====
-- backend/internal/handlers: the handlers of one download of a user.
use purp_tape.Base.{
  ℕ, ◌≡◌, refl, sym, ap, ◌∙◌, subst, ◌≢◌, ◌⊎◌, inl, inr, Bool, Bool-cases, true, false, String,
  Option, Option-cases, none, some, List, [], arith, str_eq, eq_iff,
}
use purp_tape.Http.{Request, Answer, refused, done, IsRefused}
use purp_tape.Db.{Database, DbResult, ok, failed}
use purp_tape.Db.OfflineDownloads.{
  OfflineDownload, find_download, with_status, downloads_of, get_offline_download_by_id,
  update_offline_download_status,
}
use purp_tape.Db.OfflineDownloads.Laws.{
  IsKeyed, downloads_of-with_status, find_download-with_status, find_download-with_status_other,
}
use purp_tape.Handlers.Offline.{
  if_own, with_own, changed, delete_offline_download, played, log_offline_play,
}

module _ (db : Database) (table : List OfflineDownload) (r : Request) where
  abbrev download_id : String
  download_id = r.path_value "download_id"

  found_lem :
      (d : OfflineDownload)
      → get_offline_download_by_id db download_id table ≡ ok (some d)
      → find_download download_id table ≡ some d
  unfolding get_offline_download_by_id
  found_lem d h = elim (Option-cases (find_download download_id table)) [
    | inl e ↦ absurd (ground (arith, h, e))
    | inr (x, e) ↦ ground (arith, h, e)
  ]

  -- A refused request, or one whose handler panics, changes nothing.
  abbrev pub IsKept : Option (List OfflineDownload × Answer String) → Type 0
  IsKept result = (result ≡ none) ⊎ ((a : Answer String) × IsRefused a × (result ≡ some (table, a)))

  -- The download is the user's and gets the status; those with other ids, and those of the other users,
  -- stay.
  abbrev pub IsChanged : String → ℕ → Option (List OfflineDownload × Answer String) → Type 0
  IsChanged status code result =
      (user_id : String) × (d : OfflineDownload) × (after : List OfflineDownload) × (result
        ≡ some (after, done code download_id))
      × (r.context "user_id" ≡ some user_id)
      × (find_download download_id table ≡ some d)
      × (d.user_id ≡ user_id)
      × (find_download download_id after ≡ some (record d { status = status }))
      × ((id : String) → id ≢ download_id → find_download id after ≡ find_download id table)
      × ((other : String) → other ≢ user_id → downloads_of other after ≡ downloads_of other table)

  if_own_cases :
      (user_id : String) (o : DbResult (Option OfflineDownload))
      (action : List OfflineDownload × Answer String)
      → IsKept (if_own db table user_id o action)
        ⊎ ((d : OfflineDownload) × (o ≡ ok (some d))
            × (d.user_id ≡ user_id)
            × (if_own db table user_id o action ≡ some action))
  unfolding if_own
  if_own_cases user_id failed action =
      inl (inr (refused [] 404 "download not found", ([], 404, "download not found", refl), refl))
  if_own_cases user_id (ok none) action = inl (inl refl)
  if_own_cases user_id (ok (some d)) action = elim (Bool-cases (str_eq d.user_id user_id)) [
    | inl e ↦ inr (d, refl, (eq_iff d.user_id user_id).0 e, rw e)
    | inr e ↦
        inl (inr (refused [] 404 "download not found", ([], 404, "download not found", refl), rw e))
  ]

  changed_cases :
      (reached : Bool) (status message : String) (code : ℕ)
      → (IsRefused (changed db table reached status r message code).1
          × ((changed db table reached status r message code).0 ≡ table))
        ⊎ (changed db table reached status r message code
            ≡ (with_status download_id status table, done code download_id))
  unfolding changed update_offline_download_status
  changed_cases true status message code = inr refl
  changed_cases false status message code = inl (([], 500, message, refl), refl)

  IsChanged-own :
      (reached : Bool) (status message : String) (code : ℕ) (user_id : String) (d : OfflineDownload)
      → IsKeyed table
      → r.context "user_id" ≡ some user_id
      → find_download download_id table ≡ some d
      → d.user_id ≡ user_id
      → with_own db table r (changed db table reached status r message code)
        ≡ some (with_status download_id status table, done code download_id)
      → IsChanged status code (with_own db table r (changed db table reached status r message code))
  IsChanged-own reached status message code user_id d keyed e found own q = (
    user_id,
    d,
    with_status download_id status table,
    q,
    e,
    found,
    own,
    find_download-with_status download_id status table d found,
    λ id n. find_download-with_status_other download_id status id table n,
    λ other n.
        downloads_of-with_status download_id status other table d keyed found
          (λ same. n (sym same ∙ own)),
  )

  is_changed :
      (reached : Bool) (status message : String) (code : ℕ)
      → IsKeyed table
      → IsKept (with_own db table r (changed db table reached status r message code))
        ⊎ IsChanged status code
            (with_own db table r (changed db table reached status r message code))
  unfolding with_own
  is_changed reached status message code keyed = elim (Option-cases (r.context "user_id")) [
    | inl e ↦ inl (inl (rw (e, with_own)))
    | inr (user_id, e) ↦
        let action = changed db table reached status r message code in
        let q : with_own db table r action
            ≡ if_own db table user_id (get_offline_download_by_id db download_id table) action =
          rw (e, with_own) in
        elim (if_own_cases user_id (get_offline_download_by_id db download_id table) action) [
          | inl kept ↦ inl (subst IsKept (sym q) kept)
          | inr (d, o, own, acted) ↦ elim (changed_cases reached status message code) [
            | inl (refused_, same) ↦
                inl (inr (action.1, refused_, q ∙ acted ∙ ap (λ t. some (t, action.1)) same))
            | inr answered ↦
                let found = found_lem d o in
                inr (
                  IsChanged-own reached status message code user_id d keyed e found own
                    (q ∙ acted ∙ ap some answered))
          ]
        ]
  ]

  -- The same of a removal.
  pub delete_offline_download-done :
      (reached : Bool)
      → IsKeyed table
      → IsKept (delete_offline_download db table reached r)
        ⊎ IsChanged "removed" 204 (delete_offline_download db table reached r)
  unfolding delete_offline_download
  delete_offline_download-done reached keyed =
      is_changed reached "removed" "failed to delete" 204 keyed

  missing :
      find_download download_id table ≡ none
      → (get_offline_download_by_id db download_id table ≡ failed)
        ⊎ (get_offline_download_by_id db download_id table ≡ ok none)
  unfolding get_offline_download_by_id
  missing absent = elim (Bool-cases db.available) [
    | inr down ↦ inl (rw down)
    | inl up ↦ elim (Bool-cases db.no_rows_is_sql) [
      | inl sql ↦ inr (ground (arith, up, sql, absent))
      | inr other ↦ inl (ground (arith, up, other, absent))
    ]
  ]

  if_own_missing :
      (user_id : String) (o : DbResult (Option OfflineDownload))
      (action : List OfflineDownload × Answer String)
      → (o ≡ failed) ⊎ (o ≡ ok none)
      → (if_own db table user_id o action ≡ none)
        ⊎ (if_own db table user_id o action ≡ some (table, refused [] 404 "download not found"))
  unfolding if_own
  if_own_missing user_id failed action h = inr refl
  if_own_missing user_id (ok none) action h = inl refl
  if_own_missing user_id (ok (some d)) action (inl e) = absurd (ground (arith, e))
  if_own_missing user_id (ok (some d)) action (inr e) = absurd (ground (arith, e))

  with_own_missing :
      (action : List OfflineDownload × Answer String)
      → find_download download_id table ≡ none
      → (with_own db table r action ≡ none)
        ⊎ (with_own db table r action ≡ some (table, refused [] 404 "download not found"))
  unfolding with_own
  with_own_missing action absent = elim (Option-cases (r.context "user_id")) [
    | inl e ↦ inl (ground (arith, e))
    | inr (user_id, e) ↦
        let q : with_own db table r action
            ≡ if_own db table user_id (get_offline_download_by_id db download_id table) action =
          ground (arith, e) in
        subst (λ x. (x ≡ none) ⊎ (x ≡ some (table, refused [] 404 "download not found"))) (sym q)
          (if_own_missing user_id (get_offline_download_by_id db download_id table) action
            (missing absent))
  ]

  -- On a route without a download id, as that of the router, no play is logged where the ids of the
  -- table are not empty, and the handler panics or answers 404.
  pub log_offline_play-lost :
      (reached : Bool) (now : ℕ)
      → r.path_value "download_id" ≡ ""
      → find_download "" table ≡ none
      → (log_offline_play db table reached true now r ≡ none)
        ⊎ (log_offline_play db table reached true now r
            ≡ some (table, refused [] 404 "download not found"))
  unfolding log_offline_play
  log_offline_play-lost reached now route absent =
      with_own_missing (played db table reached now r)
        (ap (λ id. find_download id table) route ∙ absent)
