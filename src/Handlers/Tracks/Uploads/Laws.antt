-- ===== src/Handlers/Tracks/Uploads/Laws.antt =====
-- UploadTrackVersion: what an upload that succeeds leaves, and what one that fails does.
use purp_tape.Base.{
  ℕ, ◌+◌, ◌≡◌, refl, sym, ap, ◌∙◌, subst, ◌≢◌, ◌⊎◌, inl, inr, Bool, Bool-cases, true, String,
  Option, Option-cases, none, some, List, [], ◌∷◌, All, arith,
}
use purp_tape.Http.{Request, Answer, refused, done}
use purp_tape.Db.{Database}
use purp_tape.Db.Subscriptions.{Subscription, get_user_subscription}
use purp_tape.Db.Tracks.{
  TrackVersion, latest_version, latest_number, get_latest_track_version_number,
  get_user_storage_used,
}
use purp_tape.Db.Tracks.Laws.{latest_version-insert}
use purp_tape.Helpers.Requests.{get_user_id}
use purp_tape.Handlers.Tracks.{Media}
use purp_tape.Handlers.Tracks.Uploads.{
  AudioFile, Outcome, validate_audio_file, is_over, quota_and_used, object_key, finished,
  new_version, versioned, accepted, upload_as, upload_track_version,
}
use purp_tape.Handlers.Tracks.Uploads.Stored.{is_stored, is_stored_first, IsSound, finished-IsSound}

finished-done :
    (outcome : Outcome) (v w : TrackVersion) (media : Media)
    → (finished outcome v media).1 ≡ done 201 w
    → (w ≡ v)
      × (outcome.uploaded ≡ true)
      × (outcome.committed ≡ true)
      × ((finished outcome v media).0
          ≡ record media { versions = w ∷ media.versions; bucket = w.r2_object_key ∷ media.bucket })
unfolding finished
finished-done outcome v w media h = ground arith

module _ (db : Database) (media : Media) (r : Request) (outcome : Outcome)
    (version_id object_id checksum : String) (subscriptions : List Subscription)
    (reads_fraction : Bool) (valid_id : String → Bool) (form : Option (Option AudioFile)) where
  abbrev upload : Media × Answer TrackVersion
  upload =
      upload_track_version db media r outcome version_id object_id checksum valid_id subscriptions
        reads_fraction form

  -- An upload that is refused changes neither table.
  pub upload_track_version-refused :
      (headers : List (String × String)) (status : ℕ) (message : String)
      → upload.1 ≡ refused headers status message
      → (upload.0.tracks ≡ media.tracks) × (upload.0.versions ≡ media.versions)
  unfolding upload_track_version upload_as accepted versioned finished
  upload_track_version-refused headers status message h = ground arith

  abbrev track_id : String
  track_id = r.path_value "track_id"

  abbrev IsKept : Media × Answer TrackVersion → Type 0
  IsKept result =
      (result.0 ≡ media)
      × ((headers : List (String × String)) × (status : ℕ) × (message : String) × (result.1
            ≡ refused headers status message))

  abbrev IsFinished : String → AudioFile → Media × Answer TrackVersion → Type 0
  IsFinished user_id file result =
      (validate_audio_file file ≡ true)
      × (result
          ≡ finished outcome
              (new_version user_id track_id version_id object_id checksum
                (latest_number track_id media.versions) file)
              media)

  -- An upload ends early with an error and nothing changed, or with the file sent to R2.
  versioned_cases :
      (user_id : String) (file : AudioFile)
      → validate_audio_file file ≡ true
      → let result =
          versioned db media r outcome version_id object_id checksum user_id file
            (get_latest_track_version_number db track_id media.versions) in
        IsKept result ⊎ IsFinished user_id file result
  unfolding versioned get_latest_track_version_number
  versioned_cases user_id file valid = elim (Bool-cases db.available) [
    | inl up ↦ inr (valid, rw up)
    | inr down ↦ inl (rw down, ([], 500, "failed to get version number", rw down))
  ]

  abbrev over : String → AudioFile → Bool
  over user_id file = is_over file.size (
      quota_and_used (get_user_subscription db user_id subscriptions)
        (get_user_storage_used db reads_fraction user_id media.tracks media.versions))

  accepted_cases :
      (user_id : String) (file : AudioFile)
      → let result =
          accepted db media r outcome version_id object_id checksum subscriptions reads_fraction
            user_id file in
        IsKept result ⊎ IsFinished user_id file result
  unfolding accepted
  accepted_cases user_id file = elim (Bool-cases (validate_audio_file file)) [
    | inr invalid ↦ inl (rw invalid, ([], 400, "invalid file", rw invalid))
    | inl valid ↦ elim (Bool-cases (over user_id file)) [
      | inl full ↦ inl (rw (valid, full), ([], 402, "insufficient storage quota", rw (valid, full)))
      | inr room ↦ elim (Bool-cases outcome.blocked) [
        | inl b ↦ inl (
          rw (valid, room, b),
          ([], 503, "upload temporarily blocked by budget guard", rw (valid, room, b)),
        )
        | inr b ↦
            let q : accepted db media r outcome version_id object_id checksum subscriptions
                  reads_fraction user_id file
                ≡ versioned db media r outcome version_id object_id checksum user_id file
                    (get_latest_track_version_number db track_id media.versions) =
              rw (valid, room, b) in
            subst (λ x. IsKept x ⊎ IsFinished user_id file x) (sym q)
              (versioned_cases user_id file valid)
      ]
    ]
  ]

  upload_as_cases :
      (user_id : String) (f : Option (Option AudioFile))
      → let result =
          upload_as db media r outcome version_id object_id checksum subscriptions reads_fraction
            user_id f in
        IsKept result
        ⊎ ((file : AudioFile) × (f ≡ some (some file)) × IsFinished user_id file result)
  unfolding upload_as
  upload_as_cases user_id none = inl (refl, ([], 413, "file too large (max 100MB)", refl))
  upload_as_cases user_id (some none) = inl (refl, ([], 400, "missing file", refl))
  upload_as_cases user_id (some (some file)) = elim (accepted_cases user_id file) [
    | inl k ↦ inl k
    | inr f ↦ inr (file, refl, f)
  ]

  abbrev IsSent : Media × Answer TrackVersion → Type 0
  IsSent result =
      (user_id : String) × (file : AudioFile) × (get_user_id r ≡ some user_id)
      × (form ≡ some (some file))
      × IsFinished user_id file result

  upload_cases : IsKept upload ⊎ IsSent upload
  unfolding upload_track_version
  upload_cases = elim (Option-cases (get_user_id r)) [
    | inl e ↦
        let q : upload ≡ (media, refused [] 401 "unauthorized") = rw (e, upload_track_version) in
        inl (ap (λ x. x.0) q, ([], 401, "unauthorized", ap (λ x. x.1) q))
    | inr (user_id, e) ↦ elim (Bool-cases (valid_id track_id)) [
      | inr invalid ↦
          let q : upload ≡ (media, refused [] 400 "invalid track id") =
            rw (e, upload_track_version, invalid) in
          inl (ap (λ x. x.0) q, ([], 400, "invalid track id", ap (λ x. x.1) q))
      | inl valid ↦
          let q : upload
              ≡ upload_as db media r outcome version_id object_id checksum subscriptions
                  reads_fraction user_id form =
            rw (e, upload_track_version, valid) in
          subst (λ x. IsKept x ⊎ IsSent x) (sym q)
            (elim (upload_as_cases user_id form) [
              | inl k ↦ inl k
              | inr (file, f, sent) ↦ inr (user_id, file, e, f, sent)
            ])
    ]
  ]

  -- What an answer 201 tells: the user, the file, and the number that was the latest.
  abbrev pub Done : TrackVersion → Type 0
  Done w =
      (user_id : String) × (file : AudioFile) × (get_user_id r ≡ some user_id)
      × (form ≡ some (some file))
      × (validate_audio_file file ≡ true)
      × (w
          ≡ new_version user_id (r.path_value "track_id") version_id object_id checksum
              (latest_number (r.path_value "track_id") media.versions) file)
      × (upload.0
          ≡ record media { versions = w ∷ media.versions; bucket = w.r2_object_key ∷ media.bucket })

  upload_done : (w : TrackVersion) → upload.1 ≡ done 201 w → Done w
  upload_done w h = elim upload_cases [
    | inl (k, (headers, status, message, e)) ↦ let q = sym e ∙ h in absurd (ground arith)
    | inr (user_id, file, u, f, (valid, q)) ↦
        let v : TrackVersion =
          new_version user_id track_id version_id object_id checksum
            (latest_number track_id media.versions) file in
        let d = finished-done outcome v w media (ap (λ x. x.1) (sym q) ∙ h) in
        (user_id, file, u, f, valid, d.0, ap (λ x. x.0) q ∙ d.3)
  ]

  -- After an upload that is answered with a version, that version has the number after the highest of
  -- its track, it is the latest one of the track, and its file is in R2.
  pub upload_track_version-latest :
      (w : TrackVersion)
      → upload.1 ≡ done 201 w
      → (w.version_number ≡ latest_number (r.path_value "track_id") media.versions + 1)
        × (latest_version (r.path_value "track_id") upload.0.versions ≡ some w)
        × (is_stored w.r2_object_key upload.0.bucket ≡ true)
  unfolding new_version
  upload_track_version-latest w h =
      let (user_id, file, u, f, valid, e, after) = upload_done w h in
      let n : w.version_number ≡ latest_number track_id media.versions + 1 =
        ap (λ x. x.version_number) e in
      (
        n,
        ap (λ m. latest_version track_id m.versions) after
            ∙ latest_version-insert track_id w media.versions (ap (λ x. x.track_id) e)
                (ap (λ x. x.is_deleted) e) (ground (arith, n)),
        ap (λ m. is_stored w.r2_object_key m.bucket) after
            ∙ is_stored_first w.r2_object_key media.bucket,
      )

  -- No upload breaks this: the versions of a track have numbers of their own, and each its file in R2;
  -- the new object id is to be in no key of the table.
  pub upload_track_version-IsSound :
      ((user_id : String) (number : ℕ)
        → All
            (λ v. v.r2_object_key ≢ object_key user_id (r.path_value "track_id") number object_id)
            media.versions)
      → IsSound media
      → IsSound upload.0
  unfolding new_version
  upload_track_version-IsSound fresh s = elim upload_cases [
    | inl (k, e) ↦ subst IsSound (sym k) s
    | inr (user_id, file, u, f, (valid, q)) ↦
        let v : TrackVersion =
          new_version user_id track_id version_id object_id checksum
            (latest_number track_id media.versions) file in
        subst (λ x. IsSound x.0) (sym q)
          (finished-IsSound outcome v media
            (fresh user_id (latest_number track_id media.versions + 1)) s)
  ]
