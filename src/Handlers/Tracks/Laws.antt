-- ===== src/Handlers/Tracks/Laws.antt =====
-- backend/internal/handlers/tracks.go: who may delete a track or play it, what a deletion leaves, and
-- who may make a track.
use purp_tape.Base.{
  ℕ, ◌≡◌, sym, ap, ◌∙◌, subst, ◌⊎◌, inl, inr, Bool, Bool-cases, true, false, String, Option,
  Option-cases, none, some, [], arith,
}
use purp_tape.Http.{Request, Answer, refused, done, IsRefused}
use purp_tape.Db.{Database}
use purp_tape.Db.Projects.{has_id}
use purp_tape.Db.Tracks
use purp_tape.Db.Tracks.{
  Track, TrackVersion, find_track, has_track, latest_version, track_deleted, versions_deleted,
  get_track_by_id, get_latest_track_version,
}
use purp_tape.Db.Tracks.Laws.{
  IsLatest, latest_version-IsLatest, find_track-deleted, track_deleted-found,
  latest_version-deleted,
}
use purp_tape.Helpers.Requests.{get_user_id}
use purp_tape.Handlers.Tracks.{
  Media, is_track_name, is_visible_to, found_track, found_version, with_track, deleted,
  delete_answer, delete_track, signed, get_signed_play_url, create_track, create_as, stored,
}

module _ (db : Database) (media : Media) (r : Request) (valid_id : String → Bool) where
  abbrev track_id : String
  track_id = r.path_value "track_id"

  -- A user is signed in and may see the project of the track, which is not deleted.
  abbrev pub IsAllowed : Type 0
  IsAllowed =
      (user_id : String) × (track : Track) × (get_user_id r ≡ some user_id)
      × (find_track track_id media.tracks ≡ some track)
      × (is_visible_to db user_id track.project_id ≡ true)

  found_track_lem :
      (track : Track)
      → found_track (get_track_by_id db track_id media.tracks) ≡ some track
      → find_track track_id media.tracks ≡ some track
  unfolding found_track get_track_by_id
  found_track_lem track h = elim (Option-cases (find_track track_id media.tracks)) [
    | inl e ↦ absurd (ground (arith, h, e))
    | inr (t, e) ↦ ground (arith, h, e)
  ]

  with_track_done :
      {A : Type 0} (action : Media × Answer A) (status : ℕ) (a : A)
      → (with_track db media r valid_id action).1 ≡ done status a
      → IsAllowed × (with_track db media r valid_id action ≡ action)
  unfolding with_track
  with_track_done {A} action status a h = elim (Option-cases (get_user_id r)) [
    | inl e ↦
        let q : with_track db media r valid_id action ≡ (media, refused [] 401 "unauthorized") =
          rw (e, with_track) in
        let f = ap (λ x. x.1) (sym q) ∙ h in absurd (ground arith)
    | inr (user_id, e) ↦ elim (Bool-cases (valid_id track_id)) [
      | inr invalid ↦
          let q : with_track db media r valid_id action
              ≡ (media, refused [] 400 "invalid track id") =
            rw (e, with_track, invalid) in
          let f = ap (λ x. x.1) (sym q) ∙ h in absurd (ground arith)
      | inl valid ↦ elim (Option-cases (found_track (get_track_by_id db track_id media.tracks))) [
        | inl t ↦
            let q : with_track db media r valid_id action
                ≡ (media, refused [] 404 "track not found") =
              rw (e, with_track, valid, t) in
            let f = ap (λ x. x.1) (sym q) ∙ h in absurd (ground arith)
        | inr (track, t) ↦ elim (Bool-cases (is_visible_to db user_id track.project_id)) [
          | inr hidden ↦
              let q : with_track db media r valid_id action
                  ≡ (media, refused [] 403 "access denied") =
                rw (e, with_track, valid, t, hidden) in
              let f = ap (λ x. x.1) (sym q) ∙ h in absurd (ground arith)
          | inl seen ↦ (
            (user_id, track, e, found_track_lem track t, seen),
            rw (e, with_track, valid, t, seen),
          )
        ]
      ]
    ]
  ]

  -- A refused request changes nothing.
  abbrev pub IsKept : {A : Type 0} → Media × Answer A → Type 0
  IsKept result = (result.0 ≡ media) × IsRefused result.1

  with_track_cases :
      {A : Type 0} (action : Media × Answer A)
      → IsKept (with_track db media r valid_id action)
        ⊎ (IsAllowed × (with_track db media r valid_id action ≡ action))
  unfolding with_track
  with_track_cases {A} action = elim (Option-cases (get_user_id r)) [
    | inl e ↦ inl (rw (e, with_track), ([], 401, "unauthorized", rw (e, with_track)))
    | inr (user_id, e) ↦ elim (Bool-cases (valid_id track_id)) [
      | inr invalid ↦
          inl (
            rw (e, with_track, invalid),
            ([], 400, "invalid track id", rw (e, with_track, invalid)),
          )
      | inl valid ↦ elim (Option-cases (found_track (get_track_by_id db track_id media.tracks))) [
        | inl t ↦ inl (
          rw (e, with_track, valid, t),
          ([], 404, "track not found", rw (e, with_track, valid, t)),
        )
        | inr (track, t) ↦ elim (Bool-cases (is_visible_to db user_id track.project_id)) [
          | inr hidden ↦ inl (
            rw (e, with_track, valid, t, hidden),
            ([], 403, "access denied", rw (e, with_track, valid, t, hidden)),
          )
          | inl seen ↦ inr (
            (user_id, track, e, found_track_lem track t, seen),
            rw (e, with_track, valid, t, seen),
          )
        ]
      ]
    ]
  ]

  -- The track of the path and its versions are gone.
  abbrev pub IsGone : Media × Answer String → Type 0
  IsGone result =
      (result.1 ≡ done 200 track_id)
      × (find_track track_id result.0.tracks ≡ none)
      × (latest_version track_id result.0.versions ≡ none)

  deleted_cases :
      (committed : Bool)
      → IsKept (deleted db media r committed) ⊎ IsGone (deleted db media r committed)
  unfolding deleted delete_answer Tracks.delete_track
  deleted_cases committed = elim (Bool-cases committed) [
    | inr aborted ↦ inl (rw aborted, ([], 500, "internal server error", rw aborted))
    | inl commits ↦ elim (Bool-cases (track_deleted track_id media.tracks).1) [
      | inr no_row ↦ inl (rw (commits, no_row), ([], 404, "track not found", rw (commits, no_row)))
      | inl some_row ↦ inr (
        rw (commits, some_row),
        rw (commits, some_row) (find_track-deleted track_id media.tracks),
        rw (commits, some_row) (latest_version-deleted track_id media.versions),
      )
    ]
  ]

  pub found_version_lem :
      (v : TrackVersion)
      → found_version (get_latest_track_version db track_id media.versions) ≡ some v
      → latest_version track_id media.versions ≡ some v
  unfolding found_version get_latest_track_version
  found_version_lem v h = elim (Option-cases (latest_version track_id media.versions)) [
    | inl e ↦ absurd (ground (arith, h, e))
    | inr (w, e) ↦ ground (arith, h, e)
  ]

  signed-done :
      (sign : String → Option String) (url : String) (v : TrackVersion) (o : Option TrackVersion)
      → signed db media r sign o ≡ done 200 (url, v)
      → (o ≡ some v) × (sign v.r2_object_key ≡ some url)
  unfolding signed
  signed-done sign url v none h = absurd (ground arith)
  signed-done sign url v (some w) h = elim (Option-cases (sign w.r2_object_key)) [
    | inl e ↦ absurd (ground (arith, h, e))
    | inr (u, e) ↦
        let q : w ≡ v = ground (arith, h, e) in
        let same : sign w.r2_object_key ≡ some url = ground (arith, h, e) in
        (ap some q, subst (λ x. sign x.r2_object_key ≡ some url) q same)
  ]

  abbrev result : Bool → Media × Answer String
  result committed = delete_track db media r valid_id committed

  delete_track_cases :
      (committed : Bool) → IsKept (result committed) ⊎ (IsAllowed × IsGone (result committed))
  unfolding delete_track
  delete_track_cases committed = elim (with_track_cases (deleted db media r committed)) [
    | inl kept ↦ inl kept
    | inr (allowed, q) ↦ elim (deleted_cases committed) [
      | inl kept ↦ inl (subst IsKept (sym q) kept)
      | inr gone ↦ inr (allowed, subst IsGone (sym q) gone)
    ]
  ]

  found_if :
      (track : Track)
      → db.available ≡ true
      → find_track track_id media.tracks ≡ some track
      → found_track (get_track_by_id db track_id media.tracks) ≡ some track
  unfolding found_track get_track_by_id
  found_if track up found = ground (arith, up, found)

  deleted_if :
      (track : Track)
      → find_track track_id media.tracks ≡ some track
      → IsGone (deleted db media r true)
  unfolding deleted delete_answer Tracks.delete_track
  deleted_if track found =
      let some_row = track_deleted-found track_id media.tracks track found in
      (
        rw some_row,
        rw some_row (find_track-deleted track_id media.tracks),
        rw some_row (latest_version-deleted track_id media.versions),
      )

  delete_track_if :
      valid_id track_id ≡ true → db.available ≡ true → IsAllowed → IsGone (result true)
  unfolding delete_track with_track
  delete_track_if valid up (user_id, track, user, found, seen) =
      let q : result true ≡ deleted db media r true =
        rw (user, with_track, valid, found_if track up found, seen) in
      subst IsGone (sym q) (deleted_if track found)

  -- A request to delete a track is either refused, and then changes no table and no file, or it is of a
  -- user who may see the project of the track, and then is answered 200, and neither the track nor a
  -- version of it is found afterwards. The latter happens to every such request with a valid id whose
  -- transaction is committed, while the server is reached.
  pub delete_track-done :
      (committed : Bool)
      → (IsKept (result committed) ⊎ (IsAllowed × IsGone (result committed)))
        × (valid_id track_id ≡ true → db.available ≡ true → IsAllowed → IsGone (result true))
  delete_track-done committed = (delete_track_cases committed, delete_track_if)

  -- A URL to play a track is made only for a user who may see its project, and of its version
  -- with the highest number among those that are not deleted.
  pub get_signed_play_url-done :
      (sign : String → Option String) (url : String) (v : TrackVersion)
      → get_signed_play_url db media r valid_id sign ≡ done 200 (url, v)
      → IsAllowed × IsLatest track_id media.versions v × (sign v.r2_object_key ≡ some url)
  unfolding get_signed_play_url
  get_signed_play_url-done sign url v h =
      let (allowed, q) =
        with_track_done
          (
            media,
            signed db media r sign
                (found_version (get_latest_track_version db track_id media.versions)),
          )
          200 (url, v) h in
      let (found, key) =
        signed-done sign url v (found_version (get_latest_track_version db track_id media.versions))
          (ap (λ x. x.1) (sym q) ∙ h) in
      (allowed, latest_version-IsLatest track_id media.versions v (found_version_lem v found), key)

  stored_201 :
      (track : Track)
      → db.available ≡ true
      → has_id track.project_id db.projects ≡ true
      → has_track track.id media.tracks ≡ false
      → (stored db media r track).1 ≡ done 201 track
  unfolding stored Tracks.create_track
  stored_201 track up p t = ground (arith, up, p, t)

  -- A signed-in user makes a track in any project of the database, with a new id and a valid
  -- name.
  pub create_track-open :
      (id user_id name : String)
      → get_user_id r ≡ some user_id
      → is_track_name name ≡ true
      → db.available ≡ true
      → has_id (r.path_value "project_id") db.projects ≡ true
      → has_track id media.tracks ≡ false
      → (create_track db media r id (some name)).1
        ≡ done 201 (record {
          id = id;
          project_id = r.path_value "project_id";
          user_id = user_id;
          name = name;
          duration = 0;
          is_deleted = false;
        })
  unfolding create_track create_as
  create_track-open id user_id name u n up p t =
      rw (u, create_track, n)
        (stored_201
          (record {
            id = id;
            project_id = r.path_value "project_id";
            user_id = user_id;
            name = name;
            duration = 0;
            is_deleted = false;
          })
          up p t)
