-- ===== src/Handlers/Rollback/Laws.antt =====
-- backend/internal/handlers/rollback.go: the version that is served after a rollback.
use purp_tape.Base.{
  ℕ, ◌≡◌, refl, sym, ap, ◌∙◌, subst, ◌≢◌, inl, inr, Bool, Bool-cases, true, String, Option,
  Option-cases, none, some, arith, ◌==◌,
}
use purp_tape.Base.Numbers.{atoi}
use purp_tape.Http.{Request, done}
use purp_tape.Db.{Database, DbResult, ok, failed}
use purp_tape.Db.Tracks.{
  Track, TrackVersion, latest_version, get_track_by_id, get_latest_track_version,
  get_track_version_by_number, update_track_active_version,
}
use purp_tape.Helpers.Requests.{get_user_id}
use purp_tape.Handlers.Shares.Links.{owns}
use purp_tape.Handlers.Tracks.{Media, found_track, found_version}
use purp_tape.Handlers.Tracks.Laws.{found_version_lem}
use purp_tape.Handlers.Rollback.{
  rolled_back, version_number_of, activated, from_current, of_track, to_version, rollback_as,
  rollback_track_version,
}

module _ (db : Database) (media : Media) (reached : Bool) (r : Request) (n : ℕ)
    (v : TrackVersion) where
  abbrev track_id : String
  track_id = r.path_value "track_id"

  -- The versions are those of before, and the latest one has another number than the one asked for.
  abbrev pub IsUnmoved : Media → Type 0
  IsUnmoved after =
      (after.versions ≡ media.versions)
      × ((current : TrackVersion) × (latest_version track_id media.versions ≡ some current)
          × (current.version_number ≢ n))

  activated_done :
      (number : ℕ) (target : TrackVersion)
      → (activated db media reached r number target).1 ≡ done 200 (rolled_back n v)
      → (number ≡ n) × ((activated db media reached r number target).0.versions ≡ media.versions)
  unfolding activated update_track_active_version
  activated_done number target h = ground (arith, h)

  from_current_done :
      (number : ℕ) (target : TrackVersion) (o : Option TrackVersion)
      → (o ≡ found_version (get_latest_track_version db track_id media.versions))
      → (from_current db media reached r number target o).1 ≡ done 200 (rolled_back n v)
      → IsUnmoved (from_current db media reached r number target o).0
  unfolding from_current
  from_current_done number target none found h = absurd (ground arith)
  from_current_done number target (some current) found h =
      elim (Bool-cases (current.version_number == number)) [
        | inl there ↦ absurd (ground (arith, h, there))
        | inr elsewhere ↦
            let h' : (activated db media reached r number target).1 ≡ done 200 (rolled_back n v) =
              ground (arith, h, elsewhere) in
            let (same, kept) = activated_done number target h' in
            (
              rw elsewhere kept,
              (
                current,
                found_version_lem db media r (λ id. true) current (sym found),
                λ e. ground (arith, elsewhere, same, e),
              ),
            )
      ]

  of_track_done :
      (user_id : String) (number : ℕ) (target : TrackVersion) (o : Option Track)
      → (of_track db media reached r user_id number target o).1 ≡ done 200 (rolled_back n v)
      → IsUnmoved (of_track db media reached r user_id number target o).0
  unfolding of_track
  of_track_done user_id number target none h = absurd (ground arith)
  of_track_done user_id number target (some track) h =
      elim (Bool-cases (owns db track.project_id user_id)) [
        | inr other ↦ absurd (ground (arith, h, other))
        | inl owner ↦
            let current = found_version (get_latest_track_version db track_id media.versions) in
            let h' : (from_current db media reached r number target current).1
                ≡ done 200 (rolled_back n v) =
              ground (arith, h, owner) in
            rw owner (from_current_done number target current refl h')
      ]

  to_version_done :
      (user_id : String) (number : ℕ) (o : DbResult TrackVersion)
      → (to_version db media reached r user_id number o).1 ≡ done 200 (rolled_back n v)
      → IsUnmoved (to_version db media reached r user_id number o).0
  unfolding to_version
  to_version_done user_id number failed h = absurd (ground arith)
  to_version_done user_id number (ok target) h =
      of_track_done user_id number target (found_track (get_track_by_id db track_id media.tracks)) h

  rollback_as_done :
      (user_id : String) (o : Option ℕ)
      → (rollback_as db media reached r user_id o).1 ≡ done 200 (rolled_back n v)
      → IsUnmoved (rollback_as db media reached r user_id o).0
  unfolding rollback_as
  rollback_as_done user_id none h = absurd (ground arith)
  rollback_as_done user_id (some number) h =
      to_version_done user_id number (get_track_version_by_number db track_id number media.versions)
        h

  -- A rollback that is reported as done moves nothing: the versions are those of before, and the latest
  -- one of the track has another number than the one asked for.
  pub rollback_track_version-IsUnmoved :
      (rollback_track_version db media reached r).1 ≡ done 200 (rolled_back n v)
      → IsUnmoved (rollback_track_version db media reached r).0
  unfolding rollback_track_version
  rollback_track_version-IsUnmoved h = elim (Option-cases (get_user_id r)) [
    | inl e ↦ absurd (ground (arith, h, e))
    | inr (user_id, e) ↦
        let number = version_number_of (atoi (r.path_value "version_number")) in
        let q : rollback_track_version db media reached r
            ≡ rollback_as db media reached r user_id number =
          ground (arith, e) in
        subst (λ x. IsUnmoved x.0) (sym q)
          (rollback_as_done user_id number (ap (λ x. x.1) (sym q) ∙ h))
  ]
