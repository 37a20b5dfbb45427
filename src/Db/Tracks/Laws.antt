-- ===== src/Db/Tracks/Laws.antt =====
-- backend/internal/db: the latest version of a track, and what DeleteTrack leaves.
use purp_tape.Base.{
  ℕ, ◌≤◌, ◌<◌, ◌≡◌, refl, subst, inl, inr, Bool-cases, not, ◌&&◌, true, false, String, Option-cases,
  none, some, List, [], ◌∷◌, All, arith, str_eq, ltb, eq_iff,
}
use purp_tape.Db.Tracks.{
  Track, TrackVersion, find_track, newest, latest_version, latest_number, track_deleted,
  versions_deleted,
}

-- A version of the track that is not deleted, with no number of such a version above its own.
abbrev pub IsLatest : String → List TrackVersion → TrackVersion → Type 0
IsLatest track_id versions w =
    (w.track_id ≡ track_id)
    × (w.is_deleted ≡ false)
    × All (λ v. v.track_id ≡ track_id → v.is_deleted ≡ false → v.version_number ≤ w.version_number)
        versions

all_below :
    (track_id : String) (low high : ℕ) (versions : List TrackVersion)
    → low ≤ high
    → All (λ v. v.track_id ≡ track_id → v.is_deleted ≡ false → v.version_number ≤ low) versions
    → All (λ v. v.track_id ≡ track_id → v.is_deleted ≡ false → v.version_number ≤ high) versions
all_below track_id low high [] le h = tt
all_below track_id low high (v ∷ versions) le (here, rest) =
    (λ t d. let q = here t d in ground arith, all_below track_id low high versions le rest)

all_gone :
    (track_id : String) (high : ℕ) (versions : List TrackVersion)
    → latest_version track_id versions ≡ none
    → All (λ v. v.track_id ≡ track_id → v.is_deleted ≡ false → v.version_number ≤ high) versions
unfolding latest_version
all_gone track_id high [] h = tt
all_gone track_id high (v ∷ versions) h = (
  λ t d. absurd (ground (arith, eq_iff v.track_id track_id, h, t, d)),
  all_gone track_id high versions (ground arith),
)

-- The step of `latest_version` at a version, by what the rest has.
IsLatest-newest :
    (track_id : String) (v x : TrackVersion) (versions : List TrackVersion)
    → v.track_id ≡ track_id
    → v.is_deleted ≡ false
    → IsLatest track_id versions x
    → IsLatest track_id (v ∷ versions) (newest v (some x))
unfolding newest
IsLatest-newest track_id v x versions t d (x_track, x_there, below) =
    elim (Bool-cases (ltb v.version_number x.version_number)) [
      | inl lt ↦
          let latest : IsLatest track_id (v ∷ versions) x =
            (x_track, x_there, (λ t' d'. ground (arith, lt), below)) in
          let e : x ≡ newest v (some x) = ground (arith, lt) in
          subst (IsLatest track_id (v ∷ versions)) e latest
      | inr ge ↦
          let latest : IsLatest track_id (v ∷ versions) v = (
            t,
            d,
            (
              λ t' d'. ground arith,
              all_below track_id x.version_number v.version_number versions (ground (arith, ge))
                  below,
            ),
          ) in
          let e : v ≡ newest v (some x) = ground (arith, ge) in
          subst (IsLatest track_id (v ∷ versions)) e latest
    ]

IsLatest-skip :
    (track_id : String) (v x : TrackVersion) (versions : List TrackVersion)
    → (str_eq v.track_id track_id && not v.is_deleted) ≡ false
    → IsLatest track_id versions x
    → IsLatest track_id (v ∷ versions) x
IsLatest-skip track_id v x versions skipped (t, d, below) =
    (t, d, (λ t' d'. absurd (ground (arith, eq_iff v.track_id track_id, skipped, t', d')), below))

pub latest_version-IsLatest :
    (track_id : String) (versions : List TrackVersion) (w : TrackVersion)
    → latest_version track_id versions ≡ some w
    → IsLatest track_id versions w
unfolding latest_version newest
latest_version-IsLatest track_id [] w h = absurd (ground arith)
latest_version-IsLatest track_id (v ∷ versions) w h =
    elim (Bool-cases (str_eq v.track_id track_id && not v.is_deleted)) [
      | inr skipped ↦
          let e : latest_version track_id versions ≡ some w = ground (arith, h, skipped) in
          IsLatest-skip track_id v w versions skipped
            (latest_version-IsLatest track_id versions w e)
      | inl meant ↦
          let t : v.track_id ≡ track_id = ground (arith, eq_iff v.track_id track_id, meant) in
          let d : v.is_deleted ≡ false = ground (arith, meant) in
          elim (Option-cases (latest_version track_id versions)) [
            | inl e ↦
                let latest : IsLatest track_id (v ∷ versions) v =
                  (t, d, (λ t' d'. ground arith, all_gone track_id v.version_number versions e)) in
                let q : v ≡ w = ground (arith, h, e, meant) in
                subst (IsLatest track_id (v ∷ versions)) q latest
            | inr (x, e) ↦
                let q : newest v (some x) ≡ w = ground (arith, h, e, meant) in
                subst (IsLatest track_id (v ∷ versions)) q (
                  IsLatest-newest track_id v x versions t d
                    (latest_version-IsLatest track_id versions x e))
          ]
    ]

pub latest_number-latest_version :
    (track_id : String) (versions : List TrackVersion) (w : TrackVersion)
    → latest_version track_id versions ≡ some w
    → w.version_number ≤ latest_number track_id versions
unfolding latest_version latest_number newest
latest_number-latest_version track_id [] w h = absurd (ground arith)
latest_number-latest_version track_id (v ∷ versions) w h =
    elim (Option-cases (latest_version track_id versions)) [
      | inl e ↦ ground (arith, h, e)
      | inr (x, e) ↦
          let b = latest_number-latest_version track_id versions x e in ground (arith, h, e, b)
    ]

-- A version with a number above all others of its track is its latest.
pub latest_version-insert :
    (track_id : String) (v : TrackVersion) (versions : List TrackVersion)
    → v.track_id ≡ track_id
    → v.is_deleted ≡ false
    → latest_number track_id versions < v.version_number
    → latest_version track_id (v ∷ versions) ≡ some v
unfolding latest_version newest
latest_version-insert track_id v versions t d h =
    elim (Option-cases (latest_version track_id versions)) [
      | inl e ↦ ground (arith, eq_iff v.track_id track_id, e)
      | inr (x, e) ↦
          let b = latest_number-latest_version track_id versions x e in
          ground (arith, eq_iff v.track_id track_id, e, b)
    ]

pub find_track-deleted :
    (track_id : String) (tracks : List Track)
    → find_track track_id (track_deleted track_id tracks).0 ≡ none
unfolding find_track track_deleted
find_track-deleted track_id [] = refl
find_track-deleted track_id (t ∷ tracks) = ground (arith, find_track-deleted track_id tracks)

pub find_track-others :
    (track_id other : String) (tracks : List Track)
    → str_eq track_id other ≡ false
    → find_track other (track_deleted track_id tracks).0 ≡ find_track other tracks
unfolding find_track track_deleted
find_track-others track_id other [] n = refl
find_track-others track_id other (t ∷ tracks) n = ground (
  arith,
  eq_iff t.id track_id,
  eq_iff t.id other,
  eq_iff track_id other,
  find_track-others track_id other tracks n,
)

pub latest_version-deleted :
    (track_id : String) (versions : List TrackVersion)
    → latest_version track_id (versions_deleted track_id versions) ≡ none
unfolding latest_version versions_deleted
latest_version-deleted track_id [] = refl
latest_version-deleted track_id (v ∷ versions) =
    ground (arith, latest_version-deleted track_id versions)

pub latest_version-others :
    (track_id other : String) (versions : List TrackVersion)
    → str_eq track_id other ≡ false
    → latest_version other (versions_deleted track_id versions) ≡ latest_version other versions
unfolding latest_version versions_deleted newest
latest_version-others track_id other [] n = refl
latest_version-others track_id other (v ∷ versions) n = ground (
  arith,
  eq_iff v.track_id track_id,
  eq_iff v.track_id other,
  eq_iff track_id other,
  latest_version-others track_id other versions n,
)

-- The first UPDATE has a row where the track is found.
pub track_deleted-found :
    (track_id : String) (tracks : List Track) (t : Track)
    → find_track track_id tracks ≡ some t
    → (track_deleted track_id tracks).1 ≡ true
unfolding find_track track_deleted
track_deleted-found track_id [] t found = absurd (ground (arith, found))
track_deleted-found track_id (x ∷ tracks) t found =
    elim (Bool-cases (str_eq x.id track_id && not x.is_deleted)) [
      | inl here ↦ ground (arith, here)
      | inr other ↦
          let later : find_track track_id tracks ≡ some t = ground (arith, found, other) in
          let rest = track_deleted-found track_id tracks t later in ground (arith, rest, other)
    ]
