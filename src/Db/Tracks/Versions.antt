-- ===== src/Db/Tracks/Versions.antt =====
-- backend/internal/db/queries.go: GetTrackVersions and GetTrackVersionsPaginated, whose rows come with
-- the highest number first.
use purp_tape.Base.{
  ℕ, ◌≤◌, ◌≡◌, refl, subst, inl, inr, Bool-cases, not, ◌&&◌, true, false, String, Option, none,
  some, List, [], ◌∷◌, All, Bool, arith, str_eq, if◌then◌else◌, ltb, length,
}
use purp_tape.Db.{Database, DbResult, query}
use purp_tape.Db.Projects.{page}
use purp_tape.Db.Tracks.{TrackVersion, newest, latest_version}

-- A row at its place by ORDER BY version_number DESC.
unfoldable pub placed : TrackVersion → List TrackVersion → List TrackVersion
placed v [] = v ∷ []
placed v (w ∷ ws) =
    let rest = placed v ws in if ltb v.version_number w.version_number then w ∷ rest else v ∷ w ∷ ws

-- WHERE track_id = $1 AND deleted_at IS NULL ORDER BY version_number DESC
unfoldable pub versions_of : String → List TrackVersion → List TrackVersion
unfolding placed
versions_of track_id [] = []
versions_of track_id (v ∷ vs) =
    let rest = versions_of track_id vs in
    if str_eq v.track_id track_id && not v.is_deleted then placed v rest else rest

unfoldable pub get_track_versions :
    Database → String → List TrackVersion → DbResult (List TrackVersion)
unfolding versions_of
get_track_versions db track_id versions = query db (versions_of track_id versions)

unfoldable pub get_track_versions_paginated :
    Database → String → ℕ → ℕ → List TrackVersion → DbResult (List TrackVersion × ℕ)
unfolding versions_of
get_track_versions_paginated db track_id limit offset versions =
    query db
      (page limit offset (versions_of track_id versions), length (versions_of track_id versions))

abbrev pub first : List TrackVersion → Option TrackVersion
first [] = none
first (v ∷ vs) = some v

-- No number is above the one before it.
abbrev pub IsDescending : List TrackVersion → Type 0
IsDescending [] = Unit
IsDescending (v ∷ vs) = All (λ w. w.version_number ≤ v.version_number) vs × IsDescending vs

first-placed :
    (v : TrackVersion) (ws : List TrackVersion) → first (placed v ws) ≡ some (newest v (first ws))
unfolding placed newest
first-placed v [] = refl
first-placed v (w ∷ ws) = elim (Bool-cases (ltb v.version_number w.version_number)) [
  | inl lt ↦ simp (lt)
  | inr ge ↦ simp (ge)
]

-- The first of the versions of a track is the one that GetLatestTrackVersion reads.
pub first-versions_of :
    (track_id : String) (versions : List TrackVersion)
    → first (versions_of track_id versions) ≡ latest_version track_id versions
unfolding versions_of latest_version
first-versions_of track_id [] = refl
first-versions_of track_id (v ∷ vs) =
    elim (Bool-cases (str_eq v.track_id track_id && not v.is_deleted)) [
      | inl shown ↦
          simp (shown, first-placed v (versions_of track_id vs), first-versions_of track_id vs)
      | inr hidden ↦ simp (hidden, first-versions_of track_id vs)
    ]

if_lem :
    (P : List TrackVersion → Type 0) (b : Bool) {xs ys : List TrackVersion}
    → P xs
    → P ys
    → P (if b then xs else ys)
if_lem P true hx hy = hx
if_lem P false hx hy = hy

module _ (n : ℕ) where
  abbrev IsBelow : List TrackVersion → Type 0
  IsBelow = All (λ w. w.version_number ≤ n)

  IsBelow-placed :
      (v : TrackVersion) (ws : List TrackVersion)
      → v.version_number ≤ n
      → IsBelow ws
      → IsBelow (placed v ws)
  unfolding placed
  IsBelow-placed v [] le h = (le, tt)
  IsBelow-placed v (w ∷ ws) le (here, rest) =
      if_lem IsBelow (ltb v.version_number w.version_number) (here, IsBelow-placed v ws le rest)
        (le, (here, rest))

IsBelow-higher :
    (low high : ℕ) (ws : List TrackVersion) → low ≤ high → IsBelow low ws → IsBelow high ws
IsBelow-higher low high [] le h = tt
IsBelow-higher low high (w ∷ ws) le (here, rest) = (omega arith, IsBelow-higher low high ws le rest)

placed-IsDescending :
    (v : TrackVersion) (ws : List TrackVersion) → IsDescending ws → IsDescending (placed v ws)
unfolding placed
placed-IsDescending v [] h = (tt, tt)
placed-IsDescending v (w ∷ ws) (below, rest) =
    elim (Bool-cases (ltb v.version_number w.version_number)) [
      | inl lt ↦
          let le : v.version_number ≤ w.version_number = ground (arith, lt) in
          let e : w ∷ placed v ws ≡ placed v (w ∷ ws) = simp (lt) in
          subst IsDescending e
            (IsBelow-placed w.version_number v ws le below, placed-IsDescending v ws rest)
      | inr ge ↦
          let le : w.version_number ≤ v.version_number = ground (arith, ge) in
          let e : v ∷ w ∷ ws ≡ placed v (w ∷ ws) = simp (ge) in
          subst IsDescending e
            ((le, IsBelow-higher w.version_number v.version_number ws le below), (below, rest))
    ]

-- The versions of a track come with their numbers in descending order.
pub versions_of-IsDescending :
    (track_id : String) (versions : List TrackVersion)
    → IsDescending (versions_of track_id versions)
unfolding versions_of
versions_of-IsDescending track_id [] = tt
versions_of-IsDescending track_id (v ∷ vs) =
    let rest = versions_of-IsDescending track_id vs in
    if_lem IsDescending (str_eq v.track_id track_id && not v.is_deleted)
      (placed-IsDescending v (versions_of track_id vs) rest) rest
