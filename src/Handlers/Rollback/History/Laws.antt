-- ===== src/Handlers/Rollback/History/Laws.antt =====
-- backend/internal/handlers/rollback.go: which version of the history is the current one.
use purp_tape.Base.{
  ◌≡◌, Bool, not, String, Option, none, some, List, [], ◌∷◌, map, All, if◌then◌else◌, length,
}
use purp_tape.Http.{Request}
use purp_tape.Db.{Database}
use purp_tape.Db.Tracks.{TrackVersion}
use purp_tape.Db.Tracks.Versions.{versions_of, first, IsDescending}
use purp_tape.Handlers.Tracks.{Media}
use purp_tape.Handlers.Rollback.History.{VersionInfo, History, latest, id_of, infos}

-- The id of the first entry, if it is marked as current.
abbrev pub marked_first : List VersionInfo → Option String
marked_first [] = none
marked_first (i ∷ is) = if i.is_current then some i.track_version.id else none

-- The id of the first entry.
abbrev pub first_id : List VersionInfo → Option String
first_id [] = none
first_id (i ∷ is) = some i.track_version.id

-- The newest version comes first and, if it could be looked up, is the current one and marked as such;
-- what can be rolled back to is not marked.
abbrev pub IsOrdered : Bool → History → Type 0
IsOrdered latest_reached h =
    (h.current ≡ (if latest_reached then first_id h.versions else none))
    × (marked_first h.versions ≡ h.current)
    × IsDescending (map (λ i. i.track_version) h.versions)
    × All (λ i. i.can_rollback ≡ not i.is_current) h.versions

module _ (db : Database) (media : Media) (latest_reached : Bool) (r : Request) where
  abbrev track_id : String
  track_id = r.path_value "track_id"

  abbrev current : Option String
  current = id_of (latest db media latest_reached r)

  abbrev versions : List TrackVersion
  versions = versions_of track_id media.versions

  abbrev expected_current : Option String
  expected_current = if latest_reached then id_of (first versions) else none

  abbrev expected : History
  expected = record {
    track_id = track_id;
    versions = infos track_id expected_current versions;
    current = expected_current;
    total = length versions;
  }
