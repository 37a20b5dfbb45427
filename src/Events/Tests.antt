-- ===== src/Events/Tests.antt =====
-- A project with two events, and one that comes later.
use purp_tape.Base.{ℕ, ◌≡◌, String, [], ◌∷◌, length, true, empty}
use purp_tape.Base.Int.{pos}
use purp_tape.Events.{
  BaseEvent, Event, project_created, project_updated, project_deleted, EventStore, get_events,
  get_events_since, append_all,
}
use purp_tape.Events.Aggregate.{replay, new_project_aggregate}
use purp_tape.Events.Aggregate.Laws.{replay-get_events_since}

abbrev at : String → ℕ → BaseEvent
at type_name timestamp = record {
  type_name = type_name;
  aggregate_id = "p1";
  version = pos 0;
  timestamp = timestamp;
  user_id = "ann";
  payload = empty;
}

abbrev creation : Event
creation = project_created (at "ProjectCreated" 1) "Demo" "first" true

abbrev renaming : Event
renaming = project_updated (at "ProjectUpdated" 2) "Song" "second" true

abbrev deletion : Event
deletion = project_deleted (at "ProjectDeleted" 3) "done"

abbrev store : EventStore String
store = record { events = creation ∷ renaming ∷ []; subscribers = empty }

abbrev store_after : EventStore String
store_after = (append_all String store (deletion ∷ [])).0

replay-get_events_since_example :
    replay
      (new_project_aggregate (get_events String store "p1"))
      (get_events_since String store_after "p1" (pos (length (get_events String store "p1"))))
    ≡ new_project_aggregate (get_events String store_after "p1")
replay-get_events_since_example = replay-get_events_since String store (deletion ∷ []) "p1"
