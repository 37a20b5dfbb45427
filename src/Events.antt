-- ===== src/Events.antt =====
-- backend/internal/events/event_store.go: the event store, its subscribers and the replays. A
-- handler stands for itself: publishing starts a goroutine, and what is returned is the calls that
-- the goroutine makes, in their order. Timestamps are nanoseconds.
pub mod Aggregate
pub mod Projection
pub mod Laws
mod Tests
use purp_tape.Base.{
  ℕ, zero, ◌+◌, Bool, true, false, ◌&&◌, String, Option, none, some, List, [], ◌∷◌, ◌++◌, str_eq,
  if◌then◌else◌, Dict, empty, insert, length,
}
use purp_tape.Base.Int.{ℤ, pos, le_int}

-- `payload` holds the strings of the event's Data: a value that is not there reads `none`.
pub record BaseEvent : Type 0 where
  pub type_name : String
  pub aggregate_id : String
  pub version : ℤ
  pub timestamp : ℕ
  pub user_id : String
  pub payload : Dict String

pub data Event : Type 0 where
  project_created : BaseEvent → (name description : String) (is_private : Bool) → Event
  project_updated : BaseEvent → (name description : String) (is_private : Bool) → Event
  project_deleted : BaseEvent → (reason : String) → Event
  track_uploaded :
      BaseEvent
      → (project_id name : String) (file_size duration : ℤ) (r2_object_key : String) → Event
  play_recorded : BaseEvent → (project_id listener_user_id : String) (duration_listened : ℤ) → Event
  comment_added : BaseEvent → (project_id content parent_id : String) → Event
  project_shared : BaseEvent → (project_id shared_with : String) (permissions : List String) → Event

abbrev pub base : Event → BaseEvent
base (project_created b name description is_private) = b
base (project_updated b name description is_private) = b
base (project_deleted b reason) = b
base (track_uploaded b project_id name file_size duration r2_object_key) = b
base (play_recorded b project_id listener_user_id duration_listened) = b
base (comment_added b project_id content parent_id) = b
base (project_shared b project_id shared_with permissions) = b

abbrev pub event_type : Event → String
event_type e = (base e).type_name

abbrev pub aggregate_id : Event → String
aggregate_id e = (base e).aggregate_id

module _ (Handler : Type 0) where
  pub record EventStore : Type 0 where
    pub events : List Event
    pub subscribers : Dict (List Handler)

  pub new_event_store : EventStore
  new_event_store = record { events = []; subscribers = empty }

  -- subscribers[key], which is empty where the map has no such key.
  pub handlers : EventStore → String → List Handler
  handlers es event_type = elim (es.subscribers event_type) [ none ↦ [] | some hs ↦ hs ]

  pub subscribe : EventStore → String → Handler → EventStore
  unfolding handlers
  subscribe es event_type h = record es {
    subscribers = insert event_type (handlers es event_type ++ (h ∷ [])) es.subscribers;
  }

  calls : Event → List Handler → List (Handler × Event)
  calls e [] = []
  calls e (h ∷ hs) = (h, e) ∷ calls e hs

  pub publish_event : EventStore → Event → List (Handler × Event)
  unfolding handlers calls
  publish_event es e = calls e (handlers es (event_type e))

  pub append_event : EventStore → Event → EventStore × List (Handler × Event)
  unfolding publish_event
  append_event es e =
      let es' = record es { events = es.events ++ (e ∷ []) } in (es', publish_event es' e)

  -- The goroutines of a row of publications.
  publish_all : EventStore → List Event → List (List (Handler × Event))
  unfolding publish_event
  publish_all es [] = []
  publish_all es (e ∷ events) = publish_event es e ∷ publish_all es events

  of_aggregate : String → List Event → List Event
  of_aggregate id [] = []
  of_aggregate id (e ∷ events) =
      let rest = of_aggregate id events in if str_eq (aggregate_id e) id then e ∷ rest else rest

  pub get_events : EventStore → String → List Event
  unfolding of_aggregate
  get_events es id = of_aggregate id es.events

  -- The loop of GetEventsSince at this count.
  since : String → ℤ → ℕ → List Event → List Event
  since id version count [] = []
  since id version count (e ∷ events) =
      let rest =
        since id version (if str_eq (aggregate_id e) id then count + 1 else count) events in
      if str_eq (aggregate_id e) id && le_int version (pos count) then e ∷ rest else rest

  pub get_events_since : EventStore → String → ℤ → List Event
  unfolding since
  get_events_since es id version = since id version 0 es.events

  pub get_all_events : EventStore → List Event
  get_all_events es = es.events

  pub replay_all : EventStore → List (List (Handler × Event))
  unfolding get_all_events publish_all
  replay_all es = publish_all es (get_all_events es)

  pub replay_aggregate : EventStore → String → List (List (Handler × Event))
  unfolding get_events publish_all
  replay_aggregate es id = publish_all es (get_events es id)

  -- A row of appends, and the goroutines that they start.
  pub append_all : EventStore → List Event → EventStore × List (List (Handler × Event))
  unfolding append_event
  append_all es [] = (es, [])
  append_all es (e ∷ events) =
      let r = append_event es e in let rest = append_all r.0 events in (rest.0, r.1 ∷ rest.1)
