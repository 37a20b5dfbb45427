-- ===== src/Events/Projection.antt =====
-- backend/internal/events/event_store.go: ProjectionHandler, the read models that events write.
pub mod Laws
use Prim.Native.String
use purp_tape.Base.{
  ℕ, ◌≡◌, refl, Bool, true, false, String, Option, none, some, List, [], ◌∷◌, ◌++◌, arith, eq_iff,
  str_eq, if◌then◌else◌, Dict, empty, insert,
}
use purp_tape.Base.Int.{ℤ}
use purp_tape.Events.{
  Event, BaseEvent, project_created, project_updated, project_deleted, track_uploaded,
  play_recorded, comment_added, project_shared, event_type, aggregate_id,
}

-- The map that a projection stores; an absent entry of Data is the nil that the source stores.
pub data Model : Type 0 where
  created :
      (id name description : String) (is_private : Bool) (owner_id : String) (created_at : ℕ)
      → Model
  updated : (id name description : String) (is_private : Bool) (updated_at : ℕ) → Model
  uploaded :
      (track_id : String) (project_id : Option String) (name : String) (file_size : ℤ)
      (uploaded_at : ℕ)
      → Model
  played : (project_id listener_user_id duration_listened : Option String) (played_at : ℕ) → Model

-- fmt.Sprintf("%s", v) on an entry of Data.
printed : Option String → String
printed none = "%!s(<nil>)"
printed (some s) = s

cache_key : Event → String
cache_key e = String.◌++◌ (event_type e) (String.◌++◌ ":" (aggregate_id e))

-- ph.cache after the event.
pub handle : Dict Model → Event → Dict Model
unfolding cache_key printed
handle c (project_created b name description is_private) =
    insert (cache_key (project_created b name description is_private))
      (created b.aggregate_id name description is_private b.user_id b.timestamp) c
handle c (project_updated b name description is_private) =
    insert (cache_key (project_updated b name description is_private))
      (updated b.aggregate_id name description is_private b.timestamp) c
handle c (project_deleted b reason) = c
handle c (track_uploaded b project_id name file_size duration r2_object_key) =
    insert (String.◌++◌ "tracks:" (printed (b.payload "project_id")))
      (uploaded b.aggregate_id (b.payload "project_id") name file_size b.timestamp) c
handle c (play_recorded b project_id listener_user_id duration_listened) =
    insert (String.◌++◌ "plays:" (printed (b.payload "project_id")))
      (played (b.payload "project_id") (b.payload "listener_user_id")
        (b.payload "duration_listened") b.timestamp)
      c
handle c (comment_added b project_id content parent_id) = c
handle c (project_shared b project_id shared_with permissions) = c

pub handle_all : Dict Model → List Event → Dict Model
unfolding handle
handle_all c [] = c
handle_all c (e ∷ events) = handle_all (handle c e) events

pub get_projection : Dict Model → String → Option Model
get_projection c key = c key
