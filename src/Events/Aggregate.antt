-- ===== src/Events/Aggregate.antt =====
-- backend/internal/events/event_store.go: ProjectAggregate, a project's state from its events.
pub mod Laws
use purp_tape.Base.{
  ℕ, zero, suc, ◌+◌, ◌≤◌, ◌≡◌, refl, ap, ◌∙◌, Bool, true, false, String, List, [], ◌∷◌, ◌++◌, arith,
  length, ◌==◌, if◌then◌else◌,
}
use purp_tape.Base.Int.{ℤ, pos, negsuc, incr, max_int}
use purp_tape.Events.{
  Event, project_created, project_updated, project_deleted, track_uploaded, play_recorded,
  comment_added, project_shared,
}

-- The fields that events set; `Events` keeps the list it was made from.
pub record ProjectAggregate : Type 0 where
  pub id : String
  pub name : String
  pub description : String
  pub is_private : Bool
  pub owner_id : String
  pub version : ℤ
  pub created_at : ℕ
  pub updated_at : ℕ

blank : ProjectAggregate
blank = record {
  id = "";
  name = "";
  description = "";
  is_private = false;
  owner_id = "";
  version = pos 0;
  created_at = 0;
  updated_at = 0;
}

pub apply_event : ProjectAggregate → Event → ProjectAggregate
apply_event pa (project_created b name description is_private) = record {
  id = b.aggregate_id;
  name = name;
  description = description;
  is_private = is_private;
  owner_id = b.user_id;
  version = incr pa.version;
  created_at = b.timestamp;
  updated_at = b.timestamp;
}
apply_event pa (project_updated b name description is_private) = record pa {
  name = name;
  description = description;
  is_private = is_private;
  updated_at = b.timestamp;
  version = incr pa.version;
}
apply_event pa (project_deleted b reason) = record pa { updated_at = b.timestamp }
apply_event pa (track_uploaded b project_id name file_size duration r2_object_key) = pa
apply_event pa (play_recorded b project_id listener_user_id duration_listened) = pa
apply_event pa (comment_added b project_id content parent_id) = pa
apply_event pa (project_shared b project_id shared_with permissions) = pa

pub replay : ProjectAggregate → List Event → ProjectAggregate
unfolding apply_event
replay pa [] = pa
replay pa (e ∷ events) = replay (apply_event pa e) events

pub new_project_aggregate : List Event → ProjectAggregate
unfolding blank replay
new_project_aggregate events = replay blank events
