-- ===== src/Events/Aggregate/Laws.antt =====
-- What an aggregate keeps of its events.
use purp_tape.Base.{
  ℕ, suc, ◌+◌, ◌≤◌, ◌<◌, ◌≡◌, refl, sym, ap, ◌∙◌, inl, inr, Bool-cases, Bool, true, false, String,
  List, [], ◌∷◌, ◌++◌, arith, length, if◌then◌else◌,
}
use purp_tape.Base.Int.{ℤ, pos, incr, max_int}
use purp_tape.Events.{
  Event, project_created, project_updated, project_deleted, track_uploaded, play_recorded,
  comment_added, project_shared, EventStore, get_events, get_events_since, append_all,
}
use purp_tape.Events.Laws.{get_events_since-append_all, get_events-append_all}
use purp_tape.Events.Aggregate.{ProjectAggregate, apply_event, replay, new_project_aggregate, blank}

-- How many events create or update the project.
abbrev pub changes : List Event → ℕ
changes [] = 0
changes (project_created b name description is_private ∷ events) = suc (changes events)
changes (project_updated b name description is_private ∷ events) = suc (changes events)
changes (project_deleted b reason ∷ events) = changes events
changes (track_uploaded b project_id name file_size duration r2_object_key ∷ events) =
    changes events
changes (play_recorded b project_id listener_user_id duration_listened ∷ events) = changes events
changes (comment_added b project_id content parent_id ∷ events) = changes events
changes (project_shared b project_id shared_with permissions ∷ events) = changes events

incremented : (z : ℤ) (v : ℕ) → z ≡ pos v → v < max_int → incr z ≡ pos (suc v)
incremented z v at h = rw at (ground arith)

replay-version :
    (events : List Event) (pa : ProjectAggregate) (v : ℕ)
    → pa.version ≡ pos v
    → v + changes events ≤ max_int
    → (replay pa events).version ≡ pos (v + changes events)
unfolding replay apply_event
replay-version [] pa v at h = ground arith
replay-version (project_created b name description is_private ∷ events) pa v at h =
    replay-version events _ (suc v) (incremented pa.version v at (omega arith)) (omega arith)
    ∙ ap pos (omega arith)
replay-version (project_updated b name description is_private ∷ events) pa v at h =
    replay-version events _ (suc v) (incremented pa.version v at (omega arith)) (omega arith)
    ∙ ap pos (omega arith)
replay-version (project_deleted b reason ∷ events) pa v at h = replay-version events _ v at h
replay-version (track_uploaded b project_id name file_size duration r2_object_key ∷ events) pa v at
      h =
    replay-version events pa v at h
replay-version (play_recorded b project_id listener_user_id duration_listened ∷ events) pa v at h =
    replay-version events pa v at h
replay-version (comment_added b project_id content parent_id ∷ events) pa v at h =
    replay-version events pa v at h
replay-version (project_shared b project_id shared_with permissions ∷ events) pa v at h =
    replay-version events pa v at h

-- An aggregate's version is the number of its events that create or update the project, as long as
-- that number fits an int64.
pub new_project_aggregate-version :
    (events : List Event)
    → changes events ≤ max_int
    → (new_project_aggregate events).version ≡ pos (changes events)
unfolding new_project_aggregate blank
new_project_aggregate-version events h =
    replay-version events blank 0 refl (omega arith) ∙ ap pos (omega arith)

replay-append :
    (pa : ProjectAggregate) (xs ys : List Event) → replay pa (xs ++ ys) ≡ replay (replay pa xs) ys
unfolding replay
replay-append pa [] ys = refl
replay-append pa (x ∷ xs) ys = replay-append (apply_event pa x) xs ys

-- An aggregate that was made at some time is brought up to date by the events since the number of
-- events that it was made of: it is then the aggregate made of all the aggregate's events.
pub replay-get_events_since :
    (Handler : Type 0) (es : EventStore Handler) (events : List Event) (id : String)
    → let es' = (append_all Handler es events).0 in
      replay
        (new_project_aggregate (get_events Handler es id))
        (get_events_since Handler es' id (pos (length (get_events Handler es id))))
      ≡ new_project_aggregate (get_events Handler es' id)
unfolding new_project_aggregate
replay-get_events_since Handler es events id =
    rw (get_events_since-append_all Handler es events id) (
      rw (get_events-append_all Handler es events id)
        (sym (replay-append blank (get_events Handler es id) _)))

-- The fields that say what the project is, without the time of its last event.
abbrev pub timeless : ProjectAggregate → ProjectAggregate
timeless pa = record pa { updated_at = 0 }

abbrev pub is_delete : Event → Bool
is_delete (project_deleted b reason) = true
is_delete e = false

abbrev pub without_deletes : List Event → List Event
without_deletes [] = []
without_deletes (e ∷ events) =
    let rest = without_deletes events in if is_delete e then rest else e ∷ rest

apply_timeless :
    (pa : ProjectAggregate) (e : Event)
    → timeless (apply_event pa e) ≡ timeless (apply_event (timeless pa) e)
unfolding apply_event
apply_timeless pa (project_created b name description is_private) = refl
apply_timeless pa (project_updated b name description is_private) = refl
apply_timeless pa (project_deleted b reason) = refl
apply_timeless pa (track_uploaded b project_id name file_size duration r2_object_key) = refl
apply_timeless pa (play_recorded b project_id listener_user_id duration_listened) = refl
apply_timeless pa (comment_added b project_id content parent_id) = refl
apply_timeless pa (project_shared b project_id shared_with permissions) = refl

delete_timeless :
    (pa : ProjectAggregate) (e : Event)
    → is_delete e ≡ true
    → timeless (apply_event pa e) ≡ timeless pa
unfolding apply_event
delete_timeless pa (project_created b name description is_private) d = ground arith
delete_timeless pa (project_updated b name description is_private) d = ground arith
delete_timeless pa (project_deleted b reason) h = refl
delete_timeless pa (track_uploaded b project_id name file_size duration r2_object_key) d =
    ground arith
delete_timeless pa (play_recorded b project_id listener_user_id duration_listened) d = ground arith
delete_timeless pa (comment_added b project_id content parent_id) d = ground arith
delete_timeless pa (project_shared b project_id shared_with permissions) d = ground arith

step_timeless :
    (pa pa' : ProjectAggregate) (e : Event)
    → timeless pa ≡ timeless pa'
    → timeless (apply_event pa e) ≡ timeless (apply_event pa' e)
step_timeless pa pa' e same =
    apply_timeless pa e ∙ ap (λ p. timeless (apply_event p e)) same ∙ sym (apply_timeless pa' e)

timeless-replay :
    (events : List Event) (pa pa' : ProjectAggregate)
    → timeless pa ≡ timeless pa'
    → timeless (replay pa events) ≡ timeless (replay pa' (without_deletes events))
unfolding replay
timeless-replay [] pa pa' same = same
timeless-replay (e ∷ events) pa pa' same = elim (Bool-cases (is_delete e)) [
  | inl d ↦ rw (d) (timeless-replay events (apply_event pa e) pa' (delete_timeless pa e d ∙ same))
  | inr k ↦
      rw (k) (
        timeless-replay events (apply_event pa e) (apply_event pa' e) (step_timeless pa pa' e same))
]

-- Nothing of an aggregate but the time of its last event tells that its project was deleted: it is
-- the aggregate of the events without the deletions, up to that time.
pub new_project_aggregate-without_deletes :
    (events : List Event)
    → timeless (new_project_aggregate events)
      ≡ timeless (new_project_aggregate (without_deletes events))
unfolding new_project_aggregate
new_project_aggregate-without_deletes events = timeless-replay events blank blank refl
