-- ===== src/Events/Projection/Laws.antt =====
-- Projections after a replay, and after an update.
use Prim.Native.String
use Prim.Native.Char.{code}
use text.Mathlib.TextLemmas.{append_cancel_left, append_assoc, cons-append}
use purp_tape.Base.{
  ℕ, ◌≡◌, refl, sym, ap, ◌∙◌, ◌≢◌, Bool, true, false, String, Option, none, some, List, [], ◌∷◌,
  arith, str_eq, if◌then◌else◌, Dict, empty, insert, insert_self, insert_ne, All,
}
use purp_tape.Events.{
  Event, BaseEvent, project_created, project_updated, project_deleted, track_uploaded,
  play_recorded, comment_added, project_shared,
}
use purp_tape.Events.Projection.{Model, created, handle, handle_all, get_projection, cache_key}

-- What an event writes at a key.
abbrev write : Event → String → Option Model
write e k = handle empty e k

abbrev or_else : Option Model → Option Model → Option Model
or_else none m = m
or_else (some x) m = some x

or_if :
    (c : Bool) (x : Model) (m : Option Model)
    → (if c then some x else m) ≡ or_else (if c then some x else none) m
or_if true x m = refl
or_if false x m = refl

handle_at : (c : Dict Model) (e : Event) (k : String) → handle c e k ≡ or_else (write e k) (c k)
unfolding handle
handle_at c (project_created b name description is_private) k = or_if (str_eq _ k) _ (c k)
handle_at c (project_updated b name description is_private) k = or_if (str_eq _ k) _ (c k)
handle_at c (project_deleted b reason) k = refl
handle_at c (track_uploaded b project_id name file_size duration r2_object_key) k =
    or_if (str_eq _ k) _ (c k)
handle_at c (play_recorded b project_id listener_user_id duration_listened) k =
    or_if (str_eq _ k) _ (c k)
handle_at c (comment_added b project_id content parent_id) k = refl
handle_at c (project_shared b project_id shared_with permissions) k = refl

-- The last write of a row of events at a key.
last_write : List Event → String → Option Model
last_write [] k = none
last_write (e ∷ events) k = or_else (last_write events k) (write e k)

or_else_assoc : (a b c : Option Model) → or_else a (or_else b c) ≡ or_else (or_else a b) c
or_else_assoc none b c = refl
or_else_assoc (some x) b c = refl

handle_all_at :
    (events : List Event) (c : Dict Model) (k : String)
    → handle_all c events k ≡ or_else (last_write events k) (c k)
unfolding handle_all last_write
handle_all_at [] c k = refl
handle_all_at (e ∷ events) c k =
    handle_all_at events (handle c e) k
    ∙ ap (or_else (last_write events k)) (handle_at c e k)
    ∙ or_else_assoc (last_write events k) (write e k) (c k)

or_else_twice : (a b : Option Model) → or_else a (or_else a b) ≡ or_else a b
or_else_twice none b = refl
or_else_twice (some x) b = refl

-- Handling a row of events once more, in the same order, as a replay is meant to, changes no read
-- model.
pub get_projection-twice :
    (c : Dict Model) (events : List Event) (k : String)
    → get_projection (handle_all (handle_all c events) events) k
      ≡ get_projection (handle_all c events) k
unfolding get_projection
get_projection-twice c events k =
    handle_all_at events (handle_all c events) k
    ∙ ap (or_else (last_write events k)) (handle_all_at events c k)
    ∙ or_else_twice (last_write events k) (c k)
    ∙ sym (handle_all_at events c k)

-- An update of a project under its own type name.
abbrev pub IsUpdate : Event → Type 0
IsUpdate (project_updated b name description is_private) = b.type_name ≡ "ProjectUpdated"
IsUpdate _ = ⊥

first : String → ℕ
first String.[] = 0
first (String.◌∷◌ c s) = code c

first_of_updated : (s : String) → first (String.◌++◌ "Updated" s) ≡ b'U'
unfolding first
first_of_updated s = rw cons-append

first_of_created : (s : String) → first (String.◌++◌ "Created" s) ≡ b'C'
unfolding first
first_of_created s = rw cons-append

keys_differ : (x y : String) → String.◌++◌ "ProjectUpdated" x ≢ String.◌++◌ "ProjectCreated" y
keys_differ x y e = absurd (
    apart (
      sym (first_of_updated x)
      ∙ ap first (
          append_cancel_left "Project" _ _
            (sym (append_assoc "Project" "Updated" x) ∙ e ∙ append_assoc "Project" "Created" y))
      ∙ first_of_created y))
  where
    apart : ¬ (◌≡◌ {A = ℕ} b'U' b'C')
    apart h = omega arith

created_key : String → String
created_key id = String.◌++◌ "ProjectCreated" (String.◌++◌ ":" id)

update_keeps :
    (c : Dict Model) (e : Event) (id : String)
    → IsUpdate e
    → handle c e (created_key id) ≡ c (created_key id)
unfolding handle cache_key created_key
update_keeps c (project_updated b name description is_private) id named =
    insert_ne c _ (created_key id) _ (λ e.
      keys_differ _ _ (sym (ap (λ t. String.◌++◌ t (String.◌++◌ ":" b.aggregate_id)) named) ∙ e))
update_keeps c (project_created _ name description is_private) id named = elim named [ ]
update_keeps c (project_deleted _ reason) id named = elim named [ ]
update_keeps c (track_uploaded _ project_id name file_size duration r2_object_key) id named =
    elim named [ ]
update_keeps c (play_recorded _ project_id listener_user_id duration_listened) id named =
    elim named [ ]
update_keeps c (comment_added _ project_id content parent_id) id named = elim named [ ]
update_keeps c (project_shared _ project_id shared_with permissions) id named = elim named [ ]

updates_keep :
    (events : List Event) (c : Dict Model) (id : String)
    → All IsUpdate events
    → handle_all c events (created_key id) ≡ c (created_key id)
unfolding handle_all
updates_keep [] c id named = refl
updates_keep (e ∷ events) c id (named, rest) =
    updates_keep events (handle c e) id rest ∙ update_keeps c e id named

-- The read model that the creation of a project writes is never changed by the updates of the
-- project: whatever updates follow, under the type name `ProjectUpdated`, the model under
-- `ProjectCreated:<id>` has the name and the other fields of the creation.
pub get_projection-updates :
    (c : Dict Model) (b : BaseEvent) (name description : String) (is_private : Bool)
    (events : List Event)
    → b.type_name ≡ "ProjectCreated"
    → All IsUpdate events
    → get_projection
        (handle_all (handle c (project_created b name description is_private)) events)
        (String.◌++◌ "ProjectCreated" (String.◌++◌ ":" b.aggregate_id))
      ≡ some (created b.aggregate_id name description is_private b.user_id b.timestamp)
unfolding get_projection handle cache_key created_key
get_projection-updates c b name description is_private events named updates =
    updates_keep events _ b.aggregate_id updates
    ∙ ap
        (λ t.
          insert (String.◌++◌ t (String.◌++◌ ":" b.aggregate_id))
            (created b.aggregate_id name description is_private b.user_id b.timestamp) c
            (created_key b.aggregate_id))
        named
    ∙ insert_self c (created_key b.aggregate_id) _
