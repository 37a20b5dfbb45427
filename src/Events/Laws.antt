-- ===== src/Events/Laws.antt =====
-- Reads of the event store after appends, and what a replay publishes.
use mathlib.Core.List.{append-nil, append_assoc}
use purp_tape.Base.{
  ℕ, zero, suc, ◌+◌, ◌-◌, ◌≤◌, ◌≡◌, refl, sym, ap, ap₂, ◌∙◌, false, String, Option, none, some,
  List, [], ◌∷◌, ◌++◌, arith, inl, inr, Bool-cases, leb, leb→le, str_eq, if◌then◌else◌, length,
  drop,
}
use purp_tape.Base.Int.{ℤ, pos, negsuc, le_int, pos_part}
use purp_tape.Events.{
  Event, aggregate_id, event_type, EventStore, handlers, calls, publish_event, publish_all,
  append_event, append_all, of_aggregate, get_events, since, get_events_since, get_all_events,
  replay_all,
}

le_int-pos_part :
    (version : ℤ) (count : ℕ) → le_int version (pos count) ≡ leb (pos_part version) count
le_int-pos_part (pos n) count = refl
le_int-pos_part (negsuc n) count = ground arith

sub_zero : (v count : ℕ) → v ≤ count → v - count ≡ 0
sub_zero v count h = omega arith

drop-nil : (n : ℕ) → [] ≡ drop {A = Event} n []
drop-nil zero = refl
drop-nil (suc n) = refl

drop-length-append : (xs ys : List Event) → drop (length xs) (xs ++ ys) ≡ ys
drop-length-append [] ys = refl
drop-length-append (x ∷ xs) ys = drop-length-append xs ys

drop_all : (v count : ℕ) (xs : List Event) → v ≤ count → drop (v - count) xs ≡ xs
drop_all v count xs h = ap (λ n. drop n xs) (sub_zero v count h)

le_suc : (v count : ℕ) → v ≤ count → v ≤ count + 1
le_suc v count h = omega arith

sub_suc : (v count : ℕ) → leb v count ≡ false → v - count ≡ suc (v - (count + 1))
sub_suc v count h = ground arith

drop-step :
    (v count : ℕ) (e : Event) (xs : List Event)
    → drop (v - count) (e ∷ xs)
      ≡ (if leb v count then e ∷ drop (v - (count + 1)) xs else drop (v - (count + 1)) xs)
drop-step v count e xs = elim (Bool-cases (leb v count)) [
  | inl h ↦ rw (
    h,
    drop_all v count (e ∷ xs) (leb→le v count h),
    drop_all v (count + 1) xs (le_suc v count (leb→le v count h)),
  )
  | inr h ↦ rw (h, sub_suc v count h)
]

module _ (Handler : Type 0) where
  since-drop :
      (id : String) (version : ℤ) (count : ℕ) (events : List Event)
      → since Handler id version count events
        ≡ drop (pos_part version - count) (of_aggregate Handler id events)
  unfolding since of_aggregate
  since-drop id version count [] = drop-nil (pos_part version - count)
  since-drop id version count (e ∷ events) = elim (Bool-cases (str_eq (aggregate_id e) id)) [
    | inl h ↦ rw h (
        rw (le_int-pos_part version count) (
          rw (since-drop id version (count + 1) events)
            (sym (drop-step (pos_part version) count e (of_aggregate Handler id events)))))
    | inr h ↦ rw h (since-drop id version count events)
  ]

  of_aggregate-append :
      (id : String) (xs ys : List Event)
      → of_aggregate Handler id (xs ++ ys)
        ≡ of_aggregate Handler id xs ++ of_aggregate Handler id ys
  unfolding of_aggregate
  of_aggregate-append id [] ys = refl
  of_aggregate-append id (x ∷ xs) ys = ground (arith, of_aggregate-append id xs ys)

  append_all-events :
      (es : EventStore Handler) (events : List Event)
      → (append_all Handler es events).0.events ≡ es.events ++ events
  unfolding append_all append_event
  append_all-events es [] = sym (append-nil es.events)
  append_all-events es (e ∷ events) =
      append_all-events (append_event Handler es e).0 events
      ∙ append_assoc es.events (e ∷ []) events

  published :
      (es old : EventStore Handler) (e : Event)
      → es.subscribers ≡ old.subscribers
      → publish_event Handler es e ≡ publish_event Handler old e
  unfolding publish_event handlers
  published es old e same = ap (λ subs. calls Handler e (found (subs (event_type e)))) same
    where
      found : Option (List Handler) → List Handler
      found o = elim o [ none ↦ [] | some hs ↦ hs ]

  publish_all-subscribers :
      (es old : EventStore Handler) (events : List Event)
      → es.subscribers ≡ old.subscribers
      → publish_all Handler es events ≡ publish_all Handler old events
  unfolding publish_all
  publish_all-subscribers es old [] same = refl
  publish_all-subscribers es old (e ∷ events) same =
      ap₂ ◌∷◌ (published es old e same) (publish_all-subscribers es old events same)

  publish_all-append :
      (es : EventStore Handler) (xs ys : List Event)
      → publish_all Handler es (xs ++ ys) ≡ publish_all Handler es xs ++ publish_all Handler es ys
  unfolding publish_all
  publish_all-append es [] ys = refl
  publish_all-append es (x ∷ xs) ys =
      ap (λ l. publish_event Handler es x ∷ l) (publish_all-append es xs ys)

  -- Publishing reads the subscribers alone, which appends leave as they are.
  append_all-published :
      (es old : EventStore Handler) (events : List Event)
      → es.subscribers ≡ old.subscribers
      → ((append_all Handler es events).1 ≡ publish_all Handler old events)
        × ((append_all Handler es events).0.subscribers ≡ old.subscribers)
  unfolding append_all append_event publish_all
  append_all-published es old [] same = (refl, same)
  append_all-published es old (e ∷ events) same =
      let rest = append_all-published (append_event Handler es e).0 old events same in
      (ap₂ ◌∷◌ (published es old e same) rest.0, rest.1)

  -- The events since a version are those of the aggregate without its first `version` ones, and
  -- all of them where the version is negative.
  pub get_events_since-get_events :
      (es : EventStore Handler) (id : String) (version : ℤ)
      → get_events_since Handler es id version ≡ drop (pos_part version) (get_events Handler es id)
  unfolding get_events_since get_events
  get_events_since-get_events es id version =
      since-drop id version 0 es.events
      ∙ ap (λ n. drop n (of_aggregate Handler id es.events)) (omega arith)

  pub get_events-append_all :
      (es : EventStore Handler) (events : List Event) (id : String)
      → get_events Handler (append_all Handler es events).0 id
        ≡ get_events Handler es id ++ get_events Handler (record es { events = events }) id
  unfolding get_events
  get_events-append_all es events id =
      ap (of_aggregate Handler id) (append_all-events es events)
      ∙ of_aggregate-append id es.events events

  -- A reader that has seen all of an aggregate's events and asks later for those since their number
  -- gets exactly the aggregate's events that were appended in between, in their order.
  pub get_events_since-append_all :
      (es : EventStore Handler) (events : List Event) (id : String)
      → get_events_since Handler
          (append_all Handler es events).0
          id
          (pos (length (get_events Handler es id)))
        ≡ get_events Handler (record es { events = events }) id
  unfolding get_events
  get_events_since-append_all es events id =
      get_events_since-get_events (append_all Handler es events).0 id
        (pos (length (get_events Handler es id)))
      ∙ ap (λ l. drop (length (get_events Handler es id)) (of_aggregate Handler id l))
          (append_all-events es events)
      ∙ ap (drop (length (get_events Handler es id))) (of_aggregate-append id es.events events)
      ∙ drop-length-append (of_aggregate Handler id es.events) (of_aggregate Handler id events)

  -- A replay of a store publishes first what a replay before the last appends does, and then, batch
  -- by batch, what those appends published.
  pub replay_all-append_all :
      (es : EventStore Handler) (events : List Event)
      → replay_all Handler (append_all Handler es events).0
        ≡ replay_all Handler es ++ (append_all Handler es events).1
  unfolding replay_all get_all_events
  replay_all-append_all es events =
      publish_all-subscribers (append_all Handler es events).0 es
        (append_all Handler es events).0.events (append_all-published es es events refl).1
      ∙ ap (publish_all Handler es) (append_all-events es events)
      ∙ publish_all-append es es.events events
      ∙ ap (λ l. publish_all Handler es es.events ++ l)
          (sym (append_all-published es es events refl).0)
