-- ===== src/Cache/Invalidation.antt =====
-- backend/internal/cache/invalidation.go: the subscriptions to patterns of keys, and the events put into
-- their channels. A channel is the list of its events, the oldest first; a consumer takes that one.
pub mod Laws
mod Tests
use Prim.Native.Char.{code}
use Prim.Native.String
use purp_tape.Base.{
  ℕ, Bool, true, false, ◌||◌, ◌++◌, String, Option, none, some, List, [], ◌∷◌, str_eq, ◌==◌,
  if◌then◌else◌, ltb, length, drop, ◌-◌,
}
use purp_tape.Base.Text.{cut_prefix}

pub record InvalidationEvent : Type 0 where
  pub key : String
  pub kind : String
  pub timestamp : ℕ

-- One channel with the pattern that it is subscribed to, in the order of the subscriptions.
pub record Subscriber : Type 0 where
  pub pattern : String
  pub events : List InvalidationEvent

pub new_cache_invalidator : List Subscriber
new_cache_invalidator = []

-- make(chan InvalidationEvent, 10)
abbrev pub capacity : ℕ
capacity = 10

unfoldable pub subscribe : String → List Subscriber → List Subscriber
subscribe pattern subscribers = subscribers ++ (record { pattern = pattern; events = [] } ∷ [])

with_char : Prim.Native.Char.Char → Option String → Option String
with_char c none = none
with_char c (some s) = some (String.◌∷◌ c s)

-- pattern[:len(pattern)-1], if its last byte is a star.
unfoldable pub wildcard_prefix : String → Option String
unfolding with_char
wildcard_prefix String.[] = none
wildcard_prefix (String.◌∷◌ c String.[]) = if code c == b'*' then some "" else none
wildcard_prefix (String.◌∷◌ c (String.◌∷◌ d s)) = with_char c (wildcard_prefix (String.◌∷◌ d s))

unfoldable pub starts_with : String → String → Bool
starts_with key prefix = elim (cut_prefix prefix key) [ none ↦ false | some rest ↦ true ]

unfoldable pub matches_pattern : String → String → Bool
unfolding wildcard_prefix starts_with
matches_pattern key pattern =
    str_eq key pattern
    || elim (wildcard_prefix pattern) [ none ↦ false | some prefix ↦ starts_with key prefix ]

-- select { case ch <- event: default: }
unfoldable pub sent : InvalidationEvent → List InvalidationEvent → List InvalidationEvent
sent event events = if ltb (length events) capacity then events ++ (event ∷ []) else events

unfoldable pub offered : InvalidationEvent → Subscriber → Subscriber
unfolding matches_pattern sent
offered event s =
    if matches_pattern event.key s.pattern then record s { events = sent event s.events } else s

unfoldable pub sent_to_all : InvalidationEvent → List Subscriber → List Subscriber
unfolding offered
sent_to_all event [] = []
sent_to_all event (s ∷ subscribers) = offered event s ∷ sent_to_all event subscribers

unfoldable pub publish : ℕ → InvalidationEvent → List Subscriber → List Subscriber
unfolding sent_to_all
publish now event subscribers = sent_to_all (record event { timestamp = now }) subscribers

event_of : String → String → InvalidationEvent
event_of key kind = record { key = key; kind = kind; timestamp = 0 }

module _ (now : ℕ) where
  pub invalidate_project_cache : String → List Subscriber → List Subscriber
  unfolding publish event_of
  invalidate_project_cache project_id =
      publish now (event_of (String.◌++◌ "project:" project_id) "update")

  pub invalidate_project_list_cache : String → List Subscriber → List Subscriber
  unfolding publish event_of
  invalidate_project_list_cache user_id =
      publish now (event_of (String.◌++◌ "projects:{" (String.◌++◌ user_id "}:*")) "update")

  pub invalidate_track_cache : String → List Subscriber → List Subscriber
  unfolding publish event_of
  invalidate_track_cache track_id = publish now (event_of (String.◌++◌ "track:" track_id) "update")

  pub invalidate_user_cache : String → List Subscriber → List Subscriber
  unfolding publish event_of
  invalidate_user_cache user_id = publish now (event_of (String.◌++◌ "user:" user_id) "update")

  pub invalidate_search_cache : List Subscriber → List Subscriber
  unfolding publish event_of
  invalidate_search_cache = publish now (event_of "search:*" "refresh")

-- The consumer at a place takes the oldest event, if there is one.
unfoldable pub received : ℕ → List Subscriber → List Subscriber
received place [] = []
received place (s ∷ subscribers) =
    let rest = received (place - 1) subscribers in
    if place == 0 then record s { events = drop 1 s.events } ∷ subscribers else s ∷ rest

pub data Step : Type 0 where
  subscribes : String → Step
  publishes : ℕ → InvalidationEvent → Step
  receives : ℕ → Step

unfoldable pub step : Step → List Subscriber → List Subscriber
unfolding subscribe publish received
step (subscribes pattern) subscribers = subscribe pattern subscribers
step (publishes now event) subscribers = publish now event subscribers
step (receives place) subscribers = received place subscribers

unfoldable pub run : List Step → List Subscriber → List Subscriber
unfolding step
run [] subscribers = subscribers
run (s ∷ steps) subscribers = run steps (step s subscribers)
