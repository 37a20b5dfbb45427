-- ===== src/Cache/Invalidation/Laws.antt =====
-- backend/internal/cache/invalidation.go: which keys a pattern stands for, and how full a channel gets.
use Prim.Native.Char.{Char, code}
use Prim.Native.String
use Prim.Native.String.append
use text.Mathlib.TextEquality.{Char-path}
use purp_tape.Base.{
  ℕ, ◌≤◌, ◌-◌, ◌≡◌, refl, sym, ap, ap₂, ◌∙◌, inl, inr, ◌⊎◌, ◌↔◌, Bool, Bool-cases, ◌||◌, true,
  false, String, Option-cases, none, some, List, [], ◌∷◌, All, All-append, arith, str_eq, ◌==◌,
  ==_iff, eq_iff, ltb, length, drop, length-append,
}
use purp_tape.Base.Text.{cut_prefix}
use purp_tape.Cache.Invalidation.{
  InvalidationEvent, Subscriber, capacity, subscribe, sent, offered, sent_to_all, publish, received,
  Step, subscribes, publishes, receives, step, run, matches_pattern, starts_with, wildcard_prefix,
  with_char,
}

abbrev IsBounded : Subscriber → Type 0
IsBounded s = length s.events ≤ capacity

sent-bound :
    (event : InvalidationEvent) (events : List InvalidationEvent)
    → length events ≤ capacity
    → length (sent event events) ≤ capacity
unfolding sent
sent-bound event events h = elim (Bool-cases (ltb (length events) capacity)) [
  | inl room ↦ rw room (ground (arith, room, length-append events (event ∷ [])))
  | inr full ↦ rw full h
]

offered-IsBounded :
    (event : InvalidationEvent) (s : Subscriber) → IsBounded s → IsBounded (offered event s)
unfolding offered
offered-IsBounded event s h = elim (Bool-cases (matches_pattern event.key s.pattern)) [
  | inl same ↦ rw same (sent-bound event s.events h)
  | inr other ↦ rw other h
]

sent_to_all-IsBounded :
    (event : InvalidationEvent) (ss : List Subscriber)
    → All IsBounded ss
    → All IsBounded (sent_to_all event ss)
unfolding sent_to_all
sent_to_all-IsBounded event [] h = tt
sent_to_all-IsBounded event (s ∷ ss) (here, rest) =
    (offered-IsBounded event s here, sent_to_all-IsBounded event ss rest)

drop_bound :
    (events : List InvalidationEvent) → length events ≤ capacity → length (drop 1 events) ≤ capacity
drop_bound [] h = h
drop_bound (e ∷ events) h = omega arith

received-IsBounded :
    (place : ℕ) (ss : List Subscriber) → All IsBounded ss → All IsBounded (received place ss)
unfolding received
received-IsBounded place [] h = tt
received-IsBounded place (s ∷ ss) (here, rest) = elim (Bool-cases (place == 0)) [
  | inl same ↦ rw same (drop_bound s.events here, rest)
  | inr other ↦ rw other (here, received-IsBounded (place - 1) ss rest)
]

step-IsBounded : (s : Step) (ss : List Subscriber) → All IsBounded ss → All IsBounded (step s ss)
unfolding step subscribe publish
step-IsBounded (subscribes pattern) ss h = All-append IsBounded ss _ h (omega arith, tt)
step-IsBounded (publishes now event) ss h =
    sent_to_all-IsBounded (record event { timestamp = now }) ss h
step-IsBounded (receives place) ss h = received-IsBounded place ss h

-- No channel ever holds more events than its capacity.
pub run-IsBounded :
    (steps : List Step) (ss : List Subscriber) → All IsBounded ss → All IsBounded (run steps ss)
unfolding run
run-IsBounded [] ss h = h
run-IsBounded (s ∷ steps) ss h = run-IsBounded steps (step s ss) (step-IsBounded s ss h)

append-cons :
    (c : Char) (p t : String) → String.◌++◌ (String.◌∷◌ c p) t ≡ String.◌∷◌ c (String.◌++◌ p t)
append-cons c p t = λ i. append.cons c p t i

append-nil : (t : String) → String.◌++◌ "" t ≡ t
append-nil t = λ i. append.nil t i

cut_prefix_sound : (p t rest : String) → cut_prefix p t ≡ some rest → t ≡ String.◌++◌ p rest
unfolding cut_prefix
cut_prefix_sound String.[] t rest h =
    let e : t ≡ rest = ground (arith, h) in e ∙ sym (append-nil rest)
cut_prefix_sound (String.◌∷◌ c p) String.[] rest h = absurd (ground (arith, h))
cut_prefix_sound (String.◌∷◌ c p) (String.◌∷◌ d t) rest h = elim (Bool-cases (code c == code d)) [
  | inl same ↦
      let q : cut_prefix p t ≡ some rest = sym (rw same refl) ∙ h in
      ap (λ x. String.◌∷◌ x t) (sym (Char-path c d ((==_iff (code c) (code d)).0 same)))
      ∙ ap (String.◌∷◌ c) (cut_prefix_sound p t rest q)
      ∙ sym (append-cons c p rest)
  | inr other ↦ absurd (ground (arith, h, other))
]

cut_prefix-append : (p rest : String) → cut_prefix p (String.◌++◌ p rest) ≡ some rest
unfolding cut_prefix
cut_prefix-append String.[] rest = ap some (append-nil rest)
cut_prefix-append (String.◌∷◌ c p) rest =
    let self = (==_iff (code c) (code c)).1 refl in
    ap (cut_prefix (String.◌∷◌ c p)) (append-cons c p rest) ∙ rw self (cut_prefix-append p rest)

one_char : (c d : Char) → code c ≡ code d → String.◌∷◌ c "" ≡ String.◌∷◌ d ""
one_char c d h = ap (λ x. String.◌∷◌ x "") (Char-path c d h)

-- A pattern that ends in a star, by what is before it.
wildcard_prefix_sound :
    (pattern prefix : String)
    → wildcard_prefix pattern ≡ some prefix
    → pattern ≡ String.◌++◌ prefix "*"
unfolding wildcard_prefix with_char
wildcard_prefix_sound String.[] prefix h = absurd (ground (arith, h))
wildcard_prefix_sound (String.◌∷◌ c String.[]) prefix h = elim (Bool-cases (code c == b'*')) [
  | inl same ↦
      let q : some "" ≡ some prefix = sym (rw same refl) ∙ h in
      let e : "" ≡ prefix = ground (arith, q) in
      one_char c _ ((==_iff (code c) b'*').0 same)
      ∙ sym (append-nil "*")
      ∙ ap (λ x. String.◌++◌ x "*") e
  | inr other ↦ absurd (ground (arith, h, other))
]
wildcard_prefix_sound (String.◌∷◌ c (String.◌∷◌ d s)) prefix h =
    elim (Option-cases (wildcard_prefix (String.◌∷◌ d s))) [
      | inl plain ↦
          let q : none ≡ some prefix = ap (with_char c) (sym plain) ∙ h in
          absurd (ground (arith, q))
      | inr (before, e) ↦
          let q : String.◌∷◌ c before ≡ prefix = ground (arith, ap (with_char c) (sym e) ∙ h) in
          ap (String.◌∷◌ c) (wildcard_prefix_sound (String.◌∷◌ d s) before e)
          ∙ sym (append-cons c before "*")
          ∙ ap (λ x. String.◌++◌ x "*") q
    ]

wildcard_prefix-cons :
    (c : Char) (s prefix : String)
    → wildcard_prefix s ≡ some prefix
    → wildcard_prefix (String.◌∷◌ c s) ≡ some (String.◌∷◌ c prefix)
unfolding wildcard_prefix with_char
wildcard_prefix-cons c String.[] prefix h = absurd (ground (arith, h))
wildcard_prefix-cons c (String.◌∷◌ d s) prefix h = ap (with_char c) h

wildcard_prefix-append : (prefix : String) → wildcard_prefix (String.◌++◌ prefix "*") ≡ some prefix
unfolding wildcard_prefix with_char
wildcard_prefix-append String.[] = refl
wildcard_prefix-append (String.◌∷◌ c prefix) =
    ap wildcard_prefix (append-cons c prefix "*")
    ∙ wildcard_prefix-cons c (String.◌++◌ prefix "*") prefix (wildcard_prefix-append prefix)

-- A key that begins with what stands before the star at the end of a pattern.
abbrev pub IsBelow : String → String → Type 0
IsBelow key pattern =
    (prefix : String) × (rest : String) × (pattern ≡ String.◌++◌ prefix "*")
    × (key ≡ String.◌++◌ prefix rest)

starts_with_sound :
    (key prefix : String)
    → starts_with key prefix ≡ true
    → (rest : String) × (key ≡ String.◌++◌ prefix rest)
unfolding starts_with
starts_with_sound key prefix h = elim (Option-cases (cut_prefix prefix key)) [
  | inl e ↦ absurd (ground (arith, h, e))
  | inr (rest, e) ↦ (rest, cut_prefix_sound prefix key rest e)
]

matches_sound :
    (key pattern : String)
    → matches_pattern key pattern ≡ true
    → (key ≡ pattern) ⊎ IsBelow key pattern
unfolding matches_pattern
matches_sound key pattern h = elim (Bool-cases (str_eq key pattern)) [
  | inl same ↦ inl ((eq_iff key pattern).0 same)
  | inr other ↦ elim (Option-cases (wildcard_prefix pattern)) [
    | inl plain ↦ absurd (ground (arith, h, other, plain))
    | inr (prefix, e) ↦
        let begins : starts_with key prefix ≡ true = ground (arith, h, other, e) in
        let found = starts_with_sound key prefix begins in
        inr (prefix, found.0, wildcard_prefix_sound pattern prefix e, found.1)
  ]
]

starts_with-append : (prefix rest : String) → starts_with (String.◌++◌ prefix rest) prefix ≡ true
unfolding starts_with
starts_with-append prefix rest = rw (cut_prefix-append prefix rest, starts_with) refl

or_true : (b : Bool) → (b || true) ≡ true
or_true true = refl
or_true false = refl

matches_below :
    (prefix rest : String)
    → matches_pattern (String.◌++◌ prefix rest) (String.◌++◌ prefix "*") ≡ true
unfolding matches_pattern starts_with
matches_below prefix rest =
    rw (wildcard_prefix-append prefix, starts_with-append prefix rest)
      (or_true (str_eq (String.◌++◌ prefix rest) (String.◌++◌ prefix "*")))

-- A pattern stands for itself and, if it ends in a star, for the keys that begin with what is before it.
pub matches_pattern_iff :
    (key pattern : String)
    → (matches_pattern key pattern ≡ true) ↔ ((key ≡ pattern) ⊎ IsBelow key pattern)
unfolding matches_pattern
matches_pattern_iff key pattern = (
  matches_sound key pattern,
  λ p. elim p [
    | inl same ↦ rw ((eq_iff key pattern).1 same) refl
    | inr (prefix, rest, ends, begins) ↦ ap₂ matches_pattern begins ends ∙ matches_below prefix rest
  ],
)
