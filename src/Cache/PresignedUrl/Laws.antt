-- ===== src/Cache/PresignedUrl/Laws.antt =====
-- What the cache returns, in terms of the operations on it.
use purp_tape.Base.{
  ℕ, ◌+◌, ◌≤◌, ◌<◌, ◌≡◌, refl, sym, ap, ap₂, ◌∙◌, subst, inl, inr, Bool, true, false, String,
  Option, none, some, List, [], ◌∷◌, arith, eq_iff, str_eq, if◌then◌else◌, Bool-cases, ltb,
}
use purp_tape.Cache.PresignedUrl.{
  CacheEntry, PresignedUrlCache, new_presigned_url_cache, find, put, get, set, clear, unexpired,
  cleanup_expired, Operation, sets, clears, ticks, apply, run,
}

-- No key has two entries.
abbrev pub HasUniqueKeys : List (String × CacheEntry) → Type 0
HasUniqueKeys [] = Unit
HasUniqueKeys ((k, entry) ∷ rest) = (find k rest ≡ none) × HasUniqueKeys rest

find-put :
    (key k : String) (entry : CacheEntry) (rest : List (String × CacheEntry))
    → find k (put key entry rest) ≡ (if str_eq key k then some entry else find k rest)
unfolding find put
find-put key k entry [] = refl
find-put key k entry ((j, old) ∷ rest) =
    ground (arith, find-put key k entry rest, eq_iff j key, eq_iff key k, eq_iff j k)

find-unexpired-none :
    (k : String) (now : ℕ) (rest : List (String × CacheEntry))
    → find k rest ≡ none
    → find k (unexpired now rest) ≡ none
unfolding find unexpired
find-unexpired-none k now [] h = refl
find-unexpired-none k now ((j, entry) ∷ rest) h = ground (arith, find-unexpired-none k now rest)

-- A cleanup removes what has expired, and nothing else.
kept : ℕ → Option CacheEntry → Option CacheEntry
kept now none = none
kept now (some entry) = if ltb entry.expires_at now then none else some entry

find-unexpired :
    (k : String) (now : ℕ) (rest : List (String × CacheEntry))
    → HasUniqueKeys rest
    → find k (unexpired now rest) ≡ kept now (find k rest)
unfolding find unexpired kept
find-unexpired k now [] unique = refl
find-unexpired k now ((j, entry) ∷ rest) (apart, unique) =
    ground
      (arith, find-unexpired k now rest unique, find-unexpired-none k now rest, eq_iff j k, apart)

put-HasUniqueKeys :
    (key : String) (entry : CacheEntry) (rest : List (String × CacheEntry))
    → HasUniqueKeys rest
    → HasUniqueKeys (put key entry rest)
unfolding put find
put-HasUniqueKeys key entry [] unique = (refl, tt)
put-HasUniqueKeys key entry ((j, old) ∷ rest) (apart, unique) = elim (Bool-cases (str_eq j key)) [
  | inl h ↦ rw h (apart, unique)
  | inr h ↦ rw h (
    find-put key j entry rest ∙ ground (arith, eq_iff key j, eq_iff j key),
    put-HasUniqueKeys key entry rest unique,
  )
]

unexpired-HasUniqueKeys :
    (now : ℕ) (rest : List (String × CacheEntry))
    → HasUniqueKeys rest
    → HasUniqueKeys (unexpired now rest)
unfolding unexpired
unexpired-HasUniqueKeys now [] unique = tt
unexpired-HasUniqueKeys now ((j, entry) ∷ rest) (apart, unique) =
    elim (Bool-cases (ltb entry.expires_at now)) [
      | inl h ↦ rw h (unexpired-HasUniqueKeys now rest unique)
      | inr h ↦ rw h (find-unexpired-none j now rest apart, unexpired-HasUniqueKeys now rest unique)
    ]

-- What was last set at the key, and when: the cache as its clients see it, before expiry.
abbrev pub recall : String → Option (String × ℕ) → List (ℕ × Operation) → Option (String × ℕ)
recall key seen [] = seen
recall key seen ((now, sets k url) ∷ ops) =
    recall key (if str_eq k key then some (url, now) else seen) ops
recall key seen ((now, clears) ∷ ops) = recall key none ops
recall key seen ((now, ticks) ∷ ops) = recall key seen ops

-- The URL, if its time to live has not passed.
abbrev pub valid : ℕ → ℕ → Option (String × ℕ) → Option String
valid now ttl none = none
valid now ttl (some (url, at)) = if ltb (at + ttl) now then none else some url

-- The operations' times do not go back, from this time until that one.
abbrev pub InOrder : ℕ → List (ℕ × Operation) → ℕ → Type 0
InOrder from [] until = from ≤ until
InOrder from ((now, op) ∷ ops) until = (from ≤ now) × InOrder now ops until

-- An entry and what is recalled of its key, at this time.
Agrees : ℕ → ℕ → Option CacheEntry → Option (String × ℕ) → Type 0
Agrees now ttl none none = Unit
Agrees now ttl none (some (url, at)) = at + ttl < now
Agrees now ttl (some entry) none = ⊥
Agrees now ttl (some entry) (some (url, at)) = (entry.url ≡ url) × (entry.expires_at ≡ at + ttl)

Agrees-later :
    (t now ttl : ℕ) (o : Option CacheEntry) (seen : Option (String × ℕ))
    → t ≤ now
    → Agrees t ttl o seen
    → Agrees now ttl o seen
unfolding Agrees
Agrees-later t now ttl none none le a = tt
Agrees-later t now ttl none (some (url, at)) le a = omega arith
Agrees-later t now ttl (some entry) none le a = a
Agrees-later t now ttl (some entry) (some (url, at)) le a = a

Agrees-kept :
    (now ttl : ℕ) (o : Option CacheEntry) (seen : Option (String × ℕ))
    → Agrees now ttl o seen
    → Agrees now ttl (kept now o) seen
unfolding Agrees kept
Agrees-kept now ttl none none a = tt
Agrees-kept now ttl none (some (url, at)) a = a
Agrees-kept now ttl (some entry) none a = elim a [ ]
Agrees-kept now ttl (some entry) (some (url, at)) (same, expires) =
    elim (Bool-cases (ltb entry.expires_at now)) [
      | inl h ↦ rw h (ground arith)
      | inr h ↦ rw h (same, expires)
    ]

valid-Agrees :
    (now ttl : ℕ) (o : Option CacheEntry) (seen : Option (String × ℕ))
    → Agrees now ttl o seen
    → elim o as (λ x. Option String) [
      | none ↦ none
      | some entry ↦ if ltb entry.expires_at now then none else some entry.url
    ]
      ≡ valid now ttl seen
unfolding Agrees
valid-Agrees now ttl none none a = refl
valid-Agrees now ttl none (some (url, at)) a = ground arith
valid-Agrees now ttl (some entry) none a = elim a [ ]
valid-Agrees now ttl (some entry) (some (url, at)) (same, expires) =
    rw expires (ap (λ u. if ltb (at + ttl) now then none else some u) same)

Agrees-set :
    (b : Bool) (now ttl : ℕ) (url : String) (o : Option CacheEntry) (seen : Option (String × ℕ))
    → Agrees now ttl o seen
    → Agrees now ttl
        (if b then some (record { url = url; expires_at = now + ttl }) else o)
        (if b then some (url, now) else seen)
unfolding Agrees
Agrees-set true now ttl url o seen a = (refl, refl)
Agrees-set false now ttl url o seen a = a

apply-Agrees :
    (c : PresignedUrlCache) (now : ℕ) (op : Operation) (key : String) (seen : Option (String × ℕ))
    → HasUniqueKeys c.cache
    → Agrees now c.ttl (find key c.cache) seen
    → Agrees now c.ttl (find key (apply c now op).cache) (recall key seen ((now, op) ∷ []))
      × HasUniqueKeys (apply c now op).cache
unfolding apply set clear cleanup_expired find Agrees
apply-Agrees c now (sets k url) key seen unique a = (
  subst (λ o. Agrees now c.ttl o (if str_eq k key then some (url, now) else seen))
      (sym (find-put k key (record { url = url; expires_at = now + c.ttl }) c.cache))
      (Agrees-set (str_eq k key) now c.ttl url (find key c.cache) seen a),
  put-HasUniqueKeys k _ c.cache unique,
)
apply-Agrees c now clears key seen unique a = (tt, tt)
apply-Agrees c now ticks key seen unique a = (
  subst (λ o. Agrees now c.ttl o seen) (sym (find-unexpired key now c.cache unique))
      (Agrees-kept now c.ttl (find key c.cache) seen a),
  unexpired-HasUniqueKeys now c.cache unique,
)

apply-ttl : (c : PresignedUrlCache) (now : ℕ) (op : Operation) → (apply c now op).ttl ≡ c.ttl
unfolding apply set clear cleanup_expired
apply-ttl c now (sets k url) = refl
apply-ttl c now clears = refl
apply-ttl c now ticks = refl

recall-cons :
    (key : String) (seen : Option (String × ℕ)) (now : ℕ) (op : Operation)
    (ops : List (ℕ × Operation))
    → recall key (recall key seen ((now, op) ∷ [])) ops ≡ recall key seen ((now, op) ∷ ops)
recall-cons key seen now (sets k url) ops = refl
recall-cons key seen now clears ops = refl
recall-cons key seen now ticks ops = refl

run-get :
    (ops : List (ℕ × Operation)) (c : PresignedUrlCache) (from until : ℕ) (key : String)
    (seen : Option (String × ℕ))
    → HasUniqueKeys c.cache
    → Agrees from c.ttl (find key c.cache) seen
    → InOrder from ops until
    → get (run c ops) until key ≡ valid until c.ttl (recall key seen ops)
unfolding run get
run-get [] c from until key seen unique a le =
    valid-Agrees until c.ttl (find key c.cache) seen
      (Agrees-later from until c.ttl (find key c.cache) seen le a)
run-get ((now, op) ∷ ops) c from until key seen unique a (le, order) =
    let next =
      apply-Agrees c now op key seen unique
        (Agrees-later from now c.ttl (find key c.cache) seen le a) in
    run-get ops (apply c now op) now until key (recall key seen ((now, op) ∷ [])) next.1
      (subst
        (λ ttl. Agrees now ttl (find key (apply c now op).cache) (recall key seen ((now, op) ∷ [])))
        (sym (apply-ttl c now op)) next.0)
      order
    ∙ ap₂ (valid until) (apply-ttl c now op) (recall-cons key seen now op ops)

-- A read returns the URL that was last set at the key, if nothing has cleared the cache since and
-- its time to live has not passed: cleanups, whenever they run, change no read. The operations'
-- times do not go back.
pub get-run :
    (ops : List (ℕ × Operation)) (ttl now : ℕ) (key : String)
    → InOrder 0 ops now
    → get (run (new_presigned_url_cache ttl) ops) now key ≡ valid now ttl (recall key none ops)
unfolding new_presigned_url_cache find Agrees
get-run ops ttl now key order = run-get ops (new_presigned_url_cache ttl) 0 now key none tt tt order
