-- ===== src/Cache/PresignedUrl.antt =====
-- backend/internal/cache/presigned_url_cache.go: the cache of presigned URLs. The map is a list of
-- keys and entries, which `Size` counts; `Stop` ends the cleanup, so that no cleanup step follows.
pub mod Laws
mod Tests
use purp_tape.Base.{
  ℕ, zero, suc, ◌+◌, Bool, true, false, String, Option, none, some, List, [], ◌∷◌, str_eq,
  if◌then◌else◌, ltb, length,
}

pub record CacheEntry : Type 0 where
  pub url : String
  pub expires_at : ℕ

pub record PresignedUrlCache : Type 0 where
  pub cache : List (String × CacheEntry)
  pub ttl : ℕ

pub new_presigned_url_cache : ℕ → PresignedUrlCache
new_presigned_url_cache ttl = record { cache = []; ttl = ttl }

-- c.cache[key]
pub find : String → List (String × CacheEntry) → Option CacheEntry
find key [] = none
find key ((k, entry) ∷ rest) = if str_eq k key then some entry else find key rest

-- c.cache[key] = entry, which writes over an entry in its place.
put : String → CacheEntry → List (String × CacheEntry) → List (String × CacheEntry)
put key entry [] = (key, entry) ∷ []
put key entry ((k, old) ∷ rest) =
    let rest' = put key entry rest in if str_eq k key then (k, entry) ∷ rest else (k, old) ∷ rest'

pub get : PresignedUrlCache → ℕ → String → Option String
unfolding find
get c now object_key = elim (find object_key c.cache) [
  | none ↦ none
  | some entry ↦ if ltb entry.expires_at now then none else some entry.url
]

pub set : PresignedUrlCache → ℕ → String → String → PresignedUrlCache
unfolding put
set c now object_key url = record c {
  cache = put object_key (record { url = url; expires_at = now + c.ttl }) c.cache;
}

pub clear : PresignedUrlCache → PresignedUrlCache
clear c = record c { cache = [] }

pub size : PresignedUrlCache → ℕ
size c = length c.cache

unexpired : ℕ → List (String × CacheEntry) → List (String × CacheEntry)
unexpired now [] = []
unexpired now ((k, entry) ∷ rest) =
    let rest' = unexpired now rest in if ltb entry.expires_at now then rest' else (k, entry) ∷ rest'

-- One tick of the cleanup.
pub cleanup_expired : PresignedUrlCache → ℕ → PresignedUrlCache
unfolding unexpired
cleanup_expired c now = record c { cache = unexpired now c.cache }

pub data Operation : Type 0 where
  sets : (object_key url : String) → Operation
  clears : Operation
  ticks : Operation

pub apply : PresignedUrlCache → ℕ → Operation → PresignedUrlCache
unfolding set clear cleanup_expired
apply c now (sets object_key url) = set c now object_key url
apply c now clears = clear c
apply c now ticks = cleanup_expired c now

-- The cache after operations at their times.
pub run : PresignedUrlCache → List (ℕ × Operation) → PresignedUrlCache
unfolding apply
run c [] = c
run c ((now, op) ∷ ops) = run (apply c now op) ops
