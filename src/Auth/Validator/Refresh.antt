-- ===== src/Auth/Validator/Refresh.antt =====
-- backend/internal/auth/validator.go: the cache of public keys and its refresh.
use purp_tape.Base.{
  ℕ, ◌<◌, ◌≡◌, refl, ◌∙◌, inl, inr, String, Option, none, some, List, arith, Bool-cases, lt→ltb,
  if◌then◌else◌, ltb,
}
use purp_tape.Auth.Validator.{JwksKey, PublicKey, Library, Validator, refreshed, get_public_key}

module _ (lib : Library) where
  refreshed-stored :
      (v : Validator) (kid : String) (fetched_at : ℕ) (answer : Option (List JwksKey))
      (k : PublicKey)
      → (refreshed lib v kid fetched_at answer).1 ≡ some k
      → (refreshed lib v kid fetched_at answer).0.public_key_cache kid ≡ some k
  unfolding refreshed
  refreshed-stored v kid fetched_at none k h = absurd (ground arith)
  refreshed-stored v kid fetched_at (some keys) k h = h

  get_public_key-stored :
      (v : Validator) (kid : String) (now fetched_at : ℕ) (answer : Option (List JwksKey))
      (k : PublicKey)
      → (get_public_key lib v kid now fetched_at answer).1 ≡ some k
      → (get_public_key lib v kid now fetched_at answer).0.public_key_cache kid ≡ some k
  unfolding get_public_key
  get_public_key-stored v kid now fetched_at answer k = cached (v.public_key_cache kid) refl
    where
      cached :
          (c : Option PublicKey)
          → v.public_key_cache kid ≡ c
          → (elim c as (λ x. Validator × Option PublicKey) [
            | none ↦ refreshed lib v kid fetched_at answer
            | some key ↦
                if ltb now v.keys_expiry
                then (v, some key)
                else refreshed lib v kid fetched_at answer
          ]).1
            ≡ some k
          → (elim c as (λ x. Validator × Option PublicKey) [
            | none ↦ refreshed lib v kid fetched_at answer
            | some key ↦
                if ltb now v.keys_expiry
                then (v, some key)
                else refreshed lib v kid fetched_at answer
          ]).0.public_key_cache
              kid
            ≡ some k
      cached none e = refreshed-stored v kid fetched_at answer k
      cached (some key) e = elim (Bool-cases (ltb now v.keys_expiry)) [
        | inl before ↦ rw before (λ h. e ∙ h)
        | inr after ↦ rw after (refreshed-stored v kid fetched_at answer k)
      ]

  -- The key that was found for an id is found again, whatever the endpoint would answer and with no
  -- change, until the keys that were then cached expire.
  pub get_public_key-get_public_key :
      (v : Validator) (kid : String) (now fetched_at : ℕ) (answer : Option (List JwksKey))
      (k : PublicKey) (now' fetched_at' : ℕ) (answer' : Option (List JwksKey))
      → let v' = (get_public_key lib v kid now fetched_at answer).0 in
        (get_public_key lib v kid now fetched_at answer).1 ≡ some k
        → now' < v'.keys_expiry
        → get_public_key lib v' kid now' fetched_at' answer' ≡ (v', some k)
  unfolding get_public_key
  get_public_key-get_public_key v kid now fetched_at answer k now' fetched_at' answer' h before =
      found (get_public_key lib v kid now fetched_at answer).0
        (get_public_key-stored v kid now fetched_at answer k h) before
    where
      found :
          (w : Validator)
          → w.public_key_cache kid ≡ some k
          → now' < w.keys_expiry
          → get_public_key lib w kid now' fetched_at' answer' ≡ (w, some k)
      found w e before = rw (e, lt→ltb now' w.keys_expiry before, get_public_key)
