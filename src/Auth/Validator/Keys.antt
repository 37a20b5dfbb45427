-- ===== src/Auth/Validator/Keys.antt =====
-- backend/internal/auth/validator.go: the key that a token is verified under.
use purp_tape.Base.{
  ℕ, ◌<◌, ◌≡◌, refl, sym, ◌∙◌, subst, ◌≢◌, ◌⊎◌, inl, inr, false, String, Option, none, some, List,
  arith, Bool-cases, snd-if, str_eq, if◌then◌else◌, ltb, empty, eq_iff,
}
use purp_tape.Auth.Validator.{
  Method, hmac, rsa, ecdsa, other, Header, JwksKey, PublicKey, Key, secret, public, Library,
  Validator, fill, refreshed, get_public_key, public_of, public_key, secret_of, names_none,
  by_method, key_for,
}

-- The secret of a validator that tokens with HMAC are verified under.
abbrev pub IsSecret : Validator → String → Type 0
IsSecret v s = (s ≢ "") × ((v.jwt_secret ≡ s) ⊎ ((v.jwt_secret ≡ "") × (v.secret_key ≡ s)))

secret_of-IsSecret :
    (v : Validator) (key : Key)
    → secret_of v ≡ some key
    → (s : String) × (key ≡ secret s) × IsSecret v s
unfolding secret_of
secret_of-IsSecret v key h = elim (Bool-cases (str_eq v.jwt_secret "")) [
  | inl e ↦ (
    v.secret_key,
    ground arith,
    (ground (arith, eq_iff v.secret_key ""), inr (ground (arith, eq_iff v.jwt_secret ""), refl)),
  )
  | inr e ↦ (v.jwt_secret, ground arith, (ground (arith, eq_iff v.jwt_secret ""), inl refl))
]

public_of_lem :
    (r : Validator × Option PublicKey) (key : Key)
    → (public_of r).1 ≡ some key
    → (k : PublicKey) × (r.1 ≡ some k) × (public k ≡ key)
unfolding public_of
public_of_lem (v, none) key h = absurd (ground arith)
public_of_lem (v, some k) key h = (k, refl, ground arith)

module _ (lib : Library) where
  -- A public key that the validator has under an id: from its cache, before this expires, or from
  -- the answer of the endpoint.
  abbrev pub IsPublished : Validator → String → ℕ → Option (List JwksKey) → PublicKey → Type 0
  IsPublished v kid now answer k =
      ((v.public_key_cache kid ≡ some k) × (now < v.keys_expiry))
      ⊎ ((keys : List JwksKey) × (answer ≡ some keys) × (fill lib empty keys kid ≡ some k))

  refreshed_lem :
      (v : Validator) (kid : String) (now fetched_at : ℕ) (answer : Option (List JwksKey))
      (k : PublicKey)
      → (refreshed lib v kid fetched_at answer).1 ≡ some k
      → IsPublished v kid now answer k
  unfolding refreshed
  refreshed_lem v kid now fetched_at none k h = absurd (ground arith)
  refreshed_lem v kid now fetched_at (some keys) k h = inr (keys, refl, h)

  get_public_key-IsPublished :
      (v : Validator) (kid : String) (now fetched_at : ℕ) (answer : Option (List JwksKey))
      (k : PublicKey)
      → (get_public_key lib v kid now fetched_at answer).1 ≡ some k
      → IsPublished v kid now answer k
  unfolding get_public_key
  get_public_key-IsPublished v kid now fetched_at answer k = cached (v.public_key_cache kid) refl
    where
      cached :
          (c : Option PublicKey)
          → v.public_key_cache kid ≡ c
          → (elim c as (λ x. Validator × Option PublicKey) [
            | none ↦ refreshed lib v kid fetched_at answer
            | some key ↦
                if ltb now v.keys_expiry
                then (v, some key)
                else refreshed lib v kid fetched_at answer
          ]).1
            ≡ some k
          → IsPublished v kid now answer k
      cached none e h = refreshed_lem v kid now fetched_at answer k h
      cached (some key) e h = elim (Bool-cases (ltb now v.keys_expiry)) [
        | inl before ↦ inl (e ∙ snd-if _ _ before h, ground arith)
        | inr after ↦ refreshed_lem v kid now fetched_at answer k (snd-if _ _ after h)
      ]

  -- The key of a token is the secret, if its method is HMAC, or the public key under its key id.
  pub data IsKeyOf (v : Validator) (h : Header) (now : ℕ) (answer : Option (List JwksKey))
      : Key → Type 0 where
    by_secret : {s : String} → h.method ≡ hmac → IsSecret v s → IsKeyOf v h now answer (secret s)
    by_key_id :
        {kid : String} {k : PublicKey}
        → (h.method ≡ rsa) ⊎ (h.method ≡ ecdsa)
        → h.kid ≡ some kid
        → kid ≢ ""
        → IsPublished v kid now answer k
        → IsKeyOf v h now answer (public k)

  public_key-IsKeyOf :
      (v : Validator) (h : Header) (now fetched_at : ℕ) (answer : Option (List JwksKey)) (key : Key)
      → (h.method ≡ rsa) ⊎ (h.method ≡ ecdsa)
      → (kid : Option String) → h.kid ≡ kid
      → (public_key lib v kid now fetched_at answer).1 ≡ some key
      → IsKeyOf v h now answer key
  unfolding public_key
  public_key-IsKeyOf v h now fetched_at answer key m none e p = absurd (ground arith)
  public_key-IsKeyOf v h now fetched_at answer key m (some kid) e p =
      elim (Bool-cases (str_eq kid "")) [
        | inl c ↦ let q = snd-if _ _ c p in absurd (ground arith)
        | inr c ↦
            let found =
              public_of_lem (get_public_key lib v kid now fetched_at answer) key (snd-if _ _ c p) in
            subst (IsKeyOf v h now answer) found.2 (
              by_key_id m e (ground (arith, eq_iff kid ""))
                (get_public_key-IsPublished v kid now fetched_at answer found.0 found.1))
      ]

  by_method-IsKeyOf :
      (v : Validator) (h : Header) (now fetched_at : ℕ) (answer : Option (List JwksKey)) (key : Key)
      → (m : Method) → h.method ≡ m
      → (by_method lib v h m now fetched_at answer).1 ≡ some key
      → IsKeyOf v h now answer key
  unfolding by_method
  by_method-IsKeyOf v h now fetched_at answer key hmac e p =
      let found = secret_of-IsSecret v key p in
      subst (IsKeyOf v h now answer) (sym found.1) (by_secret e found.2)
  by_method-IsKeyOf v h now fetched_at answer key rsa e p =
      public_key-IsKeyOf v h now fetched_at answer key (inl e) h.kid refl p
  by_method-IsKeyOf v h now fetched_at answer key ecdsa e p =
      public_key-IsKeyOf v h now fetched_at answer key (inr e) h.kid refl p
  by_method-IsKeyOf v h now fetched_at answer key other e p = absurd (ground arith)

  pub key_for-IsKeyOf :
      (v : Validator) (h : Header) (now fetched_at : ℕ) (answer : Option (List JwksKey)) (key : Key)
      → (key_for lib v h now fetched_at answer).1 ≡ some key
      → (names_none h.alg ≡ false) × IsKeyOf v h now answer key
  unfolding key_for
  key_for-IsKeyOf v h now fetched_at answer key p = elim (Bool-cases (names_none h.alg)) [
    | inl c ↦ let q = snd-if _ _ c p in absurd (ground arith)
    | inr c ↦ (c, by_method-IsKeyOf v h now fetched_at answer key h.method refl (snd-if _ _ c p))
  ]
