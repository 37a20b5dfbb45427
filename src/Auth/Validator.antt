-- ===== src/Auth/Validator.antt =====
-- backend/internal/auth/validator.go: validation of the bearer tokens of Supabase. The library
-- golang-jwt, base64 and the endpoint with the public keys are parameters; times of the key cache
-- are nanoseconds, those of a token seconds.
pub mod Keys
pub mod Refresh
pub mod Laws
mod Tests
use purp_tape.Base.{
  ℕ, ◌+◌, ◌*◌, ◌%◌, ◌^◌, Bool, true, false, String, Option, none, some, List, [], ◌∷◌, str_eq,
  if◌then◌else◌, ltb, ◌==◌, Dict, empty, insert,
}
use purp_tape.Base.Text.{split}

-- The type of `token.Method`.
pub data Method : Type 0 where
  hmac rsa ecdsa other : Method

-- The header of a token before its signature is verified; `kid` is a text, if there is one.
pub record Header : Type 0 where
  pub alg : Option String
  pub method : Method
  pub kid : Option String

pub record Claims : Type 0 where
  pub sub : String
  pub email : String
  -- An int64; no negative time.
  pub exp : ℕ

-- The fields of a key at the JWKS endpoint.
pub record JwksKey : Type 0 where
  pub kty : String
  pub kid : String
  pub n : String
  pub e : String
  pub crv : String
  pub x : String
  pub y : String

-- Numbers are the bytes that `SetBytes` reads them from.
pub data PublicKey : Type 0 where
  rsa_key : (modulus : List ℕ) (exponent : ℕ) → PublicKey
  ecdsa_key : (x y : List ℕ) → PublicKey

pub data Key : Type 0 where
  secret : String → Key
  public : PublicKey → Key

-- jwt.ParseWithClaims reads the header, asks for a key, and verifies the token under it, with the
-- times that its claims name; base64.RawURLEncoding decodes, or fails.
pub record Library : Type 0 where
  pub header_of : String → Option Header
  pub verify : Key → String → ℕ → Option Claims
  pub decode : String → Option (List ℕ)

-- The URL of the service is left out: it only names the endpoint.
pub record Validator : Type 0 where
  pub secret_key : String
  pub jwt_secret : String
  pub public_key_cache : Dict PublicKey
  pub keys_expiry : ℕ

unfoldable pub new_validator : String → String → Validator
new_validator secret_key jwt_secret = record {
  secret_key = secret_key;
  jwt_secret = jwt_secret;
  public_key_cache = empty;
  keys_expiry = 0;
}

abbrev pub day : ℕ
day = 86_400_000_000_000

-- e = (e << 8) | int(b), on the 64 bits of e.
pub exponent : ℕ → List ℕ → ℕ
exponent e [] = e
exponent e (b ∷ bytes) = exponent ((e * 256 + b) % 2 ^ 64) bytes

pub rsa_of : Option (List ℕ) → Option (List ℕ) → Option PublicKey
unfolding exponent
rsa_of none e = none
rsa_of (some n) none = none
rsa_of (some n) (some e) = if exponent 0 e == 0 then none else some (rsa_key n (exponent 0 e))

ecdsa_of : Option (List ℕ) → Option (List ℕ) → Option PublicKey
ecdsa_of none y = none
ecdsa_of (some x) none = none
ecdsa_of (some x) (some y) = some (ecdsa_key x y)

pub public_of : Validator × Option PublicKey → Validator × Option Key
public_of (v, none) = (v, none)
public_of (v, some k) = (v, some (public k))

unfoldable pub secret_of : Validator → Option Key
secret_of v =
    if str_eq v.jwt_secret ""
    then (if str_eq v.secret_key "" then none else some (secret v.secret_key))
    else some (secret v.jwt_secret)

abbrev pub names_none : Option String → Bool
names_none none = false
names_none (some alg) = str_eq alg "none"

-- The token of a header `Bearer <token>`.
unfoldable pub bearer : List String → Option String
bearer [] = none
bearer (a ∷ []) = none
bearer (a ∷ token ∷ []) = if str_eq a "Bearer" then some token else none
bearer (a ∷ token ∷ b ∷ rest) = none

unfoldable pub bearer_token : String → Option String
unfolding bearer
bearer_token auth_header = bearer (split b' ' auth_header)

unfoldable pub unexpired : ℕ → Option Claims → Option Claims
unexpired seconds none = none
unexpired seconds (some claims) = if ltb claims.exp seconds then none else some claims

module _ (lib : Library) where
  pub parse_rsa_public_key_from_jwks : JwksKey → Option PublicKey
  unfolding rsa_of
  parse_rsa_public_key_from_jwks key =
      if str_eq key.kty "RSA" then rsa_of (lib.decode key.n) (lib.decode key.e) else none

  pub parse_ecdsa_public_key_from_jwks : JwksKey → Option PublicKey
  unfolding ecdsa_of
  parse_ecdsa_public_key_from_jwks key =
      if str_eq key.kty "EC"
      then (if str_eq key.crv "P-256" then ecdsa_of (lib.decode key.x) (lib.decode key.y) else none)
      else none

  -- What a key of the endpoint is to the cache.
  pub parsed : JwksKey → Option PublicKey
  unfolding parse_rsa_public_key_from_jwks parse_ecdsa_public_key_from_jwks
  parsed key =
      if str_eq key.kty "RSA"
      then parse_rsa_public_key_from_jwks key
      else if str_eq key.kty "EC"
      then parse_ecdsa_public_key_from_jwks key
      else none

  -- The new cache: a later key with the same id writes over an earlier one.
  pub fill : Dict PublicKey → List JwksKey → Dict PublicKey
  unfolding parsed
  fill cache [] = cache
  fill cache (key ∷ keys) = elim (parsed key) [
    | none ↦ fill cache keys
    | some k ↦ fill (insert key.kid k cache) keys
  ]

  -- After the fetch: `none` is any of its errors.
  pub refreshed : Validator → String → ℕ → Option (List JwksKey) → Validator × Option PublicKey
  unfolding fill
  refreshed v key_id fetched_at none = (v, none)
  refreshed v key_id fetched_at (some keys) =
      let cache = fill empty keys in
      (record v { public_key_cache = cache; keys_expiry = fetched_at + day }, cache key_id)

  -- `answer` is what the endpoint would answer, at `fetched_at`.
  pub get_public_key :
      Validator → String → ℕ → ℕ → Option (List JwksKey) → Validator × Option PublicKey
  unfolding refreshed
  get_public_key v key_id now fetched_at answer = elim (v.public_key_cache key_id) [
    | none ↦ refreshed v key_id fetched_at answer
    | some key ↦
        if ltb now v.keys_expiry then (v, some key) else refreshed v key_id fetched_at answer
  ]

  pub public_key :
      Validator → Option String → ℕ → ℕ → Option (List JwksKey) → Validator × Option Key
  unfolding public_of get_public_key
  public_key v none now fetched_at answer = (v, none)
  public_key v (some kid) now fetched_at answer =
      if str_eq kid "" then (v, none) else public_of (get_public_key v kid now fetched_at answer)

  unfoldable pub by_method :
      Validator → Header → Method → ℕ → ℕ → Option (List JwksKey) → Validator × Option Key
  unfolding secret_of public_key
  by_method v h hmac now fetched_at answer = (v, secret_of v)
  by_method v h rsa now fetched_at answer = public_key v h.kid now fetched_at answer
  by_method v h ecdsa now fetched_at answer = public_key v h.kid now fetched_at answer
  by_method v h other now fetched_at answer = (v, none)

  -- The function that the library asks for the key.
  unfoldable pub key_for :
      Validator → Header → ℕ → ℕ → Option (List JwksKey) → Validator × Option Key
  unfolding by_method
  key_for v h now fetched_at answer =
      if names_none h.alg then (v, none) else by_method v h h.method now fetched_at answer

  unfoldable pub with_key : String → ℕ → Validator × Option Key → Validator × Option Claims
  unfolding unexpired
  with_key token seconds (v, none) = (v, none)
  with_key token seconds (v, some key) = (v, unexpired seconds (lib.verify key token seconds))

  -- `seconds` is the Unix time of `now`; `none` is any error.
  unfoldable pub validate_token :
      Validator → String → ℕ → ℕ → ℕ → Option (List JwksKey) → Validator × Option Claims
  unfolding bearer_token with_key key_for
  validate_token v auth_header now seconds fetched_at answer = elim (bearer_token auth_header) [
    | none ↦ (v, none)
    | some token ↦ elim (lib.header_of token) [
      | none ↦ (v, none)
      | some h ↦ with_key token seconds (key_for v h now fetched_at answer)
    ]
  ]

  pub get_user_id_from_token :
      Validator → String → ℕ → ℕ → ℕ → Option (List JwksKey) → Validator × Option String
  get_user_id_from_token v auth_header now seconds fetched_at answer =
      let r = validate_token v auth_header now seconds fetched_at answer in
      (r.0, elim r.1 [ none ↦ none | some claims ↦ some claims.sub ])
