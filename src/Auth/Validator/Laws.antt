-- ===== src/Auth/Validator/Laws.antt =====
-- backend/internal/auth/validator.go: which tokens are accepted.
use purp_tape.Base.{
  ℕ, ◌≤◌, ◌≡◌, refl, sym, ◌∙◌, subst, ◌≢◌, inl, inr, false, String, Option, none, some, List, arith,
  Bool, Bool-cases, str_eq, if◌then◌else◌, ltb, eq_iff,
}
use purp_tape.Auth.Validator.{
  hmac, Header, Claims, JwksKey, Key, secret, Library, Validator, secret_of, names_none, by_method,
  key_for, bearer_token, unexpired, with_key, validate_token,
}
use purp_tape.Auth.Validator.Keys.{IsKeyOf, key_for-IsKeyOf}

module _ (lib : Library) where
  -- What a validator has checked of a token before it returns the claims.
  pub record IsAccepted (v : Validator) (auth_header : String) (now seconds : ℕ)
      (answer : Option (List JwksKey)) (claims : Claims) : Type 0 where
    pub token : String
    pub header : Header
    pub key : Key
    pub is_bearer : bearer_token auth_header ≡ some token
    pub has_header : lib.header_of token ≡ some header
    pub has_algorithm : header.alg ≢ some "none"
    pub has_key : IsKeyOf lib v header now answer key
    pub is_verified : lib.verify key token seconds ≡ some claims
    pub is_unexpired : seconds ≤ claims.exp

  unexpired_lem :
      (seconds : ℕ) (c : Option Claims) (claims : Claims)
      → unexpired seconds c ≡ some claims
      → (c ≡ some claims) × (seconds ≤ claims.exp)
  unfolding unexpired
  unexpired_lem seconds none claims h = absurd (ground arith)
  unexpired_lem seconds (some c) claims h = elim (Bool-cases (ltb c.exp seconds)) [
    | inl late ↦ absurd (not_none (sym (branch late) ∙ h))
    | inr live ↦
        let same = sym (branch live) ∙ h in
        (
          same,
          subst (λ o. elim o as (λ x. Type 0) [ none ↦ Unit | some c ↦ seconds ≤ c.exp ]) same
              (ground arith),
        )
  ]
    where
      not_none : ¬ (none ≡ some claims)
      not_none q = ground arith

      branch :
          {b : Bool}
          → ltb c.exp seconds ≡ b
          → (if ltb c.exp seconds then none else some c) ≡ (if b then none else some c)
      branch e = rw e refl

  with_key_lem :
      (token : String) (seconds : ℕ) (r : Validator × Option Key) (claims : Claims)
      → (with_key lib token seconds r).1 ≡ some claims
      → (key : Key) × (r.1 ≡ some key)
        × (unexpired seconds (lib.verify key token seconds) ≡ some claims)
  unfolding with_key
  with_key_lem token seconds (v, none) claims h = absurd (ground arith)
  with_key_lem token seconds (v, some key) claims h = (key, refl, h)

  names_none_lem : (alg : Option String) → names_none alg ≡ false → alg ≢ some "none"
  names_none_lem none h e = absurd (ground arith)
  names_none_lem (some alg) h e = absurd (ground (arith, eq_iff alg "none"))

  -- Claims are returned only for a header `Bearer <token>` whose token does not name the algorithm
  -- "none", is verified, and is not expired. The key is the secret of the validator for HMAC, which
  -- is not empty, and for RSA and ECDSA a public key under the token's key id, from the cache before
  -- it expires or from the answer of the endpoint.
  pub validate_token-IsAccepted :
      (v : Validator) (auth_header : String) (now seconds fetched_at : ℕ)
      (answer : Option (List JwksKey)) (claims : Claims)
      → (validate_token lib v auth_header now seconds fetched_at answer).1 ≡ some claims
      → IsAccepted v auth_header now seconds answer claims
  unfolding validate_token
  validate_token-IsAccepted v auth_header now seconds fetched_at answer claims =
      with_token (bearer_token auth_header) refl
    where
      with_header :
          (token : String)
          → bearer_token auth_header ≡ some token
          → (h : Option Header) → lib.header_of token ≡ h
          → (elim h as (λ x. Validator × Option Claims) [
            | none ↦ (v, none)
            | some h ↦ with_key lib token seconds (key_for lib v h now fetched_at answer)
          ]).1
            ≡ some claims
          → IsAccepted v auth_header now seconds answer claims
      with_header token t none e p = absurd (ground arith)
      with_header token t (some h) e p =
          let r = with_key_lem token seconds (key_for lib v h now fetched_at answer) claims p in
          let k = key_for-IsKeyOf lib v h now fetched_at answer r.0 r.1 in
          let live = unexpired_lem seconds (lib.verify r.0 token seconds) claims r.2 in
          record {
            token = token;
            header = h;
            key = r.0;
            is_bearer = t;
            has_header = e;
            has_algorithm = names_none_lem h.alg k.0;
            has_key = k.1;
            is_verified = live.0;
            is_unexpired = live.1;
          }

      with_token :
          (token : Option String)
          → bearer_token auth_header ≡ token
          → (elim token as (λ x. Validator × Option Claims) [
            | none ↦ (v, none)
            | some token ↦ elim (lib.header_of token) [
              | none ↦ (v, none)
              | some h ↦ with_key lib token seconds (key_for lib v h now fetched_at answer)
            ]
          ]).1
            ≡ some claims
          → IsAccepted v auth_header now seconds answer claims
      with_token none e p = absurd (ground arith)
      with_token (some token) e p = with_header token e (lib.header_of token) refl p

  has_branch :
      (seconds : ℕ) (claims : Claims)
      → seconds ≤ claims.exp
      → unexpired seconds (some claims) ≡ some claims
  unfolding unexpired
  has_branch seconds claims h = ground arith

  -- The claims of a token with HMAC are returned, and the validator is not changed, if the header is
  -- `Bearer <token>`, the token does not name the algorithm "none", it is verified under a secret
  -- that is not empty and is the JWT secret, and it is not expired.
  pub validate_token-hmac :
      (v : Validator) (auth_header token : String) (h : Header) (now seconds fetched_at : ℕ)
      (answer : Option (List JwksKey)) (claims : Claims)
      → bearer_token auth_header ≡ some token
      → lib.header_of token ≡ some h
      → names_none h.alg ≡ false
      → h.method ≡ hmac
      → str_eq v.jwt_secret "" ≡ false
      → lib.verify (secret v.jwt_secret) token seconds ≡ some claims
      → seconds ≤ claims.exp
      → validate_token lib v auth_header now seconds fetched_at answer ≡ (v, some claims)
  unfolding validate_token with_key key_for by_method secret_of
  validate_token-hmac v auth_header token h now seconds fetched_at answer claims b e n m s p live =
      rw
        (
          b,
          e,
          n,
          m,
          s,
          p,
          has_branch seconds claims live,
          validate_token,
          with_key,
          key_for,
          by_method,
          secret_of,
        )
        (rw (n, m, key_for, by_method))
