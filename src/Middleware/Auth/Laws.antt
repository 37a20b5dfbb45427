-- ===== src/Middleware/Auth/Laws.antt =====
-- backend/internal/middleware/auth.go: who gets past the authentication.
use purp_tape.Base.{
  ℕ, ◌≡◌, refl, sym, ap, subst, Bool-cases, String, Option, none, some, List, [], arith, snd-if,
  str_eq, inl, inr,
}
use purp_tape.Http.{Request, Reply, error, next}
use purp_tape.Db.{Database, ok}
use purp_tape.Db.Roles.{get_user_role_optimized}
use purp_tape.Auth.Validator.{Claims, JwksKey, Library, Validator, bearer_token, validate_token}
use purp_tape.Auth.Validator.Laws.{IsAccepted, validate_token-IsAccepted}
use purp_tape.Middleware.Auth.{with_claims, validated, auth_middleware}
use purp_tape.Middleware.Rbac.{rbac_middleware, enforce_modification_access, and_then}
use purp_tape.Middleware.Rbac.Laws.{CanModify, MayModify, modification_iff}

validated_lem :
    (r r' : Request) (token : String) (result : Validator × Option Claims)
    → (validated r token result).1 ≡ next r'
    → (claims : Claims) × (result.1 ≡ some claims) × (next (with_claims r token claims) ≡ next r')
unfolding validated
validated_lem r r' token (v, none) h = absurd (ground arith)
validated_lem r r' token (v, some claims) h = (claims, refl, h)

request_eq : {r1 r2 : Request} → next r1 ≡ next r2 → r1 ≡ r2
request_eq {r1} e =
    ap (λ x. elim x as (λ y. Request) [ error headers status message ↦ r1 | next r ↦ r ]) e

module _ (lib : Library) (v : Validator) (r : Request) (now seconds fetched_at : ℕ)
    (answer : Option (List JwksKey)) where
  -- The request that is passed on is the one that came with the claims of its token in the context.
  IsPassed : Request → Type 0
  IsPassed r' =
      (token : String) × (claims : Claims) × IsAccepted lib v (r.header "Authorization") now seconds
        answer claims
      × (next (with_claims r token claims) ≡ next r')

  with_token :
      (r' : Request) (token : Option String)
      → (elim token as (λ x. Validator × Reply) [
        | none ↦ (v, error [] 401 "invalid authorization header")
        | some token ↦
            validated r token
              (validate_token lib v (r.header "Authorization") now seconds fetched_at answer)
      ]).1
        ≡ next r'
      → IsPassed r'
  unfolding IsPassed
  with_token r' none h = absurd (ground arith)
  with_token r' (some token) h =
      let found =
        validated_lem r r' token
          (validate_token lib v (r.header "Authorization") now seconds fetched_at answer) h in
      (
        token,
        found.0,
        validate_token-IsAccepted lib v (r.header "Authorization") now seconds fetched_at answer
            found.0 found.1,
        found.2,
      )

  auth_middleware-IsPassed :
      (r' : Request)
      → (auth_middleware lib v r now seconds fetched_at answer).1 ≡ next r'
      → IsPassed r'
  unfolding auth_middleware
  auth_middleware-IsPassed r' h = elim (Bool-cases (str_eq (r.header "Authorization") "")) [
    | inl c ↦ let q = snd-if _ _ c h in absurd (ground arith)
    | inr c ↦ with_token r' (bearer_token (r.header "Authorization")) (snd-if _ _ c h)
  ]

  IsGranted : Database → String → Option String → Type 0
  IsGranted db role none = Unit
  IsGranted db role (some user_id) =
      get_user_role_optimized db (r.path_value "project_id") user_id ≡ ok role

  -- A modification that gets past the authentication and the role guards carries a token that the
  -- validator accepts, and the role that the database gives the user of the token's claims may
  -- modify the project.
  pub authenticated_modification :
      (db : Database) (r' : Request)
      → and_then
          (auth_middleware lib v r now seconds fetched_at answer).1
          (λ r. and_then (rbac_middleware db r) enforce_modification_access)
        ≡ next r'
      → (claims : Claims) × (role : String) × IsAccepted lib v
          (r.header "Authorization")
          now
          seconds
          answer
          claims
        × (get_user_role_optimized db (r.path_value "project_id") claims.sub ≡ ok role)
        × CanModify role
  unfolding with_claims IsPassed IsGranted
  authenticated_modification db r' =
      passed (auth_middleware lib v r now seconds fetched_at answer).1 refl
    where
      passed :
          (reply : Reply)
          → (auth_middleware lib v r now seconds fetched_at answer).1 ≡ reply
          → and_then reply (λ r. and_then (rbac_middleware db r) enforce_modification_access)
            ≡ next r'
          → (claims : Claims) × (role : String) × IsAccepted lib v
              (r.header "Authorization")
              now
              seconds
              answer
              claims
            × (get_user_role_optimized db (r.path_value "project_id") claims.sub ≡ ok role)
            × CanModify role
      passed (error headers status message) e h = absurd (ground arith)
      passed (next r1) e h =
          let a = auth_middleware-IsPassed r1 e in
          let m = (modification_iff db r1).0 (r', h) in
          let granted = subst (λ r. MayModify db r m.0 m.1) (sym (request_eq a.3)) m.2 in
          (
            a.1,
            m.1,
            a.2,
            subst (IsGranted db m.1) (sym granted.user) granted.granted,
            granted.may_modify,
          )
