-- ===== src/Middleware/Auth.antt =====
-- backend/internal/middleware/auth.go: the user of a request, the paths in the log, and the headers
-- for other origins.
pub mod Laws
pub mod Redact
mod Tests
use purp_tape.Base.{
  ℕ, Bool, true, false, String, Option, none, some, List, [], ◌∷◌, str_eq, if◌then◌else◌, insert,
}
use purp_tape.Base.Text.{split, join}
use purp_tape.Http.{Request, Reply, error, next}
use purp_tape.Auth.Validator.{Claims, JwksKey, Library, Validator, bearer_token, validate_token}

-- The request that the handler gets.
pub with_claims : Request → String → Claims → Request
with_claims r token claims = record r {
  context =
      insert "token" token
        (insert "user_email" claims.email (insert "user_id" claims.sub r.context));
}

pub validated : Request → String → Validator × Option Claims → Validator × Reply
unfolding with_claims
validated r token (v, none) = (v, error [] 401 "invalid token")
validated r token (v, some claims) = (v, next (with_claims r token claims))

-- `now`, `seconds`, `fetched_at` and `answer` are those of `validate_token`.
pub auth_middleware :
    Library → Validator → Request → ℕ → ℕ → ℕ → Option (List JwksKey) → Validator × Reply
unfolding validated
auth_middleware lib v r now seconds fetched_at answer =
    if str_eq (r.header "Authorization") ""
    then (v, error [] 401 "missing authorization header")
    else elim (bearer_token (r.header "Authorization")) [
      | none ↦ (v, error [] 401 "invalid authorization header")
      | some token ↦
          validated r token
            (validate_token lib v (r.header "Authorization") now seconds fetched_at answer)
    ]

-- The parts of a path whose next part is a secret.
pub is_marker : String → Bool
is_marker part =
    if str_eq part "share" then true else if str_eq part "shares" then true else str_eq part "token"

-- The loop over the parts, which reads what it has written: `after` says whether the part before
-- was a marker when it was read.
pub redact : Bool → List String → List String
unfolding is_marker
redact after [] = []
redact after (part ∷ parts) =
    let kept = redact (is_marker part) parts in
    let hidden = redact false parts in
    if after then (if str_eq part "" then part ∷ kept else "[REDACTED]" ∷ hidden) else part ∷ kept

pub sanitize_path_for_logs : String → String
unfolding redact
sanitize_path_for_logs path =
    if str_eq path "" then path else join "/" (redact false (split b'/' path))

pub is_allowed_origin : String → List String → Bool
is_allowed_origin origin [] = false
is_allowed_origin origin (allowed_origin ∷ allowed_origins) =
    if str_eq origin allowed_origin then true else is_allowed_origin origin allowed_origins

-- The headers set for an allowed origin.
pub cors_headers : String → List (String × String)
cors_headers origin =
    ("Access-Control-Allow-Origin", origin)
    ∷ ("Access-Control-Allow-Methods", "GET, POST, PUT, DELETE, OPTIONS")
    ∷ ("Access-Control-Allow-Headers", "Content-Type, Authorization")
    ∷ ("Access-Control-Allow-Credentials", "true")
    ∷ ("Access-Control-Max-Age", "3600")
    ∷ []

-- The headers set on the response, and what becomes of the request. A preflight request is answered
-- with the status alone.
pub cors_middleware : List String → Request → List (String × String) × Reply
unfolding is_allowed_origin cors_headers
cors_middleware allowed_origins r =
    let origin = r.header "Origin" in
    (
      if is_allowed_origin origin allowed_origins then cors_headers origin else [],
      if str_eq r.method "OPTIONS" then error [] 204 "" else next r,
    )
