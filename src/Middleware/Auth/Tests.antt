-- ===== src/Middleware/Auth/Tests.antt =====
-- A request with a token, and the path of a share link.
use purp_tape.Base.{
  All, ◌≡◌, refl, ◌≢◌, arith, eq_iff, inl, String, none, some, [], ◌∷◌, empty, insert, str_eq,
  if◌then◌else◌, true, false,
}
use purp_tape.Base.Text.{split}
use purp_tape.Http.{Request}
use purp_tape.Db.{Database, ok}
use purp_tape.Db.Roles.{get_user_role_optimized}
use purp_tape.Auth.Validator.{
  Library, Validator, Header, Claims, hmac, new_validator, bearer, bearer_token, validate_token,
  with_key, key_for, by_method, secret_of, unexpired,
}
use purp_tape.Auth.Validator.Laws.{IsAccepted}
use purp_tape.Middleware.Rbac.Laws.{CanModify, MayModify, modification_iff}
use purp_tape.Middleware.Auth.Laws.{authenticated_modification}
use purp_tape.Middleware.Auth.{auth_middleware, validated, with_claims, sanitize_path_for_logs}
use purp_tape.Middleware.Auth.Redact.{
  HidesSecrets, IsSecretWord, sanitize_path_for_logs-HidesSecrets,
}

abbrev share_link : String
share_link = "/projects/p1/share-link/hash"

sanitize_path_for_logs-HidesSecrets_example :
    HidesSecrets (split b'/' (sanitize_path_for_logs "/share/hash/verify"))
    × (All (λ part. ¬ IsSecretWord part) (split b'/' "/share/hash/verify")
        → sanitize_path_for_logs "/share/hash/verify" ≡ "/share/hash/verify")
sanitize_path_for_logs-HidesSecrets_example =
    sanitize_path_for_logs-HidesSecrets "/share/hash/verify"

abbrev of_bob : Claims
of_bob = record { sub = "bob"; email = "bob@example.org"; exp = 100 }

abbrev signed : Header
signed = record { alg = some "HS256"; method = hmac; kid = none }

abbrev lib : Library
lib = record {
  header_of = λ token. some signed;
  verify = λ key token seconds. some of_bob;
  decode = λ text. none;
}

abbrev validator : Validator
validator = new_validator "" "s"

abbrev database : Database
database = record {
  available = true;
  no_rows_is_sql = false;
  has_avatar = λ user_id. true;
  projects = record { id = "p1"; user_id = "ann"; is_deleted = false } ∷ [];
  collaborators =
      record { project_id = "p1"; user_id = "bob"; role = "editor"; is_deleted = false } ∷ [];
  project_shares = [];
  user_project_access = [];
  user_track_access = [];
}

abbrev edit : Request
edit = record {
  method = "PUT";
  path = "/projects/p1";
  remote_addr = "1.2.3.4:5000";
  header = λ name. if str_eq name "Authorization" then "Bearer t" else "";
  path_value = λ name. if str_eq name "project_id" then "p1" else "";
  context = insert "user_id" "ann" empty;
}

named : ◌≢◌ {A = String} "bob" ""
named e = ground (arith, eq_iff "bob" "")

project_named : ◌≢◌ {A = String} "p1" ""
project_named e = ground (arith, eq_iff "p1" "")

edit-MayModify : MayModify database (with_claims edit "t" of_bob) "bob" "editor"
unfolding with_claims get_user_role_optimized
edit-MayModify = record {
  user = refl;
  user_named = named;
  project_named = project_named;
  granted = refl;
  may_modify = inl refl;
}

authenticated_modification_example :
    (claims : Claims) × (role : String) × IsAccepted lib validator "Bearer t" 0 50 none claims
    × (get_user_role_optimized database "p1" claims.sub ≡ ok role)
    × CanModify role
unfolding auth_middleware validated bearer_token bearer split validate_token with_key key_for
    by_method secret_of unexpired new_validator
authenticated_modification_example =
    authenticated_modification lib validator edit 0 50 0 none database
      ((modification_iff database (with_claims edit "t" of_bob)).1
        ("bob", "editor", edit-MayModify)).0
      ((modification_iff database (with_claims edit "t" of_bob)).1
        ("bob", "editor", edit-MayModify)).1
