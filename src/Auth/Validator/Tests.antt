-- ===== src/Auth/Validator/Tests.antt =====
-- A token "t" that has an HMAC method, or names a key "k" of the endpoint.
use purp_tape.Base.{refl, [], ◌∷◌, none, some, if◌then◌else◌, str_eq}
use purp_tape.Base.Text.{split}
use purp_tape.Auth.Validator.{
  Validator, Header, Claims, Library, JwksKey, hmac, new_validator, bearer_token, with_key, key_for,
  by_method, secret_of, unexpired, bearer, validate_token,
}
use purp_tape.Auth.Validator.Laws.{IsAccepted, validate_token-IsAccepted}

abbrev of_ada : Claims
of_ada = record { sub = "ada"; email = "ada@example.org"; exp = 100 }

abbrev signed : Header
signed = record { alg = some "HS256"; method = hmac; kid = none }

abbrev lib : Library
lib = record {
  header_of = λ token. if str_eq token "t" then some signed else none;
  verify = λ key token seconds. some of_ada;
  decode = λ text. some (1 ∷ []);
}

abbrev validator : Validator
validator = new_validator "" "s"

validate_token-IsAccepted_example : IsAccepted lib validator "Bearer t" 0 50 none of_ada
unfolding validate_token bearer_token split bearer with_key key_for by_method secret_of unexpired
    new_validator
validate_token-IsAccepted_example =
    validate_token-IsAccepted lib validator "Bearer t" 0 50 0 none of_ada refl

abbrev published : JwksKey
published = record { kty = "RSA"; kid = "k"; n = "AQ"; e = "AQ"; crv = ""; x = ""; y = "" }
