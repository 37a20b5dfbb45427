-- ===== src/Handlers/Shares/Tokens.antt =====
-- backend/internal/handlers/shares.go: the access tokens that a password buys. JSON, base64 and
-- HMAC-SHA256 are parameters; times are nanoseconds since 1970.
pub mod Laws
use Prim.Native.String
use purp_tape.Base.{
  ℕ, ◌+◌, ◌/◌, Bool, true, false, ◌&&◌, String, Option, none, some, List, [], ◌∷◌, str_eq,
  if◌then◌else◌, leb,
}
use purp_tape.Base.Text.{split, trim_space, cut_prefix}
use purp_tape.Http.{Request}

-- `encode_payload` is the base64 of the JSON with a hash and an expiry, `decode_payload` reads it
-- back; `mac key text` is the base64 of the HMAC.
pub record TokenLibrary : Type 0 where
  pub encode_payload : String → ℕ → String
  pub decode_payload : String → Option (String × ℕ)
  pub mac : String → String → String

-- The first of the two environment variables that is set.
pub get_share_signing_key : String → String → String
get_share_signing_key signing_key secret_key =
    if str_eq (trim_space signing_key) ""
    then (if str_eq (trim_space secret_key) ""
        then "purptape-share-link-fallback-key"
        else trim_space secret_key)
    else trim_space signing_key

pub bearer_part : String → String
bearer_part auth_header = elim (cut_prefix "Bearer " auth_header) [
  | none ↦ ""
  | some rest ↦ trim_space rest
]

unfoldable pub extract_share_access_token : Request → String
unfolding bearer_part
extract_share_access_token r =
    if str_eq (trim_space (r.header "X-Share-Access-Token")) ""
    then bearer_part (trim_space (r.header "Authorization"))
    else trim_space (r.header "X-Share-Access-Token")

-- t.Unix()
abbrev pub unix : ℕ → ℕ
unix t = t / 1_000_000_000

module _ (lib : TokenLibrary) where
  unfoldable pub generate_share_access_token : ℕ → String → ℕ → String → String
  generate_share_access_token now share_hash ttl signing_key =
      let payload = lib.encode_payload share_hash (unix (now + ttl)) in
      String.◌++◌ payload (String.◌++◌ "." (lib.mac signing_key payload))

  pub check_payload : ℕ → String → Option (String × ℕ) → Bool
  check_payload now expected_hash none = false
  check_payload now expected_hash (some (hash, exp)) =
      str_eq hash expected_hash && leb (unix now) exp

  -- The parts of a token; hmac.Equal is equality.
  pub check_parts : ℕ → String → String → List String → Bool
  unfolding check_payload
  check_parts now expected_hash signing_key [] = false
  check_parts now expected_hash signing_key (a ∷ []) = false
  check_parts now expected_hash signing_key (payload ∷ sig ∷ []) =
      if str_eq (lib.mac signing_key payload) sig
      then check_payload now expected_hash (lib.decode_payload payload)
      else false
  check_parts now expected_hash signing_key (a ∷ b ∷ c ∷ parts) = false

  unfoldable pub verify_share_access_token : ℕ → String → String → String → Bool
  unfolding check_parts
  verify_share_access_token now token expected_hash signing_key =
      check_parts now expected_hash signing_key (split b'.' token)
