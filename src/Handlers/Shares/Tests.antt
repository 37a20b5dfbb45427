-- ===== src/Handlers/Shares/Tests.antt =====
-- A link of Ann's project "p", and a token library without encryption.
use purp_tape.Base.{
  ◌⊎◌, List, ◌+◌, ◌≤◌, ◌≡◌, refl, ◌≢◌, ◌↔◌, arith, eq_iff, true, false, String, none, some, [], ◌∷◌,
  empty, insert, str_eq, if◌then◌else◌,
}
use purp_tape.Base.Text.{trim_space, cut_prefix}
use purp_tape.Base.Text.Join.{Lacks}
use purp_tape.Http.{Request, Answer, refused}
use purp_tape.Db.{Database}
use purp_tape.Db.ShareLinks.{ShareLink, find_link, get_share_link_by_hash}
use purp_tape.Handlers.Shares.Tokens.{
  TokenLibrary, unix, generate_share_access_token, verify_share_access_token,
  extract_share_access_token,
}
use purp_tape.Handlers.Shares.Tokens.Laws.{IsLibrary, verify-generate}
use purp_tape.Handlers.Shares.Links.{regenerate_share_hash}
use purp_tape.Handlers.Shares.Links.Laws.{IsOwner}
use purp_tape.Handlers.Shares.Links.Replace.{IsKept, Replaces, regenerate_share_hash-IsReplaced}
use purp_tape.Handlers.Shares.Access.{
  quarter, refusal, get_project_by_share_hash, verify_share_password,
}
use purp_tape.Handlers.Shares.Access.Laws.{IsOpen, get_project_by_share_hash-not_found}
use purp_tape.Handlers.Shares.Access.Password.{IsAnswered, verify_share_password-passes}

-- A payload of the link "h" that expires at 900 seconds.
abbrev lib : TokenLibrary
lib = record {
  encode_payload = λ hash exp. "x";
  decode_payload = λ text. some ("h", 900);
  mac = λ key text. "y";
}

lib-IsLibrary : IsLibrary lib "key" "h" 900
unfolding Lacks
lib-IsLibrary = record { payload_plain = (refl, tt); mac_plain = (refl, tt); decoded = refl }

abbrev database : Database
database = record {
  available = true;
  no_rows_is_sql = false;
  has_avatar = λ user_id. true;
  projects = record { id = "p"; user_id = "ann"; is_deleted = false } ∷ [];
  collaborators = [];
  project_shares = [];
  user_project_access = [];
  user_track_access = [];
}

abbrev link : ShareLink
link = record {
  id = "1";
  project_id = "p";
  creator_id = "ann";
  hash = "h";
  access_level = "viewer";
  is_public = false;
  is_password_protected = false;
  password_hash = "";
  expires_at = none;
  revoked_at = none;
}

abbrev by_ann : Request
by_ann = record {
  method = "POST";
  path = "/projects/p/share-link/h";
  remote_addr = "1.2.3.4:5000";
  header = λ name. "";
  path_value = λ name. if str_eq name "project_id" then "p" else "h";
  context = insert "user_id" "ann" empty;
}

abbrev regenerated : List ShareLink × Answer ShareLink
regenerated = regenerate_share_hash database (link ∷ []) true true "2" "k" 5 by_ann

regenerate_share_hash-IsReplaced_example :
    (IsKept database (link ∷ []) by_ann regenerated
      ⊎ (IsOwner database (link ∷ []) by_ann
          × Replaces database (link ∷ []) by_ann true 5 regenerated))
    × ((old : ShareLink)
        → database.available ≡ true
        → true ≡ true
        → find_link "k" (link ∷ []) ≡ none
        → IsOwner database (link ∷ []) by_ann
        → find_link "h" (link ∷ []) ≡ some old
        → old.project_id ≡ "p"
        → Replaces database (link ∷ []) by_ann true 5 regenerated)
regenerate_share_hash-IsReplaced_example =
    regenerate_share_hash-IsReplaced database (link ∷ []) by_ann true true "2" "k" 5

named : (s : String) → ◌≢◌ {A = String} "ann" ""
named s e = ground (arith, eq_iff "ann" "")

link-IsOpen : IsOpen lib "key" 9 by_ann link
link-IsOpen = record {
  not_revoked = refl;
  not_expired = λ e p. absurd (ground arith);
  has_password = λ e. absurd (ground arith);
}

get_project_by_share_hash-not_found_example :
    get_project_by_share_hash lib "key" database (link ∷ []) 9 by_ann
    ≡ refused [] 404 "project not found"
unfolding get_share_link_by_hash
get_project_by_share_hash-not_found_example =
    get_project_by_share_hash-not_found lib "key" database (link ∷ []) 9 by_ann link (named "", tt)
      tt refl link-IsOpen

verify-generate_example :
    (verify_share_access_token lib 7 (generate_share_access_token lib 0 "h" quarter "key") "h" "key"
      ≡ true)
    ↔ ((◌≡◌ {A = String} "h" "h") × (unix 7 ≤ unix (0 + quarter)))
verify-generate_example = verify-generate lib 0 quarter "h" "key" lib-IsLibrary 7 "h"

abbrev protected : ShareLink
protected = record link { is_password_protected = true; password_hash = "secret" }

abbrev with_token : Request
with_token = record by_ann {
  header = λ name. if str_eq name "X-Share-Access-Token" then "x.y" else "";
}

verify_share_password-passes_example :
    IsAnswered lib "key" database (protected ∷ []) str_eq by_ann "secret"
    × ((refusal lib "key" 7 with_token protected ≡ none) ↔ (unix 7 ≤ unix (0 + quarter)))
    × (refusal lib "key" 7 by_ann protected ≢ none)
unfolding verify_share_password get_share_link_by_hash generate_share_access_token
    extract_share_access_token trim_space cut_prefix
verify_share_password-passes_example =
    verify_share_password-passes lib "key" database (protected ∷ []) str_eq 0 7 by_ann with_token
      by_ann "secret" "x.y" protected lib-IsLibrary refl refl refl refl refl refl
      (λ e p. absurd (ground arith))
