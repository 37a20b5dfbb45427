-- ===== src/Helpers/Requests.antt =====
-- backend/internal/helpers/handlers.go: the user of a request, and its page.
use purp_tape.Base.{◌&&◌, String, Option, none, some, str_eq, if◌then◌else◌}
use purp_tape.Base.Int.{ℤ, pos, lt_int, le_int}
use purp_tape.Base.Numbers.{atoi}
use purp_tape.Http.{Request}

-- `none` is the error.
unfoldable pub get_user_id : Request → Option String
get_user_id r = elim (r.context "user_id") [
  | none ↦ none
  | some user_id ↦ if str_eq user_id "" then none else some user_id
]

pub limit_of : Option ℤ → ℤ
limit_of none = pos 20
limit_of (some l) = if lt_int (pos 0) l && le_int l (pos 100) then l else pos 20

pub offset_of : Option ℤ → ℤ
offset_of none = pos 0
offset_of (some o) = if le_int (pos 0) o then o else pos 0

-- The values of the parameters `limit` and `offset`, empty where they are missing.
pub extract_pagination_params : String → String → ℤ × ℤ
unfolding limit_of offset_of
extract_pagination_params limit_str offset_str = (
  if str_eq limit_str "" then pos 20 else limit_of (atoi limit_str),
  if str_eq offset_str "" then pos 0 else offset_of (atoi offset_str),
)
