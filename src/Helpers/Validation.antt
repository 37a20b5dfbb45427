-- ===== src/Helpers/Validation.antt =====
-- backend/internal/helpers/validation.go: query parameters. A parameter is the first value of its
-- name, or the empty text.
pub mod Laws
mod Tests
use Prim.Native.Char.{code}
use Prim.Native.String
use purp_tape.Base.{
  ℕ, ◌≡◌, refl, Bool, true, false, ◌||◌, String, Option, none, some, List, [], ◌∷◌, str_eq,
  if◌then◌else◌, ◌==◌,
}
use purp_tape.Base.Int.{ℤ, pos, negsuc, lt_int}
use purp_tape.Base.Text.{len, trim_space}
use purp_tape.Base.Numbers.{atoi}

-- `none` is an error; a number out of range is 0 and no error.
pub validate_and_parse_int : String → ℤ → ℤ → Option ℤ
validate_and_parse_int value min max = elim (atoi value) [
  | none ↦ none
  | some num ↦ if lt_int num min || lt_int max num then some (pos 0) else some num
]

-- A parameter, with the value that it has by default.
parameter : ℤ → String → ℤ → ℤ → ℤ
unfolding validate_and_parse_int
parameter default text min max =
    if str_eq text ""
    then default
    else elim (validate_and_parse_int text min max) [ none ↦ default | some n ↦ n ]

pub extract_pagination_params_validated : String → String → ℤ × ℤ
unfolding parameter
extract_pagination_params_validated limit_text offset_text = (
  parameter (pos 20) limit_text (pos 1) (pos 100),
  parameter (pos 0) offset_text (pos 0) (pos 999_999),
)

pub member : String → List String → Bool
member field [] = false
member field (a ∷ allowed) = str_eq field a || member field allowed

-- `none` is the panic at `allowed[0]` of an empty list.
pub validate_sort_field : String → List String → Option String
unfolding member
validate_sort_field field allowed =
    let trimmed = trim_space field in
    if member trimmed allowed then some trimmed else elim allowed [ [] ↦ none | a ∷ rest ↦ some a ]

-- The field and whether the order is descending.
with_order : Bool → Option String → Option (String × Bool)
with_order desc none = none
with_order desc (some field) = some (field, desc)

pub extract_sort_params : String → String → List String → Option (String × Bool)
unfolding with_order validate_sort_field
extract_sort_params String.[] default_sort allowed = some (default_sort, false)
extract_sort_params (String.◌∷◌ c s) default_sort allowed =
    if code c == b'-'
    then with_order true (validate_sort_field s allowed)
    else with_order false (validate_sort_field (String.◌∷◌ c s) allowed)

pub record InputValidator : Type 0 where
  pub field : String
  pub value : String
  pub min_len : ℤ
  pub max_len : ℤ
  pub pattern : String

-- The message of the error, if there is one.
pub validate : InputValidator → Option String
validate iv =
    let size = pos (len (trim_space iv.value)) in
    if lt_int size iv.min_len
    then some "too short"
    else if lt_int iv.max_len size
    then some "too long"
    else none
