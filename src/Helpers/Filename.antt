-- ===== src/Helpers/Filename.antt =====
-- backend/internal/helpers/validation.go: SanitizeFilename. A string is the list of its bytes: the
-- cut at 255 counts them.
pub mod Laws
mod Tests
use purp_tape.Base.{
  ℕ, Bool, true, false, not, ◌&&◌, List, [], ◌∷◌, if◌then◌else◌, ltb, ◌==◌, length, take,
}

-- strings.ReplaceAll(s, c, "") for a text of one byte.
remove : ℕ → List ℕ → List ℕ
remove c [] = []
remove c (x ∷ s) = let rest = remove c s in if x == c then rest else x ∷ rest

-- strings.ReplaceAll(s, "..", ""), from the left; `dot` says that one dot waits for its second.
remove_dots : Bool → List ℕ → List ℕ
remove_dots false [] = []
remove_dots true [] = b'.' ∷ []
remove_dots dot (x ∷ s) =
    let rest = remove_dots (x == b'.' && not dot) s in
    if x == b'.' then rest else (if dot then b'.' ∷ x ∷ rest else x ∷ rest)

pub sanitize_filename : List ℕ → List ℕ
unfolding remove remove_dots
sanitize_filename filename =
    let cleaned = remove_dots false (remove b'\\' (remove b'/' filename)) in
    if ltb 255 (length cleaned) then take 255 cleaned else cleaned
