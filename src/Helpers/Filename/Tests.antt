-- ===== src/Helpers/Filename/Tests.antt =====
-- A file name that tries to leave its directory: "../a".
use purp_tape.Base.{ℕ, ◌≤◌, List, [], ◌∷◌, All, length}
use purp_tape.Helpers.Filename.{sanitize_filename}
use purp_tape.Helpers.Filename.Laws.{IsPlain, HasNoDotPair, sanitize_filename-IsPlain}

abbrev climbing : List ℕ
climbing = b'.' ∷ b'.' ∷ b'/' ∷ b'a' ∷ []

sanitize_filename-IsPlain_example :
    All IsPlain (sanitize_filename climbing)
    × HasNoDotPair (sanitize_filename climbing)
    × (length (sanitize_filename climbing) ≤ 255)
sanitize_filename-IsPlain_example = sanitize_filename-IsPlain climbing
