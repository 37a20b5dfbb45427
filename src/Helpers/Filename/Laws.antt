-- ===== src/Helpers/Filename/Laws.antt =====
-- helpers/validation.go: the bytes of a sanitized name.
use purp_tape.Base.{
  ℕ, zero, suc, ◌≤◌, ◌≡◌, ◌≢◌, inl, inr, Bool, true, false, not, List, [], ◌∷◌, arith,
  if◌then◌else◌, Bool-cases, ltb, ◌==◌, length, take, length-take, All,
}
use purp_tape.Helpers.Filename.{remove, remove_dots, sanitize_filename}

-- The text does not begin with a dot.
abbrev Undotted : List ℕ → Type 0
Undotted [] = Unit
Undotted (x ∷ s) = x ≢ b'.'

-- No two dots follow each other.
abbrev pub HasNoDotPair : List ℕ → Type 0
HasNoDotPair [] = Unit
HasNoDotPair (x ∷ s) = (x ≡ b'.' → Undotted s) × HasNoDotPair s

remove-All : (P : ℕ → Type 0) (c : ℕ) (s : List ℕ) → All P s → All P (remove c s)
unfolding remove
remove-All P c [] all = tt
remove-All P c (x ∷ s) (here, all) = elim (Bool-cases (x == c)) [
  | inl h ↦ rw h (remove-All P c s all)
  | inr h ↦ rw h (here, remove-All P c s all)
]

remove-apart : (c : ℕ) (s : List ℕ) → All (λ x. x ≢ c) (remove c s)
unfolding remove
remove-apart c [] = tt
remove-apart c (x ∷ s) = elim (Bool-cases (x == c)) [
  | inl h ↦ rw h (remove-apart c s)
  | inr h ↦ rw h (ground arith, remove-apart c s)
]

remove_dots-All :
    (P : ℕ → Type 0) (dot : Bool) (s : List ℕ) → P b'.' → All P s → All P (remove_dots dot s)
unfolding remove_dots
remove_dots-All P false [] p all = tt
remove_dots-All P true [] p all = (p, tt)
remove_dots-All P dot (x ∷ s) p (here, all) = elim (Bool-cases (x == b'.')) [
  | inl h ↦ rw h (remove_dots-All P (not dot) s p all)
  | inr h ↦ rw h (emitted dot _ (remove_dots-All P false s p all))
]
  where
    emitted :
        (dot : Bool) (rest : List ℕ)
        → All P rest
        → All P (if dot then b'.' ∷ x ∷ rest else x ∷ rest)
    emitted true rest all = (p, (here, all))
    emitted false rest all = (here, all)

remove_dots-HasNoDotPair : (dot : Bool) (s : List ℕ) → HasNoDotPair (remove_dots dot s)
unfolding remove_dots
remove_dots-HasNoDotPair false [] = tt
remove_dots-HasNoDotPair true [] = (λ e. tt, tt)
remove_dots-HasNoDotPair dot (x ∷ s) = elim (Bool-cases (x == b'.')) [
  | inl h ↦ rw h (remove_dots-HasNoDotPair (not dot) s)
  | inr h ↦ rw h (emitted dot _ (ground arith) (remove_dots-HasNoDotPair false s))
]
  where
    emitted :
        (dot : Bool) (rest : List ℕ)
        → x ≢ b'.'
        → HasNoDotPair rest
        → HasNoDotPair (if dot then b'.' ∷ x ∷ rest else x ∷ rest)
    emitted true rest apart pairs = (λ e. apart, (λ e. absurd (apart e), pairs))
    emitted false rest apart pairs = (λ e. absurd (apart e), pairs)

take-All : (P : ℕ → Type 0) (n : ℕ) (s : List ℕ) → All P s → All P (take n s)
take-All P zero s all = tt
take-All P (suc n) [] all = tt
take-All P (suc n) (x ∷ s) (here, all) = (here, take-All P n s all)

take-Undotted : (n : ℕ) (s : List ℕ) → Undotted s → Undotted (take n s)
take-Undotted zero s h = tt
take-Undotted (suc n) [] h = tt
take-Undotted (suc n) (x ∷ s) h = h

take-HasNoDotPair : (n : ℕ) (s : List ℕ) → HasNoDotPair s → HasNoDotPair (take n s)
take-HasNoDotPair zero s h = tt
take-HasNoDotPair (suc n) [] h = tt
take-HasNoDotPair (suc n) (x ∷ s) (here, h) =
    (λ e. take-Undotted n s (here e), take-HasNoDotPair n s h)

-- A byte that no path separator is.
abbrev pub IsPlain : ℕ → Type 0
IsPlain x = (x ≢ b'/') × (x ≢ b'\\')

both : (P Q : ℕ → Type 0) (s : List ℕ) → All P s → All Q s → All (λ x. P x × Q x) s
both P Q [] p q = tt
both P Q (x ∷ s) (p, ps) (q, qs) = ((p, q), both P Q s ps qs)

-- A sanitized name has no slash and no backslash, no two dots in a row, and at most 255 bytes.
pub sanitize_filename-IsPlain :
    (filename : List ℕ)
    → let r = sanitize_filename filename in All IsPlain r × HasNoDotPair r × (length r ≤ 255)
unfolding sanitize_filename
sanitize_filename-IsPlain filename = elim (Bool-cases (ltb 255 (length cleaned))) [
  | inl h ↦ rw h (
    take-All IsPlain 255 cleaned plain,
    take-HasNoDotPair 255 cleaned pairs,
    omega (arith, length-take 255 cleaned),
  )
  | inr h ↦ rw h (plain, pairs, ground arith)
]
  where
    slashless : List ℕ
    slashless = remove b'/' filename

    backslashless : List ℕ
    backslashless = remove b'\\' slashless

    cleaned : List ℕ
    cleaned = remove_dots false backslashless

    plain : All IsPlain cleaned
    plain =
        remove_dots-All IsPlain false backslashless (omega arith, omega arith)
          (both (λ x. x ≢ b'/') (λ x. x ≢ b'\\') backslashless
            (remove-All (λ x. x ≢ b'/') b'\\' slashless (remove-apart b'/' filename))
            (remove-apart b'\\' slashless))

    pairs : HasNoDotPair cleaned
    pairs = remove_dots-HasNoDotPair false backslashless
