-- ===== src/Middleware/Auth/Redact.antt =====
-- backend/internal/middleware/auth.go: the secrets in a path that is logged.
use Prim.Native.Char.{Char, char}
use purp_tape.Base.{
  ◌≡◌, refl, sym, subst, ap, ◌∙◌, ◌⊎◌, inl, inr, Bool, Bool-cases, true, false, String, List, [],
  ◌∷◌, arith, All, str_eq, eq_iff,
}
use purp_tape.Base.Text.{split, join}
use purp_tape.Base.Text.Join.{Lacks, join-split, split-join, split-Lacks, split_nonempty}
use purp_tape.Middleware.Auth.{is_marker, redact, sanitize_path_for_logs}

abbrev slash : Char
slash = char b'/' tt

-- A part that shows nothing.
abbrev pub IsBlank : String → Type 0
IsBlank part = (part ≡ "") ⊎ (part ≡ "[REDACTED]")

-- The part after a marker is blank; `after` says whether the part before the first is a marker.
HidesAfter : Bool → List String → Type 0
HidesAfter after [] = Unit
HidesAfter after (part ∷ parts) = (after ≡ true → IsBlank part) × HidesAfter (is_marker part) parts

redact-HidesAfter : (after : Bool) (parts : List String) → HidesAfter after (redact after parts)
unfolding HidesAfter redact is_marker
redact-HidesAfter after [] = tt
redact-HidesAfter false (part ∷ parts) =
    (λ e. absurd (ground arith), redact-HidesAfter (is_marker part) parts)
redact-HidesAfter true (part ∷ parts) = elim (Bool-cases (str_eq part "")) [
  | inl h ↦
      rw h (λ e. inl (ground (arith, eq_iff part "")), redact-HidesAfter (is_marker part) parts)
  | inr h ↦ rw h (λ e. inr refl, redact-HidesAfter false parts)
]

redact-Lacks :
    (after : Bool) (parts : List String)
    → All (Lacks slash) parts
    → All (Lacks slash) (redact after parts)
unfolding redact Lacks
redact-Lacks after [] h = tt
redact-Lacks false (part ∷ parts) (here, rest) = (here, redact-Lacks (is_marker part) parts rest)
redact-Lacks true (part ∷ parts) (here, rest) = elim (Bool-cases (str_eq part "")) [
  | inl h ↦ rw h (here, redact-Lacks (is_marker part) parts rest)
  | inr h ↦ rw h (
    (refl, (refl, (refl, (refl, (refl, (refl, (refl, (refl, (refl, (refl, tt)))))))))),
    redact-Lacks false parts rest,
  )
]

split-join-redact :
    (parts : List String)
    → (q : String) × (qs : List String) × (parts ≡ q ∷ qs)
    → All (Lacks slash) parts
    → split b'/' (join "/" (redact false parts)) ≡ redact false parts
unfolding redact
split-join-redact parts (q, qs, e) plain =
    subst (λ l. All (Lacks slash) l → split b'/' (join "/" (redact false l)) ≡ redact false l)
      (sym e)
      (λ plain. split-join slash q (redact (is_marker q) qs) (redact-Lacks false (q ∷ qs) plain))
      plain

sanitize_path_for_logs-HidesAfter :
    (path : String) → HidesAfter false (split b'/' (sanitize_path_for_logs path))
unfolding sanitize_path_for_logs HidesAfter split
sanitize_path_for_logs-HidesAfter path = elim (Bool-cases (str_eq path "")) [
  | inl h ↦ rw h (
      subst (λ p. HidesAfter false (split b'/' p)) (sym (empty_of h))
        (λ e. absurd (ground arith), tt))
  | inr h ↦ rw h (
      subst (HidesAfter false)
        (sym (
          split-join-redact (split b'/' path) (split_nonempty slash path) (split-Lacks slash path)))
        (redact-HidesAfter false (split b'/' path)))
]
  where
    empty_of : str_eq path "" ≡ true → path ≡ ""
    empty_of h = ground (arith, eq_iff path "")

redact_none :
    (parts : List String) → All (λ part. is_marker part ≡ false) parts → redact false parts ≡ parts
unfolding redact
redact_none [] h = refl
redact_none (part ∷ parts) (here, rest) =
    ap (λ after. part ∷ redact after parts) here ∙ ap (◌∷◌ part) (redact_none parts rest)

sanitize_path_for_logs-kept :
    (path : String)
    → All (λ part. is_marker part ≡ false) (split b'/' path)
    → sanitize_path_for_logs path ≡ path
unfolding sanitize_path_for_logs
sanitize_path_for_logs-kept path none_marked = elim (Bool-cases (str_eq path "")) [
  | inl h ↦ rw h
  | inr h ↦ rw h (ap (join "/") (redact_none (split b'/' path) none_marked) ∙ join-split slash path)
]

-- The words before a secret.
abbrev pub IsSecretWord : String → Type 0
IsSecretWord part = (part ≡ "share") ⊎ (part ≡ "shares") ⊎ (part ≡ "token")

-- The part after each such word is blank.
pub HidesSecrets : List String → Type 0
HidesSecrets [] = Unit
HidesSecrets (p ∷ []) = Unit
HidesSecrets (p ∷ q ∷ parts) = (IsSecretWord p → IsBlank q) × HidesSecrets (q ∷ parts)

is_marker_word : (part : String) → IsSecretWord part → is_marker part ≡ true
unfolding is_marker
is_marker_word part (inl e) = rw e
is_marker_word part (inr (inl e)) = rw e
is_marker_word part (inr (inr e)) = rw e

secret_word : (part : String) → is_marker part ≡ true → IsSecretWord part
unfolding is_marker
secret_word part h =
    ground (arith, h, eq_iff part "share", eq_iff part "shares", eq_iff part "token")

is_marker_other : (part : String) → ¬ IsSecretWord part → is_marker part ≡ false
is_marker_other part other = elim (Bool-cases (is_marker part)) [
  | inr h ↦ h
  | inl h ↦ absurd (other (secret_word part h))
]

HidesAfter-HidesSecrets :
    (after : Bool) (parts : List String) → HidesAfter after parts → HidesSecrets parts
unfolding HidesAfter HidesSecrets
HidesAfter-HidesSecrets after [] h = tt
HidesAfter-HidesSecrets after (p ∷ []) h = tt
HidesAfter-HidesSecrets after (p ∷ q ∷ parts) (here, rest) =
    (λ w. rest.0 (is_marker_word p w), HidesAfter-HidesSecrets (is_marker p) (q ∷ parts) rest)

no_markers :
    (parts : List String)
    → All (λ part. ¬ IsSecretWord part) parts
    → All (λ part. is_marker part ≡ false) parts
no_markers [] h = tt
no_markers (p ∷ parts) (here, rest) = (is_marker_other p here, no_markers parts rest)

-- In the path that is logged, the part after "share", "shares" or "token" is empty or "[REDACTED]", and
-- a path without these parts is logged as it is.
pub sanitize_path_for_logs-HidesSecrets :
    (path : String)
    → HidesSecrets (split b'/' (sanitize_path_for_logs path))
      × (All (λ part. ¬ IsSecretWord part) (split b'/' path) → sanitize_path_for_logs path ≡ path)
sanitize_path_for_logs-HidesSecrets path = (
  HidesAfter-HidesSecrets false (split b'/' (sanitize_path_for_logs path))
      (sanitize_path_for_logs-HidesAfter path),
  λ plain. sanitize_path_for_logs-kept path (no_markers (split b'/' path) plain),
)
