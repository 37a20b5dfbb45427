-- ===== src/Base/Text.antt =====
-- What the program uses of Go's `strings` and `net` packages, on valid UTF-8 text. A character is
-- tested by its code point; `len` counts bytes, as Go's does.
pub mod Join
use Prim.Native.Char.{Char, code}
use Prim.Native.String
use Prim.Native.String.{String}
use purp_tape.Base.Tests.{◌==◌, leb, ltb, str_eq, if◌then◌else◌}
use Prim.Native.Nat.{ℕ, zero, suc, ◌+◌, ◌/◌, ◌%◌}
use mathlib.Core.Path.{◌≡◌, refl}
use mathlib.Core.Bool.{Bool, true, false, not, ◌&&◌, ◌||◌}
use mathlib.Core.Option
use mathlib.Core.Option.{Option, none, some}
use mathlib.Core.List.{List, [], ◌∷◌}

-- Bytes of the UTF-8 encoding of a code point.
abbrev width : ℕ → ℕ
width c = if ltb c 0x80 then 1 else if ltb c 0x800 then 2 else if ltb c 0x10000 then 3 else 4

unfoldable pub len : String → ℕ
len String.[] = 0
len (String.◌∷◌ c s) = width (code c) + len s

-- unicode.IsSpace
unfoldable pub is_space : ℕ → Bool
is_space c =
    (leb 9 c && leb c 13)
    || c == 32
    || c == 0x85
    || c == 0xA0
    || c == 0x1680
    || (leb 0x2000 c && leb c 0x200a)
    || c == 0x2028
    || c == 0x2029
    || c == 0x202f
    || c == 0x205f
    || c == 0x3000

unfoldable pub trim_left : String → String
unfolding is_space
trim_left String.[] = String.[]
trim_left (String.◌∷◌ c s) =
    let rest = trim_left s in if is_space (code c) then rest else String.◌∷◌ c s

-- Drops a character at the end if it is a space and only spaces follow it.
trim_right_cons : Char → String → String
trim_right_cons c String.[] = if is_space (code c) then String.[] else String.◌∷◌ c String.[]
trim_right_cons c (String.◌∷◌ d s) = String.◌∷◌ c (String.◌∷◌ d s)

unfoldable pub trim_right : String → String
unfolding trim_right_cons is_space
trim_right String.[] = String.[]
trim_right (String.◌∷◌ c s) = trim_right_cons c (trim_right s)

-- strings.TrimSpace
unfoldable pub trim_space : String → String
unfolding trim_left trim_right
trim_space s = trim_right (trim_left s)

-- Whether a one-byte character occurs: strings.Contains, bytealg.IndexByteString(s, c) >= 0.
unfoldable pub contains_char : ℕ → String → Bool
contains_char c String.[] = false
contains_char c (String.◌∷◌ d s) = code d == c || contains_char c s

-- What stands before the first character `c`, and from it on.
unfoldable pub cut_first : ℕ → String → Option (String × String)
cut_first c String.[] = none
cut_first c (String.◌∷◌ d s) =
    if code d == c
    then some (String.[], String.◌∷◌ d s)
    else Option.map (λ (p : String × String). (String.◌∷◌ d p.0, p.1)) (cut_first c s)

-- What stands before the last character `c`, and behind it.
cut_last_cons : ℕ → Char → String → Option (String × String) → Option (String × String)
cut_last_cons c d s none = if code d == c then some (String.[], s) else none
cut_last_cons c d s (some (before, after)) = some (String.◌∷◌ d before, after)

unfoldable pub cut_last : ℕ → String → Option (String × String)
unfolding cut_last_cons
cut_last c String.[] = none
cut_last c (String.◌∷◌ d s) = cut_last_cons c d s (cut_last c s)

-- strings.Split(s, c) for a separator of one character: never the empty list.
split_cons : ℕ → Char → List String → List String
split_cons c d [] = []
split_cons c d (p ∷ ps) = if code d == c then "" ∷ p ∷ ps else String.◌∷◌ d p ∷ ps

unfoldable pub split : ℕ → String → List String
unfolding split_cons
split c String.[] = "" ∷ []
split c (String.◌∷◌ d s) = split_cons c d (split c s)

-- strings.Join(parts, s) for a separator s.
unfoldable pub join : String → List String → String
join sep [] = ""
join sep (p ∷ []) = p
join sep (p ∷ q ∷ ps) = String.◌++◌ p (String.◌++◌ sep (join sep (q ∷ ps)))

-- strings.HasPrefix(t, p) and strings.TrimPrefix(t, p): what follows the prefix, if t starts with it.
unfoldable pub cut_prefix : String → String → Option String
cut_prefix String.[] t = some t
cut_prefix (String.◌∷◌ c p) String.[] = none
cut_prefix (String.◌∷◌ c p) (String.◌∷◌ d t) = if code c == code d then cut_prefix p t else none

-- strings.Contains(t, s)
unfoldable pub contains_text : String → String → Bool
unfolding cut_prefix
contains_text s String.[] = elim (cut_prefix s "") [ none ↦ false | some rest ↦ true ]
contains_text s (String.◌∷◌ c t) =
    let later = contains_text s t in
    elim (cut_prefix s (String.◌∷◌ c t)) [ none ↦ later | some rest ↦ true ]

abbrev tail : String → String
tail String.[] = String.[]
tail (String.◌∷◌ c s) = s

-- The host of an address in brackets, `[host]:port`, whose part before the last colon is `before`.
bracketed_host : String → String → Option String
bracketed_host hostport before = elim (cut_first b']' hostport) [
  | none ↦ none
  | some (front, back) ↦
      if not (str_eq (String.◌++◌ front "]") before)
      then none
      else if contains_char b'[' (tail hostport) || contains_char b']' (tail back)
      then none
      else some (tail front)
]

plain_host : String → String → Option String
plain_host hostport before =
    if contains_char b':' before || contains_char b'[' hostport || contains_char b']' hostport
    then none
    else some before

abbrev opens_bracket : String → Bool
opens_bracket String.[] = false
opens_bracket (String.◌∷◌ c s) = code c == b'['

-- The host that net.SplitHostPort finds; `none` is its error.
unfoldable pub split_host_port : String → Option String
unfolding bracketed_host plain_host cut_first cut_last contains_char
split_host_port hostport = elim (cut_last b':' hostport) [
  | none ↦ none
  | some (before, port) ↦
      if opens_bracket hostport then bracketed_host hostport before else plain_host hostport before
]

digit : ℕ → String
digit n =
    if n == 0
    then "0"
    else if n == 1
    then "1"
    else if n == 2
    then "2"
    else if n == 3
    then "3"
    else if n == 4
    then "4"
    else if n == 5
    then "5"
    else if n == 6
    then "6"
    else if n == 7
    then "7"
    else if n == 8
    then "8"
    else "9"

-- The number has at most as many digits as the fuel.
decimal_from : ℕ → ℕ → String
decimal_from zero n = ""
decimal_from (suc fuel) n =
    let front = decimal_from fuel (n / 10) in
    if ltb n 10 then digit n else String.◌++◌ front (digit (n % 10))

-- A natural number in decimal digits, as %d and %.0f print it.
unfoldable pub decimal : ℕ → String
unfolding decimal_from digit
decimal n = decimal_from (suc n) n

text_tests :
    (split_host_port "10.0.0.7:5123" ≡ some "10.0.0.7")
    × (split_host_port "[::1]:80" ≡ some "::1")
    × (split_host_port "[::1]" ≡ none)
    × (split_host_port "::1" ≡ none)
    × (split b',' "a,,b" ≡ "a" ∷ "" ∷ "b" ∷ [])
    × (trim_space "  a b  " ≡ "a b")
    × (len "é1" ≡ 3)
    × (decimal 3600 ≡ "3600")
unfolding split_host_port split trim_space len decimal
text_tests = (refl, refl, refl, refl, refl, refl, refl, refl)
