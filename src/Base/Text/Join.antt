-- ===== src/Base/Text/Join.antt =====
-- A text that is split at a character and joined again is the same.
use Prim.Native.Char.{Char, code}
use Prim.Native.String
use Prim.Native.String.append
use Prim.Native.String.{String}
use mathlib.Core.Bool.{false}
use mathlib.Core.List.{List, [], ◌∷◌}
use purp_tape.Base.Lists.{All}
use mathlib.Core.Path.{◌≡◌, refl, sym, ap, ◌∙◌}
use mathlib.Core.Logic.{inl, inr}
use text.Mathlib.TextEquality.{Char-path}
use purp_tape.Base.Tests.{◌==◌, Bool-cases, ==_iff}
use purp_tape.Base.Text.{split, join, split_cons}

module _ (sep : Char) where
  sep-append : (t : String) → String.◌++◌ "" (String.◌++◌ (String.◌∷◌ sep "") t) ≡ String.◌∷◌ sep t
  sep-append t =
      (λ i. append.nil (String.◌++◌ (String.◌∷◌ sep "") t) i)
      ∙ (λ i. append.cons sep "" t i)
      ∙ ap (String.◌∷◌ sep) (λ i. append.nil t i)

  join-sep : (d : Char) (t : String) → code d ≡ code sep → String.◌∷◌ sep t ≡ String.◌∷◌ d t
  join-sep d t h = ap (λ c. String.◌∷◌ c t) (sym (Char-path d sep h))

  join-cons :
      (d : Char) (p : String) (ps : List String)
      → join (String.◌∷◌ sep "") (String.◌∷◌ d p ∷ ps)
        ≡ String.◌∷◌ d (join (String.◌∷◌ sep "") (p ∷ ps))
  unfolding join
  join-cons d p [] = refl
  join-cons d p (q ∷ ps) =
      λ i. append.cons d p (String.◌++◌ (String.◌∷◌ sep "") (join (String.◌∷◌ sep "") (q ∷ ps))) i

  split_cons-join :
      (d : Char) (p : String) (ps : List String)
      → join (String.◌∷◌ sep "") (split_cons (code sep) d (p ∷ ps))
        ≡ String.◌∷◌ d (join (String.◌∷◌ sep "") (p ∷ ps))
  unfolding join split_cons
  split_cons-join d p ps = elim (Bool-cases (code d == code sep)) [
    | inl h ↦ rw h (
        sep-append (join (String.◌∷◌ sep "") (p ∷ ps))
        ∙ join-sep d (join (String.◌∷◌ sep "") (p ∷ ps)) ((==_iff (code d) (code sep)).0 h))
    | inr h ↦ rw h (join-cons d p ps)
  ]

  -- Some list of one part or more.
  nonempty :
      (d : Char) (l : List String)
      → (q : String) × (qs : List String) × (l ≡ q ∷ qs)
      → (q : String) × (qs : List String) × (split_cons (code sep) d l ≡ q ∷ qs)
  unfolding split_cons
  nonempty d l (q, qs, e) = elim (Bool-cases (code d == code sep)) [
    | inl h ↦ ("", q ∷ qs, rw (e, h))
    | inr h ↦ (String.◌∷◌ d q, qs, rw (e, h))
  ]

  pub split_nonempty :
      (s : String) → (q : String) × (qs : List String) × (split (code sep) s ≡ q ∷ qs)
  unfolding split
  split_nonempty String.[] = ("", [], refl)
  split_nonempty (String.◌∷◌ d s) = nonempty d (split (code sep) s) (split_nonempty s)

  pub join-split : (s : String) → join (String.◌∷◌ sep "") (split (code sep) s) ≡ s
  unfolding join split
  join-split String.[] = refl
  join-split (String.◌∷◌ d s) =
      let parts = split_nonempty s in
      ap (λ l. join (String.◌∷◌ sep "") (split_cons (code sep) d l)) parts.2
      ∙ split_cons-join d parts.0 parts.1
      ∙ ap (String.◌∷◌ d) (ap (join (String.◌∷◌ sep "")) (sym parts.2) ∙ join-split s)

  -- A text without the separator.
  unfoldable pub Lacks : String → Type 0
  Lacks String.[] = Unit
  Lacks (String.◌∷◌ d s) = ((code d == code sep) ≡ false) × Lacks s

  split_plain : (p : String) → Lacks p → split (code sep) p ≡ p ∷ []
  unfolding split split_cons Lacks
  split_plain String.[] h = refl
  split_plain (String.◌∷◌ d p) (here, rest) = rw (split_plain p rest, here)

  split_before :
      (p t : String)
      → Lacks p
      → split (code sep) (String.◌++◌ p (String.◌++◌ (String.◌∷◌ sep "") t))
        ≡ p ∷ split (code sep) t
  unfolding split split_cons Lacks
  split_before String.[] t h =
      let parts = split_nonempty t in
      let self = (==_iff (code sep) (code sep)).1 refl in
      ap (split (code sep)) (sep-append t)
      ∙ ap (split_cons (code sep) sep) parts.2
      ∙ rw (self, sym parts.2)
  split_before (String.◌∷◌ d p) t (here, rest) =
      ap (split (code sep)) (λ i. append.cons d p (String.◌++◌ (String.◌∷◌ sep "") t) i)
      ∙ ap (split_cons (code sep) d) (split_before p t rest)
      ∙ rw here

  pub split-join :
      (p : String) (ps : List String)
      → All Lacks (p ∷ ps)
      → split (code sep) (join (String.◌∷◌ sep "") (p ∷ ps)) ≡ p ∷ ps
  unfolding join
  split-join p [] (here, rest) = split_plain p here
  split-join p (q ∷ ps) (here, rest) =
      split_before p (join (String.◌∷◌ sep "") (q ∷ ps)) here ∙ ap (◌∷◌ p) (split-join q ps rest)

  split_cons-Lacks :
      (d : Char) (l : List String) → All Lacks l → All Lacks (split_cons (code sep) d l)
  unfolding split_cons Lacks
  split_cons-Lacks d [] h = h
  split_cons-Lacks d (p ∷ ps) (here, rest) = elim (Bool-cases (code d == code sep)) [
    | inl h ↦ rw h (tt, (here, rest))
    | inr h ↦ rw h ((h, here), rest)
  ]

  pub split-Lacks : (s : String) → All Lacks (split (code sep) s)
  unfolding split Lacks
  split-Lacks String.[] = (tt, tt)
  split-Lacks (String.◌∷◌ d s) = split_cons-Lacks d (split (code sep) s) (split-Lacks s)
