-- ===== src/Helpers/Validation/Laws.antt =====
-- The range of the parameters, and the fields that a list may be sorted by.
use Prim.Native.Char.{code}
use purp_tape.Base.{
  ◌≡◌, refl, subst, ◌≢◌, ◌↔◌, inl, inr, Bool, true, false, ◌||◌, String, Option, none, some, List,
  [], ◌∷◌, arith, eq_iff, eq_refl, ◌==◌, str_eq, if◌then◌else◌, Bool-cases,
}
use purp_tape.Base.Int.{ℤ, pos, negsuc, lt_int, le_int}
use purp_tape.Base.Numbers.{atoi}
use purp_tape.Helpers.Validation.{
  validate_and_parse_int, parameter, extract_pagination_params_validated, member,
  validate_sort_field, extract_sort_params, with_order,
}

-- A number that is not between 1 and 100.
abbrev pub OutOfRange : String → Type 0
OutOfRange text = (n : ℤ) × (atoi text ≡ some n) × ((lt_int n (pos 1) || lt_int (pos 100) n) ≡ true)

-- What the number in a parameter makes of its default.
chosen : ℤ → ℤ → ℤ → Option ℤ → ℤ
chosen default min max none = default
chosen default min max (some n) = if lt_int n min || lt_int max n then pos 0 else n

taken :
    (default min max : ℤ) (o : Option ℤ)
    → elim (elim o as (λ x. Option ℤ) [
      | none ↦ none
      | some num ↦ if lt_int num min || lt_int max num then some (pos 0) else some num
    ])
        as (λ x. ℤ) [ none ↦ default | some n ↦ n ]
      ≡ chosen default min max o
unfolding chosen
taken default min max none = refl
taken default min max (some n) = elim (Bool-cases (lt_int n min || lt_int max n)) [
  | inl h ↦ rw h refl
  | inr h ↦ rw h refl
]

parameter-chosen :
    (default min max : ℤ) (text : String)
    → parameter default text min max ≡ chosen default min max (atoi text)
unfolding parameter validate_and_parse_int chosen atoi
parameter-chosen default min max text = elim (Bool-cases (str_eq text "")) [
  | inl h ↦
      subst (λ t. parameter default t min max ≡ chosen default min max (atoi t)) (is_empty h)
        empty_parameter
  | inr h ↦ rw h (taken default min max (atoi text))
]
  where
    is_empty : str_eq text "" ≡ true → "" ≡ text
    is_empty h = ground (arith, eq_iff text "")

    empty_parameter : parameter default "" min max ≡ chosen default min max (atoi "")
    empty_parameter = refl

limit_range :
    (o : Option ℤ)
    → let r = chosen (pos 20) (pos 1) (pos 100) o in
      (le_int (pos 0) r ≡ true)
      × (le_int r (pos 100) ≡ true)
      × ((r ≡ pos 0) ↔ ((n : ℤ) × (o ≡ some n) × ((lt_int n (pos 1) || lt_int (pos 100) n) ≡ true)))
unfolding chosen
limit_range none = (refl, refl, (λ h. ground arith, λ p. ground arith))
limit_range (some n) = elim (Bool-cases (lt_int n (pos 1) || lt_int (pos 100) n)) [
  | inl h ↦ rw h (refl, refl, (λ e. (n, refl, h), λ p. refl))
  | inr h ↦
      rw h (from_one n h, to_hundred n h, (λ e. absurd (not_zero n h e), λ p. absurd (clash h p)))
]
  where
    from_one : (n : ℤ) → (lt_int n (pos 1) || lt_int (pos 100) n) ≡ false → le_int (pos 0) n ≡ true
    from_one (pos n) h = ground arith
    from_one (negsuc n) h = ground arith

    to_hundred :
        (n : ℤ) → (lt_int n (pos 1) || lt_int (pos 100) n) ≡ false → le_int n (pos 100) ≡ true
    to_hundred (pos n) h = ground arith
    to_hundred (negsuc n) h = ground arith

    not_zero : (n : ℤ) → (lt_int n (pos 1) || lt_int (pos 100) n) ≡ false → n ≢ pos 0
    not_zero n h e = ground arith

    clash :
        (lt_int n (pos 1) || lt_int (pos 100) n) ≡ false
        → ((m : ℤ) × (some n ≡ some m) × ((lt_int m (pos 1) || lt_int (pos 100) m) ≡ true))
        → ⊥
    clash h (m, e, out) = ground arith

offset_range :
    (o : Option ℤ)
    → let r = chosen (pos 0) (pos 0) (pos 999_999) o in
      (le_int (pos 0) r ≡ true) × (le_int r (pos 999_999) ≡ true)
unfolding chosen
offset_range none = ground arith
offset_range (some (pos n)) = ground arith
offset_range (some (negsuc n)) = ground arith

-- The offset is between 0 and 999999 and the limit between 0 and 100; the limit is 0, and not the
-- default of 20, exactly if the parameter is a number that is out of range.
pub extract_pagination_params_validated-range :
    (limit_text offset_text : String)
    → let r = extract_pagination_params_validated limit_text offset_text in
      (le_int (pos 0) r.1 ≡ true)
      × (le_int r.1 (pos 999_999) ≡ true)
      × (le_int (pos 0) r.0 ≡ true)
      × (le_int r.0 (pos 100) ≡ true)
      × ((r.0 ≡ pos 0) ↔ OutOfRange limit_text)
unfolding extract_pagination_params_validated
extract_pagination_params_validated-range limit_text offset_text =
    rw (parameter-chosen (pos 20) (pos 1) (pos 100) limit_text) (
      rw (parameter-chosen (pos 0) (pos 0) (pos 999_999) offset_text) (
        let l = limit_range (atoi limit_text) in
        let o = offset_range (atoi offset_text) in (o.0, o.1, l.0, l.1, l.2)))

validate_sort_field-member :
    (field : String) (allowed : List String) (result : String)
    → validate_sort_field field allowed ≡ some result
    → member result allowed ≡ true
unfolding validate_sort_field member
validate_sort_field-member field [] result h = ground arith
validate_sort_field-member field (a ∷ allowed) result h = ground (arith, eq_refl a)

with_order-some :
    (desc desc' : Bool) (o : Option String) (field : String)
    → with_order desc o ≡ some (field, desc')
    → o ≡ some field
unfolding with_order
with_order-some desc desc' none field h = ground arith
with_order-some desc desc' (some f) field h = ground arith

-- The field to sort by is one of the allowed ones, whatever the parameter says, as long as the
-- default is one of them.
pub extract_sort_params-member :
    (text default_sort : String) (allowed : List String) (field : String) (desc : Bool)
    → member default_sort allowed ≡ true
    → extract_sort_params text default_sort allowed ≡ some (field, desc)
    → member field allowed ≡ true
unfolding extract_sort_params
extract_sort_params-member String.[] default_sort allowed field desc h e =
    subst (λ f. member f allowed ≡ true) (ground arith) h
extract_sort_params-member (String.◌∷◌ c s) default_sort allowed field desc h e =
    elim (Bool-cases (code c == b'-')) [
      | inl d ↦
          validate_sort_field-member s allowed field
            (with_order-some true desc _ field (ground arith))
      | inr d ↦
          validate_sort_field-member (String.◌∷◌ c s) allowed field
            (with_order-some false desc _ field (ground arith))
    ]
