-- ===== src/Db/Follows/Laws.antt =====
-- backend/internal/db: what likes and follows leave in their tables, which have no pair twice.
use purp_tape.Base.{
  ◌≡◌, sym, ◌∙◌, inl, inr, Bool, Bool-cases, false, not, ◌&&◌, ◌||◌, String, List, [], ◌∷◌, arith,
  str_eq, eq_iff,
}
use purp_tape.Db.Follows.{has_pair, inserted_pair, deleted_pair}

abbrev pub same : String → String → String → String → Bool
same a b x y = str_eq a x && str_eq b y

-- After an insertion the table has the pair, and of the others what it had.
pub has_pair-inserted :
    (a b x y : String) (rows : List (String × String))
    → has_pair x y (inserted_pair a b rows) ≡ (same a b x y || has_pair x y rows)
unfolding has_pair inserted_pair
has_pair-inserted a b x y rows = elim (Bool-cases (has_pair a b rows)) [
  | inr new ↦ rw new
  | inl old ↦ rw old (elim (Bool-cases (same a b x y)) [
    | inr other ↦ rw other
    | inl it ↦
        let p : a ≡ x = ground (arith, it, eq_iff a x) in
        let q : b ≡ y = ground (arith, it, eq_iff b y) in rw it (rw (sym p, sym q) old)
  ])
]

pub has_pair-deleted :
    (a b x y : String) (rows : List (String × String))
    → has_pair x y (deleted_pair a b rows) ≡ (not (same a b x y) && has_pair x y rows)
unfolding has_pair deleted_pair
has_pair-deleted a b x y [] = ground arith
has_pair-deleted a b x y ((c, d) ∷ rows) =
    let ih = has_pair-deleted a b x y rows in
    ground (arith, ih, eq_iff c a, eq_iff d b, eq_iff c x, eq_iff d y, eq_iff a x, eq_iff b y)

-- No pair twice, and none of a user with himself.
abbrev pub IsDistinct : List (String × String) → Type 0
IsDistinct [] = Unit
IsDistinct ((a, b) ∷ rows) = (has_pair a b rows ≡ false) × IsDistinct rows

pub inserted_pair-IsDistinct :
    (a b : String) (rows : List (String × String))
    → IsDistinct rows
    → IsDistinct (inserted_pair a b rows)
unfolding inserted_pair
inserted_pair-IsDistinct a b rows h = elim (Bool-cases (has_pair a b rows)) [
  | inl old ↦ rw old h
  | inr new ↦ rw new (new, h)
]

pub deleted_pair-IsDistinct :
    (a b : String) (rows : List (String × String))
    → IsDistinct rows
    → IsDistinct (deleted_pair a b rows)
unfolding deleted_pair
deleted_pair-IsDistinct a b [] h = tt
deleted_pair-IsDistinct a b ((c, d) ∷ rows) (new, rest) =
    elim (Bool-cases (str_eq c a && str_eq d b)) [
      | inl it ↦ rw it (deleted_pair-IsDistinct a b rows rest)
      | inr other ↦ rw other (
        has_pair-deleted a b c d rows ∙ rw new (ground arith),
        deleted_pair-IsDistinct a b rows rest,
      )
    ]
