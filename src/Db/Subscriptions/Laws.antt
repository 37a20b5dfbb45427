-- ===== src/Db/Subscriptions/Laws.antt =====
-- What a read of the subscriptions returns after a payment.
use purp_tape.Base.{
  ◌≡◌, refl, ◌≢◌, inl, inr, Bool-cases, false, String, Option, none, some, List, [], ◌∷◌, All,
  arith, str_eq, if◌then◌else◌, eq_iff,
}
use purp_tape.Db.{Database, failed, user_row}
use purp_tape.Db.Subscriptions.{
  Subscription, Payment, inserted, merged, upsert, find_subscription, column_eq,
  user_of_subscription, get_user_by_stripe_subscription_id,
}

-- The row of a user after a payment.
abbrev pub paid : Payment → Option Subscription → Subscription
paid p none = inserted p
paid p (some s) = merged s p

pub find_subscription-upsert :
    (user_id : String) (p : Payment) (table : List Subscription)
    → find_subscription user_id (upsert p table) ≡ (
        if str_eq p.user_id user_id
        then some (paid p (find_subscription p.user_id table))
        else find_subscription user_id table)
unfolding find_subscription upsert inserted merged
find_subscription-upsert user_id p [] = refl
find_subscription-upsert user_id p (s ∷ table) = ground (
  arith,
  eq_iff s.user_id p.user_id,
  eq_iff s.user_id user_id,
  eq_iff p.user_id user_id,
  find_subscription-upsert user_id p table,
)

-- The rows have distinct users.
abbrev pub IsUnique : List Subscription → Type 0
IsUnique [] = Unit
IsUnique (s ∷ table) = All (λ t. t.user_id ≢ s.user_id) table × IsUnique table

upsert-others :
    (user_id : String) (p : Payment) (table : List Subscription)
    → p.user_id ≢ user_id
    → All (λ t. t.user_id ≢ user_id) table
    → All (λ t. t.user_id ≢ user_id) (upsert p table)
unfolding upsert inserted merged
upsert-others user_id p [] n h = (n, tt)
upsert-others user_id p (s ∷ table) n (here, rest) =
    ground (arith, upsert-others user_id p table n rest)

pub upsert-IsUnique :
    (p : Payment) (table : List Subscription) → IsUnique table → IsUnique (upsert p table)
unfolding upsert inserted merged
upsert-IsUnique p [] u = (tt, tt)
upsert-IsUnique p (s ∷ table) (here, rest) = ground (
  arith,
  eq_iff s.user_id p.user_id,
  upsert-others s.user_id p table,
  upsert-IsUnique p table rest,
)

user_of_subscription-none :
    (subscription_id : String) (table : List Subscription)
    → All (λ s. column_eq s.stripe_subscription_id subscription_id ≡ false) table
    → user_of_subscription subscription_id table ≡ none
unfolding user_of_subscription
user_of_subscription-none subscription_id [] h = refl
user_of_subscription-none subscription_id (s ∷ table) (here, rest) =
    rw here (user_of_subscription-none subscription_id table rest)

-- A subscription without a row is an error where the driver's error for no row is another one than
-- the query compares with.
pub get_user_by_stripe_subscription_id-failed :
    (db : Database) (subscription_id : String) (table : List Subscription)
    → db.no_rows_is_sql ≡ false
    → All (λ s. column_eq s.stripe_subscription_id subscription_id ≡ false) table
    → get_user_by_stripe_subscription_id db subscription_id table ≡ failed
unfolding get_user_by_stripe_subscription_id user_row
get_user_by_stripe_subscription_id-failed db subscription_id table n h =
    elim (Bool-cases db.available) [
      | inl a ↦ rw (a, user_of_subscription-none subscription_id table h, n)
      | inr a ↦ rw a
    ]
