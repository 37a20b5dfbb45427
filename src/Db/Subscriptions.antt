-- ===== src/Db/Subscriptions.antt =====
-- The subscriptions queries of backend/internal/db/queries_phase2.go and queries_access.go. user_id
-- is unique and references a user, so that the joins with users keep each row; a query with LIMIT 1
-- takes the first row of the table. Times are nanoseconds; created_at and updated_at, which nothing
-- reads, are left out.
pub mod Laws
use purp_tape.Base.{
  ℕ, Bool, true, false, String, Option, none, some, List, [], ◌∷◌, str_eq, if◌then◌else◌,
}
use purp_tape.Db.{Database, DbResult, ok, failed, row_or_nil, user_row}

pub record Subscription : Type 0 where
  pub user_id : String
  pub is_premium : Bool
  pub tier : String
  pub storage_quota_mb : ℕ
  pub storage_used_mb : ℕ
  pub stripe_customer_id : Option String
  pub stripe_subscription_id : Option String
  pub purchase_date : Option ℕ
  pub canceled_at : Option ℕ

-- NULLIF(s, '')
unfoldable pub null_if_empty : String → Option String
null_if_empty s = if str_eq s "" then none else some s

-- COALESCE(new, old)
abbrev pub coalesce : {A : Type 0} → Option A → Option A → Option A
coalesce none old = old
coalesce (some new) old = some new

-- What a payment says of a user.
pub record Payment : Type 0 where
  pub user_id : String
  pub is_premium : Bool
  pub tier : String
  pub stripe_customer_id : String
  pub stripe_subscription_id : String
  pub purchase_date : Option ℕ
  pub canceled_at : Option ℕ

-- The VALUES of the INSERT, and the defaults of the other columns.
unfoldable pub inserted : Payment → Subscription
unfolding null_if_empty
inserted p = record {
  user_id = p.user_id;
  is_premium = p.is_premium;
  tier = p.tier;
  storage_quota_mb = 10_240;
  storage_used_mb = 0;
  stripe_customer_id = null_if_empty p.stripe_customer_id;
  stripe_subscription_id = null_if_empty p.stripe_subscription_id;
  purchase_date = p.purchase_date;
  canceled_at = p.canceled_at;
}

-- ON CONFLICT (user_id) DO UPDATE SET …
unfoldable pub merged : Subscription → Payment → Subscription
unfolding null_if_empty
merged s p = record {
  user_id = s.user_id;
  is_premium = p.is_premium;
  tier = p.tier;
  storage_quota_mb = s.storage_quota_mb;
  storage_used_mb = s.storage_used_mb;
  stripe_customer_id = coalesce (null_if_empty p.stripe_customer_id) s.stripe_customer_id;
  stripe_subscription_id =
      coalesce (null_if_empty p.stripe_subscription_id) s.stripe_subscription_id;
  purchase_date = coalesce p.purchase_date s.purchase_date;
  canceled_at = p.canceled_at;
}

unfoldable pub upsert : Payment → List Subscription → List Subscription
unfolding inserted merged
upsert p [] = inserted p ∷ []
upsert p (s ∷ table) = if str_eq s.user_id p.user_id then merged s p ∷ table else s ∷ upsert p table

-- `none` is the error.
unfoldable pub upsert_subscription_from_payment :
    Bool → Payment → List Subscription → Option (List Subscription)
unfolding upsert
upsert_subscription_from_payment reached p table = if reached then some (upsert p table) else none

-- WHERE s.user_id = …
unfoldable pub find_subscription : String → List Subscription → Option Subscription
find_subscription user_id [] = none
find_subscription user_id (s ∷ table) =
    if str_eq s.user_id user_id then some s else find_subscription user_id table

-- An id equals a column: NULL equals nothing.
abbrev pub column_eq : Option String → String → Bool
column_eq none id = false
column_eq (some c) id = str_eq c id

-- The user of the first row with the customer, or the subscription.
user_of_customer : String → List Subscription → Option String
user_of_customer customer_id [] = none
user_of_customer customer_id (s ∷ table) =
    if column_eq s.stripe_customer_id customer_id
    then some s.user_id
    else user_of_customer customer_id table

user_of_subscription : String → List Subscription → Option String
user_of_subscription subscription_id [] = none
user_of_subscription subscription_id (s ∷ table) =
    if column_eq s.stripe_subscription_id subscription_id
    then some s.user_id
    else user_of_subscription subscription_id table

-- The id of the user; `ok none` is no user and no error.
unfoldable pub get_user_by_stripe_customer_id :
    Database → String → List Subscription → DbResult (Option String)
unfolding user_of_customer user_row
get_user_by_stripe_customer_id db customer_id table =
    if db.available then user_row db (user_of_customer customer_id table) else failed

unfoldable pub get_user_by_stripe_subscription_id :
    Database → String → List Subscription → DbResult (Option String)
unfolding user_of_subscription user_row
get_user_by_stripe_subscription_id db subscription_id table =
    if db.available then user_row db (user_of_subscription subscription_id table) else failed

-- What the source keeps in a map: the tier, and the storage in MiB.
pub record Plan : Type 0 where
  pub tier : String
  pub storage_quota_mb : ℕ
  pub storage_used_mb : ℕ

plan_of : Database → Option Subscription → DbResult Plan
plan_of db none =
    if db.no_rows_is_sql
    then ok (record { tier = "free"; storage_quota_mb = 1024; storage_used_mb = 0 })
    else failed
plan_of db (some s) = ok (record {
  tier = s.tier;
  storage_quota_mb = s.storage_quota_mb;
  storage_used_mb = s.storage_used_mb;
})

unfoldable pub get_user_subscription : Database → String → List Subscription → DbResult Plan
unfolding plan_of
get_user_subscription db user_id table =
    if db.available then plan_of db (find_subscription user_id table) else failed
