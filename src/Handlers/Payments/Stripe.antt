-- ===== src/Handlers/Payments/Stripe.antt =====
-- backend/internal/handlers/payments_stripe.go: the webhook of Stripe. Its library verifies and reads
-- an event; strings.ToLower is an argument.
pub mod Settled
pub mod Laws
use purp_tape.Base.{
  ℕ, Bool, true, false, not, ◌&&◌, String, Option, none, some, List, [], ◌∷◌, str_eq, if◌then◌else◌,
  Dict,
}
use purp_tape.Base.Text.{trim_space}
use purp_tape.Http.{Request, Answer, refused, done}
use purp_tape.Db.{Database, DbResult, ok, failed}
use purp_tape.Db.Subscriptions.{
  Subscription, Payment, get_user_by_stripe_customer_id, get_user_by_stripe_subscription_id,
}
use purp_tape.Handlers.Payments.{pay}

-- event.Data.Object: a field that is missing reads "".
pub record StripeObject : Type 0 where
  pub customer : String
  pub id : String
  pub status : String
  pub metadata : Option (Dict String)

-- `object` is `none` where it is nil.
pub record StripeEvent : Type 0 where
  pub event_type : String
  pub object : Option StripeObject

unfoldable pub metadata_text : String → Option (Dict String) → Option String
metadata_text key none = none
metadata_text key (some m) = m key

pub trimmed : Option String → String
trimmed none = ""
trimmed (some v) = trim_space v

unfoldable pub or_pro : String → String
or_pro candidate = if str_eq candidate "" then "pro" else candidate

module _ (to_lower : String → String) where
  unfoldable pub tier_of : Option String → String
  unfolding or_pro
  tier_of none = "pro"
  tier_of (some v) = or_pro (trim_space (to_lower v))

-- The id of the user that a query found, "" for no user; `none` is its error.
pub id_of : DbResult (Option String) → Option String
id_of failed = none
id_of (ok none) = some ""
id_of (ok (some user_id)) = some user_id

-- The payment of a user who is known.
pub paid_by : Option String → (String → Payment) → Option Payment
paid_by none payment = none
paid_by (some user_id) payment = if str_eq user_id "" then none else some (payment user_id)

pub created_payment : (String → String) → ℕ → StripeObject → String → Payment
unfolding tier_of metadata_text
created_payment to_lower now o user_id = record {
  user_id = user_id;
  is_premium = true;
  tier = tier_of to_lower (metadata_text "tier_id" o.metadata);
  stripe_customer_id = o.customer;
  stripe_subscription_id = o.id;
  purchase_date = some now;
  canceled_at = none;
}

-- isPremium
unfoldable pub is_active : String → Bool
is_active status =
    not (str_eq status "canceled")
    && not (str_eq status "unpaid")
    && not (str_eq status "incomplete_expired")

pub canceled_payment : ℕ → StripeObject → String → Payment
canceled_payment now o user_id = record {
  user_id = user_id;
  is_premium = false;
  tier = "free";
  stripe_customer_id = o.customer;
  stripe_subscription_id = o.id;
  purchase_date = none;
  canceled_at = some now;
}

pub active_payment : (String → String) → StripeObject → String → Payment
unfolding tier_of metadata_text
active_payment to_lower o user_id = record {
  user_id = user_id;
  is_premium = true;
  tier = tier_of to_lower (metadata_text "tier_id" o.metadata);
  stripe_customer_id = o.customer;
  stripe_subscription_id = o.id;
  purchase_date = none;
  canceled_at = none;
}

pub updated_payment : (String → String) → ℕ → StripeObject → String → Payment
unfolding is_active canceled_payment active_payment
updated_payment to_lower now o user_id =
    if is_active o.status then active_payment to_lower o user_id else canceled_payment now o user_id

module _ (db : Database) (table : List Subscription) where
  -- Where no user is known yet, the user of the customer.
  pub or_customer : String → Option String → Option String
  unfolding id_of
  or_customer customer none = none
  or_customer customer (some user_id) =
      if str_eq user_id "" && not (str_eq customer "")
      then id_of (get_user_by_stripe_customer_id db customer table)
      else some user_id

  pub handle_subscription_created : (String → String) → ℕ → Option StripeObject → Option Payment
  unfolding or_customer paid_by created_payment trimmed metadata_text
  handle_subscription_created to_lower now none = none
  handle_subscription_created to_lower now (some o) =
      paid_by (or_customer o.customer (some (trimmed (metadata_text "user_id" o.metadata))))
        (created_payment to_lower now o)

  -- The user of the subscription, or of the customer.
  pub user_of : StripeObject → Option String
  unfolding or_customer id_of
  user_of o = or_customer o.customer (id_of (get_user_by_stripe_subscription_id db o.id table))

  pub handle_subscription_updated : (String → String) → ℕ → Option StripeObject → Option Payment
  unfolding user_of paid_by updated_payment
  handle_subscription_updated to_lower now none = none
  handle_subscription_updated to_lower now (some o) =
      paid_by (user_of o) (updated_payment to_lower now o)

  pub handle_subscription_deleted : ℕ → Option StripeObject → Option Payment
  unfolding user_of paid_by canceled_payment
  handle_subscription_deleted now none = none
  handle_subscription_deleted now (some o) = paid_by (user_of o) (canceled_payment now o)

  -- The switch over the type.
  pub payment_of : (String → String) → ℕ → StripeEvent → Option Payment
  unfolding handle_subscription_created handle_subscription_updated handle_subscription_deleted
  payment_of to_lower now event =
      if str_eq event.event_type "customer.subscription.created"
      then handle_subscription_created to_lower now event.object
      else if str_eq event.event_type "customer.subscription.updated"
      then handle_subscription_updated to_lower now event.object
      else if str_eq event.event_type "customer.subscription.deleted"
      then handle_subscription_deleted now event.object
      else none

module _ (to_lower : String → String)
    (construct_event : String → String → String → Option StripeEvent) where
  pub received :
      Database
      → Bool
      → ℕ
      → List Subscription
      → Option StripeEvent
      → List Subscription × Answer String
  unfolding payment_of
  received db reached now table none = (table, refused [] 400 "invalid signature")
  received db reached now table (some event) =
      (pay reached (payment_of db table to_lower now event) table, done 200 "received")

  -- `endpoint_secret` is the environment variable, and `body` is `none` where reading it fails.
  pub stripe_webhook :
      Database
      → Bool
      → ℕ
      → (endpoint_secret : String) → Request
      → Option String
      → List Subscription
      → List Subscription × Answer String
  unfolding received
  stripe_webhook db reached now endpoint_secret r none table =
      (table, refused [] (if str_eq endpoint_secret "" then 500 else 400) "")
  stripe_webhook db reached now endpoint_secret r (some body) table =
      if str_eq endpoint_secret ""
      then (table, refused [] 500 "")
      else received db reached now table
          (construct_event body (r.header "Stripe-Signature") endpoint_secret)
