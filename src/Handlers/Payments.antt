-- ===== src/Handlers/Payments.antt =====
-- backend/internal/handlers/payments_stripe.go and payments_revenuecat.go: the webhooks of the payment
-- providers. An event is turned into a payment, if it is one, and the payment is written; `reached`
-- says whether the write is executed. Of a JSON object the fields that are texts are kept.
pub mod Stripe
pub mod RevenueCat
pub mod Entitlements
pub mod Runs
mod Tests
use purp_tape.Base.{Bool, Option, none, some, List}
use purp_tape.Db.Subscriptions.{Subscription, Payment, upsert_subscription_from_payment}

-- After an error of the write, which is logged, the table is as before.
unfoldable pub written : Bool → Payment → List Subscription → List Subscription
written reached p table = elim (upsert_subscription_from_payment reached p table) [
  | none ↦ table
  | some table' ↦ table'
]

unfoldable pub pay : Bool → Option Payment → List Subscription → List Subscription
unfolding written
pay reached none table = table
pay reached (some p) table = written reached p table
