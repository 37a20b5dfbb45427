-- ===== src/Handlers/Payments/Runs.antt =====
-- Both webhooks of backend/internal/handlers on one table of subscriptions: what any deliveries leave.
use purp_tape.Base.{sym, subst, ℕ, Bool, String, Option, List, [], Dict}
use purp_tape.Http.{Request}
use purp_tape.Db.{Database}
use purp_tape.Db.Subscriptions.{Subscription, Payment}
use purp_tape.Handlers.Payments.Entitlements.{IsSound, IsSettledPayment, pay-IsSound}
use purp_tape.Handlers.Payments.{pay}
use purp_tape.Handlers.Payments.Stripe.{StripeEvent, stripe_webhook}
use purp_tape.Handlers.Payments.Stripe.Laws.{stripe_webhook-pay}
use purp_tape.Handlers.Payments.RevenueCat.{SignatureLibrary, revenue_cat_webhook}
use purp_tape.Handlers.Payments.RevenueCat.Laws.{revenue_cat_webhook-pay}

module _ (to_lower : String → String)
    (construct_event : String → String → String → Option StripeEvent) (lib : SignatureLibrary)
    (unmarshal : String → Option (Option (Dict String))) where
  -- A table that a run of deliveries leaves, each with its secret, its time, and what became of its write.
  pub data IsReachable : List Subscription → Type 0 where
    empty_table : IsReachable []
    by_stripe :
        (table : List Subscription) (db : Database) (reached : Bool) (now : ℕ)
        (endpoint_secret : String) (r : Request) (body : Option String)
        → IsReachable table
        → IsReachable
            (stripe_webhook to_lower construct_event db reached now endpoint_secret r body table).0
    by_revenue_cat :
        (table : List Subscription) (reached : Bool) (now : ℕ) (endpoint_secret : String)
        (r : Request) (body : Option String)
        → IsReachable table
        → IsReachable
            (revenue_cat_webhook to_lower lib unmarshal reached now endpoint_secret r body table).0

  -- What holds of the empty table, and after a payment of the webhooks if before, holds of all of these.
  pub IsReachable_ind :
      (P : List Subscription → Type 0)
      → P []
      → ((reached : Bool) (p : Option Payment) (table : List Subscription)
          → IsSettledPayment p
          → P table
          → P (pay reached p table))
      → (table : List Subscription) → IsReachable table
      → P table
  IsReachable_ind P base step _ empty_table = base
  IsReachable_ind P base step _ (by_stripe table db reached now endpoint_secret r body run) =
      let (p, settled, e) =
        stripe_webhook-pay to_lower construct_event db reached now endpoint_secret r body table in
      subst P (sym e) (step reached p table settled (IsReachable_ind P base step table run))
  IsReachable_ind P base step _ (by_revenue_cat table reached now endpoint_secret r body run) =
      let (p, settled, e) =
        revenue_cat_webhook-pay to_lower lib unmarshal reached now endpoint_secret r body table in
      subst P (sym e) (step reached p table settled (IsReachable_ind P base step table run))

  -- Whatever the webhooks receive, each user has one row, and a row is premium without a date of
  -- cancellation, or not premium, of the free tier, with such a date.
  pub IsReachable-IsSound : (table : List Subscription) → IsReachable table → IsSound table
  IsReachable-IsSound = IsReachable_ind IsSound (record { unique = tt; settled = tt }) pay-IsSound
