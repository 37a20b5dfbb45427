-- ===== src/Handlers/Payments/Stripe/Settled.antt =====
-- backend/internal/handlers/payments_stripe.go: the payments that the events make.
use purp_tape.Base.{ℕ, refl, inl, inr, Bool-cases, String, Option, none, some, List, arith, str_eq}
use purp_tape.Db.{Database}
use purp_tape.Db.Subscriptions.{Subscription, Payment}
use purp_tape.Handlers.Payments.Entitlements.{IsSettledPayment}
use purp_tape.Handlers.Payments.Stripe.{
  StripeObject, StripeEvent, metadata_text, paid_by, created_payment, is_active, canceled_payment,
  active_payment, updated_payment, or_customer, handle_subscription_created, user_of,
  handle_subscription_updated, handle_subscription_deleted, payment_of, trimmed,
}

paid_by-settled :
    (o : Option String) (payment : String → Payment)
    → ((user_id : String) → IsSettledPayment (some (payment user_id)))
    → IsSettledPayment (paid_by o payment)
unfolding paid_by
paid_by-settled none payment h = tt
paid_by-settled (some user_id) payment h = elim (Bool-cases (str_eq user_id "")) [
  | inl e ↦ rw e tt
  | inr e ↦ rw e (h user_id)
]

updated_payment-settled :
    (to_lower : String → String) (now : ℕ) (o : StripeObject) (user_id : String)
    → IsSettledPayment (some (updated_payment to_lower now o user_id))
unfolding updated_payment active_payment canceled_payment
updated_payment-settled to_lower now o user_id = elim (Bool-cases (is_active o.status)) [
  | inl e ↦ rw e (inl (refl, refl))
  | inr e ↦ rw e (inr (refl, refl, λ q. ground arith))
]

module _ (db : Database) (table : List Subscription) (to_lower : String → String) (now : ℕ) where
  created-settled :
      (o : Option StripeObject)
      → IsSettledPayment (handle_subscription_created db table to_lower now o)
  unfolding handle_subscription_created created_payment
  created-settled none = tt
  created-settled (some o) =
      paid_by-settled
        (or_customer db table o.customer (some (trimmed (metadata_text "user_id" o.metadata))))
        (created_payment to_lower now o) (λ u. inl (refl, refl))

  updated-settled :
      (o : Option StripeObject)
      → IsSettledPayment (handle_subscription_updated db table to_lower now o)
  unfolding handle_subscription_updated
  updated-settled none = tt
  updated-settled (some o) =
      paid_by-settled (user_of db table o) (updated_payment to_lower now o)
        (updated_payment-settled to_lower now o)

  deleted-settled :
      (o : Option StripeObject) → IsSettledPayment (handle_subscription_deleted db table now o)
  unfolding handle_subscription_deleted canceled_payment
  deleted-settled none = tt
  deleted-settled (some o) =
      paid_by-settled (user_of db table o) (canceled_payment now o)
        (λ u. inr (refl, refl, λ q. ground arith))

  pub payment_of-settled :
      (event : StripeEvent) → IsSettledPayment (payment_of db table to_lower now event)
  unfolding payment_of
  payment_of-settled event =
      elim (Bool-cases (str_eq event.event_type "customer.subscription.created")) [
        | inl c ↦ rw c (created-settled event.object)
        | inr c ↦ elim (Bool-cases (str_eq event.event_type "customer.subscription.updated")) [
          | inl u ↦ rw (c, u) (updated-settled event.object)
          | inr u ↦ elim (Bool-cases (str_eq event.event_type "customer.subscription.deleted")) [
            | inl d ↦ rw (c, u, d) (deleted-settled event.object)
            | inr d ↦ rw (c, u, d) tt
          ]
        ]
      ]
