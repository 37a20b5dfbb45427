-- ===== src/Handlers/Payments/Stripe/Laws.antt =====
-- backend/internal/handlers/payments_stripe.go: when the table changes, and what an event leaves its user.
use purp_tape.Base.{
  ℕ, ◌≡◌, refl, sym, ap, ◌∙◌, subst, ◌≢◌, ◌⊎◌, inl, inr, Bool, Bool-cases, Option-cases, true,
  false, String, Option, Dict, none, some, List, All, arith, str_eq, if◌then◌else◌, eq_iff,
}
use purp_tape.Base.Text.{trim_space}
use purp_tape.Http.{Request}
use purp_tape.Db.{Database, ok, failed}
use purp_tape.Db.Subscriptions.{
  Subscription, Payment, get_user_by_stripe_subscription_id, column_eq,
}
use purp_tape.Db.Subscriptions.Laws.{get_user_by_stripe_subscription_id-failed}
use purp_tape.Handlers.Payments.{pay}
use purp_tape.Handlers.Payments.Entitlements.{entitlement, entitlement-paid, IsSettledPayment}
use purp_tape.Handlers.Payments.Stripe.{
  StripeObject, StripeEvent, metadata_text, tier_of, id_of, paid_by, is_active, or_pro,
  canceled_payment, active_payment, updated_payment, or_customer, user_of,
  handle_subscription_updated, handle_subscription_deleted, payment_of, received, stripe_webhook,
}
use purp_tape.Handlers.Payments.Stripe.Settled.{payment_of-settled}

not_eq : (a b : String) → a ≢ b → str_eq a b ≡ false
not_eq a b n = ground (arith, eq_iff a b, n)

-- The statuses of a subscription that has ended.
abbrev pub IsEnded : String → Type 0
IsEnded status = (status ≡ "canceled") ⊎ (status ≡ "unpaid") ⊎ (status ≡ "incomplete_expired")

-- The tier that the metadata name, in lower case and trimmed, or "pro" where that is empty or missing.
abbrev pub IsTier : (String → String) → StripeObject → String → Type 0
IsTier to_lower o tier =
    ((m : Dict String) × (v : String) × (o.metadata ≡ some m)
      × (m "tier_id" ≡ some v)
      × (trim_space (to_lower v) ≡ tier)
      × (tier ≢ ""))
    ⊎ ((tier ≡ "pro")
        × ((m : Dict String) (v : String)
            → o.metadata ≡ some m
            → m "tier_id" ≡ some v
            → trim_space (to_lower v) ≡ ""))

module _ (to_lower : String → String)
    (construct_event : String → String → String → Option StripeEvent) (db : Database)
    (reached : Bool) (now : ℕ) (endpoint_secret : String) (r : Request) where
  -- Whatever is received, the table is that of a payment, or of none.
  received-pay :
      (table : List Subscription) (o : Option StripeEvent)
      → (p : Option Payment) × IsSettledPayment p
        × ((received to_lower construct_event db reached now table o).0 ≡ pay reached p table)
  unfolding received pay
  received-pay table none = (none, tt, refl)
  received-pay table (some event) =
      (payment_of db table to_lower now event, payment_of-settled db table to_lower now event, refl)

  pub stripe_webhook-pay :
      (body : Option String) (table : List Subscription)
      → (p : Option Payment) × IsSettledPayment p
        × ((stripe_webhook to_lower construct_event db reached now endpoint_secret r body table).0
            ≡ pay reached p table)
  unfolding stripe_webhook pay
  stripe_webhook-pay none table = (none, tt, refl)
  stripe_webhook-pay (some body) table = elim (Bool-cases (str_eq endpoint_secret "")) [
    | inl h ↦ (none, tt, rw h)
    | inr h ↦
        let (p, settled, e) =
          received-pay table (construct_event body (r.header "Stripe-Signature") endpoint_secret) in
        (p, settled, rw h e)
  ]

  received-changed :
      (table : List Subscription) (o : Option StripeEvent)
      → (received to_lower construct_event db reached now table o).0 ≢ table
      → (event : StripeEvent) × (o ≡ some event)
        × ((received to_lower construct_event db reached now table o).0
            ≡ pay reached (payment_of db table to_lower now event) table)
  unfolding received
  received-changed table none changed = ground (arith, changed)
  received-changed table (some event) changed = (event, refl, refl)

  -- The table changes only under a secret that is not empty, by the payment of an event that the
  -- library accepts for the body and its signature.
  pub stripe_webhook-changed :
      (body : String) (table : List Subscription)
      → (stripe_webhook to_lower construct_event db reached now endpoint_secret r
          (some body)
          table).0
        ≢ table
      → (endpoint_secret ≢ "")
        × ((event : StripeEvent) × (construct_event body
                (r.header "Stripe-Signature")
                endpoint_secret
              ≡ some event)
            × ((stripe_webhook to_lower construct_event db reached now endpoint_secret r
                  (some body)
                  table).0
                ≡ pay reached (payment_of db table to_lower now event) table))
  unfolding stripe_webhook
  stripe_webhook-changed body table changed = elim (Bool-cases (str_eq endpoint_secret "")) [
    | inl h ↦ ground (arith, changed, h)
    | inr h ↦ (
      λ e. ground (arith, h, eq_iff endpoint_secret "", e),
      rw h (
          received-changed table
            (construct_event body (r.header "Stripe-Signature") endpoint_secret)
            (subst (λ t. t ≢ table) (rw h) changed)),
    )
  ]

  updated_known :
      (user_id : String) (table : List Subscription) (o : StripeObject)
      → get_user_by_stripe_subscription_id db o.id table ≡ ok (some user_id)
      → user_id ≢ ""
      → handle_subscription_updated db table to_lower now (some o)
        ≡ some (updated_payment to_lower now o user_id)
  unfolding handle_subscription_updated user_of or_customer id_of paid_by
  updated_known user_id table o found named =
      rw (found, not_eq user_id "" named) (rw (not_eq user_id "" named))

  updated_entitlement :
      (user_id : String) (table : List Subscription) (o : StripeObject)
      → reached ≡ true
      → entitlement user_id (pay reached (some (updated_payment to_lower now o user_id)) table) ≡ (
          if is_active o.status
          then (true, tier_of to_lower (metadata_text "tier_id" o.metadata))
          else (false, "free"))
  unfolding updated_payment active_payment canceled_payment
  updated_entitlement user_id table o written = elim (Bool-cases (is_active o.status)) [
    | inl h ↦
        rw h
          (entitlement-paid reached (active_payment to_lower o user_id) user_id table written refl)
    | inr h ↦
        rw h (entitlement-paid reached (canceled_payment now o user_id) user_id table written refl)
  ]

  updated_in_code :
      (body user_id : String) (table : List Subscription) (o : StripeObject)
      → endpoint_secret ≢ ""
      → construct_event body (r.header "Stripe-Signature") endpoint_secret
        ≡ some (record { event_type = "customer.subscription.updated"; object = some o })
      → get_user_by_stripe_subscription_id db o.id table ≡ ok (some user_id)
      → user_id ≢ ""
      → reached ≡ true
      → entitlement user_id
          (stripe_webhook to_lower construct_event db reached now endpoint_secret r
            (some body)
            table).0
        ≡ (if is_active o.status
            then (true, tier_of to_lower (metadata_text "tier_id" o.metadata))
            else (false, "free"))
  unfolding stripe_webhook received payment_of
  updated_in_code body user_id table o n accepted found named written =
      rw (not_eq endpoint_secret "" n, accepted, updated_known user_id table o found named)
        (updated_entitlement user_id table o written)

  ended_lem : (status : String) → is_active status ≡ false → IsEnded status
  unfolding is_active
  ended_lem status h = ground (
    arith,
    h,
    eq_iff status "canceled",
    eq_iff status "unpaid",
    eq_iff status "incomplete_expired",
  )

  active_lem : (status : String) → is_active status ≡ true → ¬ IsEnded status
  unfolding is_active
  active_lem status h (inl e) = ground (arith, h, eq_iff status "canceled", e)
  active_lem status h (inr (inl e)) = ground (arith, h, eq_iff status "unpaid", e)
  active_lem status h (inr (inr e)) = ground (arith, h, eq_iff status "incomplete_expired", e)

  tier_lem :
      (o : StripeObject) (tier : String)
      → IsTier to_lower o tier
      → tier_of to_lower (metadata_text "tier_id" o.metadata) ≡ tier
  unfolding tier_of or_pro metadata_text
  tier_lem o tier (inl (m, v, has, names, text, named)) =
      rw (has, names, text, not_eq tier "" named)
  tier_lem o tier (inr (pro, blank)) = elim (Option-cases o.metadata) [
    | inl e ↦ rw e (sym pro)
    | inr (m, e) ↦ elim (Option-cases (m "tier_id")) [
      | inl e' ↦ rw (e, e') (sym pro)
      | inr (v, e') ↦ rw (e, e', blank m v e e') (sym pro)
    ]
  ]

  -- What an accepted update of a subscription that the table knows leaves its user, once written: the
  -- statuses "canceled", "unpaid" and "incomplete_expired" take the subscription away, and any other one
  -- gives the tier of the event's metadata, in lower case and trimmed, or "pro" without one, whatever
  -- the tier was before.
  pub stripe_webhook-updated :
      (body user_id : String) (table : List Subscription) (o : StripeObject) (tier : String)
      → endpoint_secret ≢ ""
      → construct_event body (r.header "Stripe-Signature") endpoint_secret
        ≡ some (record { event_type = "customer.subscription.updated"; object = some o })
      → get_user_by_stripe_subscription_id db o.id table ≡ ok (some user_id)
      → user_id ≢ ""
      → reached ≡ true
      → IsTier to_lower o tier
      → let after =
          entitlement user_id
            (stripe_webhook to_lower construct_event db reached now endpoint_secret r
              (some body)
              table).0 in
        (IsEnded o.status × (after ≡ (false, "free")))
        ⊎ ((¬ IsEnded o.status) × (after ≡ (true, tier)))
  stripe_webhook-updated body user_id table o tier n accepted found named written is_tier =
      let e = updated_in_code body user_id table o n accepted found named written in
      elim (Bool-cases (is_active o.status)) [
        | inl h ↦
            inr (active_lem o.status h, e ∙ rw h (ap (λ t. (true, t)) (tier_lem o tier is_tier)))
        | inr h ↦ inl (ended_lem o.status h, e ∙ rw h)
      ]

  missed :
      (table : List Subscription) (o : StripeObject)
      → get_user_by_stripe_subscription_id db o.id table ≡ failed
      → user_of db table o ≡ none
  unfolding user_of or_customer id_of
  missed table o fails = rw fails

  lost :
      (table : List Subscription) (event : StripeEvent) (o : StripeObject)
      → event.object ≡ some o
      → event.event_type ≢ "customer.subscription.created"
      → get_user_by_stripe_subscription_id db o.id table ≡ failed
      → payment_of db table to_lower now event ≡ none
  unfolding payment_of handle_subscription_updated handle_subscription_deleted paid_by
  lost table event o has n fails =
      rw (not_eq event.event_type "customer.subscription.created" n, has, missed table o fails)
        (elim (Bool-cases (str_eq event.event_type "customer.subscription.updated")) [
          | inl u ↦ rw u
          | inr u ↦
              rw u (elim (Bool-cases (str_eq event.event_type "customer.subscription.deleted")) [
                | inl d ↦ rw d
                | inr d ↦ rw d
              ])
        ])

  -- Where the driver's error for no row is another one than the query compares with, an update or an
  -- end of a subscription that no row has changes nothing, also for a customer of the table.
  pub stripe_webhook-lost :
      (body : String) (table : List Subscription) (event : StripeEvent) (o : StripeObject)
      → construct_event body (r.header "Stripe-Signature") endpoint_secret ≡ some event
      → event.object ≡ some o
      → event.event_type ≢ "customer.subscription.created"
      → db.no_rows_is_sql ≡ false
      → All (λ s. column_eq s.stripe_subscription_id o.id ≡ false) table
      → (stripe_webhook to_lower construct_event db reached now endpoint_secret r
          (some body)
          table).0
        ≡ table
  unfolding stripe_webhook received pay
  stripe_webhook-lost body table event o accepted has n no_rows missing =
      elim (Bool-cases (str_eq endpoint_secret "")) [
        | inl h ↦ rw h
        | inr h ↦ rw (
          h,
          accepted,
          lost table event o has n
              (get_user_by_stripe_subscription_id-failed db o.id table no_rows missing),
        )
      ]
