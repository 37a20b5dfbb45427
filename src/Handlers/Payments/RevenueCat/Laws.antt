-- ===== src/Handlers/Payments/RevenueCat/Laws.antt =====
-- backend/internal/handlers/payments_revenuecat.go: whom an event concerns, and what it leaves.
use purp_tape.Base.{
  ℕ, ◌≡◌, refl, ap, ◌∙◌, subst, ◌≢◌, inl, inr, Bool, Bool-cases, true, String, Option, none, some,
  List, [], ◌∷◌, arith, str_eq, Dict, eq_iff,
}
use purp_tape.Base.Text.{trim_space}
use purp_tape.Http.{Request}
use purp_tape.Db.Subscriptions.{Subscription, Payment}
use purp_tape.Handlers.Payments.{pay}
use purp_tape.Handlers.Payments.Entitlements.{
  entitlement, entitled, entitlement-pay, IsSettledPayment,
}
use purp_tape.Handlers.Payments.RevenueCat.{
  SignatureLibrary, is_valid_revenue_cat_signature, extract_revenue_cat_user_and_tier,
  payment_of_user, payment_of, apply_revenue_cat_event, received, revenue_cat_webhook, text_of,
  purchase, end_of, is_purchase, is_end,
}

-- An event that was delivered, whether its write was executed, and when.
pub record Delivery : Type 0 where
  pub reached : Bool
  pub now : ℕ
  pub event_type : String
  pub event : Dict String

module _ (to_lower : String → String) where
  unfoldable pub apply_all : List Delivery → List Subscription → List Subscription
  apply_all [] table = table
  apply_all (d ∷ ds) table =
      apply_all ds (apply_revenue_cat_event to_lower d.reached d.now d.event_type d.event table)

  -- The specification of a user: each written payment of his replaces what he has.
  unfoldable pub entitled_all : List Delivery → String → Bool × String → Bool × String
  entitled_all [] user_id old = old
  entitled_all (d ∷ ds) user_id old =
      entitled_all ds user_id
        (entitled d.reached (payment_of to_lower d.now d.event_type d.event) user_id old)

  -- After any events, a user has what the last written payment of his own says, or what he had before:
  -- the table refines the map from users to what they have paid for.
  pub apply_all-entitled :
      (ds : List Delivery) (user_id : String) (table : List Subscription)
      → entitlement user_id (apply_all ds table)
        ≡ entitled_all ds user_id (entitlement user_id table)
  unfolding apply_all entitled_all apply_revenue_cat_event
  apply_all-entitled [] user_id table = refl
  apply_all-entitled (d ∷ ds) user_id table =
      apply_all-entitled ds user_id
        (pay d.reached (payment_of to_lower d.now d.event_type d.event) table)
      ∙ ap (entitled_all ds user_id)
          (entitlement-pay d.reached (payment_of to_lower d.now d.event_type d.event) user_id table)

  payment_of_user-settled :
      (now : ℕ) (event_type : String) (o : Option (String × String))
      → IsSettledPayment (payment_of_user now event_type o)
  unfolding payment_of_user purchase end_of
  payment_of_user-settled now event_type none = tt
  payment_of_user-settled now event_type (some (user_id, tier)) =
      elim (Bool-cases (is_purchase event_type)) [
        | inl h ↦ rw h (inl (refl, refl))
        | inr h ↦ elim (Bool-cases (is_end event_type)) [
          | inl e ↦ rw (h, e) (inr (refl, refl, λ q. ground arith))
          | inr e ↦ rw (h, e) tt
        ]
      ]

  pub payment_of-settled :
      (now : ℕ) (event_type : String) (event : Dict String)
      → IsSettledPayment (payment_of to_lower now event_type event)
  unfolding payment_of
  payment_of-settled now event_type event =
      payment_of_user-settled now event_type (extract_revenue_cat_user_and_tier to_lower event)

  -- Whatever is received, the table is that of a payment, or of none.
  received-pay :
      (reached : Bool) (now : ℕ) (table : List Subscription) (o : Option (Option (Dict String)))
      → (p : Option Payment) × IsSettledPayment p
        × ((received to_lower reached now table o).0 ≡ pay reached p table)
  unfolding received apply_revenue_cat_event pay
  received-pay reached now table none = (none, tt, refl)
  received-pay reached now table (some none) = (none, tt, refl)
  received-pay reached now table (some (some event)) =
      elim (Bool-cases (str_eq (trim_space (text_of event "type")) "")) [
        | inl h ↦ (none, tt, rw h)
        | inr h ↦ (
          payment_of to_lower now (text_of event "type") event,
          payment_of-settled now (text_of event "type") event,
          rw h,
        )
      ]

  received-changed :
      (reached : Bool) (now : ℕ) (table : List Subscription) (o : Option (Option (Dict String)))
      → (received to_lower reached now table o).0 ≢ table
      → (event : Dict String) × (o ≡ some (some event))
        × ((received to_lower reached now table o).0
            ≡ apply_revenue_cat_event to_lower reached now (text_of event "type") event table)
  unfolding received
  received-changed reached now table none changed = ground arith
  received-changed reached now table (some none) changed = ground arith
  received-changed reached now table (some (some event)) changed =
      elim (Bool-cases (str_eq (trim_space (text_of event "type")) "")) [
        | inl h ↦ ground (arith, changed, h)
        | inr h ↦ (event, refl, rw h)
      ]

  pub revenue_cat_webhook-pay :
      (lib : SignatureLibrary) (unmarshal : String → Option (Option (Dict String))) (reached : Bool)
      (now : ℕ) (endpoint_secret : String) (r : Request) (body : Option String)
      (table : List Subscription)
      → (p : Option Payment) × IsSettledPayment p
        × ((revenue_cat_webhook to_lower lib unmarshal reached now endpoint_secret r body table).0
            ≡ pay reached p table)
  unfolding revenue_cat_webhook pay
  revenue_cat_webhook-pay lib unmarshal reached now endpoint_secret r none table = (none, tt, refl)
  revenue_cat_webhook-pay lib unmarshal reached now endpoint_secret r (some body) table =
      elim (Bool-cases (str_eq endpoint_secret "")) [
        | inl h ↦ (none, tt, rw h)
        | inr h ↦
            elim (Bool-cases (
              is_valid_revenue_cat_signature lib (r.header "X-Revenuecat-Signature") body
                endpoint_secret)) [
                  | inl v ↦
                      let (p, settled, e) = received-pay reached now table (unmarshal body) in
                      (p, settled, rw (h, v) e)
                  | inr v ↦ (none, tt, rw (h, v))
                ]
      ]

  -- The table changes only by a body whose signature is valid under a secret that is not empty, and
  -- then by the event in it.
  pub revenue_cat_webhook-changed :
      (lib : SignatureLibrary) (unmarshal : String → Option (Option (Dict String))) (reached : Bool)
      (now : ℕ) (endpoint_secret body : String) (r : Request) (table : List Subscription)
      → (revenue_cat_webhook to_lower lib unmarshal reached now endpoint_secret r
          (some body)
          table).0
        ≢ table
      → (endpoint_secret ≢ "")
        × (is_valid_revenue_cat_signature lib
              (r.header "X-Revenuecat-Signature")
              body
              endpoint_secret
            ≡ true)
        × ((event : Dict String) × (unmarshal body ≡ some (some event))
            × ((revenue_cat_webhook to_lower lib unmarshal reached now endpoint_secret r
                  (some body)
                  table).0
                ≡ apply_revenue_cat_event to_lower reached now (text_of event "type") event table))
  unfolding revenue_cat_webhook
  revenue_cat_webhook-changed lib unmarshal reached now endpoint_secret body r table changed =
      elim (Bool-cases (str_eq endpoint_secret "")) [
        | inl h ↦ ground (arith, changed, h)
        | inr h ↦
            elim (Bool-cases (
              is_valid_revenue_cat_signature lib (r.header "X-Revenuecat-Signature") body
                endpoint_secret)) [
                  | inl v ↦ (
                    λ e. ground (arith, h, eq_iff endpoint_secret "", e),
                    v,
                    rw (h, v)
                        (received-changed reached now table (unmarshal body)
                          (subst (λ t. t ≢ table) (rw (h, v)) changed)),
                  )
                  | inr v ↦ ground (arith, changed, h, v)
                ]
      ]
