-- ===== src/Handlers/Payments/Tests.antt =====
-- A customer "c" with the subscription "s" of the user "ann", and events about them.
use purp_tape.Base.{
  ◌≡◌, refl, sym, ◌∙◌, ◌≢◌, ◌⊎◌, inl, inr, Bool, arith, eq_iff, true, false, String, Option, none,
  some, List, [], ◌∷◌, Dict, empty, insert, str_eq, ap,
}
use purp_tape.Base.Text.{trim_space, contains_text}
use purp_tape.Http.{Request}
use purp_tape.Db.{Database}
use purp_tape.Db.Subscriptions.{Subscription, find_subscription, get_user_by_stripe_subscription_id}
use purp_tape.Handlers.Payments.{pay}
use purp_tape.Handlers.Payments.Entitlements.{entitlement, entitled, IsSound}
use purp_tape.Handlers.Payments.Stripe.{StripeObject, StripeEvent, payment_of, stripe_webhook}
use purp_tape.Handlers.Payments.Stripe.Laws.{
  IsEnded, stripe_webhook-changed, stripe_webhook-updated,
}
use purp_tape.Handlers.Payments.RevenueCat
use purp_tape.Handlers.Payments.RevenueCat.{
  SignatureLibrary, is_valid_revenue_cat_signature, text_of, apply_revenue_cat_event,
  revenue_cat_webhook,
}
use purp_tape.Handlers.Payments.RevenueCat.Laws.{
  Delivery, apply_all, entitled_all, apply_all-entitled,
}
use purp_tape.Handlers.Payments.Runs.{empty_table, by_stripe, IsReachable-IsSound}

-- The letters of the examples are in lower case.
abbrev to_lower : String → String
to_lower s = s

abbrev row : Subscription
row = record {
  user_id = "ann";
  is_premium = true;
  tier = "unlimited";
  storage_quota_mb = 10_240;
  storage_used_mb = 0;
  stripe_customer_id = some "c";
  stripe_subscription_id = some "s";
  purchase_date = some 1;
  canceled_at = none;
}

abbrev database : Database
database = record {
  available = true;
  no_rows_is_sql = false;
  has_avatar = λ user_id. true;
  projects = [];
  collaborators = [];
  project_shares = [];
  user_project_access = [];
  user_track_access = [];
}

abbrev request : Request
request = record {
  method = "POST";
  path = "/webhooks";
  remote_addr = "1.2.3.4:5000";
  header = λ name. "x";
  path_value = λ name. "";
  context = empty;
}

-- An active subscription without a tier in its metadata.
abbrev object_of : String → StripeObject
object_of id = record { customer = "c"; id = id; status = "active"; metadata = some empty }

abbrev construct_event : String → String → String → Option StripeEvent
construct_event body header key =
    some (record { event_type = "customer.subscription.updated"; object = some (object_of body) })

named : (a b : String) → str_eq a b ≡ false → a ≢ b
named a b h = ground (arith, eq_iff a b, h)

abbrev after : Bool × String
after =
    entitlement "ann"
      (stripe_webhook to_lower construct_event database true 5 "k" request (some "s") (row ∷ [])).0

no_tier :
    (m : Dict String) (v : String) → some empty ≡ some m → m "tier_id" ≡ some v → trim_space v ≡ ""
no_tier m v e h =
    absurd (ground (arith, ap (λ o. elim o [ none ↦ none | some d ↦ d "tier_id" ]) e, h))

stripe_webhook-updated_example :
    (IsEnded "active" × (after ≡ (false, "free")))
    ⊎ ((¬ IsEnded "active") × (after ≡ (true, "pro")))
unfolding get_user_by_stripe_subscription_id
stripe_webhook-updated_example =
    stripe_webhook-updated to_lower construct_event database true 5 "k" request "s" "ann" (row ∷ [])
      (object_of "s") "pro" (named "k" "" refl) refl refl (named "ann" "" refl) refl
      (inr (refl, no_tier))

active_now : ¬ IsEnded "active"
active_now (inl e) = named "active" "canceled" refl e
active_now (inr (inl e)) = named "active" "unpaid" refl e
active_now (inr (inr e)) = named "active" "incomplete_expired" refl e

pro_after : after ≡ (true, "pro")
pro_after = elim stripe_webhook-updated_example [
  | inl (ended, e) ↦ absurd (active_now ended)
  | inr (active, e) ↦ e
]

stripe_webhook-changed_example :
    (◌≢◌ {A = String} "k" "")
    × ((event : StripeEvent) × (construct_event "s" "x" "k" ≡ some event)
        × ((stripe_webhook to_lower construct_event database true 5 "k" request
              (some "s")
              (row ∷ [])).0
            ≡ pay true (payment_of database (row ∷ []) to_lower 5 event) (row ∷ [])))
unfolding entitlement find_subscription
stripe_webhook-changed_example =
    stripe_webhook-changed to_lower construct_event database true 5 "k" request "s" (row ∷ [])
      (λ e. named "pro" "unlimited" refl (ap (λ p. p.1) (sym pro_after ∙ ap (entitlement "ann") e)))

-- A body is the type of an event about Ann.
abbrev event_of : String → Dict String
event_of event_type =
    insert "type" event_type (insert "app_user_id" "ann" (insert "product_id" "app.pro_plus" empty))

abbrev unmarshal : String → Option (Option (Dict String))
unmarshal body = some (some (event_of body))

abbrev lib : SignatureLibrary
lib = record { hmac_hex = λ key body. "x"; hmac_base64 = λ key body. "y" }

abbrev deliveries : List Delivery
deliveries =
    record {
      reached = true;
      now = 1;
      event_type = "INITIAL_PURCHASE";
      event = event_of "INITIAL_PURCHASE";
    }
    ∷ record { reached = false; now = 2; event_type = "EXPIRATION"; event = event_of "EXPIRATION" }
    ∷ []

apply_all-entitled_example :
    entitlement "ann" (apply_all to_lower deliveries []) ≡ (true, "pro_plus")
unfolding entitled_all entitlement find_subscription trim_space contains_text entitled
    RevenueCat.payment_of
apply_all-entitled_example = apply_all-entitled to_lower deliveries "ann" []

IsReachable-IsSound_example :
    IsSound (stripe_webhook to_lower construct_event database true 5 "k" request (some "s") []).0
IsReachable-IsSound_example =
    IsReachable-IsSound to_lower construct_event lib unmarshal
      (stripe_webhook to_lower construct_event database true 5 "k" request (some "s") []).0
      (by_stripe [] database true 5 "k" request (some "s") empty_table)
