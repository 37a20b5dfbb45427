-- ===== src/Handlers/Payments/RevenueCat.antt =====
-- backend/internal/handlers/payments_revenuecat.go: the webhook of RevenueCat. The two printed forms of
-- the HMAC, the JSON decoder and strings.ToLower are arguments.
pub mod Laws
use purp_tape.Base.{
  ℕ, Bool, true, false, not, ◌&&◌, ◌||◌, String, Option, none, some, List, [], ◌∷◌, str_eq,
  if◌then◌else◌, Dict,
}
use purp_tape.Base.Text.{trim_space, contains_text}
use purp_tape.Http.{Request, Answer, refused, done}
use purp_tape.Db.Subscriptions.{Subscription, Payment}
use purp_tape.Handlers.Payments.{pay}

pub record SignatureLibrary : Type 0 where
  pub hmac_hex : String → String → String
  pub hmac_base64 : String → String → String

unfoldable pub is_valid_revenue_cat_signature : SignatureLibrary → String → String → String → Bool
is_valid_revenue_cat_signature lib provided_signature body endpoint_secret =
    let provided = trim_space provided_signature in
    if str_eq provided ""
    then false
    else str_eq (lib.hmac_hex endpoint_secret body) provided
      || str_eq (lib.hmac_base64 endpoint_secret body) provided

-- event[key].(string), "" where it is none.
unfoldable pub text_of : Dict String → String → String
text_of event key = elim (event key) [ none ↦ "" | some v ↦ v ]

-- The user, "" for none.
unfoldable pub app_user_id : Dict String → String
unfolding text_of
app_user_id event =
    if str_eq (trim_space (text_of event "app_user_id")) ""
    then trim_space (text_of event "original_app_user_id")
    else trim_space (text_of event "app_user_id")

unfoldable pub is_purchase : String → Bool
is_purchase event_type =
    str_eq event_type "INITIAL_PURCHASE"
    || str_eq event_type "SUBSCRIPTION_PURCHASE"
    || str_eq event_type "RENEWAL"
    || str_eq event_type "SUBSCRIPTION_RENEWAL"

unfoldable pub is_end : String → Bool
is_end event_type =
    str_eq event_type "SUBSCRIPTION_PAUSED"
    || str_eq event_type "EXPIRATION"
    || str_eq event_type "CANCELLATION"
    || str_eq event_type "SUBSCRIPTION_CANCEL"
    || str_eq event_type "SUBSCRIPTION_EXPIRED"

unfoldable pub purchase : ℕ → String → String → Payment
purchase now user_id tier = record {
  user_id = user_id;
  is_premium = true;
  tier = tier;
  stripe_customer_id = "";
  stripe_subscription_id = "";
  purchase_date = some now;
  canceled_at = none;
}

unfoldable pub end_of : ℕ → String → Payment
end_of now user_id = record {
  user_id = user_id;
  is_premium = false;
  tier = "free";
  stripe_customer_id = "";
  stripe_subscription_id = "";
  purchase_date = none;
  canceled_at = some now;
}

unfoldable pub payment_of_user : ℕ → String → Option (String × String) → Option Payment
unfolding is_purchase is_end purchase end_of
payment_of_user now event_type none = none
payment_of_user now event_type (some (user_id, tier)) =
    if is_purchase event_type
    then some (purchase now user_id tier)
    else if is_end event_type
    then some (end_of now user_id)
    else none

module _ (to_lower : String → String) where
  unfoldable pub tier_from_revenue_cat_product_id : String → String
  tier_from_revenue_cat_product_id product_id =
      let id = to_lower (trim_space product_id) in
      if contains_text "pro_plus" id || contains_text "proplus" id
      then "pro_plus"
      else if contains_text "unlimited" id
      then "unlimited"
      else "pro"

  -- `none` is the error.
  unfoldable pub extract_revenue_cat_user_and_tier : Dict String → Option (String × String)
  unfolding app_user_id tier_from_revenue_cat_product_id
  extract_revenue_cat_user_and_tier event =
      if str_eq (app_user_id event) ""
      then none
      else some (app_user_id event, tier_from_revenue_cat_product_id (text_of event "product_id"))

  -- The payment of an event, whose error is logged.
  unfoldable pub payment_of : ℕ → String → Dict String → Option Payment
  unfolding payment_of_user extract_revenue_cat_user_and_tier
  payment_of now event_type event =
      payment_of_user now event_type (extract_revenue_cat_user_and_tier event)

  unfoldable pub apply_revenue_cat_event :
      Bool → ℕ → String → Dict String → List Subscription → List Subscription
  unfolding payment_of
  apply_revenue_cat_event reached now event_type event table =
      pay reached (payment_of now event_type event) table

  -- A body that is no JSON object is `none`, one without an object `event` is `some none`.
  unfoldable pub received :
      Bool
      → ℕ
      → List Subscription
      → Option (Option (Dict String))
      → List Subscription × Answer String
  unfolding apply_revenue_cat_event text_of
  received reached now table none = (table, refused [] 400 "")
  received reached now table (some none) = (table, refused [] 400 "")
  received reached now table (some (some event)) =
      if str_eq (trim_space (text_of event "type")) "" then (table, refused [] 400 "") else (
        apply_revenue_cat_event reached now (text_of event "type") event table,
        done 200 "received",
      )

  unfoldable pub revenue_cat_webhook :
      SignatureLibrary
      → (String → Option (Option (Dict String)))
      → Bool
      → ℕ
      → (endpoint_secret : String) → Request
      → Option String
      → List Subscription
      → List Subscription × Answer String
  unfolding is_valid_revenue_cat_signature received
  revenue_cat_webhook lib unmarshal reached now endpoint_secret r none table =
      (table, refused [] (if str_eq endpoint_secret "" then 500 else 400) "")
  revenue_cat_webhook lib unmarshal reached now endpoint_secret r (some body) table =
      if str_eq endpoint_secret ""
      then (table, refused [] 500 "")
      else if is_valid_revenue_cat_signature lib (r.header "X-Revenuecat-Signature") body
          endpoint_secret
      then received reached now table (unmarshal body)
      else (table, refused [] 401 "")
