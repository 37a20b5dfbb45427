-- ===== src/Handlers/Payments/Entitlements.antt =====
-- What a user has paid for, as the rest of the program sees it: whether he is premium, and his tier.
use purp_tape.Base.{
  ℕ, ◌≡◌, refl, ap, ◌∙◌, ◌≢◌, ◌⊎◌, inl, inr, Bool, Bool-cases, true, false, String, Option, none,
  some, List, [], ◌∷◌, All, str_eq, if◌then◌else◌, eq_refl,
}
use purp_tape.Db.Subscriptions.{
  Subscription, Payment, inserted, merged, upsert, find_subscription,
  upsert_subscription_from_payment,
}
use purp_tape.Db.Subscriptions.Laws.{paid, find_subscription-upsert, IsUnique, upsert-IsUnique}
use purp_tape.Handlers.Payments.{written, pay}

-- A user without a row has what the column defaults say.
unfoldable pub entitlement_of : Option Subscription → Bool × String
entitlement_of none = (false, "free")
entitlement_of (some s) = (s.is_premium, s.tier)

unfoldable pub entitlement : String → List Subscription → Bool × String
unfolding entitlement_of
entitlement user_id table = entitlement_of (find_subscription user_id table)

-- The specification: a payment that is written replaces what its user has, and nothing else.
unfoldable pub entitled : Bool → Option Payment → String → Bool × String → Bool × String
entitled reached none user_id old = old
entitled reached (some p) user_id old =
    if reached then (if str_eq p.user_id user_id then (p.is_premium, p.tier) else old) else old

paid_entitlement :
    (p : Payment) (o : Option Subscription)
    → entitlement_of (some (paid p o)) ≡ (p.is_premium, p.tier)
unfolding entitlement_of inserted merged
paid_entitlement p none = refl
paid_entitlement p (some s) = refl

pub entitlement-pay :
    (reached : Bool) (p : Option Payment) (user_id : String) (table : List Subscription)
    → entitlement user_id (pay reached p table)
      ≡ entitled reached p user_id (entitlement user_id table)
unfolding entitlement entitled pay written upsert_subscription_from_payment
entitlement-pay reached none user_id table = refl
entitlement-pay false (some p) user_id table = refl
entitlement-pay true (some p) user_id table =
    ap entitlement_of (find_subscription-upsert user_id p table)
    ∙ elim (Bool-cases (str_eq p.user_id user_id)) [
      | inl h ↦ rw h (paid_entitlement p (find_subscription p.user_id table))
      | inr h ↦ rw h
    ]

pub entitlement-paid :
    (reached : Bool) (p : Payment) (user_id : String) (table : List Subscription)
    → reached ≡ true
    → p.user_id ≡ user_id
    → entitlement user_id (pay reached (some p) table) ≡ (p.is_premium, p.tier)
unfolding entitled
entitlement-paid reached p user_id table r u =
    entitlement-pay reached (some p) user_id table ∙ rw (r, u, eq_refl user_id)

-- The payments of the webhooks: a premium user has no date of cancellation, and another one has the
-- free tier and such a date.
abbrev pub IsSettled : Bool → String → Option ℕ → Type 0
IsSettled is_premium tier canceled_at =
    ((is_premium ≡ true) × (canceled_at ≡ none))
    ⊎ ((is_premium ≡ false) × (tier ≡ "free") × (canceled_at ≢ none))

-- One row for each user, and each row settled.
pub record IsSound (table : List Subscription) : Type 0 where
  pub unique : IsUnique table
  pub settled : All (λ s. IsSettled s.is_premium s.tier s.canceled_at) table

upsert-IsSettled :
    (p : Payment) (table : List Subscription)
    → IsSettled p.is_premium p.tier p.canceled_at
    → All (λ s. IsSettled s.is_premium s.tier s.canceled_at) table
    → All (λ s. IsSettled s.is_premium s.tier s.canceled_at) (upsert p table)
unfolding upsert inserted merged
upsert-IsSettled p [] h all = (h, tt)
upsert-IsSettled p (s ∷ table) h (here, rest) = elim (Bool-cases (str_eq s.user_id p.user_id)) [
  | inl e ↦ rw e (h, rest)
  | inr e ↦ rw e (here, upsert-IsSettled p table h rest)
]

abbrev pub IsSettledPayment : Option Payment → Type 0
IsSettledPayment none = Unit
IsSettledPayment (some p) = IsSettled p.is_premium p.tier p.canceled_at

pub pay-IsSound :
    (reached : Bool) (p : Option Payment) (table : List Subscription)
    → IsSettledPayment p
    → IsSound table
    → IsSound (pay reached p table)
unfolding pay written upsert_subscription_from_payment
pay-IsSound reached none table h s = s
pay-IsSound false (some p) table h s = s
pay-IsSound true (some p) table h s = record {
  unique = upsert-IsUnique p table s.unique;
  settled = upsert-IsSettled p table h s.settled;
}
