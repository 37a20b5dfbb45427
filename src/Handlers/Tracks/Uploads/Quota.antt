-- ===== src/Handlers/Tracks/Uploads/Quota.antt =====
-- The quota of UploadTrackVersion on a table of subscriptions that the webhooks made.
use purp_tape.Base.{
  ℕ, ◌+◌, ◌/◌, ◌≤◌, ◌≡◌, refl, subst, inl, inr, Bool, Bool-cases, true, false, String, Option, none,
  some, List, [], ◌∷◌, All, arith, str_eq, ltb, Dict,
}
use purp_tape.Db.{Database, DbResult}
use purp_tape.Db.Subscriptions.{
  Subscription, Payment, inserted, merged, upsert, find_subscription,
  upsert_subscription_from_payment, get_user_subscription,
}
use purp_tape.Handlers.Payments.{written, pay}
use purp_tape.Handlers.Payments.Stripe.{StripeEvent}
use purp_tape.Handlers.Payments.RevenueCat.{SignatureLibrary}
use purp_tape.Handlers.Payments.Runs.{IsReachable, IsReachable_ind}
use purp_tape.Handlers.Tracks.Uploads.{AudioFile, validate_audio_file, is_over, quota_and_used}

-- Rows with the default quota and nothing used.
abbrev pub AllUnused : List Subscription → Type 0
AllUnused table = All (λ s. (s.storage_quota_mb ≡ 10_240) × (s.storage_used_mb ≡ 0)) table

upsert-AllUnused :
    (p : Payment) (table : List Subscription) → AllUnused table → AllUnused (upsert p table)
unfolding upsert inserted merged
upsert-AllUnused p [] h = ((refl, refl), tt)
upsert-AllUnused p (s ∷ table) (here, rest) = elim (Bool-cases (str_eq s.user_id p.user_id)) [
  | inl e ↦ rw e (here, rest)
  | inr e ↦ rw e (here, upsert-AllUnused p table rest)
]

pub pay-AllUnused :
    (reached : Bool) (p : Option Payment) (table : List Subscription)
    → AllUnused table
    → AllUnused (pay reached p table)
unfolding pay written upsert_subscription_from_payment
pay-AllUnused reached none table h = h
pay-AllUnused false (some p) table h = h
pay-AllUnused true (some p) table h = upsert-AllUnused p table h

found-unused :
    (user_id : String) (table : List Subscription) (s : Subscription)
    → AllUnused table
    → find_subscription user_id table ≡ some s
    → (s.storage_quota_mb ≡ 10_240) × (s.storage_used_mb ≡ 0)
unfolding find_subscription
found-unused user_id [] s h e = absurd (ground arith)
found-unused user_id (t ∷ table) s (here, rest) e = elim (Bool-cases (str_eq t.user_id user_id)) [
  | inl y ↦
      let q : t ≡ s = ground (arith, e, y) in
      subst (λ x. (x.storage_quota_mb ≡ 10_240) × (x.storage_used_mb ≡ 0)) q here
  | inr n ↦
      let q : find_subscription user_id table ≡ some s = ground (arith, e, n) in
      found-unused user_id table s rest q
]

small : (size : ℕ) → size ≤ 524_288_000 → ltb 10_240 (size / 1_048_576 + 0) ≡ false
small size h = ground arith

-- A user with a row in the table is never over his quota, with no file that the handler takes.
pub is_over_unused :
    (db : Database) (table : List Subscription) (user_id : String) (s : Subscription)
    (file : AudioFile) (used : DbResult ℕ)
    → AllUnused table
    → db.available ≡ true
    → find_subscription user_id table ≡ some s
    → validate_audio_file file ≡ true
    → is_over file.size (quota_and_used (get_user_subscription db user_id table) used) ≡ false
unfolding is_over quota_and_used get_user_subscription validate_audio_file
is_over_unused db table user_id s file used all up found valid =
    let (q, u) = found-unused user_id table s all found in
    rw (up, found, q, u) (small file.size (ground (arith, valid)))

module _ (to_lower : String → String)
    (construct_event : String → String → String → Option StripeEvent) (lib : SignatureLibrary)
    (unmarshal : String → Option (Option (Dict String))) where
  -- On a table that the webhooks made, a user with a row is never over his quota with a file that the
  -- handler takes, whatever he uploaded before.
  pub is_over-reachable :
      (db : Database) (table : List Subscription) (user_id : String) (s : Subscription)
      (file : AudioFile) (used : DbResult ℕ)
      → IsReachable to_lower construct_event lib unmarshal table
      → db.available ≡ true
      → find_subscription user_id table ≡ some s
      → validate_audio_file file ≡ true
      → is_over file.size (quota_and_used (get_user_subscription db user_id table) used) ≡ false
  is_over-reachable db table user_id s file used run = is_over_unused db table user_id s file used (
      IsReachable_ind to_lower construct_event lib unmarshal AllUnused tt
        (λ reached p t settled h. pay-AllUnused reached p t h) table run)
