-- ===== src/Handlers/Tracks/Tests.antt =====
-- Ann's project "p" with the track "t", which has one version, and a file of one MiB.
use Prim.Native.Char.{code, char}
use Prim.Native.String
use Prim.Native.String.append
use purp_tape.Base.{
  ◌⊎◌, ℕ, ◌+◌, ◌≡◌, refl, ap, ◌∙◌, ◌==◌, ◌≢◌, arith, Bool, true, false, String, Option, none, some,
  List, [], ◌∷◌, Dict, empty, insert, str_eq, if◌then◌else◌,
}
use purp_tape.Base.Text.{decimal, trim_space, contains_text}
use purp_tape.Http.{Request}
use purp_tape.Db.{Database, failed}
use purp_tape.Db.Subscriptions.{
  Subscription, find_subscription, get_user_subscription, upsert_subscription_from_payment,
}
use purp_tape.Db.Tracks.{
  get_latest_track_version_number, get_user_storage_used, TrackVersion, has_track, latest_version,
  latest_number,
}
use purp_tape.Helpers.Requests.{get_user_id}
use purp_tape.Handlers.Payments.{pay}
use purp_tape.Handlers.Payments.Stripe.{StripeEvent}
use purp_tape.Handlers.Payments.RevenueCat.{SignatureLibrary, revenue_cat_webhook}
use purp_tape.Handlers.Payments.Runs.{empty_table, by_revenue_cat}
use purp_tape.Handlers.Tracks.{Media, delete_track}
use purp_tape.Handlers.Tracks.Laws.{IsAllowed, IsKept, IsGone, delete_track-done}
use purp_tape.Handlers.Tracks.Uploads.{
  AudioFile, Outcome, is_numbered, fits, finished, versioned, accepted, object_key,
  validate_audio_file, is_over, quota_and_used, new_version, upload_track_version,
}
use purp_tape.Handlers.Tracks.Uploads.Stored.{is_stored, IsSound}
use purp_tape.Handlers.Tracks.Uploads.Laws.{
  upload_track_version-latest, upload_track_version-IsSound,
}
use purp_tape.Handlers.Tracks.Uploads.Quota.{is_over-reachable}

abbrev database : Database
database = record {
  available = true;
  no_rows_is_sql = false;
  has_avatar = λ user_id. true;
  projects = record { id = "p"; user_id = "ann"; is_deleted = false } ∷ [];
  collaborators = [];
  project_shares = [];
  user_project_access = [];
  user_track_access = [];
}

abbrev version : TrackVersion
version = record {
  id = "1";
  track_id = "t";
  version_number = 1;
  r2_object_key = "k";
  file_size = 5;
  checksum = "c";
  is_deleted = false;
}

abbrev media : Media
media = record {
  tracks =
      record {
        id = "t";
        project_id = "p";
        user_id = "ann";
        name = "song";
        duration = 60;
        is_deleted = false;
      }
      ∷ [];
  versions = version ∷ [];
  bucket = "k" ∷ [];
}

abbrev by_user : String → Request
by_user user_id = record {
  method = "POST";
  path = "/tracks/t";
  remote_addr = "1.2.3.4:5000";
  header = λ name. "";
  path_value = λ name. if str_eq name "project_id" then "p" else "t";
  context = insert "user_id" user_id empty;
}

abbrev any_id : String → Bool
any_id id = true

abbrev file : AudioFile
file = record { filename = "a.wav"; size = 1_048_576 }

abbrev good : Outcome
good = record { blocked = false; uploaded = true; committed = true; removed = true }

delete_track-done_example :
    (IsKept database media
        (by_user "ann")
        any_id
        (delete_track database media (by_user "ann") any_id true)
      ⊎ (IsAllowed database media (by_user "ann") any_id
          × IsGone database media
              (by_user "ann")
              any_id
              (delete_track database media (by_user "ann") any_id true)))
    × (any_id "t" ≡ true
        → database.available ≡ true
        → IsAllowed database media (by_user "ann") any_id
        → IsGone database media
            (by_user "ann")
            any_id
            (delete_track database media (by_user "ann") any_id true))
delete_track-done_example = delete_track-done database media (by_user "ann") any_id true

abbrev second : TrackVersion
second = new_version "ann" "t" "2" "o" "d" 1 file

upload_track_version-latest_example :
    (second.version_number ≡ latest_number "t" (version ∷ []) + 1)
    × (latest_version "t"
          (upload_track_version database media
            (by_user "ann")
            good
            "2"
            "o"
            "d"
            any_id
            []
            true
            (some (some file))).0.versions
        ≡ some second)
    × (is_stored second.r2_object_key
          (upload_track_version database media
            (by_user "ann")
            good
            "2"
            "o"
            "d"
            any_id
            []
            true
            (some (some file))).0.bucket
        ≡ true)
unfolding upload_track_version get_user_id accepted versioned finished validate_audio_file is_over
    quota_and_used get_user_subscription get_user_storage_used get_latest_track_version_number fits
    find_subscription has_track
upload_track_version-latest_example =
    upload_track_version-latest database media (by_user "ann") good "2" "o" "d" [] true any_id
      (some (some file)) second refl

abbrev is_k : String → Bool
is_k String.[] = false
is_k (String.◌∷◌ c s) = code c == b'k'

not_k : (t : String) → is_k (String.◌++◌ "tracks/" t) ≡ false
not_k t = ap is_k (λ i. append.cons (char b't' tt) "racks/" t i)

key_fresh : (user_id : String) (number : ℕ) → "k" ≢ object_key user_id "t" number "o"
unfolding object_key
key_fresh user_id number e =
    let q : true ≡ false =
      ap is_k e
      ∙ not_k (
          String.◌++◌ user_id (
            String.◌++◌ "/"
              (String.◌++◌ "t" (String.◌++◌ "/v" (String.◌++◌ (decimal number) "-o"))))) in
    ground arith

upload_track_version-IsSound_example :
    IsSound
      (upload_track_version database media
        (by_user "ann")
        (record good { committed = false })
        "2"
        "o"
        "d"
        any_id
        []
        true
        (some (some file))).0
unfolding is_stored is_numbered
upload_track_version-IsSound_example =
    upload_track_version-IsSound database media (by_user "ann") (record good { committed = false })
      "2" "o" "d" [] true any_id (some (some file))
      (λ user_id number. (key_fresh user_id number, tt))
      (record { numbered = (refl, tt); stored = (refl, tt) })

abbrev to_lower : String → String
to_lower s = s

-- A purchase by Ann.
abbrev lib : SignatureLibrary
lib = record { hmac_hex = λ key body. body; hmac_base64 = λ key body. body }

abbrev unmarshal : String → Option (Option (Dict String))
unmarshal body = some (some (insert "type" "RENEWAL" (insert "app_user_id" "ann" empty)))

abbrev signed : Request
signed = record (by_user "ann") { header = λ name. "x" }

abbrev construct_event : String → String → String → Option StripeEvent
construct_event body header key = none

abbrev subscriptions : List Subscription
subscriptions = (revenue_cat_webhook to_lower lib unmarshal true 5 "k" signed (some "x") []).0

is_over-reachable_example :
    is_over 1_048_576 (quota_and_used (get_user_subscription database "ann" subscriptions) failed)
    ≡ false
unfolding revenue_cat_webhook find_subscription trim_space upsert_subscription_from_payment
    validate_audio_file pay contains_text
is_over-reachable_example =
    is_over-reachable to_lower construct_event lib unmarshal database subscriptions "ann"
      (record {
        user_id = "ann";
        is_premium = true;
        tier = "pro";
        storage_quota_mb = 10_240;
        storage_used_mb = 0;
        stripe_customer_id = none;
        stripe_subscription_id = none;
        purchase_date = some 5;
        canceled_at = none;
      })
      file failed (by_revenue_cat [] true 5 "k" signed (some "x") empty_table) refl refl refl
