-- ===== src/Handlers/Tracks/Uploads.antt =====
-- UploadTrackVersion of backend/internal/handlers/tracks.go, with storage.ValidateAudioFile: a file goes
-- to R2 first, then its version into the table, and R2 is cleared of it again where that fails.
pub mod Stored
pub mod Laws
pub mod Quota
use Prim.Native.Char.{code}
use Prim.Native.String
use purp_tape.Base.{
  ℕ, ◌+◌, ◌-◌, ◌/◌, Bool, true, false, not, ◌&&◌, ◌||◌, String, Option, none, some, List, [], ◌∷◌,
  str_eq, if◌then◌else◌, ltb, leb, ◌==◌,
}
use purp_tape.Base.Text.{decimal}
use purp_tape.Http.{Request, Answer, refused, done}
use purp_tape.Db.{Database, DbResult, ok, failed}
use purp_tape.Db.Subscriptions.{Subscription, Plan, get_user_subscription}
use purp_tape.Db.Tracks.{
  Track, TrackVersion, has_track, get_latest_track_version_number, get_user_storage_used,
}
use purp_tape.Helpers.Requests.{get_user_id}
use purp_tape.Handlers.Tracks.{Media}

-- The file of the form.
pub record AudioFile : Type 0 where
  pub filename : String
  pub size : ℕ

-- What the surroundings do in a request: the budget guard, R2, and the transaction.
pub record Outcome : Type 0 where
  -- EvaluateUploadGuard returned a decision to block.
  pub blocked : Bool
  pub uploaded : Bool
  -- Its begin and its commit succeed, and its INSERT if the constraints hold. A commit that reports an
  -- error is taken not to be applied.
  pub committed : Bool
  -- The object is deleted from R2, if that is asked.
  pub removed : Bool

has_slash : String → Bool
has_slash String.[] = false
has_slash (String.◌∷◌ c s) = code c == b'/' || has_slash s

-- From the last dot on, if no slash follows it.
pub extension : String → String
unfolding has_slash
extension String.[] = ""
extension (String.◌∷◌ c s) =
    let rest = extension s in
    if not (str_eq rest "")
    then rest
    else if code c == b'.' && not (has_slash s)
    then String.◌∷◌ c s
    else ""

is_audio : String → Bool
is_audio ext =
    str_eq ext ".wav"
    || str_eq ext ".mp3"
    || str_eq ext ".aiff"
    || str_eq ext ".flac"
    || str_eq ext ".aac"
    || str_eq ext ".m4a"
    || str_eq ext ".ogg"

unfoldable pub validate_audio_file : AudioFile → Bool
unfolding extension is_audio
validate_audio_file file = leb file.size 524_288_000 && is_audio (extension file.filename)

used_or_zero : DbResult ℕ → ℕ
used_or_zero failed = 0
used_or_zero (ok used) = used

-- The quota and the storage used, in MiB.
unfoldable pub quota_and_used : DbResult Plan → DbResult ℕ → ℕ × ℕ
unfolding used_or_zero
quota_and_used failed used = (1024, used_or_zero used)
quota_and_used (ok plan) used = (plan.storage_quota_mb, plan.storage_used_mb)

-- fileSizeMB > availableStorageMB, where the latter may be negative.
unfoldable pub is_over : ℕ → ℕ × ℕ → Bool
is_over size (quota, used) = ltb quota (size / 1_048_576 + used)

-- The constraints of the table on a version with a new id: its track, and its number.
unfoldable pub is_numbered : String → ℕ → List TrackVersion → Bool
is_numbered track_id number [] = false
is_numbered track_id number (v ∷ vs) =
    str_eq v.track_id track_id && v.version_number == number || is_numbered track_id number vs

unfoldable pub fits : TrackVersion → Media → Bool
unfolding is_numbered
fits v media =
    has_track v.track_id media.tracks
    && not (is_numbered v.track_id v.version_number media.versions)
    && leb v.version_number 2_147_483_647

unfoldable pub remove : String → List String → List String
remove key [] = []
remove key (k ∷ ks) = let rest = remove key ks in if str_eq k key then rest else k ∷ rest

-- tracks/<user>/<track>/v<number>-<object>
unfoldable pub object_key : (user_id track_id : String) → ℕ → (object_id : String) → String
object_key user_id track_id number object_id = String.◌++◌ "tracks/" (
    String.◌++◌ user_id (
      String.◌++◌ "/" (
        String.◌++◌ track_id
          (String.◌++◌ "/v" (String.◌++◌ (decimal number) (String.◌++◌ "-" object_id))))))

unfoldable pub finished : Outcome → TrackVersion → Media → Media × Answer TrackVersion
unfolding fits remove
finished outcome v media =
    if not outcome.uploaded
    then (media, refused [] 500 "failed to upload file")
    else if outcome.committed && fits v media
    then (
      record media { versions = v ∷ media.versions; bucket = v.r2_object_key ∷ media.bucket },
      done 201 v,
    )
    else (
      record media {
        bucket =
            if outcome.removed
            then remove v.r2_object_key media.bucket
            else v.r2_object_key ∷ media.bucket;
      },
      refused [] 500 "failed to finalize upload",
    )

-- The size and the checksum are those that UploadFile returns.
unfoldable pub new_version :
    (user_id track_id version_id object_id checksum : String) → ℕ → AudioFile → TrackVersion
unfolding object_key
new_version user_id track_id version_id object_id checksum latest file = record {
  id = version_id;
  track_id = track_id;
  version_number = latest + 1;
  r2_object_key = object_key user_id track_id (latest + 1) object_id;
  file_size = file.size;
  checksum = checksum;
  is_deleted = false;
}

module _ (db : Database) (media : Media) (r : Request) (outcome : Outcome)
    (version_id object_id checksum : String) where
  unfoldable pub versioned :
      (user_id : String) → AudioFile → DbResult ℕ → Media × Answer TrackVersion
  unfolding finished new_version
  versioned user_id file failed = (media, refused [] 500 "failed to get version number")
  versioned user_id file (ok latest) =
      finished outcome
        (new_version user_id (r.path_value "track_id") version_id object_id checksum latest file)
        media

  unfoldable pub accepted :
      List Subscription → Bool → (user_id : String) → AudioFile → Media × Answer TrackVersion
  unfolding is_over quota_and_used versioned
  accepted subscriptions reads_fraction user_id file =
      if not (validate_audio_file file)
      then (media, refused [] 400 "invalid file")
      else if is_over file.size (
          quota_and_used (get_user_subscription db user_id subscriptions)
            (get_user_storage_used db reads_fraction user_id media.tracks media.versions))
      then (media, refused [] 402 "insufficient storage quota")
      else if outcome.blocked
      then (media, refused [] 503 "upload temporarily blocked by budget guard")
      else versioned user_id file
          (get_latest_track_version_number db (r.path_value "track_id") media.versions)

  -- The form is `none` where it does not parse, `some none` without a file.
  unfoldable pub upload_as :
      List Subscription
      → Bool
      → (user_id : String) → Option (Option AudioFile)
      → Media × Answer TrackVersion
  unfolding accepted
  upload_as subscriptions reads_fraction user_id none =
      (media, refused [] 413 "file too large (max 100MB)")
  upload_as subscriptions reads_fraction user_id (some none) =
      (media, refused [] 400 "missing file")
  upload_as subscriptions reads_fraction user_id (some (some file)) =
      accepted subscriptions reads_fraction user_id file

  unfoldable pub upload_track_version :
      (valid_id : String → Bool)
      → List Subscription
      → (reads_fraction : Bool) → Option (Option AudioFile)
      → Media × Answer TrackVersion
  unfolding upload_as
  upload_track_version valid_id subscriptions reads_fraction form = elim (get_user_id r) [
    | none ↦ (media, refused [] 401 "unauthorized")
    | some user_id ↦
        if valid_id (r.path_value "track_id")
        then upload_as subscriptions reads_fraction user_id form
        else (media, refused [] 400 "invalid track id")
  ]
