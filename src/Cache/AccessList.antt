-- ===== src/Cache/AccessList.antt =====
-- backend/internal/cache/access_list_cache.go: what a user may access, kept in Redis. Errors of the
-- server are logged and otherwise ignored, as the source ignores them.
pub mod Keys
use Prim.Native.String
use purp_tape.Base.{
  ℕ, ◌*◌, Bool, true, false, String, Option, none, some, List, [], ◌∷◌, str_eq, if◌then◌else◌,
}
use purp_tape.Cache.Redis.{Redis, Value, flag, ids, Got, hit, nil, error}

abbrev pub minute : ℕ
minute = 60_000_000_000

-- "user:%s:project_access", "user:%s:track_access" and "user:%s:access:project:%s"
abbrev pub project_access_key : String → String
project_access_key user_id = String.◌++◌ "user:" (String.◌++◌ user_id ":project_access")

abbrev pub track_access_key : String → String
track_access_key user_id = String.◌++◌ "user:" (String.◌++◌ user_id ":track_access")

abbrev pub accessibility_key : String → String → String
accessibility_key user_id project_id =
    String.◌++◌ "user:" (String.◌++◌ user_id (String.◌++◌ ":access:project:" project_id))

-- json.Unmarshal into []string, after the read.
abbrev read_ids : Got → Option (List String)
read_ids (hit (ids xs)) = some xs
read_ids (hit (flag s)) = none
read_ids nil = none
read_ids error = none

-- (data == "1", true), or (false, false) where there is nothing to read.
read_flag : Got → Option Bool
read_flag (hit (flag s)) = some (str_eq s "1")
read_flag (hit (ids xs)) = some false
read_flag nil = none
read_flag error = none

module _ (redis : Redis) where
  open redis use {State, get, set, del}

  pub cache_user_project_access_list : State → ℕ → String → List String → State
  cache_user_project_access_list s now user_id project_ids =
      (set s now (project_access_key user_id) (ids project_ids) (5 * minute)).0

  unfoldable pub get_user_project_access_list : State → ℕ → String → Option (List String)
  get_user_project_access_list s now user_id = read_ids (get s now (project_access_key user_id))

  pub cache_user_track_access_list : State → ℕ → String → List String → State
  cache_user_track_access_list s now user_id track_ids =
      (set s now (track_access_key user_id) (ids track_ids) (3 * minute)).0

  pub get_user_track_access_list : State → ℕ → String → Option (List String)
  get_user_track_access_list s now user_id = read_ids (get s now (track_access_key user_id))

  pub invalidate_user_access_cache : State → ℕ → String → State
  invalidate_user_access_cache s now user_id =
      (del s now (project_access_key user_id ∷ track_access_key user_id ∷ [])).0

  keys_of : List String → List String
  keys_of [] = []
  keys_of (u ∷ us) = project_access_key u ∷ track_access_key u ∷ keys_of us

  pub invalidate_project_access_cache : State → ℕ → List String → State
  unfolding keys_of
  invalidate_project_access_cache s now [] = s
  invalidate_project_access_cache s now (u ∷ us) = (del s now (keys_of (u ∷ us))).0

  -- The state with the flag, and whether the server took it.
  unfoldable pub cache_project_accessibility : State → ℕ → String → String → Bool → State × Bool
  cache_project_accessibility s now user_id project_id has_access =
      set s now (accessibility_key user_id project_id) (flag (if has_access then "1" else "0"))
        minute

  -- `none` is a cache miss.
  unfoldable pub get_project_accessibility : State → ℕ → String → String → Option Bool
  unfolding read_flag
  get_project_accessibility s now user_id project_id =
      read_flag (get s now (accessibility_key user_id project_id))
