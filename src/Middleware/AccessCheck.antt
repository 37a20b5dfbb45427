-- ===== src/Middleware/AccessCheck.antt =====
-- backend/internal/middleware/access_check_cache.go: access checks through the cache. The goroutine
-- that stores a result runs at some later time: a check returns what it will store, and `perform`
-- is the store.
pub mod Laws
mod Tests
use purp_tape.Base.{
  ℕ, Bool, true, false, String, Option, none, some, List, [], ◌∷◌, str_eq, if◌then◌else◌,
}
use purp_tape.Http.{Request, Reply, error, next}
use purp_tape.Db.{Database, DbResult, ok, failed}
use purp_tape.Db.AccessLists.{can_user_access_project, can_user_access_track}
use purp_tape.Db.AccessLists
use purp_tape.Cache.Redis.{Redis}
use purp_tape.Cache.AccessList.{
  get_project_accessibility, cache_project_accessibility, get_user_project_access_list,
  cache_user_project_access_list, get_user_track_access_list, cache_user_track_access_list,
  invalidate_user_access_cache,
}

-- A store that a goroutine was started for.
pub data Store : Type 0 where
  accessibility : (user_id resource_id : String) → Bool → Store
  project_list track_list : (user_id : String) → List String → Store

module _ (redis : Redis) where
  open redis use {State}

  pub perform : State → ℕ → Store → State
  perform s now (accessibility user_id resource_id has_access) =
      (cache_project_accessibility redis s now user_id resource_id has_access).0
  perform s now (project_list user_id ids) = cache_user_project_access_list redis s now user_id ids
  perform s now (track_list user_id ids) = cache_user_track_access_list redis s now user_id ids

  -- What a check does with the answer of the database.
  checked : String → String → DbResult Bool → DbResult Bool × List Store
  checked user_id resource_id failed = (failed, [])
  checked user_id resource_id (ok has_access) =
      (ok has_access, accessibility user_id resource_id has_access ∷ [])

  pub check_project_access_cached :
      State → Database → ℕ → String → String → DbResult Bool × List Store
  unfolding checked
  check_project_access_cached s db now user_id project_id =
      elim (get_project_accessibility redis s now user_id project_id) [
        | some has_access ↦ (ok has_access, [])
        | none ↦ checked user_id project_id (can_user_access_project db user_id project_id)
      ]

  -- The cache is read and written under the key of a project whose id is the track's.
  pub check_track_access_cached :
      State → Database → ℕ → String → String → DbResult Bool × List Store
  unfolding checked
  check_track_access_cached s db now user_id track_id =
      elim (get_project_accessibility redis s now user_id track_id) [
        | some has_access ↦ (ok has_access, [])
        | none ↦ checked user_id track_id (can_user_access_track db user_id track_id)
      ]

  guard : String → Request → DbResult Bool × List Store → Reply × List Store
  guard what r (failed, stores) = (error [] 500 "internal server error", stores)
  guard what r (ok has_access, stores) = (if has_access then next r else error [] 403 what, stores)

  -- helpers.GetUserID, then the path value, then the check.
  pub project_access_middleware : State → Database → ℕ → Request → Reply × List Store
  unfolding guard
  project_access_middleware s db now r = elim (r.context "user_id") [
    | none ↦ (error [] 401 "unauthorized", [])
    | some user_id ↦
        if str_eq user_id ""
        then (error [] 401 "unauthorized", [])
        else if str_eq (r.path_value "project_id") ""
        then (error [] 400 "missing project_id", [])
        else guard "you do not have access to this project" r
            (check_project_access_cached s db now user_id (r.path_value "project_id"))
  ]

  pub track_access_middleware : State → Database → ℕ → Request → Reply × List Store
  unfolding guard
  track_access_middleware s db now r = elim (r.context "user_id") [
    | none ↦ (error [] 401 "unauthorized", [])
    | some user_id ↦
        if str_eq user_id ""
        then (error [] 401 "unauthorized", [])
        else if str_eq (r.path_value "track_id") ""
        then (error [] 400 "missing track_id", [])
        else guard "you do not have access to this track" r
            (check_track_access_cached s db now user_id (r.path_value "track_id"))
  ]

  pub invalidate_user_access_on_permission_change : State → ℕ → String → State
  invalidate_user_access_on_permission_change s now user_id =
      invalidate_user_access_cache redis s now user_id

  loaded : (List String → Store) → DbResult (List String) → DbResult (List String) × List Store
  loaded store failed = (failed, [])
  loaded store (ok ids) = (ok ids, store ids ∷ [])

  pub preload_user_project_access_list :
      State → Database → ℕ → String → DbResult (List String) × List Store
  unfolding loaded
  preload_user_project_access_list s db now user_id =
      elim (get_user_project_access_list redis s now user_id) [
        | some ids ↦ (ok ids, [])
        | none ↦ loaded (project_list user_id) (AccessLists.get_user_project_access_list db user_id)
      ]

  pub preload_user_track_access_list :
      State → Database → ℕ → String → DbResult (List String) × List Store
  unfolding loaded
  preload_user_track_access_list s db now user_id =
      elim (get_user_track_access_list redis s now user_id) [
        | some ids ↦ (ok ids, [])
        | none ↦ loaded (track_list user_id) (AccessLists.get_user_track_access_list db user_id)
      ]
