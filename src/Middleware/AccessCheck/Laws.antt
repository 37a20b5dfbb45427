-- ===== src/Middleware/AccessCheck/Laws.antt =====
-- middleware/access_check_cache.go: the cached checks and the database.
use purp_tape.Base.{
  ℕ, ◌+◌, ◌≤◌, ◌<◌, ◌≡◌, refl, sym, ap, ◌∙◌, ◌≢◌, ◌↔◌, Bool, true, String, Option, none, some, [],
  ◌∷◌, arith, eq_iff,
}
use purp_tape.Http.{Request, next}
use purp_tape.Db.{Database, DbResult, ok, failed}
use purp_tape.Db.AccessLists.{can_user_access_project, can_user_access_track}
use purp_tape.Db.AccessLists
use purp_tape.Cache.Redis.{Redis}
use purp_tape.Cache.AccessList.{
  get_project_accessibility, cache_project_accessibility, get_user_project_access_list, minute,
  project_access_key, track_access_key,
}
use purp_tape.Cache.AccessList.Keys.{
  accessibility-invalidate, accessibility-hit, accessibility-expired, project_list-invalidate,
}
use purp_tape.Middleware.AccessCheck.{
  checked, loaded, accessibility, perform, check_project_access_cached, check_track_access_cached,
  project_access_middleware, invalidate_user_access_on_permission_change,
  preload_user_project_access_list,
}

module _ (redis : Redis) where
  open redis use {State, get, set, del, get_set, get_expired}

  -- A decision that the cache holds is what a check answers.
  hit_answers :
      (s : State) (db : Database) (now : ℕ) (user_id id : String) (b : Bool)
      → get_project_accessibility redis s now user_id id ≡ some b
      → (check_project_access_cached redis s db now user_id id ≡ (ok b, []))
        × (check_track_access_cached redis s db now user_id id ≡ (ok b, []))
  unfolding check_project_access_cached check_track_access_cached
  hit_answers s db now user_id id b h =
      (rw (h, check_project_access_cached), rw (h, check_track_access_cached))

  checked_answer :
      (user_id id : String) (answer : DbResult Bool) → (checked redis user_id id answer).0 ≡ answer
  unfolding checked
  checked_answer user_id id (ok b) = refl
  checked_answer user_id id failed = refl

  miss_asks :
      (s : State) (db : Database) (now : ℕ) (user_id id : String)
      → get_project_accessibility redis s now user_id id ≡ none
      → ((check_project_access_cached redis s db now user_id id).0
          ≡ can_user_access_project db user_id id)
        × ((check_track_access_cached redis s db now user_id id).0
            ≡ can_user_access_track db user_id id)
  unfolding check_project_access_cached check_track_access_cached
  miss_asks s db now user_id id h = (
    rw (h, check_project_access_cached) (checked_answer user_id id _),
    rw (h, check_track_access_cached) (checked_answer user_id id _),
  )

  -- Invalidating a user's access, which is to be called when a permission changes, leaves the
  -- decisions about single projects in the cache: while such a decision lasts, a check goes on
  -- answering it, whatever the database says by then.
  pub check-invalidate :
      (s : State) (db : Database) (now later : ℕ) (user_id project_id : String) (b : Bool)
      → get_project_accessibility redis s later user_id project_id ≡ some b
      → check_project_access_cached redis
          (invalidate_user_access_on_permission_change redis s now user_id)
          db
          later
          user_id
          project_id
        ≡ (ok b, [])
  unfolding invalidate_user_access_on_permission_change
  check-invalidate s db now later user_id project_id b h =
      (hit_answers _ db later user_id project_id b
        (rw (accessibility-invalidate redis s now later user_id project_id) h)).0

  -- The server took the store of this decision.
  abbrev pub Stored : State → ℕ → String → String → Bool → Type 0
  Stored s now user_id id b = (cache_project_accessibility redis s now user_id id b).1 ≡ true

  -- A stored decision is answered for one minute, whatever the database says, and after that a
  -- check gives the answer of the database again.
  pub check-perform :
      (s : State) (db : Database) (now later : ℕ) (user_id project_id : String) (b : Bool)
      → Stored s now user_id project_id b
      → now ≤ later
      → let s' = perform redis s now (accessibility user_id project_id b) in
        (later < now + minute
          → check_project_access_cached redis s' db later user_id project_id ≡ (ok b, []))
        × (now + minute ≤ later
            → (check_project_access_cached redis s' db later user_id project_id).0
              ≡ can_user_access_project db user_id project_id)
  unfolding perform
  check-perform s db now later user_id project_id b done from = (
    λ till.
        (hit_answers _ db later user_id project_id b
          (accessibility-hit redis s now later user_id project_id b done from till)).0,
    λ past.
        (miss_asks _ db later user_id project_id
          (accessibility-expired redis s now later user_id project_id b done past)).0,
  )

  -- Checks of tracks share the keys of checks of projects: a stored decision about a project is
  -- the answer about the track with the same id, whatever the database says of the track.
  pub track_check-perform :
      (s : State) (db : Database) (now later : ℕ) (user_id id : String) (b : Bool)
      → Stored s now user_id id b
      → now ≤ later
      → later < now + minute
      → check_track_access_cached redis
          (perform redis s now (accessibility user_id id b))
          db
          later
          user_id
          id
        ≡ (ok b, [])
  unfolding perform
  track_check-perform s db now later user_id id b done from till =
      (hit_answers _ db later user_id id b
        (accessibility-hit redis s now later user_id id b done from till)).1

  -- What the guard of a project asks of a request.
  abbrev pub IsLetThrough : State → Database → ℕ → Request → Type 0
  IsLetThrough s db now r =
      (user_id : String) × (r.context "user_id" ≡ some user_id)
      × (user_id ≢ "")
      × (r.path_value "project_id" ≢ "")
      × ((check_project_access_cached redis s db now user_id (r.path_value "project_id")).0
          ≡ ok true)

  passes_only :
      (s : State) (db : Database) (now : ℕ) (r r' : Request)
      → (project_access_middleware redis s db now r).0 ≡ next r'
      → (user_id : String) × (r.context "user_id" ≡ some user_id)
        × (user_id ≢ "")
        × (r.path_value "project_id" ≢ "")
        × ((check_project_access_cached redis s db now user_id (r.path_value "project_id")).0
            ≡ ok true)
        × (r' ≡ r)
  unfolding project_access_middleware
  passes_only s db now r r' h = go (r.context "user_id") refl
    where
      go :
          (o : Option String)
          → r.context "user_id" ≡ o
          → (user_id : String) × (r.context "user_id" ≡ some user_id)
            × (user_id ≢ "")
            × (r.path_value "project_id" ≢ "")
            × ((check_project_access_cached redis s db now user_id (r.path_value "project_id")).0
                ≡ ok true)
            × (r' ≡ r)
      go none e = absurd (ground arith)
      go (some user_id) e = (
        user_id,
        e,
        ground (arith, eq_iff user_id ""),
        ground (arith, eq_iff (r.path_value "project_id") ""),
        ground arith,
        ground arith,
      )

  passes_if :
      (s : State) (db : Database) (now : ℕ) (r : Request)
      → IsLetThrough s db now r
      → (project_access_middleware redis s db now r).0 ≡ next r
  unfolding project_access_middleware
  passes_if s db now r (user_id, user, named, project, allowed) =
      ground (arith, eq_iff user_id "", eq_iff (r.path_value "project_id") "")

  -- The guard of a project lets a request through exactly if the request names a user and a project
  -- and the check says yes, and then as it came.
  pub middleware_passes :
      (s : State) (db : Database) (now : ℕ) (r r' : Request)
      → ((project_access_middleware redis s db now r).0 ≡ next r')
        ↔ (IsLetThrough s db now r × (r' ≡ r))
  middleware_passes s db now r r' = (
    λ h.
        let (user_id, user, named, project, allowed, same) = passes_only s db now r r' h in
        ((user_id, user, named, project, allowed), same),
    λ p. passes_if s db now r p.0 ∙ ap next (sym p.1),
  )

  pub preload_asks :
      (s : State) (db : Database) (now : ℕ) (user_id : String)
      → get_user_project_access_list redis s now user_id ≡ none
      → (preload_user_project_access_list redis s db now user_id).0
        ≡ AccessLists.get_user_project_access_list db user_id
  unfolding preload_user_project_access_list loaded
  preload_asks s db now user_id h = rw (h, preload_user_project_access_list) (ground arith)

  -- The lists, unlike the single decisions, are fresh after an invalidation that the server took.
  pub preload-invalidate :
      (s : State) (db : Database) (now later : ℕ) (user_id : String)
      → (del s now (project_access_key user_id ∷ track_access_key user_id ∷ [])).1 ≡ true
      → (preload_user_project_access_list redis
          (invalidate_user_access_on_permission_change redis s now user_id)
          db
          later
          user_id).0
        ≡ AccessLists.get_user_project_access_list db user_id
  unfolding invalidate_user_access_on_permission_change
  preload-invalidate s db now later user_id h =
      preload_asks _ db later user_id (project_list-invalidate redis s now later user_id h)
