-- ===== src/Cache/AccessList/Keys.antt =====
-- The keys of a user's entries, and what invalidation does to them.
use Prim.Native.Char.{code}
use Prim.Native.String
use text.Mathlib.TextLemmas.{append_cancel_left, cons-append}
use purp_tape.Base.{
  ℕ, ◌+◌, ◌≤◌, ◌<◌, ◌≡◌, refl, ◌≢◌, inl, inr, ap, ◌∙◌, Bool, true, false, String, none, some, [],
  ◌∷◌, arith,
}
use purp_tape.Cache.Redis.{Redis, In, flag}
use purp_tape.Cache.AccessList.{
  project_access_key, track_access_key, accessibility_key, get_project_accessibility,
  invalidate_user_access_cache, get_user_project_access_list, read_flag,
  cache_project_accessibility, minute,
}

-- The code point of the second character.
abbrev second : String → ℕ
second String.[] = 0
second (String.◌∷◌ c String.[]) = 0
second (String.◌∷◌ c (String.◌∷◌ d s)) = code d

second_of_access : (project_id : String) → second (String.◌++◌ ":access:project:" project_id) ≡ b'a'
second_of_access project_id = rw cons-append (rw cons-append)

accessibility_key-other :
    (user_id project_id other : String)
    → second other ≢ b'a'
    → String.◌++◌ "user:" (String.◌++◌ user_id other) ≢ accessibility_key user_id project_id
accessibility_key-other user_id project_id other h e = h (
    ap second (append_cancel_left user_id _ _ (append_cancel_left "user:" _ _ e))
    ∙ second_of_access project_id)

-- The key of a decision about one project is none of the keys that invalidation removes.
pub accessibility_key-kept :
    (user_id project_id : String)
    → ¬ In
        (accessibility_key user_id project_id)
        (project_access_key user_id ∷ track_access_key user_id ∷ [])
accessibility_key-kept user_id project_id (inl e) =
    accessibility_key-other user_id project_id ":project_access" (omega arith) e
accessibility_key-kept user_id project_id (inr (inl e)) =
    accessibility_key-other user_id project_id ":track_access" (omega arith) e
accessibility_key-kept user_id project_id (inr (inr none_left)) = none_left

module _ (redis : Redis) where
  open redis use {State, del, get_set, get_expired, get_del, get_del_other}

  pub accessibility-invalidate :
      (s : State) (now later : ℕ) (user_id project_id : String)
      → get_project_accessibility redis
          (invalidate_user_access_cache redis s now user_id)
          later
          user_id
          project_id
        ≡ get_project_accessibility redis s later user_id project_id
  unfolding get_project_accessibility invalidate_user_access_cache
  accessibility-invalidate s now later user_id project_id =
      rw (get_del_other s now later _ _ (accessibility_key-kept user_id project_id))

  pub project_list-invalidate :
      (s : State) (now later : ℕ) (user_id : String)
      → (del s now (project_access_key user_id ∷ track_access_key user_id ∷ [])).1 ≡ true
      → get_user_project_access_list redis
          (invalidate_user_access_cache redis s now user_id)
          later
          user_id
        ≡ none
  unfolding get_user_project_access_list invalidate_user_access_cache
  project_list-invalidate s now later user_id h =
      rw (get_del s now later _ (project_access_key user_id) h (inl refl))

  -- A decision that the server took is read back for a minute, and not after.
  pub accessibility-hit :
      (s : State) (now later : ℕ) (user_id id : String) (b : Bool)
      → (cache_project_accessibility redis s now user_id id b).1 ≡ true
      → now ≤ later
      → later < now + minute
      → get_project_accessibility redis
          (cache_project_accessibility redis s now user_id id b).0
          later
          user_id
          id
        ≡ some b
  unfolding get_project_accessibility cache_project_accessibility read_flag
  accessibility-hit s now later user_id id true done from till =
      rw (get_set s now later minute (accessibility_key user_id id) (flag "1") done from till)
  accessibility-hit s now later user_id id false done from till =
      rw (get_set s now later minute (accessibility_key user_id id) (flag "0") done from till)

  pub accessibility-expired :
      (s : State) (now later : ℕ) (user_id id : String) (b : Bool)
      → (cache_project_accessibility redis s now user_id id b).1 ≡ true
      → now + minute ≤ later
      → get_project_accessibility redis
          (cache_project_accessibility redis s now user_id id b).0
          later
          user_id
          id
        ≡ none
  unfolding get_project_accessibility cache_project_accessibility read_flag
  accessibility-expired s now later user_id id true done past =
      rw (get_expired s now later minute (accessibility_key user_id id) (flag "1") done past)
  accessibility-expired s now later user_id id false done past =
      rw (get_expired s now later minute (accessibility_key user_id id) (flag "0") done past)
