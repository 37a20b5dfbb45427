-- ===== src/Performance/Laws.antt =====
-- performance/batch_access_checker.go: the batch checks and the check of a single project.
use purp_tape.Base.{
  ℕ, ◌≡◌, refl, ap, ◌∙◌, Bool, true, false, String, Option, none, some, List, [], ◌∷◌, arith,
  eq_iff, str_eq, if◌then◌else◌, Dict, insert,
}
use purp_tape.Db.{Database, ok, failed}
use purp_tape.Db.AccessLists.{contains, project_ids, has_project, can_user_access_project}
use purp_tape.Db.AccessLists
use purp_tape.Db.AccessLists.Laws.{Checked, contains-project_ids}
use purp_tape.Cache.Redis.{Redis}
use purp_tape.Cache.AccessList.{get_user_project_access_list}
use purp_tape.Middleware.AccessCheck.{preload_user_project_access_list}
use purp_tape.Middleware.AccessCheck.Laws.{preload_asks}
use purp_tape.Performance.{
  Track, access_map, read, accessible_tracks, after, filter_accessible_tracks,
}

read_some :
    (c b : Bool) (o : Option Bool)
    → elim (if c then some b else o) as (λ x. Bool) [ none ↦ false | some b ↦ b ]
      ≡ (if c then b else elim o as (λ x. Bool) [ none ↦ false | some b ↦ b ])
read_some true b o = refl
read_some false b o = refl

read-insert :
    (k j : String) (b : Bool) (m : Dict Bool)
    → read (insert k b m) j ≡ (if str_eq k j then b else read m j)
read-insert k j b m = read_some (str_eq k j) b (m j)

read-access_map : (ids : List String) (id : String) → read (access_map ids) id ≡ contains ids id
unfolding access_map contains
read-access_map [] id = refl
read-access_map (x ∷ ids) id =
    read-insert x id true (access_map ids) ∙ ground (arith, eq_iff x id, read-access_map ids id)

-- The tracks of the list whose project the database says the user may access.
pub allowed : Database → String → List Track → List Track
allowed db user_id [] = []
allowed db user_id (track ∷ tracks) =
    let rest = allowed db user_id tracks in
    elim (can_user_access_project db user_id track.project_id) [
      | ok has_access ↦ if has_access then track ∷ rest else rest
      | failed ↦ rest
    ]

tracks_allowed :
    (db : Database) (user_id : String) (tracks : List Track)
    → db.available ≡ true
    → Checked db.user_project_access
    → accessible_tracks (access_map (project_ids user_id db.user_project_access)) tracks
      ≡ allowed db user_id tracks
unfolding accessible_tracks allowed can_user_access_project
tracks_allowed db user_id [] up checked = refl
tracks_allowed db user_id (t ∷ tracks) up checked = ground (
  arith,
  tracks_allowed db user_id tracks up checked,
  read-access_map (project_ids user_id db.user_project_access) t.project_id,
  contains-project_ids user_id t.project_id db.user_project_access checked,
)

module _ (redis : Redis) where
  open redis use {State}

  after_preload {ℓ} :
      {A : Type ℓ} (f : List String → A) (s : State) (db : Database) (now : ℕ) (user_id : String)
      → get_user_project_access_list redis s now user_id ≡ none
      → db.available ≡ true
      → (after f (preload_user_project_access_list redis s db now user_id)).0
        ≡ ok (f (project_ids user_id db.user_project_access))
  unfolding after AccessLists.get_user_project_access_list
  after_preload f s db now user_id miss up =
      ground (arith, preload_asks redis s db now user_id miss)

  -- Where the cache holds no list for the user and the database is reached, filtering keeps, in
  -- order, exactly the tracks whose project the single check of the database allows. The rows of
  -- the access table have an access type that its CHECK constraint admits.
  pub filter_accessible_tracks-allowed :
      (s : State) (db : Database) (now : ℕ) (user_id : String) (tracks : List Track)
      → get_user_project_access_list redis s now user_id ≡ none
      → db.available ≡ true
      → Checked db.user_project_access
      → (filter_accessible_tracks redis s db now user_id tracks).0 ≡ ok (allowed db user_id tracks)
  unfolding filter_accessible_tracks
  filter_accessible_tracks-allowed s db now user_id tracks miss up checked =
      after_preload (λ ids. accessible_tracks (access_map ids) tracks) s db now user_id miss up
      ∙ ap ok (tracks_allowed db user_id tracks up checked)
