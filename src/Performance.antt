-- ===== src/Performance.antt =====
-- backend/internal/performance/batch_access_checker.go: many access checks by one list. The map
-- `projectAccessMap` is a `Dict Bool`; a missing key reads as false.
pub mod Laws
mod Tests
use purp_tape.Base.{
  ℕ, Bool, true, false, String, none, some, List, [], ◌∷◌, if◌then◌else◌, Dict, empty, insert,
}
use purp_tape.Base.Int.{ℤ, pos, le_int}
use purp_tape.Db.{Database, Project, DbResult, ok, failed}
use purp_tape.Cache.Redis.{Redis}
use purp_tape.Middleware.AccessCheck.{Store, preload_user_project_access_list}

pub record Track : Type 0 where
  pub id : String
  pub project_id : String

access_map : List String → Dict Bool
access_map [] = empty
access_map (project_id ∷ ids) = insert project_id true (access_map ids)

-- projectAccessMap[key]
abbrev read : Dict Bool → String → Bool
read m key = elim (m key) [ none ↦ false | some b ↦ b ]

accessible_tracks : Dict Bool → List Track → List Track
accessible_tracks m [] = []
accessible_tracks m (track ∷ tracks) =
    let rest = accessible_tracks m tracks in if read m track.project_id then track ∷ rest else rest

accessible_projects : Dict Bool → List Project → List Project
accessible_projects m [] = []
accessible_projects m (project ∷ projects) =
    let rest = accessible_projects m projects in if read m project.id then project ∷ rest else rest

-- for _, projectID := range projectIDs { result[projectID] = accessibleSet[projectID] }
results : Dict Bool → Dict Bool → List String → Dict Bool
results m result [] = result
results m result (project_id ∷ ids) = results m (insert project_id (read m project_id) result) ids

after {ℓ} :
    {A : Type ℓ} → (List String → A) → DbResult (List String) × List Store → DbResult A × List Store
after f (failed, stores) = (failed, stores)
after f (ok ids, stores) = (ok (f ids), stores)

module _ (redis : Redis) where
  open redis use {State}

  pub filter_accessible_tracks :
      State → Database → ℕ → String → List Track → DbResult (List Track) × List Store
  unfolding after access_map accessible_tracks
  filter_accessible_tracks s db now user_id tracks =
      after (λ ids. accessible_tracks (access_map ids) tracks)
        (preload_user_project_access_list redis s db now user_id)

  pub filter_accessible_projects :
      State → Database → ℕ → String → List Project → DbResult (List Project) × List Store
  unfolding after access_map accessible_projects
  filter_accessible_projects s db now user_id projects =
      after (λ ids. accessible_projects (access_map ids) projects)
        (preload_user_project_access_list redis s db now user_id)

  -- `max_concurrent` is given a default and is not used after that.
  pub parallel_access_check :
      State → Database → ℕ → String → List String → ℤ → DbResult (Dict Bool) × List Store
  unfolding after access_map results
  parallel_access_check s db now user_id project_ids max_concurrent =
      let concurrent = if le_int max_concurrent (pos 0) then pos 10 else max_concurrent in
      after (λ ids. results (access_map ids) empty project_ids)
        (preload_user_project_access_list redis s db now user_id)
