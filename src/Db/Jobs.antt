-- ===== src/Db/Jobs.antt =====
-- The background_jobs queries of backend/internal/db/queries_access.go. The table is the list of
-- its rows in the order of created_at. RETURNING promises no order; of the orders that it may have the
-- model takes that of the table, as the jobs of a batch run side by side. A claim is one step, so
-- that no row is held by another transaction; whether a statement reaches the database is told to
-- its caller in backend/internal/jobs.
pub mod Laws
pub mod Claims
use purp_tape.Base.{
  ℕ, zero, suc, ◌+◌, Bool, true, false, ◌&&◌, String, Option, none, some, List, [], ◌∷◌, ◌++◌,
  str_eq, if◌then◌else◌, ltb, leb, ◌==◌, Dict,
}
use purp_tape.Base.Int.{ℤ, pos, negsuc, le_int}

pub data Status : Type 0 where
  pending : Status
  processing : Status
  completed : Status
  failed : Status

-- `payload` is the JSON in the column: `none` where it is no object, else its strings.
pub record JobData : Type 0 where
  pub id : String
  pub job_type : String
  pub payload : Option (Dict String)
  pub status : Status
  pub attempts : ℕ
  pub max_attempts : ℕ

-- status = 'pending' AND attempts < max_attempts
unfoldable pub claimable : JobData → Bool
claimable job = elim job.status [
  | pending ↦ ltb job.attempts job.max_attempts
  | processing ↦ false
  | completed ↦ false
  | failed ↦ false
]

-- The first `limit` claimable rows, in the order of the table, become processing and are returned.
unfoldable pub claim : ℕ → List JobData → List JobData × List JobData
unfolding claimable
claim limit [] = ([], [])
claim zero (job ∷ table) = (job ∷ table, [])
claim (suc limit) (job ∷ table) =
    let rest = claim (if claimable job then limit else suc limit) table in
    let job' = record job { status = processing } in
    if claimable job then (job' ∷ rest.0, job' ∷ rest.1) else (job ∷ rest.0, rest.1)

-- limit <= 0 is 10.
unfoldable pub limit_of : ℤ → ℕ
limit_of (pos zero) = 10
limit_of (pos (suc n)) = suc n
limit_of (negsuc n) = 10

unfoldable pub claim_pending_jobs : List JobData → ℤ → List JobData × List JobData
unfolding claim limit_of
claim_pending_jobs table limit = claim (limit_of limit) table

-- maxAttempts <= 0 is 3.
max_of : ℤ → ℕ
max_of (pos zero) = 3
max_of (pos (suc n)) = suc n
max_of (negsuc n) = 3

-- `id` is the key that the database generates.
pub create_background_job : List JobData → String → String → Option (Dict String) → ℤ → List JobData
unfolding max_of
create_background_job table id job_type payload max_attempts =
    table
    ++ (record {
      id = id;
      job_type = job_type;
      payload = payload;
      status = pending;
      attempts = 0;
      max_attempts = max_of max_attempts;
    }
        ∷ [])

-- UPDATE … WHERE id = $1
unfoldable pub update_job : (JobData → JobData) → String → List JobData → List JobData
update_job f job_id [] = []
update_job f job_id (job ∷ table) =
    let rest = update_job f job_id table in
    if str_eq job.id job_id then f job ∷ rest else job ∷ rest

abbrev pub completed_job : JobData → JobData
completed_job job = record job { status = completed }

abbrev pub failed_job : JobData → JobData
failed_job job = record job {
  status = if leb job.max_attempts (job.attempts + 1) then failed else pending;
  attempts = job.attempts + 1;
}

unfoldable pub mark_job_completed : List JobData → String → List JobData
unfolding update_job
mark_job_completed table job_id = update_job completed_job job_id table

unfoldable pub mark_job_failed : List JobData → String → List JobData
unfolding update_job
mark_job_failed table job_id = update_job failed_job job_id table
