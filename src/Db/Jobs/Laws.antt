-- ===== src/Db/Jobs/Laws.antt =====
-- db/queries_access.go: the attempts of the rows of background_jobs.
use purp_tape.Base.{
  ℕ, zero, suc, ◌+◌, ◌≤◌, ◌<◌, ◌≡◌, subst, inl, inr, true, String, Option, List, [], ◌∷◌, arith,
  eq_iff, str_eq, leb, Bool-cases, All, All-append, Dict,
}
use purp_tape.Base.Int.{ℤ, pos, negsuc}
use purp_tape.Db.Jobs.{
  JobData, Status, pending, processing, completed, failed, claimable, claim, limit_of,
  claim_pending_jobs, max_of, create_background_job, update_job, completed_job, failed_job,
  mark_job_completed, mark_job_failed,
}

-- A job that waits or runs has an attempt left, and one that has failed has none.
unfoldable pub Counts : Status → ℕ → ℕ → Type 0
Counts pending attempts max = attempts < max
Counts processing attempts max = attempts < max
Counts completed attempts max = attempts ≤ max
Counts failed attempts max = attempts ≡ max

unfoldable pub IsSound : JobData → Type 0
unfolding Counts
IsSound job = Counts job.status job.attempts job.max_attempts

-- Every row of this key is being processed.
abbrev pub IsRunning : String → List JobData → Type 0
IsRunning id table = All (λ job. job.id ≡ id → job.status ≡ processing) table

pub create_background_job-IsSound :
    (table : List JobData) (id job_type : String) (payload : Option (Dict String)) (max : ℤ)
    → All IsSound table
    → All IsSound (create_background_job table id job_type payload max)
unfolding create_background_job IsSound Counts max_of
create_background_job-IsSound table id job_type payload (pos zero) sound =
    All-append IsSound table _ sound (omega arith, tt)
create_background_job-IsSound table id job_type payload (pos (suc n)) sound =
    All-append IsSound table _ sound (omega arith, tt)
create_background_job-IsSound table id job_type payload (negsuc n) sound =
    All-append IsSound table _ sound (omega arith, tt)

started-IsSound :
    (job : JobData) → claimable job ≡ true → IsSound (record job { status = processing })
unfolding claimable IsSound Counts
started-IsSound job h = ground arith

claim-IsSound :
    (table : List JobData) (limit : ℕ) → All IsSound table → All IsSound (claim limit table).0
unfolding claim
claim-IsSound [] zero sound = tt
claim-IsSound [] (suc limit) sound = tt
claim-IsSound (job ∷ table) zero sound = sound
claim-IsSound (job ∷ table) (suc limit) (here, rest) = elim (Bool-cases (claimable job)) [
  | inl h ↦ rw h (started-IsSound job h, claim-IsSound table limit rest)
  | inr h ↦ rw h (here, claim-IsSound table (suc limit) rest)
]

-- A claim leaves every row sound.
pub claim_pending_jobs-IsSound :
    (table : List JobData) (limit : ℤ)
    → All IsSound table
    → All IsSound (claim_pending_jobs table limit).0
unfolding claim_pending_jobs
claim_pending_jobs-IsSound table limit sound = claim-IsSound table (limit_of limit) sound

update_job-IsSound :
    (f : JobData → JobData) (table : List JobData) (id : String)
    → ((job : JobData) → job.status ≡ processing → IsSound job → IsSound (f job))
    → IsRunning id table
    → All IsSound table
    → All IsSound (update_job f id table)
unfolding update_job
update_job-IsSound f [] id keeps running sound = tt
update_job-IsSound f (job ∷ table) id keeps (runs, running) (here, sound) =
    elim (Bool-cases (str_eq job.id id)) [
      | inl h ↦ rw h (
        keeps job (runs (ground (arith, eq_iff job.id id))) here,
        update_job-IsSound f table id keeps running sound,
      )
      | inr h ↦ rw h (here, update_job-IsSound f table id keeps running sound)
    ]

running_lt :
    (job : JobData) → job.status ≡ processing → IsSound job → job.attempts < job.max_attempts
unfolding IsSound Counts
running_lt job runs sound = subst (λ s. Counts s job.attempts job.max_attempts) runs sound

completed_job-IsSound :
    (job : JobData) → job.status ≡ processing → IsSound job → IsSound (completed_job job)
unfolding IsSound Counts
completed_job-IsSound job runs sound = omega (arith, running_lt job runs sound)

failed_job-IsSound :
    (job : JobData) → job.status ≡ processing → IsSound job → IsSound (failed_job job)
unfolding IsSound Counts
failed_job-IsSound job runs sound =
    let lt = running_lt job runs sound in
    elim (Bool-cases (leb job.max_attempts (job.attempts + 1))) [
      | inl h ↦ rw h (ground arith)
      | inr h ↦ rw h (ground arith)
    ]

-- Marking a job that is being processed as completed or failed leaves every row sound: no job is
-- counted past its attempts, and a failed job goes back to the queue exactly while it has some left.
pub mark_job-IsSound :
    (table : List JobData) (id : String)
    → IsRunning id table
    → All IsSound table
    → All IsSound (mark_job_completed table id) × All IsSound (mark_job_failed table id)
unfolding mark_job_completed mark_job_failed
mark_job-IsSound table id running sound = (
  update_job-IsSound completed_job table id completed_job-IsSound running sound,
  update_job-IsSound failed_job table id failed_job-IsSound running sound,
)
