-- ===== src/Jobs/Laws.antt =====
-- What a batch makes of the table.
use purp_tape.Base.{
  ℕ, zero, suc, ◌+◌, ◌<◌, ◌≡◌, refl, sym, ap, ap₂, ◌∙◌, subst, ◌≢◌, inl, inr, Bool, true, false,
  String, List, [], ◌∷◌, min, arith, eq_iff, eq_refl, str_eq, if◌then◌else◌, Bool-cases, leb,
  lt→ltb, All,
}
use purp_tape.Base.Int.{ℤ, pos}
use purp_tape.Db.Jobs.{
  JobData, Status, pending, failed, claim_pending_jobs, claim, claimable, limit_of, update_job,
  completed_job, failed_job, mark_job_completed, mark_job_failed,
}
use purp_tape.Db.Jobs.Laws.{IsSound, IsRunning, mark_job-IsSound, claim_pending_jobs-IsSound}
use purp_tape.Db.Jobs.Claims.{started, claimed-IsRunning, Distinct}
use purp_tape.Jobs.{
  Outcome, done, skipped, fails, Guard, run, Answers, Host, outcome, mark, process_job, process_all,
  with_answers, process_batch,
}

-- The change that the end of a job makes to its row.
change : Bool → Outcome → JobData → JobData
change true done = completed_job
change true skipped = completed_job
change true (fails message) = failed_job
change false o = λ row. row

ended : JobData → Answers → JobData → JobData
unfolding change
ended job a = change a.reached (outcome a.guard a.host job)

update_job-id : (id : String) (table : List JobData) → update_job (λ row. row) id table ≡ table
unfolding update_job
update_job-id id [] = refl
update_job-id id (job ∷ table) = ground (arith, update_job-id id table)

change-id : (reached : Bool) (o : Outcome) (row : JobData) → (change reached o row).id ≡ row.id
unfolding change
change-id true done row = refl
change-id true skipped row = refl
change-id true (fails message) row = refl
change-id false o row = refl

mark-change :
    (table : List JobData) (job : JobData) (reached : Bool) (o : Outcome)
    → mark table job reached o ≡ update_job (change reached o) job.id table
unfolding mark change mark_job_completed mark_job_failed
mark-change table job true done = refl
mark-change table job true skipped = refl
mark-change table job true (fails message) = refl
mark-change table job false done = sym (update_job-id job.id table)
mark-change table job false skipped = sym (update_job-id job.id table)
mark-change table job false (fails message) = sym (update_job-id job.id table)

ended-id : (job : JobData) (a : Answers) (row : JobData) → (ended job a row).id ≡ row.id
unfolding ended
ended-id job a row = change-id a.reached (outcome a.guard a.host job) row

process_job-ended :
    (table : List JobData) (job : JobData) (a : Answers)
    → process_job table job a ≡ update_job (ended job a) job.id table
unfolding process_job ended
process_job-ended table job a = mark-change table job a.reached (outcome a.guard a.host job)

mark-IsSound :
    (table : List JobData) (job : JobData) (reached : Bool) (o : Outcome)
    → IsRunning job.id table
    → All IsSound table
    → All IsSound (mark table job reached o)
unfolding mark
mark-IsSound table job true done running sound = (mark_job-IsSound table job.id running sound).0
mark-IsSound table job true skipped running sound = (mark_job-IsSound table job.id running sound).0
mark-IsSound table job true (fails message) running sound =
    (mark_job-IsSound table job.id running sound).1
mark-IsSound table job false done running sound = sound
mark-IsSound table job false skipped running sound = sound
mark-IsSound table job false (fails message) running sound = sound

-- A change to the rows of one key leaves those of another one being processed.
update_job-IsRunning :
    (f : JobData → JobData) (i j : String) (table : List JobData)
    → ((row : JobData) → (f row).id ≡ row.id)
    → j ≢ i
    → IsRunning j table
    → IsRunning j (update_job f i table)
unfolding update_job
update_job-IsRunning f i j [] hf apart running = tt
update_job-IsRunning f i j (row ∷ table) hf apart (runs, running) =
    elim (Bool-cases (str_eq row.id i)) [
      | inl h ↦ rw h (
        λ e. absurd (apart (sym e ∙ hf row ∙ ground (arith, eq_iff row.id i))),
        update_job-IsRunning f i j table hf apart running,
      )
      | inr h ↦ rw h (runs, update_job-IsRunning f i j table hf apart running)
    ]

still-IsRunning :
    (table : List JobData) (job : JobData) (a : Answers) (jobs : List JobData)
    → All (λ c. c.id ≢ job.id) jobs
    → All (λ c. IsRunning c.id table) jobs
    → All (λ c. IsRunning c.id (process_job table job a)) jobs
still-IsRunning table job a [] apart running = tt
still-IsRunning table job a (c ∷ jobs) (here, apart) (runs, running) = (
  subst (IsRunning c.id) (sym (process_job-ended table job a))
      (update_job-IsRunning (ended job a) job.id c.id table (ended-id job a) here runs),
  still-IsRunning table job a jobs apart running,
)

process_all-IsSound :
    (jobs : List JobData) (table : List JobData) (answers : JobData → Answers)
    → Distinct jobs
    → All (λ c. IsRunning c.id table) jobs
    → All IsSound table
    → All IsSound (process_all table (with_answers answers jobs))
unfolding process_all with_answers process_job
process_all-IsSound [] table answers distinct running sound = sound
process_all-IsSound (job ∷ jobs) table answers (apart, distinct) (runs, running) sound =
    let a = answers job in
    process_all-IsSound jobs (process_job table job a) answers distinct
      (still-IsRunning table job a jobs apart running)
      (mark-IsSound table job a.reached (outcome a.guard a.host job) runs sound)

-- Whatever the jobs of a batch meet, a table of sound rows with distinct keys stays sound: every job
-- that waits or runs has an attempt left, and a failed one has used them all.
pub process_batch-IsSound :
    (table : List JobData) (batch_size : ℤ) (reached : Bool) (answers : JobData → Answers)
    → Distinct table
    → All IsSound table
    → All IsSound (process_batch table batch_size reached answers).0
unfolding process_batch
process_batch-IsSound table batch_size false answers distinct sound = sound
process_batch-IsSound table batch_size true answers distinct sound =
    let claimed = claimed-IsRunning table batch_size distinct in
    process_all-IsSound (claim_pending_jobs table batch_size).1
      (claim_pending_jobs table batch_size).0 answers claimed.1 claimed.0
      (claim_pending_jobs-IsSound table batch_size sound)

-- Batches of one job, which meets the same answers each time.
pub rounds : ℕ → Answers → List JobData → List JobData
unfolding process_batch
rounds zero a table = table
rounds (suc n) a table = rounds n a (process_batch table (pos 1) true (λ job. a)).0

claim_one :
    (job : JobData)
    → claimable job ≡ true
    → claim_pending_jobs (job ∷ []) (pos 1) ≡ (started job ∷ [], started job ∷ [])
unfolding claim_pending_jobs claim limit_of
claim_one job h = rw h

fail_one :
    (job : JobData) (a : Answers) (message : String)
    → a.reached ≡ true
    → outcome a.guard a.host job ≡ fails message
    → process_job (job ∷ []) job a ≡ failed_job job ∷ []
unfolding update_job ended change
fail_one job a message reached wrong = process_job-ended (job ∷ []) job a ∙ changed
  where
    changed : update_job (ended job a) job.id (job ∷ []) ≡ failed_job job ∷ []
    changed = rw (eq_refl job.id) (ap (λ f. f job ∷ []) (ap₂ change reached wrong))

outcome-started :
    (g : Guard) (h : Host) (job : JobData) → outcome g h (started job) ≡ outcome g h job
unfolding outcome run
outcome-started g h job = refl

-- A round in which the only job of the table fails.
failing_round :
    (job : JobData) (a : Answers) (message : String)
    → claimable job ≡ true
    → a.reached ≡ true
    → outcome a.guard a.host job ≡ fails message
    → (process_batch (job ∷ []) (pos 1) true (λ j. a)).0 ≡ failed_job job ∷ []
unfolding process_batch process_all with_answers
failing_round job a message waits reached wrong =
    ap (λ c. process_all c.0 (with_answers (λ j. a) c.1)) (claim_one job waits)
    ∙ fail_one (started job) a message reached (outcome-started a.guard a.host job ∙ wrong)

-- A job that may not run stays as it is.
resting_rounds :
    (n : ℕ) (job : JobData) (a : Answers) → claimable job ≡ false → rounds n a (job ∷ []) ≡ job ∷ []
unfolding rounds process_batch process_all with_answers claim_pending_jobs claim limit_of
resting_rounds zero job a rests = refl
resting_rounds (suc n) job a rests = rw rests (resting_rounds n job a rests)

-- The job after `n` failures.
abbrev pub tried : JobData → ℕ → JobData
tried job n = record job {
  status = if leb job.max_attempts (job.attempts + n) then failed else pending;
  attempts = min job.max_attempts (job.attempts + n);
}

abbrev with_state : JobData → Status → ℕ → JobData
with_state job s n = record job { status = s; attempts = n }

ran_out :
    (job : JobData) (n : ℕ)
    → job.attempts < job.max_attempts
    → leb job.max_attempts (job.attempts + 1) ≡ true
    → failed_job job ≡ tried job (suc n)
ran_out job n left h = ap₂ (with_state job) (ground arith) (ground arith)

tried-failed_job :
    (job : JobData) (n : ℕ)
    → leb job.max_attempts (job.attempts + 1) ≡ false
    → tried (failed_job job) n ≡ tried job (suc n)
tried-failed_job job n h = ap₂ (with_state job) (ground arith) (ground arith)

-- A job alone in the table, which fails by the same answers in every round, is tried once in each of
-- successive batches of one job, all of whose statements are executed, until it has used up its attempts:
-- after fewer failures than that it waits, and after so many it is failed and is not run again.
pub rounds-failing :
    (n : ℕ) (job : JobData) (a : Answers) (message : String)
    → job.status ≡ pending
    → job.attempts < job.max_attempts
    → a.reached ≡ true
    → outcome a.guard a.host job ≡ fails message
    → rounds n a (job ∷ []) ≡ tried job n ∷ []
unfolding rounds claimable outcome run
rounds-failing zero job a message waits left reached wrong =
    ap (λ j. j ∷ []) (ap₂ (with_state job) (waits ∙ ground arith) (ground arith))
rounds-failing (suc n) job a message waits left reached wrong =
    ap (rounds n a) (failing_round job a message (rw waits (lt→ltb _ _ left)) reached wrong)
    ∙ elim (Bool-cases (leb job.max_attempts (job.attempts + 1))) [
      | inl h ↦
          resting_rounds n (failed_job job) a (rw h refl) ∙ ap (λ j. j ∷ []) (ran_out job n left h)
      | inr h ↦
          rounds-failing n (failed_job job) a message (rw h refl) (ground arith) reached wrong
          ∙ ap (λ j. j ∷ []) (tried-failed_job job n h)
    ]
