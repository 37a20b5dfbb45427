-- ===== src/Jobs/Tests.antt =====
-- Batches on a concrete table, and the sleeps between batches.
use purp_tape.Base.{
  ◌≡◌, refl, ◌≢◌, inl, String, some, List, [], ◌∷◌, All, arith, eq_iff, true, empty,
}
use purp_tape.Base.Int.{pos}
use purp_tape.Db.Jobs.{JobData, pending, claim_pending_jobs}
use purp_tape.Db.Jobs.Laws.{IsSound, Counts}
use purp_tape.Db.Jobs.Claims.{IsClaim, claim_pending_jobs-IsClaim}
use purp_tape.Jobs.{
  Answers, Host, allow, outcome, run, cleanup_r2_file, is_expensive_fin_ops_job, process_batch,
}
use purp_tape.Jobs.Laws.{process_batch-IsSound, rounds, tried, rounds-failing}

abbrev job : String → String → JobData
job id job_type = record {
  id = id;
  job_type = job_type;
  payload = some empty;
  status = pending;
  attempts = 0;
  max_attempts = 3;
}

abbrev table : List JobData
table = job "j1" "cleanup_r2_file" ∷ job "j2" "generate_waveform" ∷ []

abbrev host : Host
host = record {
  delete_file = true;
  look_path = true;
  mkdir_temp = true;
  create = true;
  download = true;
  close = true;
  ffmpeg = true;
  open_output = true;
  upload = true;
}

abbrev answers : Answers
answers = record { guard = allow; host = host; reached = true }

claim_pending_jobs-IsClaim_example :
    IsClaim 1 table (claim_pending_jobs table (pos 1)).0 (claim_pending_jobs table (pos 1)).1
claim_pending_jobs-IsClaim_example =
    claim_pending_jobs-IsClaim table (pos 1) 1 (inl (refl, omega arith))

job-IsSound : (id job_type : String) → IsSound (job id job_type)
unfolding IsSound Counts
job-IsSound id job_type = omega arith

other_id : ◌≢◌ {A = String} "j2" "j1"
other_id e = ground (arith, eq_iff "j2" "j1")

process_batch-IsSound_example : All IsSound (process_batch table (pos 10) true (λ j. answers)).0
process_batch-IsSound_example =
    process_batch-IsSound table (pos 10) true (λ j. answers) ((other_id, tt), (tt, tt))
      (job-IsSound "j1" "cleanup_r2_file", (job-IsSound "j2" "generate_waveform", tt))

-- The payload names no object, so that the job fails each time.
rounds-failing_example :
    rounds 3 answers (job "j1" "cleanup_r2_file" ∷ []) ≡ tried (job "j1" "cleanup_r2_file") 3 ∷ []
unfolding outcome run cleanup_r2_file is_expensive_fin_ops_job
rounds-failing_example =
    rounds-failing 3 (job "j1" "cleanup_r2_file") answers "missing r2_object_key in job data" refl
      (omega arith) refl refl
