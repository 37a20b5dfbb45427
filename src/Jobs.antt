-- ===== src/Jobs.antt =====
-- backend/internal/jobs/processor.go: the background job processor. What the host and the object
-- store answer is a `Host`, the answer of the cost guard (finops/policy.go), which reads the tables, is a
-- `Guard`, given for each job, and whether the closing
-- statement reaches the database is a Boolean. The workers take the jobs of a batch from a channel:
-- a batch is their jobs in the order in which they finish.
pub mod Backoff
pub mod Laws
mod Tests
use purp_tape.Base.{
  ℕ, zero, suc, ◌+◌, Bool, true, false, ◌||◌, String, Option, none, some, List, [], ◌∷◌, str_eq,
  if◌then◌else◌, ltb, Dict, length,
}
use purp_tape.Base.Int.{ℤ, pos, le_int}
use purp_tape.Base.Text.{len, trim_space}
use purp_tape.Db.Jobs.{
  JobData, Status, claim_pending_jobs, create_background_job, mark_job_completed, mark_job_failed,
}

pub data Guard : Type 0 where
  guard_error : Guard
  allow : Guard
  block : Guard

-- Whether each outside call of a job succeeds, in the order of the calls.
pub record Host : Type 0 where
  pub delete_file : Bool
  pub look_path : Bool
  pub mkdir_temp : Bool
  pub create : Bool
  pub download : Bool
  pub close : Bool
  pub ffmpeg : Bool
  pub open_output : Bool
  pub upload : Bool

pub record JobProcessor : Type 0 where
  pub worker_concurrency : ℤ
  pub batch_size : ℤ

pub new_job_processor : ℤ → ℤ → JobProcessor
new_job_processor worker_concurrency batch_size = record {
  worker_concurrency = if le_int worker_concurrency (pos 0) then pos 1 else worker_concurrency;
  batch_size = if le_int batch_size (pos 0) then pos 10 else batch_size;
}

-- A job's result, or the start of its error's message.
pub data Outcome : Type 0 where
  done : Outcome
  skipped : Outcome
  fails : String → Outcome

abbrev pub string_of : Option (Dict String) → String → Option String
string_of none key = none
string_of (some m) key = m key

-- A step that fails ends the job; else the next one runs.
step : Bool → String → Outcome → Outcome
step b message next = if b then next else fails message

pub cleanup_r2_file : Host → Option (Dict String) → Outcome
unfolding step
cleanup_r2_file host none = fails "failed to parse job data"
cleanup_r2_file host (some m) = elim (m "r2_object_key") [
  | none ↦ fails "missing r2_object_key in job data"
  | some key ↦
      if str_eq key ""
      then fails "missing r2_object_key in job data"
      else if ltb (len key) 10 || ltb 1024 (len key)
      then fails "invalid r2_object_key length"
      else step host.delete_file "failed to delete file from R2" done
]

-- What the two conversions share after their reads of the data: temporary files, a download, a run
-- of ffmpeg and an upload.
converted : Host → String → String → String → String → String → String → Outcome
unfolding step
converted host temp_dir temp_input download ffmpeg opening upload =
    step host.look_path "ffmpeg not available on host" (
      step host.mkdir_temp temp_dir (
        step host.create temp_input (
          step host.download download (
            step host.close "failed to finalize temp input file" (
              step host.ffmpeg ffmpeg
                (step host.open_output opening (step host.upload upload done)))))))

-- The read of the source's key and of track_version_id.
conversion : String → String → Option (Dict String) → Outcome → Outcome
conversion source missing none run = fails "failed to parse job data"
conversion source missing (some m) run = elim (m source) [
  | none ↦ fails missing
  | some key ↦ elim (m "track_version_id") [
    | none ↦ fails "missing track_version_id in job data"
    | some id ↦ if str_eq (trim_space id) "" then fails "track_version_id is empty" else run
  ]
]

pub convert_video_to_audio : Host → Option (Dict String) → Outcome
unfolding conversion converted
convert_video_to_audio host payload =
    conversion "video_r2_key" "missing video_r2_key in job data" payload (
      converted host "failed to create conversion temp dir" "failed to create temp input file"
        "failed to download source video" "ffmpeg video conversion failed"
        "failed to open converted audio" "failed to upload converted audio")

pub generate_waveform : Host → Option (Dict String) → Outcome
unfolding conversion converted
generate_waveform host payload =
    conversion "audio_r2_key" "missing audio_r2_key in job data" payload (
      converted host "failed to create waveform temp dir"
        "failed to create temp waveform input file" "failed to download source audio"
        "ffmpeg waveform generation failed" "failed to open generated waveform file"
        "failed to upload generated waveform")

pub is_expensive_fin_ops_job : String → Bool
is_expensive_fin_ops_job job_type =
    str_eq job_type "convert_video_to_audio" || str_eq job_type "generate_waveform"

-- The switch on the job's type.
pub run : Host → JobData → Outcome
unfolding cleanup_r2_file convert_video_to_audio generate_waveform
run host job =
    if str_eq job.job_type "cleanup_r2_file"
    then cleanup_r2_file host job.payload
    else if str_eq job.job_type "convert_video_to_audio"
    then convert_video_to_audio host job.payload
    else if str_eq job.job_type "generate_waveform"
    then generate_waveform host job.payload
    else fails "unknown job type"

pub outcome : Guard → Host → JobData → Outcome
unfolding is_expensive_fin_ops_job run
outcome guard host job =
    let ran = run host job in
    if is_expensive_fin_ops_job job.job_type
    then elim guard [ guard_error ↦ ran | allow ↦ ran | block ↦ skipped ]
    else ran

-- The table after the statement that ends the job, which may not reach the database.
pub mark : List JobData → JobData → Bool → Outcome → List JobData
mark table job reached done = if reached then mark_job_completed table job.id else table
mark table job reached skipped = if reached then mark_job_completed table job.id else table
mark table job reached (fails message) = if reached then mark_job_failed table job.id else table

-- What the outside answers while one job is processed.
pub record Answers : Type 0 where
  pub guard : Guard
  pub host : Host
  pub reached : Bool

pub process_job : List JobData → JobData → Answers → List JobData
unfolding outcome mark
process_job table job a = mark table job a.reached (outcome a.guard a.host job)

-- The jobs of a batch, each with the answers that it meets.
pub process_all : List JobData → List (JobData × Answers) → List JobData
unfolding process_job
process_all table [] = table
process_all table ((job, a) ∷ jobs) = process_all (process_job table job a) jobs

-- A batch: what it makes of the table and the number of its jobs, or an error if the claim does not
-- reach the database. The jobs finish in the order in
-- which they were claimed.
with_answers : (JobData → Answers) → List JobData → List (JobData × Answers)
with_answers answers [] = []
with_answers answers (job ∷ jobs) = (job, answers job) ∷ with_answers answers jobs

pub process_batch : List JobData → ℤ → Bool → (JobData → Answers) → List JobData × Option ℕ
unfolding process_all with_answers
process_batch table batch_size reached answers =
    let claimed = claim_pending_jobs table batch_size in
    if reached
    then (process_all claimed.0 (with_answers answers claimed.1), some (length claimed.1))
    else (table, none)

-- strings.TrimSpace, the check, and the statement with three attempts; `none` is the error.
pub enqueue_job : List JobData → String → String → Option (Dict String) → Option (List JobData)
enqueue_job table id job_type payload =
    if str_eq (trim_space job_type) ""
    then none
    else some (
        create_background_job table id (trim_space job_type)
          (some (elim payload [ none ↦ λ k. none | some m ↦ m ])) (pos 3))
