-- ===== src/Job/Perform.antt =====
-- job.rs: `perform_job` runs a job, once more at once if it asks for that, and removes it or stores
-- it for a later try.
pub mod Backoff
pub mod Outcome
pub mod Late
pub mod Rounds
use juttmy_core.Prelude.{
  ℕ, zero, suc, ◌+◌, ◌-◌, ◌*◌, ◌%◌, ◌^◌, ℤ, pos, negsuc, ◌+ℤ◌, ◌-ℤ◌, ltb_ℤ, ltb, ◌==◌,
  if◌then◌else◌, Bool, true, false, Option, none, some, Text,
}
use juttmy_core.Job.{Job, Db, delete, save}

abbrev pub job_retries : ℕ
job_retries = 17

-- `Status`; the text of an error is left out.
pub data Status : Type 0 where
  finished : Bool → Status
  retry_now retry_later : Status

-- `%` of `i32`: the sign is that of the dividend.
abbrev pub rem_i32 : ℤ → ℕ → ℤ
rem_i32 (pos r) n = pos (r % n)
rem_i32 (negsuc r) n = pos 0 -ℤ pos ((r + 1) % n)

-- With the random number `r` that `thread_rng` gives.
unfoldable pub get_backoff_time_offset : ℕ → ℤ → ℤ
get_backoff_time_offset tries r =
    let n = 2 ^ (tries - 1) * 60 in
    let seconds = rem_i32 r (n + 1) in if ltb_ℤ seconds (pos 1) then pos 1 else seconds

-- The job for its next try.
abbrev pub postponed : Job → ℤ → ℤ → Job
postponed job now r = record job {
  tries = job.tries + 1;
  desired_timestamp = now +ℤ get_backoff_time_offset (job.tries + 1) r;
}

-- What is done with the status of the last try, at the time `now`.
unfoldable pub conclude : ℤ → ℤ → Job → Status → Db → Db
conclude now r job (finished res) db = delete job db
conclude now r job retry_now db =
    if ltb (job.tries + 1) job_retries then save (postponed job now r) db else delete job db
conclude now r job retry_later db =
    if ltb (job.tries + 1) job_retries then save (postponed job now r) db else delete job db

-- `perform_job_action` with the number of the try: its status, the job as the action leaves it,
-- and the table with all that the action does to it.
abbrev pub Run : Type 0
Run = Job → ℕ → Db → Status × Job × Db

-- Once more, at once.
abbrev pub again : Run → Status × Job × Db → Status × Job × Db
again run (retry_now, job, db) = run job 1 db
again run (retry_later, job, db) = (retry_later, job, db)
again run (finished res, job, db) = (finished res, job, db)

abbrev pub tried : Run → Job → Db → Status × Job × Db
tried run job db = again run (run job 0 db)

unfoldable pub perform_job : Run → ℤ → ℤ → Job → Db → Db
perform_job run now r job db =
    let (status, job, db) = tried run job db in conclude now r job status db
