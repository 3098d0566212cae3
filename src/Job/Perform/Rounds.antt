-- ===== src/Job/Perform/Rounds.antt =====
-- job.rs: a job that is performed again and again leaves the table.
use juttmy_core.Prelude.{
  ℕ, ◌+◌, ◌^◌, ◌<◌, ◌≤◌, ℤ, ltb, ◌==◌, as_i32, ◌≡◌, refl, arith, none, some, List, [], ◌∷◌, ap, sym,
  subst, ◌∙◌, option_split, if_split, if_both, if◌then◌else◌, length, All,
}
use juttmy_core.Job.{
  Job, JobRow, Db, has_id, delete_where, update_rows, updated, delete, save, job_of,
}
use juttmy_core.Job.Perform.{
  job_retries, Status, finished, retry_now, retry_later, postponed, conclude, Run, tried,
  perform_job,
}
use juttmy_core.Job.Perform.Outcome.{row, row-delete, row-update}
use juttmy_core.Job.Perform.Late.{
  IsTidy, Keeps-again, row-id, job_of-tries, Late, Late-updated, Late-none, Late-first, Late-mono,
}

-- A round: the row of an id is read, and performed as a job; a row that cannot be read is deleted.
unfoldable pub round : ℕ → Run → ℤ → ℤ → Db → Db
round id run now r db = elim (row id db.jobs) [
  | none ↦ db
  | some q ↦ elim (job_of q) [
    | none ↦ record db { jobs = delete_where (has_id (as_i32 q.id)) db.jobs }
    | some job ↦ perform_job run now r job db
  ]
]

-- One round after the other, with the actions, the times and the random numbers of each.
abbrev pub rounds : ℕ → List (Run × ℤ × ℤ) → Db → Db
rounds id [] db = db
rounds id ((run, now, r) ∷ more) db = rounds id more (round id run now r db)

module _ (id : ℕ) (positive : 0 < id) (small : id < 2 ^ 31) where
  delete-row : (job : Job) (db : Db) → job.job_id ≡ id → row id (delete job db).jobs ≡ none
  unfolding delete
  delete-row job db same =
      if_split {A = Db} (λ d. row id d.jobs ≡ none) (job.job_id == 0)
        (λ e. absurd (ground (arith, same, positive, e))) λ _. rw same (row-delete id db.jobs small)

  save-Late : (job : Job) (db : Db) → job.job_id ≡ id → Late job.tries (row id (save job db).jobs)
  unfolding save
  save-Late job db same =
      if_split {A = Db} (λ d. Late job.tries (row id d.jobs)) (job.job_id == 0)
        (λ e. absurd (ground (arith, same, positive, e)))
        λ _.
          subst (Late job.tries)
            (sym (
              ap (λ n. row id (update_rows (has_id (as_i32 n)) (updated job) db.jobs)) same
              ∙ row-update id (updated job) db.jobs small (λ _. refl)))
            (Late-updated job (row id db.jobs))

  module _ (now r : ℤ) (job : Job) (db : Db) (same : job.job_id ≡ id) where
    stored : Late (job.tries + 1) (
        row id
          (if ltb (job.tries + 1) job_retries
            then save (postponed job now r) db
            else delete job db).jobs)
    stored =
        if_both {A = Db} (λ d. Late (job.tries + 1) (row id d.jobs))
          (ltb (job.tries + 1) job_retries) (save-Late (postponed job now r) db same)
          (Late-none _ _ (delete-row job db same))

    conclude-Late :
        (status : Status) → Late (job.tries + 1) (row id (conclude now r job status db).jobs)
    unfolding conclude
    conclude-Late (finished res) = Late-none _ _ (delete-row job db same)
    conclude-Late retry_now = stored
    conclude-Late retry_later = stored

    exhausted :
        16 ≤ job.tries
        → row id
            (if ltb (job.tries + 1) job_retries
              then save (postponed job now r) db
              else delete job db).jobs
          ≡ none
    exhausted h =
        if_split {A = Db} (λ d. row id d.jobs ≡ none) (ltb (job.tries + 1) job_retries)
          (λ e. absurd (ground (arith, h, e))) λ _. delete-row job db same

    conclude-gone :
        (status : Status) → 16 ≤ job.tries → row id (conclude now r job status db).jobs ≡ none
    unfolding conclude
    conclude-gone (finished res) h = delete-row job db same
    conclude-gone retry_now h = exhausted h
    conclude-gone retry_later h = exhausted h

  module _ (run : Run) (tidy : IsTidy run) (now r : ℤ) (db : Db) where
    perform_job-Late :
        (job : Job)
        → job.job_id ≡ id
        → Late (job.tries + 1) (row id (perform_job run now r job db).jobs)
    unfolding perform_job
    perform_job-Late job same =
        let (status, job', db') = tried run job db in
        let (same_id, same_tries) = Keeps-again run job (run job 0 db) tidy (tidy job 0 db) in
        subst (λ t. Late (t + 1) (row id (conclude now r job' status db').jobs)) same_tries
          (conclude-Late now r job' db' (same_id ∙ same) status)

    perform_job-gone :
        (job : Job)
        → job.job_id ≡ id
        → 16 ≤ job.tries
        → row id (perform_job run now r job db).jobs ≡ none
    unfolding perform_job
    perform_job-gone job same h =
        let (status, job', db') = tried run job db in
        let (same_id, same_tries) = Keeps-again run job (run job 0 db) tidy (tidy job 0 db) in
        conclude-gone now r job' db' (same_id ∙ same) status
          (subst (λ t. 16 ≤ t) (sym same_tries) h)

    round-Late :
        (t : ℕ) → Late t (row id db.jobs) → Late (t + 1) (row id (round id run now r db).jobs)
    unfolding round
    round-Late t late =
        option_split {A = JobRow} {B = Db} (λ d. Late (t + 1) (row id d.jobs)) (row id db.jobs)
          (λ e. Late-none _ _ e)
          λ q e.
            option_split {A = Job} {B = Db} (λ d. Late (t + 1) (row id d.jobs)) (job_of q)
              (λ _. Late-none _ _ (rw (row-id id db.jobs q e) (row-delete id db.jobs small)))
              λ job read.
                Late-mono (t + 1) (job.tries + 1) _ (omega (arith, subst (Late t) e late job read))
                  (perform_job-Late job ((job_of-tries q job read).0 ∙ row-id id db.jobs q e))

    round-gone :
        (t : ℕ) → 16 ≤ t → Late t (row id db.jobs) → row id (round id run now r db).jobs ≡ none
    unfolding round
    round-gone t h late =
        option_split {A = JobRow} {B = Db} (λ d. row id d.jobs ≡ none) (row id db.jobs) (λ e. e)
          λ q e.
            option_split {A = Job} {B = Db} (λ d. row id d.jobs ≡ none) (job_of q)
              (λ _. rw (row-id id db.jobs q e) (row-delete id db.jobs small))
              λ job read.
                perform_job-gone job ((job_of-tries q job read).0 ∙ row-id id db.jobs q e)
                  (omega (arith, h, subst (Late t) e late job read))

  rounds-Late :
      (more : List (Run × ℤ × ℤ)) (db : Db) (t : ℕ)
      → All (λ e. IsTidy (e.0)) more
      → 17 ≤ t + length more
      → 0 < length more
      → Late t (row id db.jobs)
      → row id (rounds id more db).jobs ≡ none
  rounds-Late [] db t tidy enough some_round late = absurd (omega (arith, some_round))
  rounds-Late ((run, now, r) ∷ []) db t (tidy, _) enough some_round late =
      round-gone run tidy now r db t (omega (arith, enough)) late
  rounds-Late ((run, now, r) ∷ e ∷ more) db t (tidy, rest) enough some_round late =
      rounds-Late (e ∷ more) (round id run now r db) (t + 1) rest (omega (arith, enough))
        (omega arith) (round-Late run tidy now r db t late)

  -- After at least 17 rounds, each of which reads the row of an id and performs it as a job, the row is
  -- gone, whatever the actions answer and do to the table: no job is tried for ever. An action leaves
  -- the id and the number of tries of its job as they are, and the id is a positive `i32`.
  pub rounds_lem :
      (more : List (Run × ℤ × ℤ)) (db : Db)
      → All (λ e. IsTidy (e.0)) more
      → 17 ≤ length more
      → row id (rounds id more db).jobs ≡ none
  rounds_lem more db tidy enough =
      rounds-Late more db 0 tidy (omega (arith, enough)) (omega (arith, enough))
        (Late-first (row id db.jobs))
