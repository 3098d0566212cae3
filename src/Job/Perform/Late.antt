-- ===== src/Job/Perform/Late.antt =====
-- job.rs: the tries that the row of a job counts.
use juttmy_core.Prelude.{
  ℕ, ◌^◌, ◌≤◌, pos, ltb, ◌==◌, u32_of, ◌≡◌, arith, Option, none, some, List, [], ◌∷◌, ap, sym,
  subst, ◌∙◌, option_split, some-injective, unless_split, if_split,
}
use juttmy_core.Job.{Job, JobRow, Db, updated, job_of}
use juttmy_core.Job.Perform.{Status, finished, retry_now, retry_later, Run, again}
use juttmy_core.Job.Perform.Outcome.{row, option_map}

-- An action leaves the id and the tries of its job.
abbrev pub Keeps : Job → Status × Job × Db → Type 0
Keeps job (status, job', db) = (job'.job_id ≡ job.job_id) × (job'.tries ≡ job.tries)

abbrev pub IsTidy : Run → Type 0
IsTidy run = (job : Job) (n : ℕ) (db : Db) → Keeps job (run job n db)

pub Keeps-again :
    (run : Run) (job : Job) (result : Status × Job × Db)
    → IsTidy run
    → Keeps job result
    → Keeps job (again run result)
Keeps-again run job (finished res, job', db) tidy h = h
Keeps-again run job (retry_later, job', db) tidy h = h
Keeps-again run job (retry_now, job', db) tidy (same_id, same_tries) =
    let (i, t) = tidy job' 1 db in (i ∙ same_id, t ∙ same_tries)

pub row-id : (id : ℕ) (rows : List JobRow) (r : JobRow) → row id rows ≡ some r → r.id ≡ id
unfolding row
row-id id [] r e = absurd (cc)
row-id id (q ∷ rows) r e =
    if_split (λ o. o ≡ some r → r.id ≡ id) (q.id == id)
      (λ at same. subst (λ x. x.id ≡ id) (some-injective same) (ground (arith, at)))
      (λ _ same. row-id id rows r same) e

-- The number of tries and the id of the job that is read from a row.
pub job_of-tries :
    (r : JobRow) (job : Job)
    → job_of r ≡ some job
    → (job.job_id ≡ r.id) × (u32_of r.tries ≡ some job.tries)
unfolding job_of
job_of-tries r job =
    unless_split (λ o. o ≡ some job → Read) (ltb r.id (2 ^ 32)) (λ _ e. absurd (cc))
      λ _.
        option_split (λ o. o ≡ some job → Read) (u32_of r.foreign_id) (λ _ e. absurd (cc))
          λ f _.
            option_split (λ o. o ≡ some job → Read) (u32_of r.tries) (λ _ e. absurd (cc))
              λ t tries e. (
                ap (λ j. j.job_id) (sym (some-injective e)),
                tries ∙ ap (λ j. some (j.tries)) (some-injective e),
              )
  where
    Read : Type 0
    Read = (job.job_id ≡ r.id) × (u32_of r.tries ≡ some job.tries)

-- A row that can be read as a job with at least `t` tries, or no row.
abbrev pub Late : ℕ → Option JobRow → Type 0
Late t none = Unit
Late t (some r) = (job : Job) → job_of r ≡ some job → t ≤ job.tries

pub Late-updated : (job : Job) (o : Option JobRow) → Late job.tries (option_map (updated job) o)
Late-updated job none = tt
Late-updated job (some q) = λ j e. small (job_of-tries (updated job q) j e).1
  where
    small : {n t : ℕ} → u32_of (pos n) ≡ some t → n ≤ t
    small {n} {t} =
        if_split (λ o. o ≡ some t → n ≤ t) (ltb n (2 ^ 32))
          (λ _ e. ground (arith, some-injective e)) (λ _ e. absurd (cc))

pub Late-none : (t : ℕ) (o : Option JobRow) → o ≡ none → Late t o
Late-none t o e = rw e tt

pub Late-first : (o : Option JobRow) → Late 0 o
Late-first none = tt
Late-first (some q) = λ _ _. omega arith

pub Late-mono : (t s : ℕ) (o : Option JobRow) → t ≤ s → Late s o → Late t o
Late-mono t s none h late = tt
Late-mono t s (some q) h late = λ job read. omega (arith, h, late job read)
