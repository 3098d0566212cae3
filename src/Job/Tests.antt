-- ===== src/Job/Tests.antt =====
-- Runs of the jobs, and the theorems at concrete inputs.
use juttmy_core.Prelude.{
  ℕ, zero, suc, ◌+◌, ◌-◌, ◌*◌, ◌^◌, ◌<◌, ℤ, pos, negsuc, ◌≤ℤ◌, ◌≡◌, refl, arith, none, some, List,
  [], ◌∷◌, All, length, false, ap,
}
use juttmy_core.Job.{imap, move_msg, send_msg_to_smtp, Job, JobRow, Db, new_job, row_of}
use juttmy_core.Job.Storing.{Added, create-add}
use juttmy_core.Job.Loading.{InterruptInfo, is_due, order_of, where_rows, best, choose, load_next}
use juttmy_core.Job.Loading.Rows.{loads, read}
use juttmy_core.Job.Loading.Choice.{load_next-Found}
use juttmy_core.Job.Perform.{Run, retry_later, get_backoff_time_offset}
use juttmy_core.Job.Perform.Backoff.{get_backoff_time_offset_lem}
use juttmy_core.Job.Perform.Outcome.{row}
use juttmy_core.Job.Perform.Late.{IsTidy}
use juttmy_core.Job.Perform.Rounds.{rounds, rounds_lem}

abbrev moving : Job
moving = new_job (pos 1000) move_msg 12 [] (pos 0)

abbrev sending : Job
sending = new_job (pos 1000) send_msg_to_smtp 12 [] (pos 60)

-- A row whose foreign id is no `u32`.
abbrev broken : JobRow
broken = record (row_of 2 moving) { foreign_id = negsuc 0; added_timestamp = pos 5 }

abbrev table : Db
table = record {
  jobs = row_of 1 moving ∷ broken ∷ row_of 3 sending ∷ [];
  last_id = 3;
  interrupts = [];
}

abbrev any : InterruptInfo
any = record { probe_network = false; msg_id = none }

create-add_example : Added (pos 1000) move_msg (pos 12) [] (pos 0) table
create-add_example =
    create-add (pos 1000) move_msg (pos 12) [] (pos 0) table (λ e. ground (arith, e)) (omega arith)
      (omega arith) tt tt (omega arith)

get_backoff_time_offset_lem_example :
    (pos 1 ≤ℤ get_backoff_time_offset 16 (pos 123456789))
    × (get_backoff_time_offset 16 (pos 123456789) ≤ℤ pos (2 ^ (16 - 1) * 60))
    × (2 ^ (16 - 1) * 60 + 1 < 2 ^ 31)
get_backoff_time_offset_lem_example =
    get_backoff_time_offset_lem 16 (pos 123456789) (omega arith) (omega arith)

load_next-Found_example :
    (db' : Db) × (load_next 4 imap any (pos 2000) (some 12) table
      ≡ some (
        choose (pos 2000) (some 12) imap (
            read (
              best
                (order_of any)
                (where_rows loads (where_rows (is_due imap any (pos 2000)) table.jobs)))),
        db',
      ))
    × (where_rows loads db'.jobs ≡ where_rows loads table.jobs)
load_next-Found_example =
    load_next-Found 4 imap any (pos 2000) (some 12) table
      (
        (λ e. omega (arith, e), (λ e. omega (arith, e), tt)),
        ((λ e. omega (arith, e), tt), (tt, tt)),
      )
      (refl, (refl, (refl, tt))) (omega arith)

-- An action that never succeeds.
abbrev failing : Run
failing job n db = (retry_later, job, db)

failing-IsTidy : IsTidy failing
failing-IsTidy job n db = (refl, refl)

abbrev steady : ℕ → List (Run × ℤ × ℤ)
steady zero = []
steady (suc n) = (failing, pos 2000, pos 7) ∷ steady n

steady-IsTidy : (n : ℕ) → All (λ e. IsTidy (e.0)) (steady n)
steady-IsTidy zero = tt
steady-IsTidy (suc n) = (failing-IsTidy, steady-IsTidy n)

length-steady : (n : ℕ) → length (steady n) ≡ n
length-steady zero = refl
length-steady (suc n) = ap suc (length-steady n)

rounds_lem_example : row 3 (rounds 3 (steady 17) table).jobs ≡ none
rounds_lem_example =
    rounds_lem 3 (omega arith) (omega arith) (steady 17) table (steady-IsTidy 17)
      (omega (arith, length-steady 17))
