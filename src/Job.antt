-- ===== src/Job.antt =====
-- job.rs: the jobs, the table `jobs` that holds them, and what adds, changes and removes its rows.
pub mod Loading
pub mod Perform
pub mod Storing
pub mod Tests
use juttmy_core.Prelude.{
  ℕ, zero, suc, ◌+◌, ◌-◌, ◌^◌, ℤ, pos, negsuc, ◌+ℤ◌, ◌-ℤ◌, eqb_ℤ, u32_of, as_i32, Text, ltb, ◌==◌,
  if◌then◌else◌, Bool, true, false, not, ◌&&◌, ◌||◌, Option, none, some, List, [], ◌∷◌, ◌++◌,
}
use juttmy_core.Params.{Params, Parsed, parsed, unknown_key, not_a_pair, to_string, from_str}

pub data Thread : Type 0 where
  unknown imap smtp : Thread

pub data Action : Type 0 where
  unknown housekeeping fetch_existing_msgs markseen_msg_on_imap move_msg delete_msg_on_imap
        resync_folders maybe_send_locations maybe_send_locations_ended send_mdn send_msg_to_smtp :
      Action

abbrev pub thread_number : Thread → ℕ
thread_number Thread.unknown = 0
thread_number imap = 100
thread_number smtp = 5000

abbrev pub action_number : Action → ℕ
action_number Action.unknown = 0
action_number housekeeping = 105
action_number fetch_existing_msgs = 110
action_number markseen_msg_on_imap = 130
action_number move_msg = 200
action_number delete_msg_on_imap = 210
action_number resync_folders = 300
action_number maybe_send_locations = 5005
action_number maybe_send_locations_ended = 5007
action_number send_mdn = 5010
action_number send_msg_to_smtp = 5901

-- `FromSql` of an action: another number is the default.
unfoldable pub action_of : ℕ → Action
action_of n =
    if n == 105
    then housekeeping
    else if n == 110
    then fetch_existing_msgs
    else if n == 130
    then markseen_msg_on_imap
    else if n == 200
    then move_msg
    else if n == 210
    then delete_msg_on_imap
    else if n == 300
    then resync_folders
    else if n == 5005
    then maybe_send_locations
    else if n == 5007
    then maybe_send_locations_ended
    else if n == 5010
    then send_mdn
    else if n == 5901
    then send_msg_to_smtp
    else Action.unknown

-- `From<Action> for Thread`
unfoldable pub thread_of : Action → Thread
thread_of Action.unknown = Thread.unknown
thread_of housekeeping = imap
thread_of fetch_existing_msgs = imap
thread_of markseen_msg_on_imap = imap
thread_of move_msg = imap
thread_of delete_msg_on_imap = imap
thread_of resync_folders = imap
thread_of maybe_send_locations = smtp
thread_of maybe_send_locations_ended = smtp
thread_of send_mdn = smtp
thread_of send_msg_to_smtp = smtp

pub record Job : Type 0 where
  pub job_id : ℕ
  pub action : Action
  pub foreign_id : ℕ
  pub desired_timestamp : ℤ
  pub added_timestamp : ℤ
  pub tries : ℕ
  pub param : Params
  pub pending_error : Option Text

-- A row of the table `jobs`. The numbers of actions and threads are those of this program.
pub record JobRow : Type 0 where
  pub id : ℕ
  pub added_timestamp : ℤ
  pub thread : ℕ
  pub action : ℕ
  pub foreign_id : ℤ
  pub param : Text
  pub desired_timestamp : ℤ
  pub tries : ℤ

-- The table with the last id that AUTOINCREMENT gave, and the threads that were interrupted.
pub record Db : Type 0 where
  pub jobs : List JobRow
  pub last_id : ℕ
  pub interrupts : List Thread

-- `Job::new`, at the time that `time()` gives.
abbrev pub new_job : ℤ → Action → ℕ → Params → ℤ → Job
new_job timestamp action foreign_id param delay_seconds = record {
  job_id = 0;
  action = action;
  foreign_id = foreign_id;
  desired_timestamp = timestamp +ℤ delay_seconds;
  added_timestamp = timestamp;
  tries = 0;
  param = param;
  pending_error = none;
}

abbrev pub delay_seconds : Job → ℤ
delay_seconds job = job.desired_timestamp -ℤ job.added_timestamp

-- `WHERE id=?`
abbrev pub has_id : ℤ → JobRow → Bool
has_id id r = eqb_ℤ (pos r.id) id

unfoldable pub delete_where : (JobRow → Bool) → List JobRow → List JobRow
delete_where test [] = []
delete_where test (r ∷ rs) = let rest = delete_where test rs in if test r then rest else r ∷ rest

unfoldable pub update_rows : (JobRow → Bool) → (JobRow → JobRow) → List JobRow → List JobRow
update_rows test f [] = []
update_rows test f (r ∷ rs) =
    let rest = update_rows test f rs in if test r then f r ∷ rest else r ∷ rest

unfoldable pub delete : Job → Db → Db
delete job db =
    if job.job_id == 0
    then db
    else record db { jobs = delete_where (has_id (as_i32 job.job_id)) db.jobs }

-- The columns that an update sets.
abbrev pub updated : Job → JobRow → JobRow
updated job r = record r {
  desired_timestamp = job.desired_timestamp;
  tries = pos job.tries;
  param = to_string job.param;
}

-- The row of a new job: the column `tries` has its default.
abbrev pub row_of : ℕ → Job → JobRow
row_of id job = record {
  id = id;
  added_timestamp = job.added_timestamp;
  thread = thread_number (thread_of job.action);
  action = action_number job.action;
  foreign_id = pos job.foreign_id;
  param = to_string job.param;
  desired_timestamp = job.desired_timestamp;
  tries = pos 0;
}

unfoldable pub save : Job → Db → Db
save job db =
    if job.job_id == 0
    then record db { jobs = db.jobs ++ row_of (db.last_id + 1) job ∷ []; last_id = db.last_id + 1 }
    else record db { jobs = update_rows (has_id (as_i32 job.job_id)) (updated job) db.jobs }

unfoldable pub kill_action : Action → Db → Db
kill_action action db = record db {
  jobs = delete_where (λ r. r.action == action_number action) db.jobs;
}

unfoldable pub action_exists : Action → List JobRow → Bool
action_exists action [] = false
action_exists action (r ∷ rs) = r.action == action_number action || action_exists action rs

-- `as u32` of an `i32`
abbrev pub as_u32 : ℤ → ℕ
as_u32 (pos n) = n
as_u32 (negsuc n) = 2 ^ 32 - n - 1

-- `job::create`: the error of an unknown action is `none`.
unfoldable pub create : ℤ → Action → ℤ → Params → ℤ → Option Job
create timestamp Action.unknown foreign_id param delay_seconds = none
create timestamp action foreign_id param delay_seconds =
    some (new_job timestamp action (as_u32 foreign_id) param delay_seconds)

abbrev interrupt : Thread → Db → Db
interrupt thread db = record db { interrupts = thread ∷ db.interrupts }

-- `job::add`; an unknown action that is due at once is a panic, `none`.
unfoldable pub add : Job → Db → Option Db
add job db =
    let db' = save job db in
    if eqb_ℤ (delay_seconds job) (pos 0)
    then elim (thread_of job.action) [
      | unknown ↦ none
      | imap ↦ some (interrupt imap db')
      | smtp ↦ some (interrupt smtp db')
    ]
    else some db'

-- `schedule_resync`
unfoldable pub schedule_resync : ℤ → Db → Option Db
schedule_resync timestamp db =
    add (new_job timestamp resync_folders 0 [] (pos 0)) (kill_action resync_folders db)

abbrev params_of : Parsed → Params
params_of (parsed p) = p
params_of (unknown_key k) = []
params_of (not_a_pair l) = []

-- The closure that `load_next` reads a row with; an error of a column is `none`.
unfoldable pub job_of : JobRow → Option Job
job_of r = if not (ltb r.id (2 ^ 32)) then none else elim (u32_of r.foreign_id) [
  | none ↦ none
  | some foreign_id ↦ elim (u32_of r.tries) [
    | none ↦ none
    | some tries ↦ some (record {
      job_id = r.id;
      action = action_of r.action;
      foreign_id = foreign_id;
      desired_timestamp = r.desired_timestamp;
      added_timestamp = r.added_timestamp;
      tries = tries;
      param = params_of (from_str r.param);
      pending_error = none;
    })
  ]
]
