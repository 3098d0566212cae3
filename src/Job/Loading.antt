-- ===== src/Job/Loading.antt =====
-- job.rs: `load_next`, which reads the next job of a thread and removes rows that cannot be read.
pub mod Order
pub mod Rows
pub mod Choice
use juttmy_core.Prelude.{
  ℕ, zero, suc, ◌+◌, ◌^◌, ℤ, pos, ltb_ℤ, leb_ℤ, eqb_ℤ, ltb, leb, ◌==◌, if◌then◌else◌, Bool, true,
  false, not, ◌&&◌, ◌||◌, Option, none, some, is_some, List, [], ◌∷◌,
}
use juttmy_core.Job.{
  Thread, Action, delete_msg_on_imap, thread_number, action_number, Job, JobRow, Db, new_job,
  delete_where, has_id, job_of,
}

pub record InterruptInfo : Type 0 where
  pub probe_network : Bool
  pub msg_id : Option ℕ

-- The `WHERE` of the three queries, at the time `t`.
abbrev pub is_due : Thread → InterruptInfo → ℤ → JobRow → Bool
is_due thread info t r = r.thread == thread_number thread && elim info.msg_id [
  | some m ↦ eqb_ℤ r.foreign_id (pos m)
  | none ↦ if not info.probe_network then leb_ℤ r.desired_timestamp t else ltb_ℤ (pos 0) r.tries
]

-- `ORDER BY action DESC, added_timestamp`
abbrev pub by_action : JobRow → JobRow → Bool
by_action r s =
    ltb s.action r.action || (s.action == r.action && leb_ℤ r.added_timestamp s.added_timestamp)

-- `ORDER BY desired_timestamp, action DESC`
abbrev pub by_time : JobRow → JobRow → Bool
by_time r s =
    ltb_ℤ r.desired_timestamp s.desired_timestamp
    || (eqb_ℤ r.desired_timestamp s.desired_timestamp && leb s.action r.action)

abbrev pub order_of : InterruptInfo → JobRow → JobRow → Bool
order_of info = if is_some info.msg_id || not info.probe_network then by_action else by_time

unfoldable pub where_rows : {A : Type 0} → (A → Bool) → List A → List A
where_rows test [] = []
where_rows test (r ∷ rs) = let rest = where_rows test rs in if test r then r ∷ rest else rest

-- `LIMIT 1`: the first row in the order; of rows that are equal in it, the first of the table.
unfoldable pub best : {A : Type 0} → (A → A → Bool) → List A → Option A
best le [] = none
best le (r ∷ rs) = elim (best le rs) [ none ↦ some r | some s ↦ if le r s then some r else some s ]

abbrev pub query : Thread → InterruptInfo → ℤ → List JobRow → Option JobRow
query thread info t rows = best (order_of info) (where_rows (is_due thread info t) rows)

-- The loop, with fuel: `none` when that is spent. The id is read as an `i32`.
unfoldable pub load_loop : ℕ → (List JobRow → Option JobRow) → Db → Option (Option Job × Db)
load_loop zero query db = none
load_loop (suc fuel) query db = elim (query db.jobs) [
  | none ↦ some (none, db)
  | some r ↦ elim (job_of r) [
    | some job ↦ some (some job, db)
    | none ↦ elim (ltb r.id (2 ^ 31)) [
      | true ↦ load_loop fuel query (record db { jobs = delete_where (has_id (pos r.id)) db.jobs })
      | false ↦ some (none, db)
    ]
  ]
]

-- `load_imap_deletion_job`, for the message that `load_imap_deletion_msgid` gives.
abbrev pub deletion_job : ℤ → Option ℕ → Option Job
deletion_job t none = none
deletion_job t (some msg_id) = some (new_job t delete_msg_on_imap msg_id [] (pos 0))

abbrev or_job : Option Job → Job → Option Job
or_job none job = some job
or_job (some other) job = some other

-- What a thread makes of the row that was read.
unfoldable pub choose : ℤ → Option ℕ → Thread → Option Job → Option Job
choose t deletion Thread.unknown job = none
choose t deletion Thread.imap none = deletion_job t deletion
choose t deletion Thread.imap (some job) =
    if ltb (action_number job.action) (action_number delete_msg_on_imap)
    then or_job (deletion_job t deletion) job
    else some job
choose t deletion Thread.smtp job = job

abbrev pub after :
    {A : Type 0} → (Option Job → Option Job) → Option (Option Job × A) → Option (Option Job × A)
after f none = none
after f (some (job, db)) = some (f job, db)

unfoldable pub load_next : ℕ → Thread → InterruptInfo → ℤ → Option ℕ → Db → Option (Option Job × Db)
load_next fuel thread info t deletion db =
    after (choose t deletion thread) (load_loop fuel (query thread info t) db)
