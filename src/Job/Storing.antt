-- ===== src/Job/Storing.antt =====
-- job.rs: what is read back of a job that was added or saved.
use juttmy_core.Prelude.{
  ℕ, ◌+◌, ◌^◌, ◌<◌, ℤ, pos, negsuc, ◌<ℤ◌, ◌+ℤ◌, ◌-ℤ◌, eqb_ℤ, +ℤ_parts, -ℤ_parts, ltb, ◌≡◌, ◌≢◌, ◌⊎◌,
  inl, inr, refl, arith, none, some, List, [], ◌∷◌, ◌++◌, ap, ◌∙◌, if◌then◌else◌, unless_split,
  Bool, true, false, All, u32_of,
}
use juttmy_core.Params.{Params, parsed, from_str}
use juttmy_core.Params.Map.{IsSorted}
use juttmy_core.Params.RoundTrip.{Clean, from_str-to_string}
use juttmy_core.Job.{
  housekeeping, fetch_existing_msgs, markseen_msg_on_imap, move_msg, delete_msg_on_imap,
  resync_folders, maybe_send_locations, maybe_send_locations_ended, send_mdn, send_msg_to_smtp,
  Action, Thread, Job, JobRow, Db, delay_seconds, imap, smtp, row_of, save, job_of, action_of,
  action_number, create, add, thread_of, new_job, as_u32,
}

action_of-number : (a : Action) → action_of (action_number a) ≡ a
unfolding action_of
action_of-number Action.unknown = refl
action_of-number housekeeping = refl
action_of-number fetch_existing_msgs = refl
action_of-number markseen_msg_on_imap = refl
action_of-number move_msg = refl
action_of-number delete_msg_on_imap = refl
action_of-number resync_folders = refl
action_of-number maybe_send_locations = refl
action_of-number maybe_send_locations_ended = refl
action_of-number send_mdn = refl
action_of-number send_msg_to_smtp = refl

-- The columns that a job is read from.
job_of-columns :
    (r : JobRow) (f t : ℕ) (p : Params)
    → r.id < 2 ^ 32
    → f < 2 ^ 32
    → t < 2 ^ 32
    → r.foreign_id ≡ pos f
    → r.tries ≡ pos t
    → from_str r.param ≡ parsed p
    → job_of r
      ≡ some (record {
        job_id = r.id;
        action = action_of r.action;
        foreign_id = f;
        desired_timestamp = r.desired_timestamp;
        added_timestamp = r.added_timestamp;
        tries = t;
        param = p;
        pending_error = none;
      })
unfolding job_of
job_of-columns r f t p small small_f small_t same_f same_t same_p =
    unless_split (λ o. o ≡ some (target f t p)) (ltb r.id (2 ^ 32))
      (λ no. absurd (ground (arith, small, no)))
      λ _.
        rw
          (
            u32_of-small r.foreign_id f small_f same_f,
            u32_of-small r.tries t small_t same_t,
            same_p,
          )
          refl
  where
    u32_of-small : (z : ℤ) (n : ℕ) → n < 2 ^ 32 → z ≡ pos n → u32_of z ≡ some n
    u32_of-small z n h e = rw e (ground (arith, h))

    target : ℕ → ℕ → Params → Job
    target f t p = record {
      job_id = r.id;
      action = action_of r.action;
      foreign_id = f;
      desired_timestamp = r.desired_timestamp;
      added_timestamp = r.added_timestamp;
      tries = t;
      param = p;
      pending_error = none;
    }

as_u32-small : (f : ℤ) → negsuc (2 ^ 31) <ℤ f → f <ℤ pos (2 ^ 31) → as_u32 f < 2 ^ 32
as_u32-small (pos n) low high = omega (arith, high)
as_u32-small (negsuc n) low high = omega (arith, low)

-- The delay of a new job is the one it was made with.
same_delay : (t d : ℤ) → eqb_ℤ ((t +ℤ d) -ℤ t) (pos 0) ≡ eqb_ℤ d (pos 0)
same_delay t d = ground (arith, +ℤ_parts t d, -ℤ_parts (t +ℤ d) t)

-- The interrupts of `add`.
abbrev woken : Action → ℤ → List Thread → List Thread
woken action d threads = if eqb_ℤ d (pos 0) then thread_of action ∷ threads else threads

-- What a created job leaves.
abbrev pub Added : ℤ → Action → ℤ → Params → ℤ → Db → Type 0
Added t action f p d db =
    let job = new_job t action (as_u32 f) p d in
    (create t action f p d ≡ some job)
    × (add job db
        ≡ some (record {
          jobs = db.jobs ++ row_of (db.last_id + 1) job ∷ [];
          last_id = db.last_id + 1;
          interrupts = woken action d db.interrupts;
        }))
    × (job_of (row_of (db.last_id + 1) job) ≡ some (record job { job_id = db.last_id + 1 }))

known :
    (t : ℤ) (action : Action) (f : ℤ) (p : Params) (d : ℤ)
    → action ≢ Action.unknown
    → (create t action f p d ≡ some (new_job t action (as_u32 f) p d))
      × ((thread_of action ≡ imap) ⊎ (thread_of action ≡ smtp))
unfolding create thread_of
known t Action.unknown f p d k = absurd (k refl)
known t housekeeping f p d k = (refl, inl refl)
known t fetch_existing_msgs f p d k = (refl, inl refl)
known t markseen_msg_on_imap f p d k = (refl, inl refl)
known t move_msg f p d k = (refl, inl refl)
known t delete_msg_on_imap f p d k = (refl, inl refl)
known t resync_folders f p d k = (refl, inl refl)
known t maybe_send_locations f p d k = (refl, inr refl)
known t maybe_send_locations_ended f p d k = (refl, inr refl)
known t send_mdn f p d k = (refl, inr refl)
known t send_msg_to_smtp f p d k = (refl, inr refl)

abbrev notified : Bool → Thread → Db → Db
notified test thread d = record d {
  interrupts = if test then thread ∷ d.interrupts else d.interrupts;
}

notified_or_not :
    (test : Bool) (thread : Thread) (d : Db)
    → (if test then some (record d { interrupts = thread ∷ d.interrupts }) else some d)
      ≡ some (notified test thread d)
notified_or_not true thread d = refl
notified_or_not false thread d = refl

-- What `add` does after it saved the job.
waking :
    (due : Bool) (thread : Thread) (d : Db)
    → (thread ≡ imap) ⊎ (thread ≡ smtp)
    → (if due
        then elim thread [
          | Thread.unknown ↦ none
          | imap ↦ some (record d { interrupts = imap ∷ d.interrupts })
          | smtp ↦ some (record d { interrupts = smtp ∷ d.interrupts })
        ]
        else some d)
      ≡ some (notified due thread d)
waking due thread d cases = elim cases [
  | inl e ↦ rw e (notified_or_not due imap d)
  | inr e ↦ rw e (notified_or_not due smtp d)
]

save_new :
    (job : Job) (db : Db)
    → job.job_id ≡ 0
    → save job db
      ≡ record db { jobs = db.jobs ++ row_of (db.last_id + 1) job ∷ []; last_id = db.last_id + 1 }
unfolding save
save_new job db new = rw new refl

add_known :
    (job : Job) (db : Db)
    → job.job_id ≡ 0
    → (thread_of job.action ≡ imap) ⊎ (thread_of job.action ≡ smtp)
    → add job db
      ≡ some (record {
        jobs = db.jobs ++ row_of (db.last_id + 1) job ∷ [];
        last_id = db.last_id + 1;
        interrupts =
            if eqb_ℤ (delay_seconds job) (pos 0)
            then thread_of job.action ∷ db.interrupts
            else db.interrupts;
      })
unfolding add
add_known job db new cases =
    let due = eqb_ℤ (delay_seconds job) (pos 0) in
    let thread = thread_of job.action in
    waking due thread (save job db) cases
    ∙ ap (λ d. some (notified due thread d)) (save_new job db new)

-- A known action makes a job. Adding it appends its row under the next id, interrupts the thread of
-- the action if the delay is 0 and only then, and the row reads back as the job with that id. The
-- foreign id is an `i32`, the parameters are sorted and hold no carriage return, and the next id fits
-- in 32 bits.
pub create-add :
    (t : ℤ) (action : Action) (f : ℤ) (p : Params) (d : ℤ) (db : Db)
    → action ≢ Action.unknown
    → negsuc (2 ^ 31) <ℤ f
    → f <ℤ pos (2 ^ 31)
    → IsSorted p
    → All Clean p
    → db.last_id + 1 < 2 ^ 32
    → Added t action f p d db
create-add t action f p d db known_action low high sorted clean small =
    let job = new_job t action (as_u32 f) p d in
    (
      (known t action f p d known_action).0,
      add_known job db refl (known t action f p d known_action).1
          ∙ ap
              (λ test. some (record {
                jobs = db.jobs ++ row_of (db.last_id + 1) job ∷ [];
                last_id = db.last_id + 1;
                interrupts = if test then thread_of action ∷ db.interrupts else db.interrupts;
              }))
              (same_delay t d),
      job_of-columns (row_of (db.last_id + 1) job) (as_u32 f) 0 p small (as_u32-small f low high)
            (omega arith) refl refl (from_str-to_string p sorted clean)
          ∙ ap (λ a. some (record job { job_id = db.last_id + 1; action = a }))
              (action_of-number action),
    )
