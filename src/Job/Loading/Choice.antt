-- ===== src/Job/Loading/Choice.antt =====
-- job.rs: which job `load_next` reads, and that its loop ends.
use juttmy_core.Prelude.{
  ℕ, zero, suc, ◌<◌, ◌≡◌, refl, arith, option_split, Bool, true, false, Option, some, is_some, List,
  All, ◌∙◌, sym, ap, ℤ, pos, length,
}
use juttmy_core.Job.{JobRow, Job, Db, Thread, job_of, delete_where, has_id}
use juttmy_core.Job.Loading.{
  InterruptInfo, is_due, order_of, where_rows, best, load_loop, choose, after, load_next,
}
use juttmy_core.Job.Loading.Order.{IsOrder, order_of-IsOrder, In, In-All, best-In, best-where}
use juttmy_core.Job.Loading.Rows.{
  loads, read, Distinct, Small, In-where, All-delete, Distinct-delete, length-delete-In,
  where-delete, no_where, same_id, where_swap,
}

-- What the loop gives: the first row in the order, among the due rows that can be read; only rows
-- that cannot be read are gone.
abbrev pub Found :
    (JobRow → JobRow → Bool) → (JobRow → Bool) → Db → Option (Option Job × Db) → Type 0
Found le due db result =
    (db' : Db) × (result ≡ some (read (best le (where_rows loads (where_rows due db.jobs))), db'))
    × (where_rows loads db'.jobs ≡ where_rows loads db.jobs)

module _ (le : JobRow → JobRow → Bool) (due : JobRow → Bool) (o : IsOrder le) where
  abbrev asked : List JobRow → Option JobRow
  asked rows = best le (where_rows due rows)

  -- The best due row cannot be read: it goes.
  removed :
      (r : JobRow) (db : Db)
      → In r db.jobs
      → Distinct db.jobs
      → loads r ≡ false
      → (where_rows loads (where_rows due (delete_where (has_id (pos r.id)) db.jobs))
          ≡ where_rows loads (where_rows due db.jobs))
        × (where_rows loads (delete_where (has_id (pos r.id)) db.jobs) ≡ where_rows loads db.jobs)
  removed r db i d bad =
      let keep = where-delete (has_id (pos r.id)) loads db.jobs (same_id r db.jobs i d bad) in
      (
        where_swap loads due (delete_where (has_id (pos r.id)) db.jobs)
            ∙ ap (where_rows due) keep
            ∙ where_swap due loads db.jobs,
        keep,
      )

  own_id : (r : JobRow) → has_id (pos r.id) r ≡ true
  own_id r = ground arith

  goes :
      (r : JobRow) (db : Db)
      → In r db.jobs
      → Distinct db.jobs
      → loads r ≡ false
      → {result : Option (Option Job × Db)}
      → Found le due (record db { jobs = delete_where (has_id (pos r.id)) db.jobs }) result
      → Found le due db result
  goes r db i d bad (db', e, keep) =
      let (same, kept) = removed r db i d bad in
      (db', e ∙ ap (λ rows. some (read (best le rows), db')) same, keep ∙ kept)

  load_loop-Found :
      (fuel : ℕ) (db : Db)
      → Distinct db.jobs
      → All Small db.jobs
      → length db.jobs < fuel
      → Found le due db (load_loop fuel asked db)
  unfolding load_loop
  load_loop-Found zero db d small more = absurd (omega arith)
  load_loop-Found (suc fuel) db d small more =
      option_split (Found le due db) (asked db.jobs)
        (λ e. (
          db,
          ap (λ b. some (read b, db)) (sym (no_where (where_rows due db.jobs) le loads e)),
          refl,
        ))
        λ r e.
          let i = In-where r due db.jobs (best-In le (where_rows due db.jobs) r e) in
          option_split (Found le due db) (job_of r)
            (λ bad. rw (In-All Small r db.jobs i small) (
              goes r db i d (ap is_some bad) (
                load_loop-Found fuel (record db { jobs = delete_where (has_id (pos r.id)) db.jobs })
                  (Distinct-delete (has_id (pos r.id)) db.jobs d)
                  (All-delete (has_id (pos r.id)) Small db.jobs small)
                  (omega
                    (arith, more, length-delete-In (has_id (pos r.id)) r db.jobs i (own_id r))))))
            λ job j. (
              db,
              ap (λ b. some (b, db))
                  (sym j
                    ∙ ap read
                        (sym (best-where le o loads (where_rows due db.jobs) r e (ap is_some j)))),
              refl,
            )

-- `load_next` ends, with fuel for one round more than there are rows, and what it chooses from is
-- the first job in the order of its query, of the due rows that can be read: rows that cannot be
-- read are passed over, and no other row goes. Every id stands in one row, and is an `i32`.
pub load_next-Found :
    (fuel : ℕ) (thread : Thread) (info : InterruptInfo) (t : ℤ) (deletion : Option ℕ) (db : Db)
    → Distinct db.jobs
    → All Small db.jobs
    → length db.jobs < fuel
    → (db' : Db) × (load_next fuel thread info t deletion db
        ≡ some (
          choose t deletion thread (
              read (
                best
                  (order_of info)
                  (where_rows loads (where_rows (is_due thread info t) db.jobs)))),
          db',
        ))
      × (where_rows loads db'.jobs ≡ where_rows loads db.jobs)
unfolding load_next
load_next-Found fuel thread info t deletion db d small more =
    let (db', e, kept) =
      load_loop-Found (order_of info) (is_due thread info t) (order_of-IsOrder info) fuel db d small
        more in
    (db', ap (after (choose t deletion thread)) e, kept)
