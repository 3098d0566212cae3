-- ===== src/Job/Loading/Rows.antt =====
-- job.rs: which rows load_next may read, and what deleting one leaves.
use juttmy_core.Prelude.{
  ℕ, suc, ◌^◌, ◌<◌, ◌≡◌, ◌≢◌, inl, inr, refl, arith, if_split, if_both, Bool, true, false, Option,
  none, some, is_some, List, [], ◌∷◌, All, ◌∙◌, sym, ap, pos, if◌then◌else◌, length, ltb, eqb_ℤ,
}
use juttmy_core.Job.{JobRow, Job, job_of, delete_where}
use juttmy_core.Job.Loading.{where_rows, best}
use juttmy_core.Job.Loading.Order.{In, In-All, best-none}

-- Can the row be read as a job?
abbrev pub loads : JobRow → Bool
loads r = is_some (job_of r)

abbrev pub read : Option JobRow → Option Job
read none = none
read (some r) = job_of r

-- Every id stands in one row, and is an `i32`.
abbrev pub Distinct : List JobRow → Type 0
Distinct [] = Unit
Distinct (r ∷ rows) = All (λ s. s.id ≢ r.id) rows × Distinct rows

abbrev pub Small : JobRow → Type 0
Small r = ltb r.id (2 ^ 31) ≡ true

pub In-where :
    {A : Type 0} (r : A) (ok : A → Bool) (rows : List A) → In r (where_rows ok rows) → In r rows
unfolding where_rows
In-where r ok [] i = i
In-where r ok (x ∷ rows) i =
    if_both (λ left. In r left → In r (x ∷ rows)) (ok x)
      (λ j. elim j [ inl e ↦ inl e | inr k ↦ inr (In-where r ok rows k) ])
      (λ j. inr (In-where r ok rows j)) i

module _ (test : JobRow → Bool) where
  pub All-delete :
      (P : JobRow → Type 0) (rows : List JobRow) → All P rows → All P (delete_where test rows)
  unfolding delete_where
  All-delete P [] a = tt
  All-delete P (x ∷ rows) (p, a) =
      if_both (All P) (test x) (All-delete P rows a) (p, All-delete P rows a)

  pub Distinct-delete : (rows : List JobRow) → Distinct rows → Distinct (delete_where test rows)
  unfolding delete_where
  Distinct-delete [] d = tt
  Distinct-delete (x ∷ rows) (n, d) =
      if_both Distinct (test x) (Distinct-delete rows d)
        (All-delete (λ s. s.id ≢ x.id) rows n, Distinct-delete rows d)

  length-delete : (rows : List JobRow) → length (delete_where test rows) < suc (length rows)
  unfolding delete_where
  length-delete [] = omega arith
  length-delete (x ∷ rows) = ground (arith, length-delete rows)

  pub length-delete-In :
      (r : JobRow) (rows : List JobRow)
      → In r rows
      → test r ≡ true
      → length (delete_where test rows) < length rows
  unfolding delete_where
  length-delete-In r [] i t = elim i [ ]
  length-delete-In r (x ∷ rows) (inl e) t = rw (ap test e ∙ t) (length-delete rows)
  length-delete-In r (x ∷ rows) (inr i) t =
      ground (arith, length-delete rows, length-delete-In r rows i t)

  -- Rows that do not pass are kept away from a condition that they do not meet.
  pub where-delete :
      (ok : JobRow → Bool) (rows : List JobRow)
      → All (λ s. test s ≡ true → ok s ≡ false) rows
      → where_rows ok (delete_where test rows) ≡ where_rows ok rows
  unfolding delete_where where_rows
  where-delete ok [] a = refl
  where-delete ok (x ∷ rows) (p, a) =
      if_split (λ left. where_rows ok left ≡ where_rows ok (x ∷ rows)) (test x)
        (λ t. rw (p t) (where-delete ok rows a))
        λ _. ap (λ left. if ok x then x ∷ left else left) (where-delete ok rows a)

pub no_where :
    (rows : List JobRow) (le : JobRow → JobRow → Bool) (ok : JobRow → Bool)
    → best le rows ≡ none
    → best le (where_rows ok rows) ≡ none
unfolding best where_rows
no_where rows le ok e = rw (best-none le rows e) refl

All-map :
    {P Q : JobRow → Type 0} (rows : List JobRow)
    → All P rows
    → ((s : JobRow) → P s → Q s)
    → All Q rows
All-map [] a f = tt
All-map (x ∷ rows) (p, a) f = (f x p, All-map rows a f)

same_number : (a b : ℕ) → eqb_ℤ (pos a) (pos b) ≡ true → a ≡ b
same_number a b h = ground arith

-- Where ids are distinct, the rows with the id of a row that cannot be read cannot be read.
pub same_id :
    (r : JobRow) (rows : List JobRow)
    → In r rows
    → Distinct rows
    → loads r ≡ false
    → All (λ s. eqb_ℤ (pos s.id) (pos r.id) ≡ true → loads s ≡ false) rows
same_id r [] i d bad = tt
same_id r (x ∷ rows) (inl e) (n, d) bad = (
  λ _. ap loads e ∙ bad,
  All-map rows n λ s other.
      λ same. elim (other (same_number s.id r.id same ∙ sym (ap (λ (q : JobRow). q.id) e))) [ ],
)
same_id r (x ∷ rows) (inr i) (n, d) bad = (
  λ same. elim (In-All (λ s. s.id ≢ x.id) r rows i n (sym (same_number x.id r.id same))) [ ],
  same_id r rows i d bad,
)

pub where_swap :
    (a b : JobRow → Bool) (rows : List JobRow)
    → where_rows a (where_rows b rows) ≡ where_rows b (where_rows a rows)
unfolding where_rows
where_swap a b [] = refl
where_swap a b (x ∷ rows) = ground (arith, where_swap a b rows)
