-- ===== src/Job/Perform/Outcome.antt =====
-- job.rs: what `perform_job` leaves of a job's row.
use juttmy_core.Prelude.{
  ℕ, ◌^◌, ◌<◌, pos, ◌==◌, eqb_ℤ, as_i32, ◌≡◌, inl, inr, refl, arith, Option, none, some, List, [],
  ◌∷◌, ap, sym, ◌∙◌, if_split, if◌then◌else◌, Bool, true, Bool-cases,
}
use juttmy_core.Job.{JobRow, has_id, delete_where, update_rows}

-- The row of an id.
unfoldable pub row : ℕ → List JobRow → Option JobRow
row id [] = none
row id (r ∷ rs) = let rest = row id rs in if r.id == id then some r else rest

abbrev pub option_map : {A B : Type 0} → (A → B) → Option A → Option B
option_map f none = none
option_map f (some a) = some (f a)

as_i32-small : (id : ℕ) → id < 2 ^ 31 → as_i32 id ≡ pos id
as_i32-small id h = ground (arith, h)

same_test : (a b : ℕ) → eqb_ℤ (pos a) (pos b) ≡ (a == b)
same_test a b = ground arith

has_id-as_i32 : (id : ℕ) (r : JobRow) → id < 2 ^ 31 → has_id (as_i32 id) r ≡ (r.id == id)
has_id-as_i32 id r h = ap (λ n. has_id n r) (as_i32-small id h) ∙ same_test r.id id

pub row-delete :
    (id : ℕ) (rs : List JobRow) → id < 2 ^ 31 → row id (delete_where (has_id (as_i32 id)) rs) ≡ none
unfolding row delete_where
row-delete id [] h = refl
row-delete id (r ∷ rs) h =
    if_split (λ left. row id left ≡ none) (has_id (as_i32 id) r) (λ _. row-delete id rs h)
      λ other. rw (sym (has_id-as_i32 id r h) ∙ other) (row-delete id rs h)

if_then : {A : Type 0} (test : Bool) (a b : A) → test ≡ true → (if test then a else b) ≡ a
if_then test a b h = rw h refl

pub row-update :
    (id : ℕ) (f : JobRow → JobRow) (rs : List JobRow)
    → id < 2 ^ 31
    → ((r : JobRow) → (f r).id ≡ r.id)
    → row id (update_rows (has_id (as_i32 id)) f rs) ≡ option_map f (row id rs)
unfolding row update_rows
row-update id f [] h k = refl
row-update id f (r ∷ rs) h k =
    let rest = row-update id f rs h k in
    elim (Bool-cases (r.id == id)) [
      | inl at ↦
          rw (has_id-as_i32 id r h, at)
            (if_then ((f r).id == id) (some (f r)) _ (ap (λ n. n == id) (k r) ∙ at))
      | inr past ↦ rw (has_id-as_i32 id r h, past) (rw past rest)
    ]
