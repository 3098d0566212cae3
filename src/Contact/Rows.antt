-- ===== src/Contact/Rows.antt =====
-- contact.rs: the row of an address in the table of contacts.
use juttmy_core.Prelude.{
  ℕ, Text, text_eq_self, ◌==◌, ==_iff, if◌then◌else◌, Bool, true, false, Option, none, some, List,
  [], ◌∷◌, ◌++◌, ◌≡◌, refl, arith, ap, ◌∙◌, subst, Bool-cases, inl, inr, if_split, some-injective,
  map,
}
use juttmy_core.Peerstate.Saving.{nocase_eq, fold_case}
use juttmy_core.Contact.{ContactRow, select_addr, update_contact}

-- A row is found, and is not the first one.
found_later :
    (P : ContactRow → Type 0) (b : Bool) (x : ContactRow) (rest rest' : Option ContactRow)
    (q : ContactRow)
    → (if b then some x else rest) ≡ some q
    → ¬ (x ≡ q)
    → (rest ≡ some q → (r : ContactRow) × (rest' ≡ some r) × P r)
    → (r : ContactRow) × ((if b then some x else rest') ≡ some r) × P r
found_later P true x rest rest' q e differ step = absurd (differ (some-injective e))
found_later P false x rest rest' q e differ step = step e

pub same_self : (a : Text) → nocase_eq a a ≡ true
same_self a = text_eq_self (map fold_case a)

-- The table, where a row with the address is set.
pub select_addr-update :
    (a : Text) (id : ℕ) (change : ContactRow → ContactRow) (P : ContactRow → Type 0)
    → ((r : ContactRow) → nocase_eq (change r).addr a ≡ true)
    → ((r : ContactRow) → r.id ≡ id → P (change r))
    → (rows : List ContactRow) (q : ContactRow) → select_addr a rows ≡ some q
    → q.id ≡ id
    → (r : ContactRow) × (select_addr a (update_contact id change rows) ≡ some r) × P r
unfolding select_addr update_contact
select_addr-update a id change P at set [] q e same = absurd (cc)
select_addr-update a id change P at set (x ∷ xs) q e same = elim (Bool-cases (x.id == id)) [
  | inl hit ↦ rw (hit, at x) (change x, refl, set x ((==_iff x.id id).0 hit))
  | inr miss ↦ rw miss (
      found_later P (nocase_eq x.addr a) x (select_addr a xs)
        (select_addr a (update_contact id change xs)) q e
        (λ w. let h : (x.id == id) ≡ true = (==_iff x.id id).1 (ap (λ y. y.id) w ∙ same) in cc)
        (λ e'. select_addr-update a id change P at set xs q e' same))
]

pub select_addr-at :
    (a : Text) (rows : List ContactRow) (q : ContactRow)
    → select_addr a rows ≡ some q
    → nocase_eq q.addr a ≡ true
unfolding select_addr
select_addr-at a [] q e = absurd (cc)
select_addr-at a (x ∷ xs) q e =
    if_split (λ o. o ≡ some q → nocase_eq q.addr a ≡ true) (nocase_eq x.addr a)
      (λ here same. subst (λ y. nocase_eq y.addr a ≡ true) (some-injective same) here)
      (λ _. select_addr-at a xs q) e

pub select_addr-append :
    (a : Text) (rows : List ContactRow) (r : ContactRow)
    → select_addr a rows ≡ none
    → nocase_eq r.addr a ≡ true
    → select_addr a (rows ++ r ∷ []) ≡ some r
unfolding select_addr
select_addr-append a [] r e at = rw at
select_addr-append a (x ∷ xs) r e at = ground (arith, select_addr-append a xs r)
