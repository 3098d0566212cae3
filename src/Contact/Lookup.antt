-- ===== src/Contact/Lookup.antt =====
-- contact.rs: `lookup_id_by_addr`, for a contact that `add_or_lookup` has created.
use juttmy_core.Prelude.{
  ℕ, ◌<◌, Text, is_empty, ltb, if◌then◌else◌, Bool, true, false, not, ◌&&◌, ◌||◌, Option, none,
  some, List, [], ◌∷◌, ◌++◌, ◌≡◌, refl, arith, ap, ◌∙◌, if_both, some-injective, Bool-cases, inl,
  inr,
}
use juttmy_core.Address.{addr_normalize, may_be_valid_addr}
use juttmy_core.Peerstate.Saving.{nocase_eq}
use juttmy_core.E2ee.Decrypt.{addr_cmp}
use juttmy_core.Contact.{
  Origin, lt_origin, is_unknown, ContactRow, Contacts, Modifier, created, select_addr, insert_new,
  put_contact, add_or_lookup, update_existing, needs_update,
}
use juttmy_core.Contact.Names.{guarded}
use juttmy_core.Contact.Rows.{same_self}

-- `addr=?1 COLLATE NOCASE AND id>?2 AND origin>=?3 AND blocked=0`
abbrev pub is_shown : Text → Origin → ContactRow → Bool
is_shown a min_origin r =
    nocase_eq r.addr a && ltb 9 r.id && not (lt_origin r.origin min_origin) && not r.blocked

unfoldable pub select_shown : Text → Origin → List ContactRow → ℕ
select_shown a min_origin [] = 0
select_shown a min_origin (r ∷ rs) =
    let rest = select_shown a min_origin rs in if is_shown a min_origin r then r.id else rest

unfoldable pub lookup_id_by_addr : (Text → Text) → Text → Text → Origin → Contacts → ℕ
lookup_id_by_addr lower self_addr addr min_origin db =
    if is_empty addr
    then 0
    else if addr_cmp lower (addr_normalize addr) self_addr
    then 1
    else select_shown (addr_normalize addr) min_origin db.contacts

select_shown-append :
    (a : Text) (m : Origin) (rows : List ContactRow) (r : ContactRow)
    → select_addr a rows ≡ none
    → is_shown a m r ≡ true
    → select_shown a m (rows ++ r ∷ []) ≡ r.id
unfolding select_addr select_shown
select_shown-append a m [] r e shown = rw shown
select_shown-append a m (x ∷ xs) r e shown = elim (Bool-cases (nocase_eq x.addr a)) [
  | inl here ↦ absurd (let e' = rw here at e in cc)
  | inr past ↦ rw past (select_shown-append a m xs r (rw past at e) shown)
]

-- The row of a new contact is shown.
new_shown :
    (name a : Text) (origin m : Origin) (db : Contacts)
    → 9 < db.next_id
    → lt_origin origin m ≡ false
    → select_addr a db.contacts ≡ none
    → select_shown a m (insert_new name a origin db).1.contacts ≡ db.next_id
unfolding insert_new
new_shown name a origin m db normal least e =
    let big : ltb 9 db.next_id ≡ true = ground (arith, normal) in
    select_shown-append a m db.contacts _ e (rw (same_self a, big, least))

new_id :
    (name a : Text) (origin : Origin) (db : Contacts) (id : ℕ)
    → (insert_new name a origin db).0 ≡ (id, created)
    → db.next_id ≡ id
unfolding insert_new
new_id name a origin db id e = ap (λ x. x.0) e

-- A contact that was there is not created.
update_existing-ne-created :
    (name a : Text) (origin : Origin) (q : ContactRow) (db : Contacts) (id : ℕ)
    → ¬ ((update_existing name a origin q db).0 ≡ (id, created))
unfolding update_existing
update_existing-ne-created name a origin q db id =
    if_both (λ (r : (ℕ × Modifier) × Contacts). ¬ (r.0 ≡ (id, created)))
      (needs_update name a origin q) (λ e. cc) (λ e. cc)

put_shown :
    (name a : Text) (origin m : Origin) (db : Contacts) (id : ℕ)
    → 9 < db.next_id
    → lt_origin origin m ≡ false
    → (put_contact name a origin db).0 ≡ (id, created)
    → select_shown a m (put_contact name a origin db).1.contacts ≡ id
unfolding put_contact
put_shown name a origin m db id normal least = by_row (select_addr a db.contacts) refl
  where
    put : Option ContactRow → (ℕ × Modifier) × Contacts
    put o = elim o [
      | none ↦ insert_new name a origin db
      | some row ↦ update_existing name a origin row db
    ]

    by_row :
        (o : Option ContactRow)
        → select_addr a db.contacts ≡ o
        → (put o).0 ≡ (id, created)
        → select_shown a m (put o).1.contacts ≡ id
    by_row none none_there e =
        new_shown name a origin m db normal least none_there ∙ new_id name a origin db id e
    by_row (some q) there e = absurd (update_existing-ne-created name a origin q db id e)

-- The early returns of the two functions.
past_guards :
    (empty no_origin own invalid : Bool) (db : Contacts) (put : (ℕ × Modifier) × Contacts) (id : ℕ)
    (find : List ContactRow → ℕ)
    → (put.0 ≡ (id, created) → find put.1.contacts ≡ id)
    → (guarded (empty || no_origin) own invalid db put).0 ≡ some (id, created)
    → (if empty
        then 0
        else if own
        then 1
        else find (guarded (empty || no_origin) own invalid db put).1.contacts)
      ≡ id
past_guards true no_origin own invalid db put id find step e = absurd (cc)
past_guards false true own invalid db put id find step e = absurd (cc)
past_guards false false true invalid db put id find step e = absurd (cc)
past_guards false false false true db put id find step e = absurd (cc)
past_guards false false false false db put id find step e = step (some-injective e)

module _ (lower : Text → Text) (self_addr : Text) where
  -- A contact that a call of `add_or_lookup` has created is found by its address, under every
  -- origin that is not better, with the id that the call returned. The ids up to 9 are used.
  pub lookup_id_by_addr-add_or_lookup :
      (name addr : Text) (origin min_origin : Origin) (db : Contacts) (id : ℕ)
      → 9 < db.next_id
      → lt_origin origin min_origin ≡ false
      → (add_or_lookup lower self_addr name addr origin db).0 ≡ some (id, created)
      → lookup_id_by_addr lower self_addr addr min_origin
          (add_or_lookup lower self_addr name addr origin db).1
        ≡ id
  unfolding add_or_lookup lookup_id_by_addr
  lookup_id_by_addr-add_or_lookup name addr origin min_origin db id normal least e =
      let a = addr_normalize addr in
      past_guards (is_empty addr) (is_unknown origin) (addr_cmp lower a self_addr)
        (not (may_be_valid_addr a)) db (put_contact name a origin db) id (select_shown a min_origin)
        (put_shown name a origin min_origin db id normal least) e
