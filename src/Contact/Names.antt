-- ===== src/Contact/Names.antt =====
-- contact.rs: the names, the origin and the address of a contact after `add_or_lookup`.
use juttmy_core.Prelude.{
  ℕ, Text, is_empty, if◌then◌else◌, Bool, true, false, not, ◌||◌, Option, none, some, ◌≡◌, refl,
  arith, subst, if_split, if_both, some-injective,
}
use juttmy_core.Address.{addr_normalize, may_be_valid_addr}
use juttmy_core.Peerstate.Saving.{nocase_eq}
use juttmy_core.E2ee.Decrypt.{addr_cmp}
use juttmy_core.Contact.{
  Origin, is_unknown, ContactRow, Contacts, Modifier, modified, none_modified, select_addr,
  update_contact, updates_name, updates_addr, needs_update, new_name, set_columns, rename_single,
  update_existing, insert_new, put_contact, add_or_lookup,
}
use juttmy_core.Contact.Columns.{Merged, set_columns-Merged, same-Merged}
use juttmy_core.Contact.Rows.{same_self, select_addr-update, select_addr-at, select_addr-append}

-- The address of the set row is the one that was looked for.
set_columns-addr :
    (name addr : Text) (origin : Origin) (q r : ContactRow)
    → nocase_eq q.addr addr ≡ true
    → nocase_eq (set_columns name addr origin q r).addr addr ≡ true
set_columns-addr name addr origin q r at =
    if_both (λ x. nocase_eq x addr ≡ true) (updates_addr addr origin q) (same_self addr) at

-- What a call leaves, with the id that it returns.
abbrev pub Leaves : Text → Text → Origin → Option ContactRow → (ℕ × Modifier) × Contacts → Type 0
Leaves name addr origin old (found, db') =
    (r : ContactRow) × (select_addr addr db'.contacts ≡ some r)
    × ((r.id ≡ found.0) × Merged name addr origin old r)

rename_single-contacts :
    (id : ℕ) (name : Text) (db : Contacts) → (rename_single id name db).contacts ≡ db.contacts
unfolding rename_single
rename_single-contacts id name db = ground arith

update_existing-Leaves :
    (name addr : Text) (origin : Origin) (q : ContactRow) (db : Contacts)
    → select_addr addr db.contacts ≡ some q
    → Leaves name addr origin (some q) (update_existing name addr origin q db)
unfolding update_existing
update_existing-Leaves name addr origin q db e =
    if_split (Leaves name addr origin (some q)) (needs_update name addr origin q)
      (λ _.
        let db' = record db {
          contacts = update_contact q.id (set_columns name addr origin q) db.contacts;
        } in
        if_both (λ (d : Contacts). Leaves name addr origin (some q) ((q.id, modified), d))
          (updates_name name origin q)
          (rw (rename_single-contacts q.id (new_name name origin q) db') found) found)
      (λ same. (q, e, (refl, same-Merged name addr origin q same)))
  where
    found : Leaves name addr origin (some q) (
      (q.id, modified),
      record db { contacts = update_contact q.id (set_columns name addr origin q) db.contacts },
    )
    found =
        select_addr-update addr q.id (set_columns name addr origin q)
          (λ r. (r.id ≡ q.id) × Merged name addr origin (some q) r)
          (λ r. set_columns-addr name addr origin q r (select_addr-at addr db.contacts q e))
          (λ r same. (same, set_columns-Merged name addr origin q r)) db.contacts q e refl

insert_new-Leaves :
    (name addr : Text) (origin : Origin) (db : Contacts)
    → select_addr addr db.contacts ≡ none
    → Leaves name addr origin none (insert_new name addr origin db)
unfolding insert_new
insert_new-Leaves name addr origin db e =
    (_, select_addr-append addr db.contacts _ e (same_self addr), (refl, (refl, refl, refl, refl)))

put_contact-Leaves :
    (name addr : Text) (origin : Origin) (db : Contacts)
    → Leaves name addr origin (select_addr addr db.contacts) (put_contact name addr origin db)
unfolding put_contact
put_contact-Leaves name addr origin db = by_row (select_addr addr db.contacts) refl
  where
    by_row :
        (o : Option ContactRow)
        → select_addr addr db.contacts ≡ o
        → Leaves name addr origin o (elim o [
          | none ↦ insert_new name addr origin db
          | some row ↦ update_existing name addr origin row db
        ])
    by_row none e = insert_new-Leaves name addr origin db e
    by_row (some q) e = update_existing-Leaves name addr origin q db e

abbrev pub guarded :
    Bool → Bool → Bool → Contacts → (ℕ × Modifier) × Contacts → Option (ℕ × Modifier) × Contacts
guarded bad own invalid db put =
    if bad
    then (none, db)
    else if own
    then (some (1, none_modified), db)
    else if invalid
    then (none, db)
    else (some put.0, put.1)

-- The early returns in front of a call.
past_guards :
    (L : (ℕ × Modifier) × Contacts → Type 0) (bad own invalid : Bool) (db : Contacts)
    (put : (ℕ × Modifier) × Contacts) (found : ℕ × Modifier)
    → own ≡ false
    → (guarded bad own invalid db put).0 ≡ some found
    → L put
    → L (found, (guarded bad own invalid db put).1)
past_guards L true own invalid db put found other e l = absurd (cc)
past_guards L false true invalid db put found other e l = absurd (cc)
past_guards L false false true db put found other e l = absurd (cc)
past_guards L false false false db put found other e l =
    subst (λ f. L (f, put.1)) (some-injective e) l

module _ (lower : Text → Text) (self_addr : Text) where
  -- After a call of `add_or_lookup` that succeeds, for an address that is not the own one, the
  -- contact of the address has the id that was returned. A new contact has the given columns, and
  -- the name as its authorised name only from a From header. A contact that was there takes a given
  -- name where it had none, where the number of the new origin is not lower than that of its own,
  -- or where its name is its authorised name, and else keeps its name; an empty name given by hand
  -- sets the authorised name back, if there is one. It keeps the higher of the two origins, takes
  -- the new spelling of its address unless its origin is higher, and a new authorised name only
  -- from a From header.
  pub add_or_lookup-Leaves :
      (name addr : Text) (origin : Origin) (db : Contacts) (found : ℕ × Modifier)
      → addr_cmp lower (addr_normalize addr) self_addr ≡ false
      → (add_or_lookup lower self_addr name addr origin db).0 ≡ some found
      → Leaves name
          (addr_normalize addr)
          origin
          (select_addr (addr_normalize addr) db.contacts)
          (found, (add_or_lookup lower self_addr name addr origin db).1)
  unfolding add_or_lookup
  add_or_lookup-Leaves name addr origin db found other e =
      past_guards
        (Leaves name (addr_normalize addr) origin (select_addr (addr_normalize addr) db.contacts))
        (is_empty addr || is_unknown origin) (addr_cmp lower (addr_normalize addr) self_addr)
        (not (may_be_valid_addr (addr_normalize addr))) db
        (put_contact name (addr_normalize addr) origin db) found other e
        (put_contact-Leaves name (addr_normalize addr) origin db)
