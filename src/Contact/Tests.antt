-- ===== src/Contact/Tests.antt =====
-- Contacts added and met again at concrete inputs.
use juttmy_core.Prelude.{arith, Text, codes, false, some, [], ◌∷◌, ◌≡◌, refl}
use juttmy_core.Address.{addr_normalize, may_be_valid_addr, from_str, rsplit, find, any_char}
use juttmy_core.E2ee.Decrypt.{addr_cmp}
use juttmy_core.Contact.{
  incoming_unknown_from, incoming_cc, manually_created, ContactRow, Contacts, modified, select_addr,
  update_contact, updates_name, updates_authname, needs_update, new_name, update_existing,
  insert_new, put_contact, add_or_lookup,
}
use juttmy_core.Contact.Lookup.{lookup_id_by_addr, lookup_id_by_addr-add_or_lookup}
use juttmy_core.Contact.Names.{Leaves, add_or_lookup-Leaves}

abbrev same_case : Text → Text
same_case s = s

abbrev dad : ContactRow
dad = record {
  id = 10;
  name = codes "Daddy";
  addr = codes "bob@b.org";
  origin = manually_created;
  blocked = false;
  authname = [];
}

abbrev start : Contacts
start = record { contacts = dad ∷ []; next_id = 11; chats = []; chats_contacts = [] }

-- A From header brings the authorised name, and leaves the name given by hand.
met :
    add_or_lookup same_case
      (codes "me@a.org")
      (codes "Bob")
      (codes " Bob@b.org")
      incoming_unknown_from
      start
    ≡ (some (10, modified), record start { contacts = record dad { authname = codes "Bob" } ∷ [] })
unfolding add_or_lookup put_contact update_existing needs_update updates_name updates_authname
    new_name update_contact select_addr addr_cmp addr_normalize may_be_valid_addr from_str rsplit
    find any_char
met = refl

add_or_lookup-Leaves_example :
    Leaves
      (codes "Bob")
      (codes "Bob@b.org")
      incoming_unknown_from
      (some dad)
      ((10, modified), record start { contacts = record dad { authname = codes "Bob" } ∷ [] })
unfolding add_or_lookup put_contact update_existing needs_update updates_name updates_authname
    new_name update_contact select_addr addr_cmp addr_normalize may_be_valid_addr from_str rsplit
    find any_char
add_or_lookup-Leaves_example =
    add_or_lookup-Leaves same_case (codes "me@a.org") (codes "Bob") (codes " Bob@b.org")
      incoming_unknown_from start (10, modified) refl refl

lookup_id_by_addr-add_or_lookup_example :
    lookup_id_by_addr same_case
      (codes "me@a.org")
      (codes "eve@c.org")
      incoming_unknown_from
      (add_or_lookup same_case
        (codes "me@a.org")
        (codes "Eve")
        (codes "eve@c.org")
        incoming_cc
        start).1
    ≡ 11
unfolding add_or_lookup put_contact insert_new select_addr addr_cmp addr_normalize may_be_valid_addr
    from_str rsplit find any_char
lookup_id_by_addr-add_or_lookup_example =
    lookup_id_by_addr-add_or_lookup same_case (codes "me@a.org") (codes "Eve") (codes "eve@c.org")
      incoming_cc incoming_unknown_from start 11 (omega arith) refl refl
