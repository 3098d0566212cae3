-- ===== src/Contact.antt =====
-- contact.rs: contacts, their names and origins, and who is blocked.
--
-- Of the database it has the tables of contacts, in the order of their ids, of chats and of their
-- members; the columns that are not used here are left out. Errors of the database are left out,
-- as are the events and the texts of errors. `str::to_lowercase` and the own address, from the
-- configuration, are the parameters `lower` and `self_addr`.
pub mod Columns
pub mod Rows
pub mod Names
pub mod Lookup
mod Tests
use juttmy_core.Prelude.{
  ℕ, ◌+◌, Text, text_eq, is_empty, ltb, leb, ◌==◌, if◌then◌else◌, Bool, true, false, not, ◌&&◌,
  ◌||◌, Option, none, some, List, [], ◌∷◌, ◌++◌,
}
use juttmy_core.Address.{addr_normalize, may_be_valid_addr}
use juttmy_core.Peerstate.Saving.{nocase_eq}
use juttmy_core.E2ee.Decrypt.{addr_cmp}

pub data Origin : Type 0 where
  unknown incoming_unknown_from incoming_unknown_cc incoming_unknown_to unhandled_qr_scan
        incoming_reply_to incoming_cc incoming_to create_chat outgoing_bcc outgoing_cc outgoing_to
        internal address_book securejoin_invited securejoin_joined manually_created :
      Origin

-- `origin as i32`; the derived order is the order of these numbers.
abbrev pub origin_number : Origin → ℕ
origin_number unknown = 0
origin_number incoming_unknown_from = 0x10
origin_number incoming_unknown_cc = 0x20
origin_number incoming_unknown_to = 0x40
origin_number unhandled_qr_scan = 0x80
origin_number incoming_reply_to = 0x100
origin_number incoming_cc = 0x200
origin_number incoming_to = 0x400
origin_number create_chat = 0x800
origin_number outgoing_bcc = 0x1000
origin_number outgoing_cc = 0x2000
origin_number outgoing_to = 0x4000
origin_number internal = 0x40000
origin_number address_book = 0x80000
origin_number securejoin_invited = 0x1000000
origin_number securejoin_joined = 0x2000000
origin_number manually_created = 0x4000000

-- `a < b` on origins, and `==`.
abbrev pub lt_origin : Origin → Origin → Bool
lt_origin a b = ltb (origin_number a) (origin_number b)

abbrev pub is_manual : Origin → Bool
is_manual manually_created = true
is_manual _ = false

abbrev pub is_from : Origin → Bool
is_from incoming_unknown_from = true
is_from _ = false

abbrev pub is_unknown : Origin → Bool
is_unknown unknown = true
is_unknown _ = false

-- A row of `contacts`, with the columns in use.
pub record ContactRow : Type 0 where
  pub id : ℕ
  pub name : Text
  pub addr : Text
  pub origin : Origin
  pub blocked : Bool
  pub authname : Text

-- A row of `chats`; `is_single` tells a chat of the type `Chattype::Single`.
pub record ChatRow : Type 0 where
  pub id : ℕ
  pub is_single : Bool
  pub name : Text
  pub blocked : Bool

-- `next_id` is the next id of the table of contacts, which SQLite does not use again.
pub record Contacts : Type 0 where
  pub contacts : List ContactRow
  pub next_id : ℕ
  pub chats : List ChatRow
  pub chats_contacts : List (ℕ × ℕ)

pub data Modifier : Type 0 where
  none_modified modified created : Modifier

-- `SELECT … FROM contacts WHERE addr=? COLLATE NOCASE`
unfoldable pub select_addr : Text → List ContactRow → Option ContactRow
select_addr a [] = none
select_addr a (r ∷ rs) = let rest = select_addr a rs in if nocase_eq r.addr a then some r else rest

-- `UPDATE contacts … WHERE id=?`
unfoldable pub update_contact : ℕ → (ContactRow → ContactRow) → List ContactRow → List ContactRow
update_contact id change [] = []
update_contact id change (r ∷ rs) =
    (if r.id == id then change r else r) ∷ update_contact id change rs

-- `id IN (SELECT chat_id FROM chats_contacts WHERE contact_id=?)`
unfoldable pub is_member : ℕ → ℕ → List (ℕ × ℕ) → Bool
is_member contact_id chat_id [] = false
is_member contact_id chat_id ((chat, contact) ∷ ms) =
    (contact == contact_id && chat == chat_id) || is_member contact_id chat_id ms

-- The first single chat of the contact.
unfoldable pub single_chat : ℕ → List (ℕ × ℕ) → List ChatRow → Option ℕ
single_chat contact_id ms [] = none
single_chat contact_id ms (c ∷ cs) =
    let rest = single_chat contact_id ms cs in
    if c.is_single && is_member contact_id c.id ms then some c.id else rest

unfoldable pub rename_chat : ℕ → Text → List ChatRow → List ChatRow
rename_chat chat_id name [] = []
rename_chat chat_id name (c ∷ cs) =
    (if c.id == chat_id then record c { name = name } else c) ∷ rename_chat chat_id name cs

-- The closure of the query: is the name to be updated, and the authorised name?
unfoldable pub updates_name : Text → Origin → ContactRow → Bool
updates_name name origin row =
    if not (is_empty name)
    then if not (is_empty row.name)
      then (not (lt_origin origin row.origin) || text_eq row.name row.authname)
        && not (text_eq name row.name)
      else true
    else is_manual origin && not (is_empty row.authname)

unfoldable pub updates_authname : Text → Origin → ContactRow → Bool
updates_authname name origin row =
    not (is_empty name) && is_from origin && not (text_eq name row.authname)

abbrev pub updates_addr : Text → Origin → ContactRow → Bool
updates_addr addr origin row = not (lt_origin origin row.origin) && not (text_eq addr row.addr)

unfoldable pub needs_update : Text → Text → Origin → ContactRow → Bool
needs_update name addr origin row =
    updates_name name origin row
    || updates_authname name origin row
    || updates_addr addr origin row
    || lt_origin row.origin origin

-- The values of the UPDATE statement.
unfoldable pub new_name : Text → Origin → ContactRow → Text
new_name name origin row =
    if updates_name name origin row
    then if not (is_empty name) then name else row.authname
    else row.name

abbrev pub set_columns : Text → Text → Origin → ContactRow → ContactRow → ContactRow
set_columns name addr origin row r = record r {
  name = new_name name origin row;
  addr = if updates_addr addr origin row then addr else row.addr;
  origin = if lt_origin row.origin origin then origin else row.origin;
  authname = if updates_authname name origin row then name else row.authname;
}

-- The name of the single chat follows the name of the contact.
unfoldable pub rename_single : ℕ → Text → Contacts → Contacts
rename_single row_id name db = elim (single_chat row_id db.chats_contacts db.chats) [
  | none ↦ db
  | some chat_id ↦ record db { chats = rename_chat chat_id name db.chats }
]

-- The branch of `add_or_lookup` for a contact that is there.
unfoldable pub update_existing :
    Text → Text → Origin → ContactRow → Contacts → (ℕ × Modifier) × Contacts
update_existing name addr origin row db =
    let db' = record db {
      contacts = update_contact row.id (set_columns name addr origin row) db.contacts;
    } in
    let renamed = rename_single row.id (new_name name origin row) db' in
    if needs_update name addr origin row
    then ((row.id, modified), (if updates_name name origin row then renamed else db'))
    else ((row.id, none_modified), db)

-- The other branch: a new row, and its id, which is the largest one.
unfoldable pub insert_new : Text → Text → Origin → Contacts → (ℕ × Modifier) × Contacts
insert_new name addr origin db =
    let row : ContactRow = record {
      id = db.next_id;
      name = name;
      addr = addr;
      origin = origin;
      blocked = false;
      authname = if is_from origin then name else [];
    } in
    (
      (db.next_id, created),
      record db { contacts = db.contacts ++ row ∷ []; next_id = db.next_id + 1 },
    )

unfoldable pub put_contact : Text → Text → Origin → Contacts → (ℕ × Modifier) × Contacts
put_contact name addr origin db = elim (select_addr addr db.contacts) [
  | none ↦ insert_new name addr origin db
  | some row ↦ update_existing name addr origin row db
]

module _ (lower : Text → Text) (self_addr : Text) where
  -- `add_or_lookup`; `none` is an error.
  unfoldable pub add_or_lookup : Text → Text → Origin → Contacts → Option (ℕ × Modifier) × Contacts
  add_or_lookup name addr origin db =
      if is_empty addr || is_unknown origin
      then (none, db)
      else if addr_cmp lower (addr_normalize addr) self_addr
      then (some (1, none_modified), db)
      else if not (may_be_valid_addr (addr_normalize addr))
      then (none, db)
      else let (found, db') = put_contact name (addr_normalize addr) origin db in (some found, db')
