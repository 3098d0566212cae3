-- ===== src/Message.antt =====
-- message.rs: the states of sent messages, and the receipts that other contacts send.
--
-- Of the database it has the tables of messages, in the order of their ids, and of receipts. The
-- chats are asked by `Chats`. An error of the database is left out.
pub mod Receipts
pub mod Tests
use juttmy_core.Prelude.{
  ℕ, zero, suc, ◌+◌, ◌/◌, ℤ, Text, text_eq, is_empty, leb, ◌==◌, if◌then◌else◌, Bool, true, false,
  not, ◌&&◌, ◌||◌, Option, none, some, List, [], ◌∷◌,
}

pub data MessageState : Type 0 where
  undefined in_fresh in_noticed in_seen out_preparing out_draft out_pending out_failed out_delivered
        out_mdn_rcvd :
      MessageState

-- `MessageState::can_fail`
abbrev pub can_fail : MessageState → Bool
can_fail out_preparing = true
can_fail out_pending = true
can_fail out_delivered = true
can_fail out_mdn_rcvd = true
can_fail _ = false

-- The states in which a receipt is counted.
abbrev pub awaits_receipts : MessageState → Bool
awaits_receipts out_preparing = true
awaits_receipts out_pending = true
awaits_receipts out_delivered = true
awaits_receipts _ = false

pub data Chattype : Type 0 where
  undefined single group : Chattype

-- A row of `msgs`, with the columns in use.
pub record MsgRow : Type 0 where
  pub id : ℕ
  pub rfc724_mid : Text
  pub from_id : ℕ
  pub chat_id : ℕ
  pub state : MessageState
  pub error : Text

-- A row of `msgs_mdns`.
pub record MdnRow : Type 0 where
  pub msg_id : ℕ
  pub contact_id : ℕ
  pub timestamp_sent : ℤ

pub record Messages : Type 0 where
  pub msgs : List MsgRow
  pub msgs_mdns : List MdnRow

-- The joined row of `chats`, and `chat::get_chat_contact_cnt`.
pub record Chats : Type 0 where
  pub chat_type : ℕ → Option Chattype
  pub contact_cnt : ℕ → ℕ

-- `WHERE rfc724_mid=? AND from_id=1`
abbrev pub is_sent : Text → MsgRow → Bool
is_sent mid m = text_eq m.rfc724_mid mid && m.from_id == 1

unfoldable pub select : Text → List MsgRow → Option MsgRow
select mid [] = none
select mid (m ∷ ms) = let rest = select mid ms in if is_sent mid m then some m else rest

unfoldable pub load_from_db : ℕ → List MsgRow → Option MsgRow
load_from_db id [] = none
load_from_db id (m ∷ ms) = let rest = load_from_db id ms in if m.id == id then some m else rest

-- `UPDATE msgs … WHERE id=?`
unfoldable pub update : ℕ → (MsgRow → MsgRow) → List MsgRow → List MsgRow
update id set [] = []
update id set (m ∷ ms) =
    let rest = update id set ms in if m.id == id then set m ∷ rest else m ∷ rest

abbrev pub with_state : MessageState → MsgRow → MsgRow
with_state state m = record m { state = state }

unfoldable pub update_msg_state : ℕ → MessageState → Messages → Messages
update_msg_state id state db = record db { msgs = update id (with_state state) db.msgs }

abbrev pub has_failed : MessageState → Text → MsgRow → MsgRow
has_failed state error m = record m { state = state; error = error }

-- `set_msg_failed`, with the error or an empty text.
unfoldable pub set_msg_failed : ℕ → Text → Messages → Messages
set_msg_failed id error db = elim (load_from_db id db.msgs) [
  | none ↦ db
  | some msg ↦
      let state = if can_fail msg.state then out_failed else msg.state in
      record db { msgs = update id (has_failed state error) db.msgs }
]

abbrev pub is_mdn : ℕ → ℕ → MdnRow → Bool
is_mdn msg_id contact_id r = r.msg_id == msg_id && r.contact_id == contact_id

unfoldable pub mdn_exists : ℕ → ℕ → List MdnRow → Bool
mdn_exists msg_id contact_id [] = false
mdn_exists msg_id contact_id (r ∷ rs) =
    is_mdn msg_id contact_id r || mdn_exists msg_id contact_id rs

-- `SELECT COUNT(*) … WHERE msg_id=?`
unfoldable pub mdn_count : ℕ → List MdnRow → ℕ
mdn_count msg_id [] = 0
mdn_count msg_id (r ∷ rs) =
    let rest = mdn_count msg_id rs in if r.msg_id == msg_id then 1 + rest else rest

-- A receipt is inserted once. The order of the rows is not used.
unfoldable pub add_mdn : ℕ → ℕ → ℤ → Messages → Messages
add_mdn msg_id contact_id timestamp_sent db =
    if mdn_exists msg_id contact_id db.msgs_mdns then db else record db {
      msgs_mdns =
          record { msg_id = msg_id; contact_id = contact_id; timestamp_sent = timestamp_sent }
          ∷ db.msgs_mdns;
    }

module _ (chats : Chats) where
  -- Did enough contacts send a receipt?
  unfoldable pub read_by_all : Chattype → MsgRow → Messages → Bool
  read_by_all single m db = true
  read_by_all chat_type m db =
      leb ((chats.contact_cnt m.chat_id + 1) / 2) (mdn_count m.id db.msgs_mdns)

  -- A receipt for the message that was found.
  unfoldable pub receive : ℕ → ℤ → MsgRow → Chattype → Messages → Option (ℕ × ℕ) × Messages
  receive from_id timestamp_sent m chat_type db =
      if not (awaits_receipts m.state)
      then (none, db)
      else let db' = add_mdn m.id from_id timestamp_sent db in
        if read_by_all chat_type m db'
        then (some (m.chat_id, m.id), update_msg_state m.id out_mdn_rcvd db')
        else (none, db')

  unfoldable pub handle_mdn : ℕ → Text → ℤ → Messages → Option (ℕ × ℕ) × Messages
  handle_mdn from_id rfc724_mid timestamp_sent db =
      if leb from_id 9 || is_empty rfc724_mid
      then (none, db)
      else elim (select rfc724_mid db.msgs) [
        | none ↦ (none, db)
        | some m ↦ elim (chats.chat_type m.chat_id) [
          | none ↦ (none, db)
          | some chat_type ↦ receive from_id timestamp_sent m chat_type db
        ]
      ]
