-- ===== src/Message/Tests.antt =====
-- A group message and its receipts.
use juttmy_core.Prelude.{pos, codes, ◌≡◌, refl, arith, some, none, [], ◌∷◌}
use juttmy_core.Message.{
  out_delivered, out_failed, MsgRow, Messages, Chats, Chattype, select, update, load_from_db,
  set_msg_failed, update_msg_state, mdn_exists, mdn_count, add_mdn, read_by_all, receive,
  handle_mdn,
}
use juttmy_core.Message.Receipts.{IsRead, receipts, receipts-IsRead}

abbrev sent : MsgRow
sent = record {
  id = 20;
  rfc724_mid = codes "m1";
  from_id = 1;
  chat_id = 12;
  state = out_delivered;
  error = [];
}

abbrev stored : Messages
stored = record { msgs = sent ∷ []; msgs_mdns = [] }

-- A group of four.
abbrev four : Chats
four = record { chat_type = λ c. some Chattype.group; contact_cnt = λ c. 4 }

handle_mdn-second :
    (handle_mdn four 11 (codes "m1") (pos 5) (handle_mdn four 10 (codes "m1") (pos 4) stored).1).0
    ≡ some (12, 20)
unfolding handle_mdn select receive add_mdn mdn_exists read_by_all mdn_count update_msg_state update
handle_mdn-second = refl

handle_mdn-again :
    (handle_mdn four 10 (codes "m1") (pos 5) (handle_mdn four 10 (codes "m1") (pos 4) stored).1).0
    ≡ none
unfolding handle_mdn select receive add_mdn mdn_exists read_by_all mdn_count update_msg_state update
handle_mdn-again = refl

set_msg_failed-sent :
    (set_msg_failed 20 (codes "e") stored).msgs
    ≡ record sent { state = out_failed; error = codes "e" } ∷ []
unfolding set_msg_failed load_from_db update
set_msg_failed-sent = refl

receipts-IsRead_example :
    IsRead four (codes "m1") (receipts four (codes "m1") (pos 4) (10 ∷ 11 ∷ []) stored)
unfolding select mdn_exists mdn_count
receipts-IsRead_example =
    receipts-IsRead four (codes "m1") (pos 4) sent Chattype.group (10 ∷ 11 ∷ []) stored refl refl
      refl refl (omega arith, (omega arith, tt)) (((λ e. omega (arith, e)), tt), (tt, tt))
      (refl, (refl, tt)) (omega arith) (omega arith)
