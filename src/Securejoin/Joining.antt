-- ===== src/Securejoin/Joining.antt =====
-- securejoin.rs: `dc_join_securejoin`, with which Bob starts, and its wait for the chat of a group.
--
-- A call that waits is the outcome `waiting`; each round of its two loops is a step of its own,
-- `wait_round`, since messages are handled and other calls are made in between.
use juttmy_core.Prelude.{
  ℕ, Text, codes, Bool, true, false, not, ◌++◌, Option, none, some, Eq, List, [], ◌∷◌,
  if◌then◌else◌,
}
use juttmy_core.Peerstate.Saving.{Codec}
use juttmy_core.Qr.{Outside, Lot, LotState, qr_ask_verify_contact, qr_ask_verify_group, Call}
use juttmy_core.Qr.Check.{check_qr}
use juttmy_core.Securejoin.{
  World, Env, Scan, ScanState, ask_verify_contact, ask_verify_group, other_state, not_active,
  auth_required, contact_confirm, emit, sent, joiner_progress, ongoing_freed,
  fingerprint_equals_sender, handshake_msg,
}
use juttmy_core.Securejoin.Joiner.{is_group}
use juttmy_core.Securejoin.Steps.{protocol}

-- What Bob's device answers: whether the ongoing process is free, whether it is stopped meanwhile,
-- and `chat::create_by_contact_id`.
pub record Joiner : Type 0 where
  pub alloc_ongoing : Bool
  pub shall_stop_ongoing : Bool
  pub create_by_contact_id : ℕ → Option ℕ

-- What the program answers in a round of the wait: `shall_stop_ongoing`, the chat of a group, and
-- whether the seven seconds are over.
pub record Waiter : Type 0 where
  pub stopped : Bool
  pub get_chat_id_by_grpid : Text → Option ℕ
  pub elapsed : Bool

-- The chat, the group whose chat is waited for, the errors of `JoinError`, and the panic.
pub data Joined : Type 0 where
  chat : ℕ → Joined
  waiting : Joined
  qr_code aborted send_message unknown_contact missing_chat : Joined
  panic : Joined

abbrev pub state_of : LotState → ScanState
state_of qr_ask_verify_contact = ask_verify_contact
state_of qr_ask_verify_group = ask_verify_group
state_of _ = other_state

-- The lot, as Bob keeps it.
abbrev pub scan_of : {Fpr : Type 0} → Lot Fpr → Scan Fpr
scan_of lot = record {
  state = state_of lot.state;
  id = lot.id;
  text2 = lot.text2;
  fingerprint = lot.fingerprint;
  invitenumber = lot.invitenumber;
  auth = lot.auth;
}

abbrev pub asks : ScanState → Bool
asks ask_verify_contact = true
asks ask_verify_group = true
asks other_state = false

abbrev pub cleanup : {Fpr Blob : Type 0} → Bool → World Fpr Blob → World Fpr Blob
cleanup ongoing_allocated w = record w {
  expects = not_active;
  qr_scan = none;
  log = if ongoing_allocated then ongoing_freed ∷ w.log else w.log;
}

abbrev pub Joining : Type 0 → Type 0 → Type 0
Joining Fpr Blob = Joined × World Fpr Blob

-- `unwrap` on what `get_qr_attr!` reads.
unfoldable pub unwrap_or_panic :
    {A Fpr Blob : Type 0} → Option A → World Fpr Blob → (A → Joining Fpr Blob) → Joining Fpr Blob
unwrap_or_panic none w next = (panic, w)
unwrap_or_panic (some a) w next = next a

-- The match on the chat of the group.
unfoldable pub found_chat :
    {Fpr Blob : Type 0} → Option ℕ → Waiter → World Fpr Blob → Joining Fpr Blob
found_chat (some chat_id) waiter w = (chat chat_id, cleanup true w)
found_chat none waiter w = if waiter.elapsed then (missing_chat, w) else (waiting, w)

-- A round of the wait: the first loop until the process is stopped, then the second.
unfoldable pub wait_round : {Fpr Blob : Type 0} → Waiter → World Fpr Blob → Joining Fpr Blob
wait_round waiter w =
    if not waiter.stopped
    then (waiting, w)
    else unwrap_or_panic w.qr_scan w λ scan.
      unwrap_or_panic scan.text2 w λ grpid. found_chat (waiter.get_chat_id_by_grpid grpid) waiter w

-- `chat_id_2_contact_id`
abbrev only_contact : List ℕ → ℕ
only_contact (c ∷ []) = c
only_contact _ = 0

module _ {Key Fpr Blob : Type 0} ⦃ef : Eq Fpr⦄ (codec : Codec Key Fpr Blob) (out : Outside)
    (env : Env Fpr) where
  -- `send_handshake_msg`, whose error ends the process, and the end of `securejoin`.
  unfoldable pub send_and_finish :
      Bool → ℕ → Text → Text → Option Fpr → Text → World Fpr Blob → Joining Fpr Blob
  send_and_finish vg contact_chat step param2 own grpid w =
      let msg = handshake_msg codec.hex contact_chat step param2 own grpid in
      if not (env.send_msg msg)
      then (send_message, cleanup true w)
      else if vg
      then (waiting, emit (sent msg) w)
      else (chat contact_chat, emit ongoing_freed (emit (sent msg) w))

  -- The shortcut to step 4b, where the key of the sender is the scanned one.
  unfoldable pub take_shortcut : Scan Fpr → ℕ → World Fpr Blob → Joining Fpr Blob
  take_shortcut scan contact_chat w =
      let vg = is_group scan.state in
      let w' =
        emit (joiner_progress (only_contact (env.chat_contacts contact_chat)) 400)
          (record w { expects = contact_confirm }) in
      unwrap_or_panic scan.auth w' λ auth.
        unwrap_or_panic (if vg then scan.text2 else some []) w' λ grpid.
          send_and_finish vg contact_chat (protocol vg ++ codes "-request-with-auth") auth
            env.self_fingerprint grpid w'

  -- Step 2b.
  unfoldable pub send_request : Scan Fpr → ℕ → World Fpr Blob → Joining Fpr Blob
  send_request scan contact_chat w =
      let vg = is_group scan.state in
      let w' = record w { expects = auth_required } in
      unwrap_or_panic scan.invitenumber w' λ invitenumber.
        send_and_finish vg contact_chat (protocol vg ++ codes "-request") invitenumber none [] w'

  -- Bob remembers the scan and writes to the chat.
  unfoldable pub request : Scan Fpr → ℕ → World Fpr Blob → Joining Fpr Blob
  request scan contact_chat w =
      let w' = record w { qr_scan = some scan } in
      unwrap_or_panic scan.fingerprint w' λ fingerprint.
        if fingerprint_equals_sender codec env w' fingerprint contact_chat
        then take_shortcut scan contact_chat w'
        else send_request scan contact_chat w'

  unfoldable pub securejoin : Joiner → Scan Fpr → World Fpr Blob → Joining Fpr Blob
  securejoin joiner scan w =
      if not (asks scan.state)
      then (qr_code, cleanup true w)
      else elim (joiner.create_by_contact_id scan.id) [
        | none ↦ (unknown_contact, cleanup true w)
        | some contact_chat ↦
            if joiner.shall_stop_ongoing
            then (aborted, cleanup true w)
            else request scan contact_chat w
      ]

  -- The result with the calls of `check_qr` into contacts and chats.
  unfoldable pub dc_join_securejoin : Joiner → Text → World Fpr Blob → Joining Fpr Blob × List Call
  dc_join_securejoin joiner qr w =
      if not joiner.alloc_ongoing
      then ((aborted, cleanup false w), [])
      else let (lot, calls) = check_qr codec out qr w.peers in
        (securejoin joiner (scan_of lot) w, calls)
