-- ===== src/Securejoin.antt =====
-- src/securejoin.rs: the setup-contact and secure-join handshake, by its two sides.
--
-- A handler is a function from the `World` to an outcome and the new world. The world holds what
-- the handlers read and write: Bob's live state (`Context::bob`), the tables `acpeerstates` and
-- `tokens`, and a log of the calls into other modules (messages handed to `chat::send_msg`, info
-- messages, progress events and the like), the last call first. What those modules answer is the
-- record `Env`, one field for each function that is called, fixed for the run of a handler; their
-- own effects are not modelled. The calls of `info!`, `warn!` and `error!` are left out.
--
-- `Expects`, `Scan` and `World` are the structs `Bob` and `Lot` and the parts of `Context` in use;
-- `unwrap` on a missing value is the outcome `panic`.
pub mod Steps
pub mod Inviter
pub mod Joiner
pub mod Handle
pub mod Code
pub mod Joining
pub mod Changes
pub mod Replies
pub mod Secrecy
pub mod Encryption
pub mod Fine
pub mod Session
mod Tests
use juttmy_core.Prelude.{
  ℕ, Text, codes, text_eq, is_empty, Bool, true, false, ◌&&◌, ◌||◌, not, Option, none, some, Eq,
  List, [], ◌∷◌, if◌then◌else◌, is_some, leb, ◌==◌,
}
use juttmy_core.Peerstate.{
  Peerstate, Aheader, member, mutual_preference, all, public_key, bidirect_verified, set_verified,
  option_eq,
}
use juttmy_core.Peerstate.Saving.{Row, Codec, from_addr, from_fingerprint, save_to_db}

-- `SecureJoinStep`
pub data Expects : Type 0 where
  not_active auth_required contact_confirm : Expects

-- `LotState`, as far as the handshake tells its values apart.
pub data ScanState : Type 0 where
  ask_verify_contact ask_verify_group other_state : ScanState

-- The fields of the scanned `Lot` that are read.
pub record Scan (Fpr : Type 0) : Type 0 where
  pub state : ScanState
  pub id : ℕ
  pub text2 : Option Text
  pub fingerprint : Option Fpr
  pub invitenumber : Option Text
  pub auth : Option Text

-- The message that `send_handshake_msg` builds: its parameters `Arg` to `Arg4`, and whether it is
-- forced to be plain text or guaranteed to be encrypted.
pub record Sent : Type 0 where
  pub chat : ℕ
  pub arg : Option Text
  pub arg2 : Option Text
  pub arg3 : Option Text
  pub arg4 : Option Text
  pub force_plaintext : Bool
  pub guarantee_e2ee : Bool

pub data Origin : Type 0 where
  securejoin_invited securejoin_joined : Origin

-- A call into another module.
pub data Effect : Type 0 where
  sent : Sent → Effect
  unblocked : ℕ → Effect
  inviter_progress joiner_progress : ℕ → ℕ → Effect
  not_established : ℕ → Text → Effect
  established : ℕ → Effect
  origin_scaled : ℕ → Origin → Effect
  contacts_changed : Option ℕ → Effect
  contact_added : ℕ → ℕ → Effect
  ongoing_stopped ongoing_freed : Effect

pub record World (Fpr Blob : Type 0) : Type 0 where
  pub expects : Expects
  pub qr_scan : Option (Scan Fpr)
  pub peers : List (Row Blob)
  pub invitenumbers : List Text
  pub auths : List Text
  pub log : List Effect

-- The headers of a `MimeMessage`, and what decryption found.
pub record Mime (Fpr : Type 0) : Type 0 where
  pub secure_join : Option Text
  pub invitenumber : Option Text
  pub fingerprint : Option Text
  pub auth : Option Text
  pub group : Option Text
  pub member_added : Option Text
  pub was_encrypted : Bool
  pub signatures : List Fpr

pub record Env (Fpr : Type 0) : Type 0 where
  -- `chat::create_or_lookup_by_contact_id`: the chat, and whether it is blocked.
  pub create_or_lookup : ℕ → Option (ℕ × Bool)
  -- `chat::get_chat_contacts`
  pub chat_contacts : ℕ → List ℕ
  -- `Contact::load_from_db` and `get_addr`
  pub contact_addr : ℕ → Option Text
  -- `Contact::get_by_id` and `is_verified`: whether it is not `Unverified`.
  pub contact_verified : ℕ → Option Bool
  -- `SignedPublicKey::load_self` and `fingerprint`
  pub self_fingerprint : Option Fpr
  -- whether `chat::send_msg` succeeds
  pub send_msg : Sent → Bool
  -- `chat::get_chat_id_by_grpid`: the chat and whether it is protected.
  pub group_chat : Text → Option (ℕ × Bool)
  -- `Context::is_self_addr`
  pub is_self_addr : Text → Option Bool

pub data HandshakeMessage : Type 0 where
  done ignore propagate : HandshakeMessage

pub data HandshakeError : Type 0 where
  special_contact_id not_secure_join_msg no_chat chat_not_found no_self_addr : HandshakeError
  msg_send_failed bad_fingerprint : HandshakeError

pub data Outcome : Type 0 where
  ok : HandshakeMessage → Outcome
  err : HandshakeError → Outcome
  panic : Outcome

-- `DC_CONTACT_ID_LAST_SPECIAL`
abbrev pub last_special : ℕ
last_special = 9

abbrev pub emit : {Fpr Blob : Type 0} → Effect → World Fpr Blob → World Fpr Blob
emit e w = record w { log = e ∷ w.log }

-- `token::exists`
abbrev pub exists : Text → List Text → Bool
exists token [] = false
exists token (t ∷ ts) = text_eq t token || exists token ts

pub optional : Text → Option Text
optional s = if is_empty s then none else some s

module _ {Fpr : Type 0} (hex : Fpr → Text) where
  abbrev hex_of : Option Fpr → Option Text
  hex_of none = none
  hex_of (some fp) = some (hex fp)

  pub handshake_msg : ℕ → Text → Text → Option Fpr → Text → Sent
  unfolding optional
  handshake_msg chat step param2 fingerprint grpid =
      let plain = text_eq step (codes "vg-request") || text_eq step (codes "vc-request") in
      record {
        chat = chat;
        arg = optional step;
        arg2 = optional param2;
        arg3 = hex_of fingerprint;
        arg4 = optional grpid;
        force_plaintext = plain;
        guarantee_e2ee = not plain;
      }

module _ {Fpr : Type 0} ⦃ef : Eq Fpr⦄ where
  unfoldable pub encrypted_and_signed : Mime Fpr → Option Fpr → Bool
  encrypted_and_signed m expected =
      if not m.was_encrypted
      then false
      else elim expected [ none ↦ false | some fp ↦ member fp m.signatures ]

module _ {Key Fpr Blob : Type 0} ⦃ef : Eq Fpr⦄ (codec : Codec Key Fpr Blob) where
  -- `peerstate.public_key_fingerprint.is_some() && fingerprint == …`, where there is a peer state.
  abbrev same_print : Fpr → Option (Peerstate Key Fpr) → Bool
  same_print fp none = false
  same_print fp (some p) = option_eq (some fp) p.public_key_fingerprint

  abbrev sender_print : Fpr → List (Row Blob) → Option Text → Bool
  sender_print fp peers none = false
  sender_print fp peers (some addr) = same_print fp (from_addr codec addr peers)

  abbrev contacts_print : Env Fpr → Fpr → List (Row Blob) → List ℕ → Bool
  contacts_print env fp peers (c ∷ []) = sender_print fp peers (env.contact_addr c)
  contacts_print env fp peers _ = false

  pub fingerprint_equals_sender : Env Fpr → World Fpr Blob → Fpr → ℕ → Bool
  fingerprint_equals_sender env w fp chat = contacts_print env fp w.peers (env.chat_contacts chat)

  -- The peer that the fingerprint belongs to, marked; `none` where `set_verified` refused.
  abbrev marked : Fpr → Peerstate Key Fpr → Option (Peerstate Key Fpr)
  marked fp p =
      let (q, set) = set_verified p public_key fp bidirect_verified in
      if set
      then some (record q { prefer_encrypt = mutual_preference; to_save = some all })
      else none

  abbrev mark_loaded : Fpr → List (Row Blob) → Option (Peerstate Key Fpr) → Option (List (Row Blob))
  mark_loaded fp peers none = none
  mark_loaded fp peers (some p) = elim (marked fp p) [
    | none ↦ none
    | some q ↦ some (save_to_db codec q false peers)
  ]

  -- The new table of peers, or `none` for the error.
  pub mark_peer_as_verified : Fpr → List (Row Blob) → Option (List (Row Blob))
  mark_peer_as_verified fp peers = mark_loaded fp peers (from_fingerprint codec fp peers)
