-- ===== src/Qr.antt =====
-- qr.rs and lot.rs: what a scanned QR code says.
--
-- `Outside` has the functions of the standard library and of other crates, and the answers of the
-- contacts and chats that are asked; what is called there is listed with the lot. The text of an
-- error is left out.
pub mod Decode
pub mod Check
pub mod Invite
pub mod Texts
pub mod Reading
pub mod RoundTrip
pub mod Codes
pub mod Tests
use juttmy_core.Prelude.{
  ℕ, Text, codes, starts_with, is_some, not, ◌==◌, if◌then◌else◌, Bool, true, false, ◌&&◌, ◌||◌,
  Option, none, some, List, [], ◌∷◌, ◌++◌, drop, map, trim,
}
use juttmy_core.Address.{addr_normalize, may_be_valid_addr}

-- `LotState`, without the states of messages.
pub data LotState : Type 0 where
  undefined qr_ask_verify_contact qr_ask_verify_group qr_fpr_ok qr_fpr_missmatch qr_fpr_without_addr
        qr_account qr_webrtc_instance qr_addr qr_text qr_url qr_error :
      LotState

-- The fields that a QR code fills.
pub record Lot (Fpr : Type 0) : Type 0 where
  pub text1 : Option Text
  pub text2 : Option Text
  pub state : LotState
  pub id : ℕ
  pub fingerprint : Option Fpr
  pub invitenumber : Option Text
  pub auth : Option Text

pub record Url : Type 0 where
  pub scheme : Text
  pub host_str : Option Text

pub record Outside : Type 0 where
  -- `str::to_lowercase`
  pub to_lowercase : Text → Text
  -- `percent_decode_str` and `decode_utf8`
  pub percent_decode : Text → Option Text
  -- `url::Url::parse`
  pub url_parse : Text → Option Url
  -- The groups of `VCARD_NAME_RE`, and the second of `VCARD_EMAIL_RE`.
  pub vcard_name : Text → Option (Text × Text)
  pub vcard_email : Text → Option Text
  -- `Contact::add_or_lookup` with a name and an address, from an unhandled scan.
  pub add_or_lookup : Text → Text → Option ℕ
  -- `chat::create_or_lookup_by_contact_id`, for the deaddrop.
  pub create_or_lookup : ℕ → Option ℕ

-- A call into the contacts and chats.
pub data Call : Type 0 where
  add_or_lookup : Text → Text → Call
  create_or_lookup : ℕ → Call
  add_info_msg : ℕ → Text → Call

abbrev pub Scanned : Type 0 → Type 0
Scanned Fpr = Lot Fpr × List Call

abbrev pub or_default : Option ℕ → ℕ
or_default none = 0
or_default (some id) = id

module _ {Fpr : Type 0} where
  abbrev pub new_lot : Lot Fpr
  new_lot = record {
    text1 = none;
    text2 = none;
    state = undefined;
    id = 0;
    fingerprint = none;
    invitenumber = none;
    auth = none;
  }

  -- `Into<Lot> for Error`
  abbrev pub error_lot : Scanned Fpr
  error_lot = (record new_lot { state = qr_error }, [])

  -- A match whose error is returned as a lot.
  abbrev pub or_error : {A : Type 0} → Option A → (A → Scanned Fpr) → Scanned Fpr
  or_error none next = error_lot
  or_error (some a) next = next a

  abbrev pub from_text : Text → Scanned Fpr
  from_text text = (record new_lot { state = qr_text; text1 = some text }, [])

  abbrev pub from_url : Text → Scanned Fpr
  from_url url = (record new_lot { state = qr_url; text1 = some url }, [])

module _ {Fpr : Type 0} (out : Outside) where
  abbrev pub from_address : Text → Text → Scanned Fpr
  from_address name addr = elim (out.add_or_lookup name addr) [
    | none ↦ (error_lot.0, add_or_lookup name addr ∷ [])
    | some id ↦ (record new_lot { state = qr_addr; id = id }, add_or_lookup name addr ∷ [])
  ]

abbrev pub starts_with_ignore_case : Outside → Text → Text → Bool
starts_with_ignore_case out string pattern =
    starts_with (out.to_lowercase pattern) (out.to_lowercase string)

-- `normalize_address`
unfoldable pub normalize_address : Outside → Text → Option Text
normalize_address out addr = elim (out.percent_decode addr) [
  | none ↦ none
  | some decoded ↦
      let new_addr = addr_normalize decoded in
      if may_be_valid_addr new_addr then some new_addr else none
]
