-- ===== src/Qr/Decode.antt =====
-- qr.rs: the decoders of the schemes, and `check_qr`.
use juttmy_core.Prelude.{
  ℕ, Text, codes, strip_prefix, is_some, not, ◌==◌, if◌then◌else◌, ◌&&◌, ◌||◌, Option, none, some,
  List, [], ◌∷◌, ◌++◌, drop,
}
use juttmy_core.Params.{Params, Parsed, parsed, unknown_key, not_a_pair, get, newline}
use juttmy_core.Params.{from_str}
use juttmy_core.Params.Keys.{forwarded, set_longitude, profile_image, auth, group_id, group_name}
use juttmy_core.Peerstate.{Peerstate}
use juttmy_core.Peerstate.Saving.{Row, Codec, from_fingerprint}
use juttmy_core.Fingerprint.{spaced}
use juttmy_core.Qr.{
  Lot, Outside, Call, Scanned, add_info_msg, qr_ask_verify_contact, qr_ask_verify_group, qr_fpr_ok,
  qr_fpr_without_addr, qr_account, qr_webrtc_instance, or_default, new_lot, error_lot, or_error,
  from_text, from_url, from_address, starts_with_ignore_case, normalize_address,
}
use juttmy_core.Qr

abbrev hash_sign : ℕ
hash_sign = 35

abbrev ampersand : ℕ
ampersand = 38

abbrev pub semicolon : ℕ
semicolon = 59

abbrev pub colon : ℕ
colon = 58

abbrev pub question_mark : ℕ
question_mark = 63

-- `find(b)` and the slices before and behind the first `b`.
unfoldable pub split_once : ℕ → Text → Option (Text × Text)
split_once b [] = none
split_once b (c ∷ s) =
    let rest = split_once b s in
    if c == b
    then some ([], s)
    else elim rest [ none ↦ none | some parts ↦ some (c ∷ parts.0, parts.1) ]

-- What stands before the first `b`, or the whole text.
abbrev pub before : ℕ → Text → Text
before b s = elim (split_once b s) [ none ↦ s | some parts ↦ parts.0 ]

-- `find(pattern)` and the slice behind it.
unfoldable pub behind : Text → Text → Option Text
behind pattern [] = strip_prefix pattern []
behind pattern (c ∷ s) =
    let rest = behind pattern s in
    elim (strip_prefix pattern (c ∷ s)) [ none ↦ rest | some found ↦ some found ]

-- `replace(a, b)`
unfoldable pub replace : ℕ → Text → Text → Text
replace a by [] = []
replace a by (c ∷ s) = let rest = replace a by s in if c == a then by ++ rest else c ∷ rest

-- The entries as `Params`; an error is `none`.
abbrev pub params_or_error : Parsed → Option Params
params_or_error (parsed p) = some p
params_or_error (unknown_key k) = none
params_or_error (not_a_pair l) = none

-- What the arms read before the lot is filled.
pub record Payload (Fpr : Type 0) : Type 0 where
  pub fingerprint : Fpr
  pub addr : Option Text
  pub name : Text
  pub invitenumber : Option Text
  pub auth : Option Text
  pub grpid : Option Text
  pub grpname : Option Text

abbrev pub or_empty : Option Text → Text
or_empty none = []
or_empty (some s) = s

-- The fingerprint and the fragment.
abbrev pub split_fragment : Text → Text × Text
split_fragment payload = elim (split_once hash_sign payload) [
  | none ↦ (payload, [])
  | some parts ↦ parts
]

-- An optional value that is decoded, if it is there.
abbrev pub read_with : (Text → Option Text) → Option Text → Option (Option Text)
read_with decode none = some none
read_with decode (some value) = elim (decode value) [ none ↦ none | some v ↦ some (some v) ]

module _ (out : Outside) where
  -- `replace("+", "%20")` and `percent_decode_str`
  abbrev pub decode_name : Text → Option Text
  decode_name encoded = out.percent_decode (replace 43 (codes "%20") encoded)

  abbrev pub read_group_name : Params → Option (Option Text)
  read_group_name param =
      if is_some (get param group_id)
      then read_with decode_name (get param group_name)
      else some none

module _ {Key Fpr Blob : Type 0} (codec : Codec Key Fpr Blob) (out : Outside) where
  -- A code without a number or a secret: the peer of the fingerprint, if it is known.
  unfoldable pub show_peer : Payload Fpr → Option (Peerstate Key Fpr) → Scanned Fpr
  show_peer payload none = (
    record new_lot {
      state = qr_fpr_without_addr;
      text1 = some (spaced 0 (codec.hex payload.fingerprint));
    },
    [],
  )
  show_peer payload (some peer) =
      let id = or_default (out.add_or_lookup payload.name peer.addr) in
      let chat = or_default (out.create_or_lookup id) in
      (
        record new_lot { state = qr_fpr_ok; id = id },
        Qr.add_or_lookup payload.name peer.addr
            ∷ Qr.create_or_lookup id
            ∷ add_info_msg chat (peer.addr ++ codes " verified.")
            ∷ [],
      )

  -- The lot of an invitation from an address.
  unfoldable pub ask : Payload Fpr → Text → Scanned Fpr
  ask payload addr =
      let group = is_some payload.grpid && is_some payload.grpname in
      (
        record {
          text1 = if group then payload.grpname else none;
          text2 = if group then payload.grpid else none;
          state = if group then qr_ask_verify_group else qr_ask_verify_contact;
          id = or_default (out.add_or_lookup payload.name addr);
          fingerprint = some payload.fingerprint;
          invitenumber = payload.invitenumber;
          auth = payload.auth;
        },
        Qr.add_or_lookup payload.name addr ∷ [],
      )

  unfoldable pub fill : Payload Fpr → Option (Peerstate Key Fpr) → Scanned Fpr
  fill payload peerstate =
      if not (is_some payload.invitenumber) || not (is_some payload.auth)
      then show_peer payload peerstate
      else or_error payload.addr (ask payload)

  -- The parameters of the fragment, in the order in which they are read.
  unfoldable pub read_payload : Fpr → Params → Option (Payload Fpr)
  read_payload fp param = elim (read_with (normalize_address out) (get param forwarded)) [
    | none ↦ none
    | some addr ↦ elim (read_with (decode_name out) (get param set_longitude)) [
      | none ↦ none
      | some name ↦ elim (read_group_name out param) [
        | none ↦ none
        | some grpname ↦ some (record {
          fingerprint = fp;
          addr = addr;
          name = or_empty name;
          invitenumber = get param profile_image;
          auth = get param auth;
          grpid = get param group_id;
          grpname = grpname;
        })
      ]
    ]
  ]

  abbrev pub decode_parts : Text × Text → List (Row Blob) → Scanned Fpr
  decode_parts (fingerprint, fragment) peers = or_error (codec.parse fingerprint) λ fp.
      or_error (params_or_error (from_str (replace ampersand (newline ∷ []) fragment))) λ param.
        or_error (read_payload fp param) λ payload. fill payload (from_fingerprint codec fp peers)

  unfoldable pub decode_openpgp : Text → List (Row Blob) → Scanned Fpr
  decode_openpgp qr peers = decode_parts (split_fragment (drop 12 qr)) peers
