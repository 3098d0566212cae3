-- ===== src/Qr/Check.antt =====
-- qr.rs: `check_qr` and the decoders of the other schemes.
use juttmy_core.Prelude.{
  Text, codes, text_eq, starts_with, is_whitespace, if◌then◌else◌, Bool, ◌||◌, none, some, List, [],
  ◌∷◌, ◌++◌, drop, trim,
}
use juttmy_core.Peerstate.Saving.{Row, Codec}
use juttmy_core.Qr.{
  Outside, Scanned, Url, qr_account, qr_webrtc_instance, new_lot, error_lot, or_error, from_text,
  from_url, from_address, starts_with_ignore_case, normalize_address,
}
use juttmy_core.Qr.Decode.{
  split_once, before, behind, semicolon, colon, question_mark, decode_openpgp,
}

abbrev pub is_web : Url → Bool
is_web url = text_eq url.scheme (codes "http") || text_eq url.scheme (codes "https")

-- `split_whitespace().collect()`
unfoldable pub without_whitespace : Text → Text
without_whitespace [] = []
without_whitespace (c ∷ s) =
    let rest = without_whitespace s in if is_whitespace c then rest else c ∷ rest

pub data VideochatType : Type 0 where
  unknown basic_webrtc jitsi : VideochatType

-- `Message::parse_webrtc_instance`
unfoldable pub parse_webrtc_instance : Outside → Text → VideochatType × Text
parse_webrtc_instance out instance_text =
    let instance_text = without_whitespace instance_text in
    let type_str = out.to_lowercase (before colon instance_text) in
    let url : Text = elim (split_once colon instance_text) [ none ↦ [] | some parts ↦ parts.1 ] in
    if text_eq type_str (codes "basicwebrtc")
    then (basic_webrtc, url)
    else if text_eq type_str (codes "jitsi")
    then (jitsi, url)
    else (unknown, instance_text)

module _ {Key Fpr Blob : Type 0} (codec : Codec Key Fpr Blob) (out : Outside) where
  unfoldable pub account_lot : Url → Scanned Fpr
  account_lot url =
      if is_web url
      then (record new_lot { state = qr_account; text1 = url.host_str }, [])
      else error_lot

  unfoldable pub decode_account : Text → Scanned Fpr
  decode_account qr = or_error (out.url_parse (drop 10 qr)) account_lot

  unfoldable pub webrtc_lot : Text → Url → Scanned Fpr
  webrtc_lot payload url =
      if is_web url
      then (
        record new_lot { state = qr_webrtc_instance; text1 = url.host_str; text2 = some payload },
        [],
      )
      else error_lot

  unfoldable pub decode_webrtc_instance : Text → Scanned Fpr
  decode_webrtc_instance qr =
      let payload = drop 9 qr in
      or_error (out.url_parse ((parse_webrtc_instance out payload).1)) (webrtc_lot payload)

  -- The address that a scheme gives.
  abbrev pub at_address : Text → Text → Scanned Fpr
  at_address name addr = or_error (normalize_address out addr) λ addr. from_address out name addr

  unfoldable pub decode_mailto : Text → Scanned Fpr
  decode_mailto qr = at_address [] (before question_mark (drop 7 qr))

  unfoldable pub decode_smtp : Text → Scanned Fpr
  decode_smtp qr = or_error (split_once colon (drop 5 qr)) λ parts. at_address [] (parts.0)

  abbrev pub to_semicolon : Text → Text
  to_semicolon addr = elim (split_once semicolon addr) [ none ↦ addr | some parts ↦ trim parts.0 ]

  unfoldable pub decode_matmsg : Text → Scanned Fpr
  decode_matmsg qr =
      or_error (behind (codes "TO:") qr) λ addr. at_address [] (to_semicolon (trim addr))

  abbrev pub vcard_name_of : Text → Text
  vcard_name_of qr = elim (out.vcard_name qr) [
    | none ↦ []
    | some caps ↦ trim caps.1 ++ codes " " ++ trim caps.0
  ]

  unfoldable pub decode_vcard : Text → Scanned Fpr
  decode_vcard qr =
      or_error (out.vcard_email qr) λ email. at_address (vcard_name_of qr) (trim email)

  unfoldable pub check_qr : Text → List (Row Blob) → Scanned Fpr
  check_qr qr peers =
      if starts_with_ignore_case out qr (codes "OPENPGP4FPR:")
      then decode_openpgp codec out qr peers
      else if starts_with_ignore_case out qr (codes "DCACCOUNT:")
      then decode_account qr
      else if starts_with_ignore_case out qr (codes "DCWEBRTC:")
      then decode_webrtc_instance qr
      else if starts_with (codes "mailto:") qr
      then decode_mailto qr
      else if starts_with (codes "SMTP:") qr
      then decode_smtp qr
      else if starts_with (codes "MATMSG:") qr
      then decode_matmsg qr
      else if starts_with (codes "BEGIN:VCARD") qr
      then decode_vcard qr
      else if starts_with (codes "http://") qr || starts_with (codes "https://") qr
      then from_url qr
      else from_text qr
