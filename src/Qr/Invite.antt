-- ===== src/Qr/Invite.antt =====
-- qr.rs: a code that asks to verify a contact or a group is an invitation.
use juttmy_core.Prelude.{
  ℕ, Text, codes, starts_with, is_some, not, if_both, if_split, option_split, if◌then◌else◌,
  Bool-cases, true, false, ◌&&◌, ◌||◌, Option, none, some, List, [], ◌∷◌, ◌≡◌, refl, arith, ◌⊎◌,
  inl, inr, drop, trim,
}
use juttmy_core.Params.{from_str, newline}
use juttmy_core.Peerstate.{Peerstate}
use juttmy_core.Peerstate.Saving.{Row, Codec, from_fingerprint}
use juttmy_core.Qr.{
  Outside, Url, qr_ask_verify_group, qr_ask_verify_contact, Lot, Scanned, or_error, from_url,
  from_text, from_address, normalize_address, starts_with_ignore_case,
}
use juttmy_core.Qr.Decode.{
  Payload, show_peer, ask, fill, read_payload, decode_parts, split_fragment, decode_openpgp,
  params_or_error, replace, before, behind, split_once, colon, question_mark,
}
use juttmy_core.Qr.Check.{
  check_qr, is_web, account_lot, webrtc_lot, at_address, to_semicolon, vcard_name_of,
  parse_webrtc_instance, decode_account, decode_webrtc_instance, decode_mailto, decode_smtp,
  decode_matmsg, decode_vcard,
}
use juttmy_core.Securejoin.Joiner.{is_group}
use juttmy_core.Securejoin.Joining.{asks, state_of}

-- The fields of an invitation.
pub record IsAsking {Fpr : Type 0} (lot : Lot Fpr) : Type 0 where
  pub fingerprint : is_some lot.fingerprint ≡ true
  pub invitenumber : is_some lot.invitenumber ≡ true
  pub auth : is_some lot.auth ≡ true
  pub group : (is_group (state_of lot.state) && not (is_some lot.text2)) ≡ false

-- A lot that asks for nothing, or is complete.
record Fine {Fpr : Type 0} (s : Scanned Fpr) : Type 0 where
  fine : (asks (state_of (s.0).state) ≡ false) ⊎ IsAsking (s.0)

module _ {Fpr : Type 0} where
  nothing_asked : (s : Scanned Fpr) → asks (state_of (s.0).state) ≡ false → Fine s
  nothing_asked s h = record { fine = inl h }

  Fine-error :
      {A : Type 0} (o : Option A) (next : A → Scanned Fpr)
      → ((a : A) → Fine (next a))
      → Fine (or_error o next)
  Fine-error none next h = nothing_asked _ refl
  Fine-error (some a) next h = h a

  Fine-address : (out : Outside) (name addr : Text) → Fine {Fpr = Fpr} (from_address out name addr)
  Fine-address out name addr =
      option_split {A = ℕ} {B = Scanned Fpr} Fine (out.add_or_lookup name addr)
        (λ _. nothing_asked _ refl) (λ id _. nothing_asked _ refl)

group_text :
    (grpid grpname : Option Text)
    → (is_group (
          state_of (
            if is_some grpid && is_some grpname
            then qr_ask_verify_group
            else qr_ask_verify_contact))
        && not (is_some (if is_some grpid && is_some grpname then grpid else none)))
      ≡ false
group_text none none = refl
group_text none (some n) = refl
group_text (some g) none = refl
group_text (some g) (some n) = refl

module _ {Key Fpr Blob : Type 0} (codec : Codec Key Fpr Blob) (out : Outside) where
  Fine-show_peer :
      (payload : Payload Fpr) (peer : Option (Peerstate Key Fpr))
      → Fine (show_peer codec out payload peer)
  unfolding show_peer
  Fine-show_peer payload none = nothing_asked _ refl
  Fine-show_peer payload (some peer) = nothing_asked _ refl

  Fine-ask :
      (payload : Payload Fpr) (addr : Text)
      → is_some payload.invitenumber ≡ true
      → is_some payload.auth ≡ true
      → Fine (ask codec out payload addr)
  unfolding ask
  Fine-ask payload addr number secret = record {
    fine = inr (record {
      fingerprint = refl;
      invitenumber = number;
      auth = secret;
      group = group_text payload.grpid payload.grpname;
    });
  }

  Fine-fill :
      (payload : Payload Fpr) (peer : Option (Peerstate Key Fpr))
      → Fine (fill codec out payload peer)
  unfolding fill
  Fine-fill payload peer =
      if_split {A = Scanned Fpr} Fine
        (not (is_some payload.invitenumber) || not (is_some payload.auth))
        (λ _. Fine-show_peer payload peer)
        λ both.
          Fine-error payload.addr (ask codec out payload)
            (λ addr. Fine-ask payload addr (ground (arith, both)) (ground (arith, both)))

  Fine-parts :
      (parts : Text × Text) (peers : List (Row Blob)) → Fine (decode_parts codec out parts peers)
  Fine-parts (fingerprint, fragment) peers = Fine-error (codec.parse fingerprint) _ λ fp.
      Fine-error (params_or_error (from_str (replace 38 (newline ∷ []) fragment))) _ λ param.
        Fine-error (read_payload codec out fp param) _
          λ payload. Fine-fill payload (from_fingerprint codec fp peers)

  Fine-at_address : (name addr : Text) → Fine (at_address codec out name addr)
  Fine-at_address name addr =
      Fine-error (normalize_address out addr) (λ a. from_address out name a)
        (λ a. Fine-address out name a)

  Fine-account_lot : (url : Url) → Fine (account_lot codec out url)
  unfolding account_lot
  Fine-account_lot url = elim (Bool-cases (is_web url)) [
    | inl web ↦ rw web (nothing_asked _ refl)
    | inr other ↦ rw other (nothing_asked _ refl)
  ]

  Fine-webrtc_lot : (payload : Text) (url : Url) → Fine (webrtc_lot codec out payload url)
  unfolding webrtc_lot
  Fine-webrtc_lot payload url = elim (Bool-cases (is_web url)) [
    | inl web ↦ rw web (nothing_asked _ refl)
    | inr other ↦ rw other (nothing_asked _ refl)
  ]

  Fine-account : (qr : Text) → Fine (decode_account codec out qr)
  unfolding decode_account
  Fine-account qr = Fine-error (out.url_parse (drop 10 qr)) (account_lot codec out) Fine-account_lot

  Fine-webrtc : (qr : Text) → Fine (decode_webrtc_instance codec out qr)
  unfolding decode_webrtc_instance
  Fine-webrtc qr =
      let payload = drop 9 qr in
      Fine-error (out.url_parse ((parse_webrtc_instance out payload).1))
        (webrtc_lot codec out payload) (Fine-webrtc_lot payload)

  Fine-mailto : (qr : Text) → Fine (decode_mailto codec out qr)
  unfolding decode_mailto
  Fine-mailto qr = Fine-at_address [] (before question_mark (drop 7 qr))

  Fine-smtp : (qr : Text) → Fine (decode_smtp codec out qr)
  unfolding decode_smtp
  Fine-smtp qr =
      Fine-error (split_once colon (drop 5 qr)) (λ parts. at_address codec out [] (parts.0))
        λ parts. Fine-at_address [] (parts.0)

  Fine-matmsg : (qr : Text) → Fine (decode_matmsg codec out qr)
  unfolding decode_matmsg
  Fine-matmsg qr =
      Fine-error (behind (codes "TO:") qr)
        (λ addr. at_address codec out [] (to_semicolon codec out (trim addr)))
        λ addr. Fine-at_address [] (to_semicolon codec out (trim addr))

  Fine-vcard : (qr : Text) → Fine (decode_vcard codec out qr)
  unfolding decode_vcard
  Fine-vcard qr =
      Fine-error (out.vcard_email qr)
        (λ email. at_address codec out (vcard_name_of codec out qr) (trim email))
        λ email. Fine-at_address (vcard_name_of codec out qr) (trim email)

  Fine-openpgp : (qr : Text) (peers : List (Row Blob)) → Fine (decode_openpgp codec out qr peers)
  unfolding decode_openpgp
  Fine-openpgp qr peers = Fine-parts (split_fragment (drop 12 qr)) peers

  Fine-check_qr : (qr : Text) (peers : List (Row Blob)) → Fine (check_qr codec out qr peers)
  unfolding check_qr
  Fine-check_qr qr peers =
      if_both Fine (starts_with_ignore_case out qr (codes "OPENPGP4FPR:")) (Fine-openpgp qr peers) (
        if_both Fine (starts_with_ignore_case out qr (codes "DCACCOUNT:")) (Fine-account qr) (
          if_both Fine (starts_with_ignore_case out qr (codes "DCWEBRTC:")) (Fine-webrtc qr) (
            if_both Fine (starts_with (codes "mailto:") qr) (Fine-mailto qr) (
              if_both Fine (starts_with (codes "SMTP:") qr) (Fine-smtp qr) (
                if_both Fine (starts_with (codes "MATMSG:") qr) (Fine-matmsg qr) (
                  if_both Fine (starts_with (codes "BEGIN:VCARD") qr) (Fine-vcard qr) (
                    if_both Fine
                      (starts_with (codes "http://") qr || starts_with (codes "https://") qr)
                      (nothing_asked (from_url qr) refl) (nothing_asked (from_text qr) refl))))))))

  -- Whatever is scanned: if the lot asks to verify a contact or a group, it has a fingerprint, a
  -- number and a secret, and the id of its group if it is for one.
  pub check_qr-IsAsking :
      (qr : Text) (peers : List (Row Blob))
      → (asks (state_of (check_qr codec out qr peers).0.state) ≡ false)
        ⊎ IsAsking (check_qr codec out qr peers).0
  check_qr-IsAsking qr peers = (Fine-check_qr qr peers).fine
