-- ===== src/Qr/RoundTrip.antt =====
-- qr.rs and securejoin.rs: the code of an invitation is read as the invitation.
use juttmy_core.Prelude.{Text, none, some, List, [], ◌∷◌, ◌≡◌, refl, arith}
use juttmy_core.Params.{Params, get, set}
use juttmy_core.Params.Keys.{
  Param, letter, forwarded, set_longitude, profile_image, auth, group_id, group_name,
}
use juttmy_core.Params.Fields.{set_fields}
use juttmy_core.Peerstate.Saving.{Row, Codec}
use juttmy_core.Qr.{
  Outside, Lot, Scanned, qr_ask_verify_contact, qr_ask_verify_group, or_default, normalize_address,
  or_error, starts_with_ignore_case,
}
use juttmy_core.Qr
use juttmy_core.Qr.Decode.{decode_name, read_payload, fill, ask, read_with, read_group_name}
use juttmy_core.Qr.Check.{check_qr}
use juttmy_core.Qr.Texts.{Safe, IsLowercase}
use juttmy_core.Securejoin.Code.{Inviter, contact_code, group_code}
use juttmy_core.Qr.Reading.{Encodes, IsPlainAddr, normalized, name_decoded, check_qr-code}

module _ {Fpr : Type 0} (out : Outside) (inviter : Inviter) (fp : Fpr)
    (addr invitenumber secret : Text) where
  -- The lot of the code for a contact.
  abbrev pub contact_lot : Scanned Fpr
  contact_lot = (
    record {
      text1 = none;
      text2 = none;
      state = qr_ask_verify_contact;
      id = or_default (out.add_or_lookup inviter.self_name addr);
      fingerprint = some fp;
      invitenumber = some invitenumber;
      auth = some secret;
    },
    Qr.add_or_lookup inviter.self_name addr ∷ [],
  )

  -- The lot of the code for a group.
  abbrev pub group_lot : Text → Text → Scanned Fpr
  group_lot name grpid = (
    record {
      text1 = some name;
      text2 = some grpid;
      state = qr_ask_verify_group;
      id = or_default (out.add_or_lookup [] addr);
      fingerprint = some fp;
      invitenumber = some invitenumber;
      auth = some secret;
    },
    Qr.add_or_lookup [] addr ∷ [],
  )

-- What the inviter's address and fingerprint go through, as documented of the crates that encode and
-- decode them: the texts are safe, and are read back.
pub record IsReadable {Key Fpr Blob : Type 0} (codec : Codec Key Fpr Blob) (out : Outside)
    (inviter : Inviter) (fp : Fpr) (addr : Text) : Type 0 where
  pub lowercase : IsLowercase out.to_lowercase
  pub parse-hex : codec.parse (codec.hex fp) ≡ some fp
  pub safe_hex : Safe (codec.hex fp)
  pub encoded : Encodes out inviter.encode_without_dot addr
  pub plain : IsPlainAddr addr

module _ {Key Fpr Blob : Type 0} (codec : Codec Key Fpr Blob) (out : Outside)
    (peers : List (Row Blob)) where
  contact_read :
      (fp : Fpr) (param : Params) (a n addr name invitenumber secret : Text)
      → get param forwarded ≡ some a
      → get param set_longitude ≡ some n
      → get param profile_image ≡ some invitenumber
      → get param auth ≡ some secret
      → get param group_id ≡ none
      → normalize_address out a ≡ some addr
      → decode_name out n ≡ some name
      → read_payload codec out fp param
        ≡ some (record {
          fingerprint = fp;
          addr = some addr;
          name = name;
          invitenumber = some invitenumber;
          auth = some secret;
          grpid = none;
          grpname = none;
        })
  unfolding read_payload
  contact_read fp param a n addr name invitenumber secret ga gn gi gs gx ea en =
      rw (read_payload, ga, read_with, ea, gn, read_with, en, read_group_name, gx)
        (rw (gi, gs, gx) refl)

  group_read :
      (fp : Fpr) (param : Params) (a g addr name grpid invitenumber secret : Text)
      → get param forwarded ≡ some a
      → get param set_longitude ≡ none
      → get param profile_image ≡ some invitenumber
      → get param auth ≡ some secret
      → get param group_id ≡ some grpid
      → get param group_name ≡ some g
      → normalize_address out a ≡ some addr
      → decode_name out g ≡ some name
      → read_payload codec out fp param
        ≡ some (record {
          fingerprint = fp;
          addr = some addr;
          name = [];
          invitenumber = some invitenumber;
          auth = some secret;
          grpid = some grpid;
          grpname = some name;
        })
  unfolding read_payload
  group_read fp param a g addr name grpid invitenumber secret ga gn gi gs gx gg ea en =
      rw (read_payload, ga, read_with, ea, gn, read_with, read_group_name, gx, gg, read_with, en)
        (rw (gi, gs, gx) refl)

  module _ (inviter : Inviter) (fp : Fpr) (addr invitenumber secret : Text) where
    abbrev first_field : Param × Text
    first_field = (forwarded, inviter.encode_without_dot addr)

    abbrev contact_fields : List (Param × Text)
    contact_fields =
        (set_longitude, inviter.encode_without_dot inviter.self_name)
        ∷ (profile_image, invitenumber)
        ∷ (auth, secret)
        ∷ []

    abbrev group_fields : Text → Text → List (Param × Text)
    group_fields name grpid =
        (group_name, inviter.encode name)
        ∷ (group_id, grpid)
        ∷ (profile_image, invitenumber)
        ∷ (auth, secret)
        ∷ []

    contact_payload :
        Encodes out inviter.encode_without_dot addr
        → IsPlainAddr addr
        → Encodes out inviter.encode_without_dot inviter.self_name
        → read_payload codec out fp (set_fields [] (first_field ∷ contact_fields))
          ≡ some (record {
            fingerprint = fp;
            addr = some addr;
            name = inviter.self_name;
            invitenumber = some invitenumber;
            auth = some secret;
            grpid = none;
            grpname = none;
          })
    unfolding read_payload get set letter
    contact_payload encoded plain named =
        let param = set_fields [] (first_field ∷ contact_fields) in
        contact_read fp param (inviter.encode_without_dot addr)
          (inviter.encode_without_dot inviter.self_name) addr inviter.self_name invitenumber secret
          refl refl refl refl refl (normalized out inviter.encode_without_dot addr encoded plain)
          (name_decoded out inviter.encode_without_dot inviter.self_name named)

    pub check_qr-contact_code :
        IsReadable codec out inviter fp addr
        → Encodes out inviter.encode_without_dot inviter.self_name
        → Safe invitenumber
        → Safe secret
        → check_qr codec out (contact_code inviter addr (codec.hex fp) invitenumber secret) peers
          ≡ contact_lot out inviter fp addr invitenumber secret
    unfolding letter fill ask
    check_qr-contact_code r named safe_number safe_secret =
        check_qr-code codec out r.lowercase peers fp first_field contact_fields _ r.parse-hex
          r.safe_hex
          (
            (omega arith, r.encoded.0),
            (
              (omega arith, named.0),
              ((omega arith, safe_number), ((omega arith, safe_secret), tt)),
            ),
          )
          (contact_payload r.encoded r.plain named)

    pub check_qr-group_code :
        (name grpid : Text)
        → IsReadable codec out inviter fp addr
        → Encodes out inviter.encode name
        → Safe grpid
        → Safe invitenumber
        → Safe secret
        → check_qr codec out
            (group_code inviter addr (codec.hex fp) (name, grpid) invitenumber secret)
            peers
          ≡ group_lot out inviter fp addr invitenumber secret name grpid
    unfolding letter fill ask get set
    check_qr-group_code name grpid r named safe_id safe_number safe_secret =
        check_qr-code codec out r.lowercase peers fp first_field (group_fields name grpid) _
          r.parse-hex r.safe_hex
          (
            (omega arith, r.encoded.0),
            (
              (omega arith, named.0),
              (
                (omega arith, safe_id),
                ((omega arith, safe_number), ((omega arith, safe_secret), tt)),
              ),
            ),
          )
          (group_read fp (set_fields [] (first_field ∷ group_fields name grpid)) _ _ addr name grpid
            invitenumber secret refl refl refl refl refl refl
            (normalized out inviter.encode_without_dot addr r.encoded r.plain)
            (name_decoded out inviter.encode name named))
