-- ===== src/E2ee/Decrypt.antt =====
-- e2ee.rs: `try_decrypt`, what a received message does to the stored state of its sender; with
-- `Aheader::from_headers` (aheader.rs) and `handle_fingerprint_change` (peerstate.rs).
--
-- The parser of MIME and of the headers has run: a mail is its sender, its Autocrypt header where
-- that is valid, and its structure. `pk_decrypt` is the OpenPGP library's with the own keys.
-- Statements of the database do not fail.
pub mod Reset
use juttmy_core.Prelude.{
  ℕ, ℤ, Text, codes, text_eq, ltb, leb, ltb_ℤ, if◌then◌else◌, Bool, true, false, not, ◌&&◌, Option,
  none, some, is_some, List, [], ◌∷◌, length, take, trim_start_matches, Eq,
}
use juttmy_core.Address.{addr_normalize}
use juttmy_core.Peerstate.{Aheader, Peerstate, apply_header, from_header, degrade_encryption}
use juttmy_core.Peerstate.Saving.{Row, Codec, from_addr, save_to_db}

-- A part of the mail: its type and its body, if that can be decoded.
pub record Part : Type 0 where
  pub mimetype : Text
  pub body : Option (List ℕ)

pub record ParsedMail (Key : Type 0) : Type 0 where
  pub from : Text
  pub autocrypt : Option (Aheader Key)
  pub mimetype : Text
  pub subparts : List Part

-- What the code asks of others: `str::to_lowercase`, the contact of an address, and the library's
-- decryption for the keys that validate signatures, with the fingerprints of the valid ones.
pub record Outside (Key Fpr : Type 0) : Type 0 where
  pub lower : Text → Text
  pub contact_of : Text → Option ℕ
  pub pk_decrypt : List ℕ → List Key → Option (List ℕ × List Fpr)

-- The table of peers, and the contacts that were told of a changed setup, the last one first.
pub record Received (Blob : Type 0) : Type 0 where
  pub acpeerstates : List (Row Blob)
  pub told : List ℕ

pub data Decrypted (Fpr : Type 0) : Type 0 where
  done : Option (List ℕ) → List Fpr → Decrypted Fpr
  error : Decrypted Fpr

-- `addr_cmp`
unfoldable pub addr_cmp : (Text → Text) → Text → Text → Bool
addr_cmp lower a b = text_eq (lower (addr_normalize a)) (lower (addr_normalize b))

-- `has_decrypted_pgp_armor`
unfoldable pub has_decrypted_pgp_armor : List ℕ → Bool
has_decrypted_pgp_armor input =
    let shown = trim_start_matches (λ b. leb b 32) input in
    ltb 26 (length shown) && text_eq (take 27 shown) (codes "-----BEGIN PGP MESSAGE-----")

-- `contains_report`
abbrev pub contains_report : {Key : Type 0} → ParsedMail Key → Bool
contains_report mail = text_eq mail.mimetype (codes "multipart/report")

-- `get_autocrypt_mime`
unfoldable pub get_autocrypt_mime : {Key : Type 0} → ParsedMail Key → Option Part
get_autocrypt_mime mail =
    if not (text_eq mail.mimetype (codes "multipart/encrypted"))
    then none
    else two_parts mail.subparts
  where
    two_parts : List Part → Option Part
    two_parts (first_part ∷ second_part ∷ []) =
        if not (text_eq first_part.mimetype (codes "application/pgp-encrypted"))
        then none
        else if not (text_eq second_part.mimetype (codes "application/octet-stream"))
        then none
        else some second_part
    two_parts _ = none

module _ {Key Fpr : Type 0} (out : Outside Key Fpr) where
  -- `Aheader::from_headers`
  unfoldable pub from_headers : Text → ParsedMail Key → Option (Aheader Key)
  from_headers wanted_from mail = elim mail.autocrypt [
    | none ↦ none
    | some header ↦ if addr_cmp out.lower header.addr wanted_from then some header else none
  ]

  -- `decrypt_part`
  unfoldable pub decrypt_part : Part → List Key → Decrypted Fpr
  decrypt_part part keys = elim part.body [
    | none ↦ error
    | some data_ ↦
        if has_decrypted_pgp_armor data_
        then elim (out.pk_decrypt data_ keys) [
          | none ↦ error
          | some (plain, signatures) ↦ done (some plain) signatures
        ]
        else done none []
  ]

  unfoldable pub decrypt_if_autocrypt_message : ParsedMail Key → List Key → Decrypted Fpr
  decrypt_if_autocrypt_message mail keys = elim (get_autocrypt_mime mail) [
    | none ↦ done none []
    | some part ↦ decrypt_part part keys
  ]

-- The keys that validate signatures.
unfoldable pub validating_keys : {Key Fpr : Type 0} → Option (Peerstate Key Fpr) → List Key
validating_keys none = []
validating_keys (some p) = elim p.public_key [
  | some key ↦ key ∷ []
  | none ↦ elim p.gossip_key [ some key ↦ key ∷ [] | none ↦ [] ]
]

module _ {Key Fpr Blob : Type 0} ⦃ek : Eq Key⦄ ⦃ef : Eq Fpr⦄ (fingerprint : Key → Fpr)
    (codec : Codec Key Fpr Blob) (out : Outside Key Fpr) where
  -- The header is applied and stored.
  unfoldable pub take_header :
      Option (Aheader Key)
      → ℤ
      → Option (Peerstate Key Fpr)
      → Received Blob
      → Option (Peerstate Key Fpr) × Received Blob
  take_header none t peerstate w = (peerstate, w)
  take_header (some header) t (some p) w =
      let p' = apply_header fingerprint out.lower p header t in
      (some p', record w { acpeerstates = save_to_db codec p' false w.acpeerstates })
  take_header (some header) t none w =
      let p = from_header fingerprint header t in
      (some p, record w { acpeerstates = save_to_db codec p true w.acpeerstates })

  -- `handle_fingerprint_change`; `none` is an error.
  unfoldable pub handle_fingerprint_change :
      Option (Peerstate Key Fpr) → Received Blob → Option (Received Blob)
  handle_fingerprint_change none w = some w
  handle_fingerprint_change (some p) w =
      if p.fingerprint_changed
      then elim (out.contact_of p.addr) [
        | none ↦ none
        | some contact_id ↦ some (record w { told = contact_id ∷ w.told })
      ]
      else some w

  -- What an unencrypted message does.
  unfoldable pub degrade :
      Bool → Bool → ℤ → Option (Peerstate Key Fpr) → Received Blob → Received Blob
  degrade encrypted report t none w = w
  degrade encrypted report t (some p) w =
      if not encrypted && ltb_ℤ p.last_seen_autocrypt t && not report
      then record w {
        acpeerstates = save_to_db codec (degrade_encryption p t) false w.acpeerstates;
      }
      else w

  -- The rest, after the header.
  unfoldable pub decrypt_after :
      ParsedMail Key
      → ℤ
      → Option (Peerstate Key Fpr) × Received Blob
      → Decrypted Fpr × Received Blob
  decrypt_after mail t (peerstate, w) = elim (handle_fingerprint_change peerstate w) [
    | none ↦ (error, w)
    | some w' ↦ elim (decrypt_if_autocrypt_message out mail (validating_keys peerstate)) [
      | error ↦ (error, w')
      | done plain signatures ↦
          (done plain signatures, degrade (is_some plain) (contains_report mail) t peerstate w')
    ]
  ]

  unfoldable pub try_decrypt : ParsedMail Key → ℤ → Received Blob → Decrypted Fpr × Received Blob
  try_decrypt mail message_time w = decrypt_after mail message_time (
      take_header (from_headers out mail.from mail) message_time
        (from_addr codec mail.from w.acpeerstates) w)
