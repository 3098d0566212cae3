-- ===== src/Qr/Codes.antt =====
-- securejoin.rs and qr.rs: a code that the inviter shows is read as its invitation.
use juttmy_core.Prelude.{ℕ, Text, ◌==◌, true, false, Option, some, List, ◌≡◌, ◌≢◌, refl, arith, All}
use juttmy_core.Peerstate.Saving.{Row, Codec}
use juttmy_core.Token.{TokenRow, invite_number, auth, lookup_or_new, exists}
use juttmy_core.Token.Lookup.{lookup_or_new_lem, lookup_or_new-All, exists-lookup_or_new}
use juttmy_core.Qr.{Outside, Scanned}
use juttmy_core.Qr.Check.{check_qr}
use juttmy_core.Qr.Texts.{Safe}
use juttmy_core.Qr.Reading.{Encodes}
use juttmy_core.Qr.RoundTrip.{
  IsReadable, contact_lot, group_lot, check_qr-contact_code, check_qr-group_code,
}
use juttmy_core.Securejoin.Code.{Inviter, contact_code, group_code, dc_get_securejoin_qr}

-- The tokens are safe texts.
abbrev pub IsSafe : List TokenRow → Type 0
IsSafe rows = All (λ r. Safe r.token) rows

module _ (id id' : Text) (chat : ℕ) (tokens : List TokenRow) where
  abbrev pub number : Text × List TokenRow
  number = lookup_or_new id invite_number chat tokens

  abbrev pub secret : Text × List TokenRow
  secret = lookup_or_new id' auth chat (number.1)

  -- Both tokens are safe, and in the table.
  tokens_given :
      Safe id
      → Safe id'
      → IsSafe tokens
      → Safe (number.0)
        × Safe (secret.0)
        × (exists invite_number (number.0) (secret.1) ≡ true)
        × (exists auth (secret.0) (secret.1) ≡ true)
  tokens_given safe safe' all =
      let (safe_number, all_number) =
        lookup_or_new-All Safe invite_number chat id tokens safe all in
      let (safe_secret, _) = lookup_or_new-All Safe auth chat id' (number.1) safe' all_number in
      (
        safe_number,
        safe_secret,
        exists-lookup_or_new invite_number auth chat (number.0) id' (number.1)
            (lookup_or_new_lem invite_number chat id id tokens).0,
        (lookup_or_new_lem auth chat id' id' (number.1)).0,
      )

module _ {Key Fpr Blob : Type 0} (codec : Codec Key Fpr Blob) (out : Outside)
    (inviter : Inviter) where
  -- The inviter's code is read by `check_qr` as the lot, and both its tokens are in the table.
  abbrev pub Reads :
      Text
      → List TokenRow
      → Text
      → Text
      → Scanned Fpr
      → List (Row Blob)
      → Option Text × List TokenRow
      → Type 0
  Reads code tokens number secret lot peers shown =
      (shown ≡ (some code, tokens))
      × (check_qr codec out code peers ≡ lot)
      × (exists invite_number number tokens ≡ true)
      × (exists auth secret tokens ≡ true)

  module _ (fp : Fpr) (addr id id' : Text) (tokens : List TokenRow) (peers : List (Row Blob)) where
    -- The code that the inviter shows for a contact is read, on a device with any peers, as an
    -- invitation to verify the contact, with the inviter's fingerprint, name and address and with two
    -- tokens that are in the inviter's table. The inviter has an address and a key; the texts
    -- of the code go through the encodings, and the tokens, old and new, are of letters, digits and
    -- `-._%`.
    pub dc_get_securejoin_qr-contact :
        IsReadable codec out inviter fp addr
        → inviter.self_addr ≡ some addr
        → inviter.self_fingerprint ≡ some (codec.hex fp)
        → Encodes out inviter.encode_without_dot inviter.self_name
        → Safe id
        → Safe id'
        → IsSafe tokens
        → Reads
            (contact_code inviter addr
              (codec.hex fp)
              (number id id' 0 tokens).0
              (secret id id' 0 tokens).0)
            (secret id id' 0 tokens).1
            (number id id' 0 tokens).0
            (secret id id' 0 tokens).0
            (contact_lot out inviter fp addr (number id id' 0 tokens).0 (secret id id' 0 tokens).0)
            peers
            (dc_get_securejoin_qr inviter id id' 0 tokens)
    unfolding dc_get_securejoin_qr
    dc_get_securejoin_qr-contact r has_addr has_key named safe safe' all =
        let (safe_number, safe_secret, known, known_secret) =
          tokens_given id id' 0 tokens safe safe' all in
        (
          rw (has_addr, has_key) refl,
          check_qr-contact_code codec out peers inviter fp addr _ _ r named safe_number safe_secret,
          known,
          known_secret,
        )

    -- The code that the inviter shows for a group is read, on a device with any peers, as an
    -- invitation to the group, with the inviter's fingerprint and address, the name and the id of
    -- the group and two tokens that are in the inviter's table. The inviter has an address, a key and
    -- a chat of the group that is not 0 and can be loaded; the texts of the code go through the
    -- encodings. The id of the group, which is written without an encoding, is of letters, digits and
    -- `-._%`, and so are the tokens, old and new.
    pub dc_get_securejoin_qr-group :
        (chat : ℕ) (name grpid : Text)
        → IsReadable codec out inviter fp addr
        → inviter.self_addr ≡ some addr
        → inviter.self_fingerprint ≡ some (codec.hex fp)
        → chat ≢ 0
        → inviter.load_chat chat ≡ some (name, grpid)
        → Encodes out inviter.encode name
        → Safe grpid
        → Safe id
        → Safe id'
        → IsSafe tokens
        → Reads
            (group_code inviter addr
              (codec.hex fp)
              (name, grpid)
              (number id id' chat tokens).0
              (secret id id' chat tokens).0)
            (secret id id' chat tokens).1
            (number id id' chat tokens).0
            (secret id id' chat tokens).0
            (group_lot out inviter fp addr
              (number id id' chat tokens).0
              (secret id id' chat tokens).0
              name
              grpid)
            peers
            (dc_get_securejoin_qr inviter id id' chat tokens)
    unfolding dc_get_securejoin_qr
    dc_get_securejoin_qr-group chat name grpid r has_addr has_key some_chat has_chat named safe_id
          safe safe' all =
        let (safe_number, safe_secret, known, known_secret) =
          tokens_given id id' chat tokens safe safe' all in
        let is_chat : (chat == 0) ≡ false = ground (arith, some_chat) in
        (
          rw (has_addr, has_key, is_chat, has_chat) refl,
          check_qr-group_code codec out peers inviter fp addr _ _ name grpid r named safe_id
              safe_number safe_secret,
          known,
          known_secret,
        )
