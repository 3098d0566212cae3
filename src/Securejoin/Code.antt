-- ===== src/Securejoin/Code.antt =====
-- securejoin.rs: the QR code of an invitation.
use juttmy_core.Prelude.{
  ℕ, Text, codes, ◌==◌, if◌then◌else◌, Option, none, some, List, [], ◌∷◌, ◌++◌, join,
}
use juttmy_core.Token.{TokenRow, invite_number, auth, lookup_or_new}

-- What the inviter knows: the configuration, its key, the group chats, and the percent encoding of
-- the crate, which leaves alone letters and digits, and dots in the first form.
pub record Inviter : Type 0 where
  pub self_addr : Option Text
  pub self_name : Text
  -- The fingerprint of the own key, in hex digits.
  pub self_fingerprint : Option Text
  -- The name and the group id of a chat.
  pub load_chat : ℕ → Option (Text × Text)
  pub encode_without_dot : Text → Text
  pub encode : Text → Text

-- `letter=value`
abbrev pub pair : ℕ → Text → Text
pair key value = key ∷ 61 ∷ value

abbrev pub code_of : Text → List Text → Text
code_of fingerprint pairs = codes "OPENPGP4FPR:" ++ (fingerprint ++ 35 ∷ join (38 ∷ []) pairs)

-- `a=g=x=i=s=`
abbrev pub group_code : Inviter → Text → Text → Text × Text → Text → Text → Text
group_code inviter addr fingerprint (name, grpid) invitenumber secret = code_of fingerprint (
    pair 97 (inviter.encode_without_dot addr)
    ∷ pair 103 (inviter.encode name)
    ∷ pair 120 grpid
    ∷ pair 105 invitenumber
    ∷ pair 115 secret
    ∷ [])

-- `a=n=i=s=`
abbrev pub contact_code : Inviter → Text → Text → Text → Text → Text
contact_code inviter addr fingerprint invitenumber secret = code_of fingerprint (
    pair 97 (inviter.encode_without_dot addr)
    ∷ pair 110 (inviter.encode_without_dot inviter.self_name)
    ∷ pair 105 invitenumber
    ∷ pair 115 secret
    ∷ [])

abbrev print_code : Inviter → ℕ → Text → Text → Text → Text → Option Text
print_code inviter group_chat_id addr fingerprint invitenumber secret =
    if group_chat_id == 0
    then some (contact_code inviter addr fingerprint invitenumber secret)
    else elim (inviter.load_chat group_chat_id) [
      | none ↦ none
      | some chat ↦ some (group_code inviter addr fingerprint chat invitenumber secret)
    ]

-- With the two ids that `dc_create_id` would give.
unfoldable pub dc_get_securejoin_qr :
    Inviter → Text → Text → ℕ → List TokenRow → Option Text × List TokenRow
dc_get_securejoin_qr inviter id id' group_chat_id tokens =
    let (invitenumber, tokens) = lookup_or_new id invite_number group_chat_id tokens in
    let (secret, tokens) = lookup_or_new id' auth group_chat_id tokens in
    elim inviter.self_addr [
      | none ↦ (none, tokens)
      | some addr ↦ elim inviter.self_fingerprint [
        | none ↦ (none, tokens)
        | some fp ↦ (print_code inviter group_chat_id addr fp invitenumber secret, tokens)
      ]
    ]
