-- ===== src/E2ee.antt =====
-- e2ee.rs: whether a message is encrypted, for whom, and what a received message tells of its
-- sender.
--
-- Keys are those of the OpenPGP library: the type `Key`; `pk_encrypt` is its function. The own
-- secret key is found. The texts of the errors are left out, but for the address in them.
pub mod Decrypt
pub mod Keyring
pub mod Votes
mod Tests
use juttmy_core.Prelude.{
  ℕ, ◌+◌, ◌*◌, Text, ltb, if◌then◌else◌, Bool, true, false, ◌||◌, Option, none, some, List, [], ◌∷◌,
  ◌++◌, length,
}
use juttmy_core.Peerstate.{
  EncryptPreference, no_preference, mutual_preference, reset, preference_eq, Peerstate,
  PeerstateVerifiedStatus, take_key,
}

pub record EncryptHelper (Key : Type 0) : Type 0 where
  pub prefer_encrypt : EncryptPreference
  pub addr : Text
  pub public_key : Key

-- A result: a key is missing for an address, or the OpenPGP library fails.
pub data Checked (A : Type 0) : Type 0 where
  ok : A → Checked A
  missing : Text → Checked A
  failed : Checked A

-- `(Option<Peerstate>, &str)`
abbrev pub Peer : Type 0 → Type 0 → Type 0
Peer Key Fpr = Option (Peerstate Key Fpr) × Text

module _ {Key Fpr : Type 0} where
  -- The loop of `should_encrypt` with its early returns, and the test behind it.
  unfoldable pub count_preferences : Bool → ℕ → ℕ → List (Peer Key Fpr) → Checked Bool
  count_preferences e2ee_guaranteed recipients_count count [] =
      ok (e2ee_guaranteed || ltb recipients_count (2 * count))
  count_preferences e2ee_guaranteed recipients_count count ((none, addr) ∷ peers) =
      if e2ee_guaranteed then missing addr else ok false
  count_preferences e2ee_guaranteed recipients_count count ((some p, addr) ∷ peers) =
      let next = count_preferences e2ee_guaranteed recipients_count count peers in
      let voted = count_preferences e2ee_guaranteed recipients_count (count + 1) peers in
      elim p.prefer_encrypt [
        | no_preference ↦ next
        | mutual_preference ↦ voted
        | reset ↦ if e2ee_guaranteed then next else ok false
      ]

  unfoldable pub should_encrypt : EncryptHelper Key → Bool → List (Peer Key Fpr) → Checked Bool
  should_encrypt h e2ee_guaranteed peers =
      count_preferences e2ee_guaranteed (length peers + 1)
        (if preference_eq h.prefer_encrypt mutual_preference then 1 else 0) peers

  -- The loop of `encrypt`: it passes over peers without a state.
  unfoldable pub take_keys : PeerstateVerifiedStatus → List (Peer Key Fpr) → Checked (List Key)
  take_keys status [] = ok []
  take_keys status ((none, addr) ∷ peers) = take_keys status peers
  take_keys status ((some p, addr) ∷ peers) = elim (take_key p status) [
    | none ↦ missing addr
    | some key ↦ elim (take_keys status peers) [
      | ok keys ↦ ok (key ∷ keys)
      | missing a ↦ missing a
      | failed ↦ failed
    ]
  ]

  unfoldable pub encrypt :
      {Mail : Type 0}
      → (Mail → List Key → Option Text)
      → EncryptHelper Key
      → PeerstateVerifiedStatus
      → Mail
      → List (Peer Key Fpr)
      → Checked Text
  encrypt pk_encrypt h status mail peers = elim (take_keys status peers) [
    | missing a ↦ missing a
    | failed ↦ failed
    | ok keys ↦ elim (pk_encrypt mail (keys ++ h.public_key ∷ [])) [
      | none ↦ failed
      | some ctext ↦ ok ctext
    ]
  ]
