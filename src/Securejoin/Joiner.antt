-- ===== src/Securejoin/Joiner.antt =====
-- securejoin.rs: what Bob, the joiner, does with the messages of the inviter.
use juttmy_core.Prelude.{
  ℕ, Text, codes, Bool, true, false, not, ◌++◌, ◌&&◌, ◌||◌, Option, none, some, Eq, [], ◌∷◌,
  if◌then◌else◌,
}
use juttmy_core.Peerstate.Saving.{Codec}
use juttmy_core.Securejoin.{
  World, Env, Mime, Scan, ScanState, ask_verify_group, Expects, not_active, auth_required,
  contact_confirm, ok, err, HandshakeMessage, ignore, done, propagate, no_self_addr, emit,
  joiner_progress, not_established, established, origin_scaled, securejoin_joined, contacts_changed,
  ongoing_stopped, encrypted_and_signed, fingerprint_equals_sender, mark_peer_as_verified,
}
use juttmy_core.Securejoin.Steps.{Handled, send, protocol, unwrap, or_empty}

abbrev pub is_group : ScanState → Bool
is_group ask_verify_group = true
is_group _ = false

abbrev pub expects_eq : Expects → Expects → Bool
expects_eq not_active not_active = true
expects_eq auth_required auth_required = true
expects_eq contact_confirm contact_confirm = true
expects_eq _ _ = false

module _ {Key Fpr Blob : Type 0} ⦃ef : Eq Fpr⦄ (codec : Codec Key Fpr Blob) (env : Env Fpr) where
  -- A failed check of step 4.
  abbrev give_up : ℕ → Text → World Fpr Blob → Handled Fpr Blob
  give_up chat details w = (ok ignore, emit ongoing_stopped (emit (not_established chat details) w))

  -- Behind the checks of step 4: the answer that holds the secret of the QR code.
  unfoldable pub answer_with_auth :
      Bool → Scan Fpr → Text → ℕ → ℕ → World Fpr Blob → Handled Fpr Blob
  answer_with_auth vg scan auth contact chat w = unwrap env.self_fingerprint w λ own.
      let w' = record w { expects = contact_confirm; log = joiner_progress contact 400 ∷ w.log } in
      unwrap (if vg then scan.text2 else some []) w' λ grpid.
        send codec env chat (protocol vg ++ codes "-request-with-auth") auth (some own) grpid w'
          (λ w''. (ok done, w''))

  check_auth_required : Bool → Mime Fpr → Scan Fpr → ℕ → ℕ → World Fpr Blob → Handled Fpr Blob
  check_auth_required vg m scan contact chat w = unwrap scan.fingerprint w λ fingerprint.
      unwrap scan.auth w λ auth.
        if not (encrypted_and_signed m (some fingerprint))
        then give_up chat
            (if m.was_encrypted then codes "No valid signature." else codes "Not encrypted.") w
        else if not (fingerprint_equals_sender codec env w fingerprint chat)
        then give_up chat (codes "Fingerprint mismatch on joiner-side.") w
        else answer_with_auth vg scan auth contact chat w

  -- "vg-auth-required" and "vc-auth-required"
  unfoldable pub handle_auth_required : Bool → Mime Fpr → ℕ → ℕ → World Fpr Blob → Handled Fpr Blob
  unfolding check_auth_required
  handle_auth_required vg m contact chat w = elim w.qr_scan [
    | none ↦ (ok ignore, w)
    | some scan ↦
        if not (expects_eq w.expects auth_required) || (vg && not (is_group scan.state))
        then (ok ignore, w)
        else check_auth_required vg m scan contact chat w
  ]

  -- The value of an aborted step 7.
  abbrev pub abort : Bool → HandshakeMessage
  abort vg = if vg then propagate else ignore

  -- Behind the mark of step 7: the handshake ends.
  unfoldable pub complete : Bool → ℕ → Fpr → World Fpr Blob → Handled Fpr Blob
  complete vg chat fingerprint w =
      send codec env chat
        (if vg then codes "vg-member-added-received" else codes "vc-contact-confirm-received") []
        (some fingerprint) [] (record w { expects = not_active; log = established chat ∷ w.log })
        (λ w'. (ok (if vg then propagate else ignore), emit ongoing_stopped w'))

  -- A group message may add somebody else.
  unfoldable pub confirm_member : Bool → Mime Fpr → ℕ → Fpr → World Fpr Blob → Handled Fpr Blob
  confirm_member vg m chat fingerprint w =
      if vg
      then elim (env.is_self_addr (or_empty m.member_added)) [
        | none ↦ (err no_self_addr, w)
        | some is_self ↦ if not is_self then (ok (abort vg), w) else complete vg chat fingerprint w
      ]
      else complete vg chat fingerprint w

  abbrev pub is_protected : Option (ℕ × Bool) → Bool
  is_protected none = false
  is_protected (some (_, protected)) = protected

  -- The mark of step 7.
  unfoldable pub mark_inviter :
      Bool → Mime Fpr → ℕ → ℕ → Fpr → Bool → World Fpr Blob → Handled Fpr Blob
  mark_inviter vg m contact chat fingerprint expect_encrypted w =
      if expect_encrypted && not (encrypted_and_signed m (some fingerprint))
      then (
        ok (abort vg),
        emit (not_established chat (codes "Contact confirm message not encrypted.")) w,
      )
      else elim (mark_peer_as_verified codec fingerprint w.peers) [
        | none ↦ (
          ok (abort vg),
          emit (not_established chat (codes "Fingerprint mismatch on joiner-side.")) w,
        )
        | some peers ↦ confirm_member vg m chat fingerprint (
            emit (contacts_changed none)
              (emit (origin_scaled contact securejoin_joined) (record w { peers = peers })))
      ]

  -- `vg_expect_encrypted`
  unfoldable pub expect_encrypted_of : Bool → Text → Bool
  expect_encrypted_of vg grpid = if vg then is_protected (env.group_chat grpid) else true

  check_confirm : Bool → Mime Fpr → Scan Fpr → ℕ → ℕ → World Fpr Blob → Handled Fpr Blob
  unfolding expect_encrypted_of
  check_confirm vg m scan contact chat w = unwrap scan.fingerprint w λ fingerprint.
      unwrap (if vg then scan.text2 else some []) w
        λ grpid. mark_inviter vg m contact chat fingerprint (expect_encrypted_of vg grpid) w

  -- "vg-member-added" and "vc-contact-confirm"
  unfoldable pub handle_confirm : Bool → Mime Fpr → ℕ → ℕ → World Fpr Blob → Handled Fpr Blob
  unfolding check_confirm
  handle_confirm vg m contact chat w =
      if not (expects_eq w.expects contact_confirm) then (ok (abort vg), w) else elim w.qr_scan [
        | none ↦ (ok (abort vg), w)
        | some scan ↦
            if vg && not (is_group scan.state)
            then (ok (abort vg), w)
            else check_confirm vg m scan contact chat w
      ]
