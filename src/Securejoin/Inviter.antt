-- ===== src/Securejoin/Inviter.antt =====
-- securejoin.rs: what Alice, the inviter, does with the messages of the joiner.
use juttmy_core.Prelude.{ℕ, Text, codes, Bool, not, ◌++◌, none, some, Eq, [], if◌then◌else◌}
use juttmy_core.Peerstate.Saving.{Codec}
use juttmy_core.Securejoin.{
  World, Env, Mime, ok, err, ignore, done, bad_fingerprint, chat_not_found, emit, exists,
  inviter_progress, not_established, established, origin_scaled, securejoin_invited,
  contacts_changed, contact_added, encrypted_and_signed, fingerprint_equals_sender,
  mark_peer_as_verified,
}
use juttmy_core.Securejoin.Steps.{Handled, send, protocol, or_empty}

module _ {Key Fpr Blob : Type 0} ⦃ef : Eq Fpr⦄ (codec : Codec Key Fpr Blob) (env : Env Fpr) where
  -- `could_not_establish_secure_connection`, and the message is ignored.
  abbrev deny : ℕ → Text → World Fpr Blob → Handled Fpr Blob
  deny chat details w = (ok ignore, emit (not_established chat details) w)

  -- "vg-request" and "vc-request"
  unfoldable pub handle_request : Bool → Mime Fpr → ℕ → ℕ → World Fpr Blob → Handled Fpr Blob
  handle_request vg m contact chat w = elim m.invitenumber [
    | none ↦ (ok ignore, w)
    | some invitenumber ↦
        if not (exists invitenumber w.invitenumbers)
        then (ok ignore, w)
        else send codec env chat (protocol vg ++ codes "-auth-required") [] none []
            (emit (inviter_progress contact 300) w) (λ w'. (ok done, w'))
  ]

  -- Behind the checks of "vg-request-with-auth": adding the joiner to the group.
  unfoldable pub add_to_group : Mime Fpr → ℕ → World Fpr Blob → Handled Fpr Blob
  add_to_group m contact w = elim m.group [
    | none ↦ (ok ignore, w)
    | some grpid ↦ elim (env.group_chat grpid) [
      | none ↦ (err chat_not_found, w)
      | some (group_chat, _) ↦ (ok ignore, emit (contact_added group_chat contact) w)
    ]
  ]

  -- Behind the checks: the joiner's peer state has been marked, which gave the table `peers`.
  unfoldable pub accept : Bool → Mime Fpr → ℕ → ℕ → Fpr → World Fpr Blob → Handled Fpr Blob
  accept vg m contact chat fingerprint w =
      let w' = emit (inviter_progress contact 600) (
        emit (contacts_changed (some contact))
          (emit (established chat) (emit (origin_scaled contact securejoin_invited) w))) in
      let group = add_to_group m contact w' in
      let confirm =
        send codec env chat (codes "vc-contact-confirm") [] (some fingerprint) [] w'
          (λ w''. (ok ignore, emit (inviter_progress contact 1000) w'')) in
      if vg then group else confirm

  -- The secret and the mark.
  unfoldable pub check_auth : Bool → Mime Fpr → ℕ → ℕ → Fpr → World Fpr Blob → Handled Fpr Blob
  check_auth vg m contact chat fingerprint w = elim m.auth [
    | none ↦ deny chat (codes "Auth not provided.") w
    | some auth ↦
        if not (exists auth w.auths)
        then deny chat (codes "Auth invalid.") w
        else elim (mark_peer_as_verified codec fingerprint w.peers) [
          | none ↦ deny chat (codes "Fingerprint mismatch on inviter-side.") w
          | some peers ↦ accept vg m contact chat fingerprint (record w { peers = peers })
        ]
  ]

  -- "vg-request-with-auth" and "vc-request-with-auth"
  unfoldable pub handle_request_with_auth :
      Bool → Mime Fpr → ℕ → ℕ → World Fpr Blob → Handled Fpr Blob
  handle_request_with_auth vg m contact chat w = elim m.fingerprint [
    | none ↦ deny chat (codes "Fingerprint not provided.") w
    | some text ↦ elim (codec.parse text) [
      | none ↦ (err bad_fingerprint, w)
      | some fingerprint ↦
          if not (encrypted_and_signed m (some fingerprint))
          then deny chat (codes "Auth not encrypted.") w
          else if not (fingerprint_equals_sender codec env w fingerprint chat)
          then deny chat (codes "Fingerprint mismatch on inviter-side.") w
          else check_auth vg m contact chat fingerprint w
    ]
  ]

  -- The progress of a group join.
  unfoldable pub report_group : Mime Fpr → ℕ → World Fpr Blob → Handled Fpr Blob
  report_group m contact w =
      let w' = emit (inviter_progress contact 1000) (emit (inviter_progress contact 800) w) in
      elim (env.group_chat (or_empty m.group)) [
        | none ↦ (err chat_not_found, w')
        | some _ ↦ (ok ignore, w')
      ]

  -- "vg-member-added-received" and "vc-contact-confirm-received"
  unfoldable pub handle_received : Bool → Mime Fpr → ℕ → World Fpr Blob → Handled Fpr Blob
  handle_received vg m contact w = elim (env.contact_verified contact) [
    | none ↦ (ok ignore, w)
    | some verified ↦
        if not verified
        then (ok ignore, w)
        else if vg
        then report_group m contact w
        else (ok ignore, w)
  ]
