-- ===== src/Securejoin/Handle.antt =====
-- securejoin.rs: `handle_securejoin_handshake`, and what other devices conclude from it.
use juttmy_core.Prelude.{
  ℕ, Text, codes, text_eq, Bool, true, false, not, none, some, Eq, leb, if◌then◌else◌, ◌++◌,
}
use juttmy_core.Peerstate.Saving.{Codec}
use juttmy_core.Securejoin.{
  World, Env, Mime, ok, err, ignore, propagate, special_contact_id, not_secure_join_msg, no_chat,
  bad_fingerprint, emit, unblocked, not_established, last_special, encrypted_and_signed,
  mark_peer_as_verified,
}
use juttmy_core.Securejoin.Steps.{
  Handled, Kind, request, auth_required, request_with_auth, confirm, received, unknown, kind_of,
  join_vg,
}
use juttmy_core.Securejoin.Inviter.{handle_request, handle_request_with_auth, handle_received}
use juttmy_core.Securejoin.Joiner.{handle_auth_required, handle_confirm}

module _ {Key Fpr Blob : Type 0} ⦃ef : Eq Fpr⦄ (codec : Codec Key Fpr Blob) (env : Env Fpr) where
  -- The arms of the `match`.
  unfoldable pub dispatch : Kind → Bool → Mime Fpr → ℕ → ℕ → World Fpr Blob → Handled Fpr Blob
  dispatch request vg m contact chat w = handle_request codec env vg m contact chat w
  dispatch auth_required vg m contact chat w = handle_auth_required codec env vg m contact chat w
  dispatch request_with_auth vg m contact chat w =
      handle_request_with_auth codec env vg m contact chat w
  dispatch confirm vg m contact chat w = handle_confirm codec env vg m contact chat w
  dispatch received vg m contact chat w = handle_received codec env vg m contact w
  dispatch unknown vg m contact chat w = (ok ignore, w)

  -- The contact's chat is looked up, and unblocked if need be.
  with_chat : ℕ → World Fpr Blob → (ℕ → World Fpr Blob → Handled Fpr Blob) → Handled Fpr Blob
  with_chat contact w next = elim (env.create_or_lookup contact) [
    | none ↦ (err no_chat, w)
    | some (chat, blocked) ↦ next chat (if blocked then emit (unblocked chat) w else w)
  ]

  unfoldable pub handle_securejoin_handshake : Mime Fpr → ℕ → World Fpr Blob → Handled Fpr Blob
  unfolding with_chat
  handle_securejoin_handshake m contact w =
      if leb contact last_special then (err special_contact_id, w) else elim m.secure_join [
        | none ↦ (err not_secure_join_msg, w)
        | some step ↦
            with_chat contact w
              (λ chat w'. dispatch (kind_of step) (join_vg step) m contact chat w')
      ]

  abbrev observed : Kind → Bool
  observed confirm = true
  observed received = true
  observed _ = false

  -- Behind the signature: the fingerprint that the other device has verified.
  observe_fingerprint : Text → Mime Fpr → ℕ → World Fpr Blob → Handled Fpr Blob
  observe_fingerprint step m chat w = elim m.fingerprint [
    | none ↦ (
      ok ignore,
      emit
          (not_established chat
            (codes "Fingerprint not provided, please update Delta Chat on all your devices."))
          w,
    )
    | some text ↦ elim (codec.parse text) [
      | none ↦ (err bad_fingerprint, w)
      | some fingerprint ↦ elim (mark_peer_as_verified codec fingerprint w.peers) [
        | none ↦ (
          ok ignore,
          emit
              (not_established chat
                (codes "Fingerprint mismatch on observing " ++ step ++ codes "."))
              w,
        )
        | some peers ↦ (
          ok (if text_eq step (codes "vg-member-added") then propagate else ignore),
          record w { peers = peers },
        )
      ]
    ]
  ]

  observe_step : Text → Mime Fpr → ℕ → World Fpr Blob → Handled Fpr Blob
  unfolding observe_fingerprint
  observe_step step m chat w =
      if not (observed (kind_of step))
      then (ok ignore, w)
      else if not (encrypted_and_signed m env.self_fingerprint)
      then (ok ignore, emit (not_established chat (codes "Message not encrypted correctly.")) w)
      else observe_fingerprint step m chat w

  unfoldable pub observe_securejoin_on_other_device :
      Mime Fpr → ℕ → World Fpr Blob → Handled Fpr Blob
  unfolding with_chat observe_step
  observe_securejoin_on_other_device m contact w =
      if leb contact last_special then (err special_contact_id, w) else elim m.secure_join [
        | none ↦ (err not_secure_join_msg, w)
        | some step ↦ with_chat contact w (observe_step step m)
      ]
