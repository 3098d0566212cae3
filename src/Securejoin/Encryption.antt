-- ===== src/Securejoin/Encryption.antt =====
-- securejoin.rs: the answers to a message are handed over for encrypted sending.
use juttmy_core.Prelude.{
  ℕ, Text, codes, refl, Bool, not, ◌&&◌, ◌||◌, none, some, Eq, if_both, option_split, [], All,
  if◌then◌else◌, leb,
}
use juttmy_core.Peerstate.Saving.{Codec}
use juttmy_core.Securejoin.{
  World, Env, Mime, Scan, encrypted_and_signed, fingerprint_equals_sender, mark_peer_as_verified,
  exists, auth_required, contact_confirm, last_special,
}
use juttmy_core.Securejoin.Steps.{Handled, Kind, kind_of, join_vg, send, unwrap, protocol, or_empty}
use juttmy_core.Securejoin.Steps
use juttmy_core.Securejoin.Inviter.{
  handle_request, handle_request_with_auth, handle_received, check_auth, accept, add_to_group,
  report_group,
}
use juttmy_core.Securejoin.Joiner.{
  handle_auth_required, handle_confirm, answer_with_auth, complete, confirm_member, mark_inviter,
  is_group, expects_eq, expect_encrypted_of,
}
use juttmy_core.Securejoin.Handle.{dispatch, handle_securejoin_handshake}
use juttmy_core.Securejoin.Changes.{unwrap_split}
use juttmy_core.Securejoin.Secrecy.{
  IsEncrypted, Secret, auth_required_step, with_auth_step, received_step, send-Secret,
}

module _ {Key Fpr Blob : Type 0} ⦃ef : Eq Fpr⦄ (codec : Codec Key Fpr Blob) (env : Env Fpr) where
  handle_request-Secret :
      (vg : Bool) (m : Mime Fpr) (contact chat : ℕ) (w : World Fpr Blob)
      → All IsEncrypted w.log
      → Secret (handle_request codec env vg m contact chat w)
  unfolding handle_request
  handle_request-Secret vg m contact chat w h =
      let P = λ (r : Handled Fpr Blob). Secret r in
      option_split P m.invitenumber (λ missing. h)
        λ number given.
          if_both P (not (exists number w.invitenumbers)) h (
            send-Secret codec env chat _ [] none [] _ _ (auth_required_step vg) (tt, h) (λ w' k. k))

  accept-Secret :
      (vg : Bool) (m : Mime Fpr) (contact chat : ℕ) (fp : Fpr) (w : World Fpr Blob)
      → All IsEncrypted w.log
      → Secret (accept codec env vg m contact chat fp w)
  unfolding accept add_to_group
  accept-Secret vg m contact chat fp w h =
      let P = λ (r : Handled Fpr Blob). Secret r in
      if_both P vg
        (option_split P m.group (λ missing. (tt, (tt, (tt, (tt, h)))))
          λ grpid given.
            option_split P (env.group_chat grpid) (λ missing. (tt, (tt, (tt, (tt, h)))))
              λ found is_found. (tt, (tt, (tt, (tt, (tt, h))))))
        (send-Secret codec env chat (codes "vc-contact-confirm") [] (some fp) [] _ _ refl
          (tt, (tt, (tt, (tt, h)))) (λ w' k. (tt, k)))

  handle_request_with_auth-Secret :
      (vg : Bool) (m : Mime Fpr) (contact chat : ℕ) (w : World Fpr Blob)
      → All IsEncrypted w.log
      → Secret (handle_request_with_auth codec env vg m contact chat w)
  unfolding handle_request_with_auth check_auth
  handle_request_with_auth-Secret vg m contact chat w h =
      let P = λ (r : Handled Fpr Blob). Secret r in
      option_split P m.fingerprint (λ missing. (tt, h))
        λ text given.
          option_split P (codec.parse text) (λ bad. h)
            λ fp parsed.
              if_both P (not (encrypted_and_signed m (some fp))) (tt, h)
                (if_both P (not (fingerprint_equals_sender codec env w fp chat)) (tt, h)
                  (option_split P m.auth (λ none_given. (tt, h))
                    λ auth has_auth.
                      if_both P (not (exists auth w.auths)) (tt, h)
                        (option_split P (mark_peer_as_verified codec fp w.peers)
                          (λ refused. (tt, h))
                          λ peers marked.
                            accept-Secret vg m contact chat fp (record w { peers = peers }) h)))

  handle_received-Secret :
      (vg : Bool) (m : Mime Fpr) (contact : ℕ) (w : World Fpr Blob)
      → All IsEncrypted w.log
      → Secret (handle_received codec env vg m contact w)
  unfolding handle_received report_group
  handle_received-Secret vg m contact w h =
      let P = λ (r : Handled Fpr Blob). Secret r in
      option_split P (env.contact_verified contact) (λ unknown. h)
        λ verified _. if_both P (not verified) h (
          if_both P vg
            (option_split P (env.group_chat (or_empty m.group)) (λ missing. (tt, (tt, h)))
              λ found _. (tt, (tt, h)))
            h)

  answer_with_auth-Secret :
      (vg : Bool) (scan : Scan Fpr) (auth : Text) (contact chat : ℕ) (w : World Fpr Blob)
      → All IsEncrypted w.log
      → Secret (answer_with_auth codec env vg scan auth contact chat w)
  unfolding answer_with_auth
  answer_with_auth-Secret vg scan auth contact chat w h =
      let P = λ (r : Handled Fpr Blob). Secret r in
      unwrap_split P env.self_fingerprint w (λ _. h)
        λ own _.
          unwrap_split P _ _ (λ _. (tt, h))
            λ grpid _.
              send-Secret codec env chat _ auth (some own) grpid _ _ (with_auth_step vg) (tt, h)
                (λ w' k. k)

  handle_auth_required-Secret :
      (vg : Bool) (m : Mime Fpr) (contact chat : ℕ) (w : World Fpr Blob)
      → All IsEncrypted w.log
      → Secret (handle_auth_required codec env vg m contact chat w)
  unfolding handle_auth_required
  handle_auth_required-Secret vg m contact chat w h =
      let P = λ (r : Handled Fpr Blob). Secret r in
      option_split P w.qr_scan (λ none_scanned. h)
        λ scan scanned.
          if_both P (not (expects_eq w.expects auth_required) || (vg && not (is_group scan.state)))
            h
            (unwrap_split P scan.fingerprint w (λ _. h)
              λ fp _.
                unwrap_split P scan.auth w (λ _. h)
                  λ auth _.
                    if_both P (not (encrypted_and_signed m (some fp))) (tt, (tt, h))
                      (if_both P (not (fingerprint_equals_sender codec env w fp chat)) (tt, (tt, h))
                        (answer_with_auth-Secret vg scan auth contact chat w h)))

  complete-Secret :
      (vg : Bool) (chat : ℕ) (fp : Fpr) (w : World Fpr Blob)
      → All IsEncrypted w.log
      → Secret (complete codec env vg chat fp w)
  unfolding complete
  complete-Secret vg chat fp w h =
      send-Secret codec env chat _ [] (some fp) [] _ _ (received_step vg) (tt, h) (λ w' k. (tt, k))

  mark_inviter-Secret :
      (vg : Bool) (m : Mime Fpr) (contact chat : ℕ) (fp : Fpr) (b : Bool) (w : World Fpr Blob)
      → All IsEncrypted w.log
      → Secret (mark_inviter codec env vg m contact chat fp b w)
  unfolding mark_inviter confirm_member
  mark_inviter-Secret vg m contact chat fp b w h =
      let P = λ (r : Handled Fpr Blob). Secret r in
      if_both P (b && not (encrypted_and_signed m (some fp))) (tt, h)
        (option_split P (mark_peer_as_verified codec fp w.peers) (λ refused. (tt, h))
          λ peers marked.
            if_both P vg
              (option_split P (env.is_self_addr (or_empty m.member_added))
                (λ unknown. (tt, (tt, h)))
                λ is_self _.
                  if_both P (not is_self) (tt, (tt, h))
                    (complete-Secret vg chat fp _ (tt, (tt, h))))
              (complete-Secret vg chat fp _ (tt, (tt, h))))

  handle_confirm-Secret :
      (vg : Bool) (m : Mime Fpr) (contact chat : ℕ) (w : World Fpr Blob)
      → All IsEncrypted w.log
      → Secret (handle_confirm codec env vg m contact chat w)
  unfolding handle_confirm
  handle_confirm-Secret vg m contact chat w h =
      let P = λ (r : Handled Fpr Blob). Secret r in
      if_both P (not (expects_eq w.expects contact_confirm)) h (
        option_split P w.qr_scan (λ none_scanned. h)
          λ scan scanned. if_both P (vg && not (is_group scan.state)) h (
            unwrap_split P scan.fingerprint w (λ _. h)
              λ fp _.
                unwrap_split P (if vg then scan.text2 else some []) w (λ _. h)
                  λ grpid _.
                    mark_inviter-Secret vg m contact chat fp
                      (expect_encrypted_of codec env vg grpid) w h))

  dispatch-Secret :
      (k : Kind) (vg : Bool) (m : Mime Fpr) (contact chat : ℕ) (w : World Fpr Blob)
      → All IsEncrypted w.log
      → Secret (dispatch codec env k vg m contact chat w)
  unfolding dispatch
  dispatch-Secret Steps.request vg m contact chat w h = handle_request-Secret vg m contact chat w h
  dispatch-Secret Steps.auth_required vg m contact chat w h =
      handle_auth_required-Secret vg m contact chat w h
  dispatch-Secret Steps.request_with_auth vg m contact chat w h =
      handle_request_with_auth-Secret vg m contact chat w h
  dispatch-Secret Steps.confirm vg m contact chat w h = handle_confirm-Secret vg m contact chat w h
  dispatch-Secret Steps.received vg m contact chat w h = handle_received-Secret vg m contact w h
  dispatch-Secret Steps.unknown vg m contact chat w h = h

  -- Every handshake message that the handler hands over for sending (by `send_handshake_msg`) is
  -- guaranteed to be encrypted and not forced to be plain text: if that held for the log before, it
  -- holds for the log after.
  pub handle_securejoin_handshake-IsEncrypted :
      (m : Mime Fpr) (contact : ℕ) (w : World Fpr Blob)
      → All IsEncrypted w.log
      → All IsEncrypted (handle_securejoin_handshake codec env m contact w).1.log
  unfolding handle_securejoin_handshake
  handle_securejoin_handshake-IsEncrypted m contact w h =
      let P = λ (r : Handled Fpr Blob). Secret r in
      if_both P (leb contact last_special) h (
        option_split P m.secure_join (λ missing. h)
          λ step given.
            option_split P (env.create_or_lookup contact) (λ no_chat. h)
              λ found is_found.
                if_both
                  (λ (v : World Fpr Blob).
                    Secret (dispatch codec env (kind_of step) (join_vg step) m contact found.0 v))
                  found.1 (dispatch-Secret _ _ m contact found.0 _ (tt, h))
                  (dispatch-Secret _ _ m contact found.0 w h))
