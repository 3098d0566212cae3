-- ===== src/Securejoin/Replies.antt =====
-- securejoin.rs: no message makes a handler panic.
use juttmy_core.Prelude.{
  ℕ, Text, ◌≡◌, ◌≢◌, Bool, true, not, ◌&&◌, ◌||◌, Option, none, some, Eq, arith, if_both, if_split,
  option_split, [], if◌then◌else◌, leb,
}
use juttmy_core.Peerstate.Saving.{Codec}
use juttmy_core.Securejoin.{
  World, Env, Mime, Scan, HandshakeMessage, HandshakeError, ok, err, panic, encrypted_and_signed,
  fingerprint_equals_sender, auth_required, contact_confirm, last_special,
}
use juttmy_core.Securejoin.Steps.{Handled, Kind, kind_of, join_vg, send, unwrap, protocol, or_empty}
use juttmy_core.Securejoin.Steps
use juttmy_core.Securejoin.Inviter.{
  handle_request, handle_request_with_auth, handle_received, check_auth, accept, add_to_group,
  report_group,
}
use juttmy_core.Securejoin.Joiner.{
  handle_auth_required, handle_confirm, answer_with_auth, complete, confirm_member, mark_inviter,
  is_group, expects_eq, expect_encrypted_of,
}
use juttmy_core.Securejoin.Handle.{dispatch, handle_securejoin_handshake}
use juttmy_core.Securejoin.Changes.{unwrap_split}

-- What `check_qr` puts into the lot of an invitation.
pub record IsInvite {Fpr : Type 0} (scan : Scan Fpr) : Type 0 where
  pub fingerprint : scan.fingerprint ≢ none
  pub auth : scan.auth ≢ none
  pub group : is_group scan.state ≡ true → scan.text2 ≢ none

-- Bob has an own key, and what he scanned, if anything, is an invitation.
pub record IsReady {Fpr Blob : Type 0} (env : Env Fpr) (w : World Fpr Blob) : Type 0 where
  pub own : env.self_fingerprint ≢ none
  pub invite : (scan : Scan Fpr) → w.qr_scan ≡ some scan → IsInvite scan

abbrev Calm : {Fpr Blob : Type 0} → Handled Fpr Blob → Type 0
Calm r = r.0 ≢ panic

ok-ne-panic : (h : HandshakeMessage) → ok h ≢ panic
ok-ne-panic h e = cc

err-ne-panic : (h : HandshakeError) → err h ≢ panic
err-ne-panic h e = cc

no_text :
    (vg : Bool) (o : Option Text) → (vg ≡ true → o ≢ none) → (if vg then o else some []) ≢ none
no_text vg o h = ground arith

module _ {Key Fpr Blob : Type 0} ⦃ef : Eq Fpr⦄ (codec : Codec Key Fpr Blob) (env : Env Fpr) where
  handle_request-Calm :
      (vg : Bool) (m : Mime Fpr) (contact chat : ℕ) (w : World Fpr Blob)
      → Calm (handle_request codec env vg m contact chat w)
  unfolding handle_request send
  handle_request-Calm vg m contact chat w = ground arith

  check_auth-Calm :
      (vg : Bool) (m : Mime Fpr) (contact chat : ℕ) (fp : Fpr) (w : World Fpr Blob)
      → Calm (check_auth codec env vg m contact chat fp w)
  unfolding check_auth accept add_to_group send
  check_auth-Calm vg m contact chat fp w = ground arith

  handle_request_with_auth-Calm :
      (vg : Bool) (m : Mime Fpr) (contact chat : ℕ) (w : World Fpr Blob)
      → Calm (handle_request_with_auth codec env vg m contact chat w)
  unfolding handle_request_with_auth
  handle_request_with_auth-Calm vg m contact chat w =
      grind (arith, check_auth-Calm vg m contact chat)

  handle_received-Calm :
      (vg : Bool) (m : Mime Fpr) (contact : ℕ) (w : World Fpr Blob)
      → Calm (handle_received codec env vg m contact w)
  unfolding handle_received report_group
  handle_received-Calm vg m contact w = ground arith

  answer_with_auth-Calm :
      (vg : Bool) (scan : Scan Fpr) (auth : Text) (contact chat : ℕ) (w : World Fpr Blob)
      → env.self_fingerprint ≢ none
      → (vg ≡ true → scan.text2 ≢ none)
      → Calm (answer_with_auth codec env vg scan auth contact chat w)
  unfolding answer_with_auth send unwrap
  answer_with_auth-Calm vg scan auth contact chat w own group = ground arith

  handle_auth_required-Calm :
      (vg : Bool) (m : Mime Fpr) (contact chat : ℕ) (w : World Fpr Blob)
      → IsReady env w
      → Calm (handle_auth_required codec env vg m contact chat w)
  unfolding handle_auth_required
  handle_auth_required-Calm vg m contact chat w r =
      option_split (Calm {Fpr = Fpr} {Blob = Blob}) w.qr_scan (λ none_scanned. ok-ne-panic _)
        λ scan scanned.
          let invite = r.invite scan scanned in
          if_split (Calm {Fpr = Fpr} {Blob = Blob})
            (not (expects_eq w.expects auth_required) || (vg && not (is_group scan.state)))
            (λ out_of_sync. ok-ne-panic _)
            λ in_sync.
              unwrap_split (Calm {Fpr = Fpr} {Blob = Blob}) scan.fingerprint w
                (λ e. absurd (invite.fingerprint e))
                λ fp given.
                  unwrap_split (Calm {Fpr = Fpr} {Blob = Blob}) scan.auth w
                    (λ e. absurd (invite.auth e))
                    λ auth has_auth.
                      if_both (Calm {Fpr = Fpr} {Blob = Blob})
                        (not (encrypted_and_signed m (some fp))) (ok-ne-panic _)
                        (if_both (Calm {Fpr = Fpr} {Blob = Blob})
                          (not (fingerprint_equals_sender codec env w fp chat)) (ok-ne-panic _)
                          (answer_with_auth-Calm vg scan auth contact chat w r.own
                            (λ v. invite.group (ground arith))))

  mark_inviter-Calm :
      (vg : Bool) (m : Mime Fpr) (contact chat : ℕ) (fp : Fpr) (b : Bool) (w : World Fpr Blob)
      → Calm (mark_inviter codec env vg m contact chat fp b w)
  unfolding mark_inviter confirm_member complete send
  mark_inviter-Calm vg m contact chat fp b w = ground arith

  handle_confirm-Calm :
      (vg : Bool) (m : Mime Fpr) (contact chat : ℕ) (w : World Fpr Blob)
      → IsReady env w
      → Calm (handle_confirm codec env vg m contact chat w)
  unfolding handle_confirm
  handle_confirm-Calm vg m contact chat w r =
      if_both (Calm {Fpr = Fpr} {Blob = Blob}) (not (expects_eq w.expects contact_confirm))
        (ok-ne-panic _)
        (option_split (Calm {Fpr = Fpr} {Blob = Blob}) w.qr_scan (λ none_scanned. ok-ne-panic _)
          λ scan scanned.
            let invite = r.invite scan scanned in
            if_split (Calm {Fpr = Fpr} {Blob = Blob}) (vg && not (is_group scan.state))
              (λ out_of_sync. ok-ne-panic _)
              λ in_sync.
                unwrap_split (Calm {Fpr = Fpr} {Blob = Blob}) scan.fingerprint w
                  (λ e. absurd (invite.fingerprint e))
                  λ fp given.
                    unwrap_split (Calm {Fpr = Fpr} {Blob = Blob})
                      (if vg then scan.text2 else some []) w
                      (λ e. absurd (no_text vg scan.text2 (λ v. invite.group (ground arith)) e))
                      λ grpid _.
                        mark_inviter-Calm vg m contact chat fp
                          (expect_encrypted_of codec env vg grpid) w)

  dispatch-Calm :
      (k : Kind) (vg : Bool) (m : Mime Fpr) (contact chat : ℕ) (w : World Fpr Blob)
      → IsReady env w
      → Calm (dispatch codec env k vg m contact chat w)
  unfolding dispatch
  dispatch-Calm Steps.request vg m contact chat w r = handle_request-Calm vg m contact chat w
  dispatch-Calm Steps.auth_required vg m contact chat w r =
      handle_auth_required-Calm vg m contact chat w r
  dispatch-Calm Steps.request_with_auth vg m contact chat w r =
      handle_request_with_auth-Calm vg m contact chat w
  dispatch-Calm Steps.confirm vg m contact chat w r = handle_confirm-Calm vg m contact chat w r
  dispatch-Calm Steps.received vg m contact chat w r = handle_received-Calm vg m contact w
  dispatch-Calm Steps.unknown vg m contact chat w r = ok-ne-panic _

  pub handle_securejoin_handshake-ne-panic :
      (m : Mime Fpr) (contact : ℕ) (w : World Fpr Blob)
      → IsReady env w
      → (handle_securejoin_handshake codec env m contact w).0 ≢ panic
  unfolding handle_securejoin_handshake
  handle_securejoin_handshake-ne-panic m contact w r =
      if_both (Calm {Fpr = Fpr} {Blob = Blob}) (leb contact last_special) (err-ne-panic _) (
        option_split (Calm {Fpr = Fpr} {Blob = Blob}) m.secure_join (λ missing. err-ne-panic _)
          λ step given.
            option_split (Calm {Fpr = Fpr} {Blob = Blob}) (env.create_or_lookup contact)
              (λ no_chat. err-ne-panic _)
              λ found is_found.
                if_both
                  (λ (v : World Fpr Blob).
                    Calm (dispatch codec env (kind_of step) (join_vg step) m contact found.0 v))
                  found.1
                  (dispatch-Calm _ _ m contact found.0 _
                    (record { own = r.own; invite = r.invite }))
                  (dispatch-Calm _ _ m contact found.0 w r))
