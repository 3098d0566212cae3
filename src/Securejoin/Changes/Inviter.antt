-- ===== src/Securejoin/Changes/Inviter.antt =====
-- securejoin.rs: the changes that the inviter's handlers make.
use juttmy_core.Prelude.{ℕ, ◌≡◌, refl, Bool, true, some, Eq, arith, unless_split, option_split}
use juttmy_core.Peerstate.Saving.{Codec}
use juttmy_core.Securejoin.{
  World, Env, Mime, encrypted_and_signed, fingerprint_equals_sender, mark_peer_as_verified, exists,
}
use juttmy_core.Securejoin.Steps.{Handled, Kind, send, unwrap}
use juttmy_core.Securejoin.Steps
use juttmy_core.Securejoin.Inviter.{
  handle_request, handle_request_with_auth, handle_received, check_auth, accept, add_to_group,
  report_group,
}
use juttmy_core.Securejoin.Changes.{Change, Idle, idle, accepted, log_only}

module _ {Key Fpr Blob : Type 0} ⦃ef : Eq Fpr⦄ (codec : Codec Key Fpr Blob) (env : Env Fpr) where
  pub handle_request-Idle :
      (vg : Bool) (m : Mime Fpr) (contact chat : ℕ) (w : World Fpr Blob)
      → Idle w (handle_request codec env vg m contact chat w).1
  unfolding handle_request send
  handle_request-Idle vg m contact chat w = ground arith

  add_to_group-Idle :
      (m : Mime Fpr) (contact : ℕ) (w : World Fpr Blob)
      → Idle w (add_to_group codec env m contact w).1
  unfolding add_to_group
  add_to_group-Idle m contact w = ground arith

  accept-Idle :
      (vg : Bool) (m : Mime Fpr) (contact chat : ℕ) (fp : Fpr) (w : World Fpr Blob)
      → Idle w (accept codec env vg m contact chat fp w).1
  unfolding accept add_to_group send
  accept-Idle vg m contact chat fp w = ground arith

  pub handle_received-Idle :
      (vg : Bool) (m : Mime Fpr) (contact : ℕ) (w : World Fpr Blob)
      → Idle w (handle_received codec env vg m contact w).1
  unfolding handle_received report_group
  handle_received-Idle vg m contact w = ground arith

  check_auth-Change :
      (vg : Bool) (m : Mime Fpr) (contact chat : ℕ) (fp : Fpr) (w : World Fpr Blob)
      → encrypted_and_signed m (some fp) ≡ true
      → fingerprint_equals_sender codec env w fp chat ≡ true
      → Change codec env m chat vg w
          (check_auth codec env vg m contact chat fp w).1
          Steps.request_with_auth
  unfolding check_auth
  check_auth-Change vg m contact chat fp w signed sender =
      let P = λ (r : Handled Fpr Blob). Change codec env m chat vg w r.1 Steps.request_with_auth in
      option_split P m.auth (λ missing. idle (log_only w _))
        λ auth given.
          unless_split P (exists auth w.auths) (λ other. idle (log_only w _))
            λ known.
              option_split P (mark_peer_as_verified codec fp w.peers)
                (λ refused. idle (log_only w _))
                λ peers marked.
                  let keeps = accept-Idle vg m contact chat fp (record w { peers = peers }) in
                  accepted fp auth refl signed sender given known (rw keeps.peers marked)
                    keeps.expects
                    (record {
                      scan = keeps.scan;
                      invitenumbers = keeps.invitenumbers;
                      auths = keeps.auths;
                    })

  pub handle_request_with_auth-Change :
      (vg : Bool) (m : Mime Fpr) (contact chat : ℕ) (w : World Fpr Blob)
      → Change codec env m chat vg w
          (handle_request_with_auth codec env vg m contact chat w).1
          Steps.request_with_auth
  unfolding handle_request_with_auth
  handle_request_with_auth-Change vg m contact chat w =
      let P = λ (r : Handled Fpr Blob). Change codec env m chat vg w r.1 Steps.request_with_auth in
      option_split P m.fingerprint (λ missing. idle (log_only w _))
        λ text given.
          option_split P (codec.parse text) (λ bad. idle (log_only w _))
            λ fp parsed.
              unless_split P (encrypted_and_signed m (some fp)) (λ unsigned. idle (log_only w _))
                λ signed.
                  unless_split P (fingerprint_equals_sender codec env w fp chat)
                    (λ other. idle (log_only w _))
                    λ sender. check_auth-Change vg m contact chat fp w signed sender
