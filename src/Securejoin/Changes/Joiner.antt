-- ===== src/Securejoin/Changes/Joiner.antt =====
-- securejoin.rs: the changes that the joiner's handlers make.
use juttmy_core.Prelude.{
  ℕ, Text, ◌≡◌, refl, Bool, true, false, not, some, Eq, arith, if_both, if_split, unless_split,
  option_split, inl, inr, if◌then◌else◌, [], ◌⊎◌, List, ◌&&◌, ◌||◌,
}
use juttmy_core.Peerstate.Saving.{Codec}
use juttmy_core.Securejoin.{
  World, Env, Mime, Scan, Expects, not_active, auth_required, contact_confirm, encrypted_and_signed,
  fingerprint_equals_sender, mark_peer_as_verified, Effect,
}
use juttmy_core.Securejoin.Steps.{Handled, Kind, send, unwrap, or_empty}
use juttmy_core.Securejoin.Steps
use juttmy_core.Securejoin.Joiner.{
  handle_auth_required, handle_confirm, answer_with_auth, expects_eq, is_group, complete,
  confirm_member, mark_inviter, expect_encrypted_of,
}
use juttmy_core.Securejoin.Changes.{Change, idle, answered, confirmed, unwrap_split, log_only}

in_step :
    (x : Expects) (b : Bool) → (not (expects_eq x auth_required) || b) ≡ false → x ≡ auth_required
in_step auth_required b h = refl
in_step not_active b h = cc
in_step contact_confirm b h = cc

module _ {Key Fpr Blob : Type 0} ⦃ef : Eq Fpr⦄ (codec : Codec Key Fpr Blob) (env : Env Fpr) where
  -- Answering changes what Bob expects, and nothing else; without a fingerprint of his own, or a
  -- group to name, it stops before.
  answer_with_auth-Change :
      (vg : Bool) (m : Mime Fpr) (scan : Scan Fpr) (fp : Fpr) (auth : Text) (contact chat : ℕ)
      (w : World Fpr Blob)
      → w.qr_scan ≡ some scan
      → scan.fingerprint ≡ some fp
      → w.expects ≡ auth_required
      → encrypted_and_signed m (some fp) ≡ true
      → fingerprint_equals_sender codec env w fp chat ≡ true
      → Change codec env m chat vg w
          (answer_with_auth codec env vg scan auth contact chat w).1
          Steps.auth_required
  unfolding answer_with_auth send
  answer_with_auth-Change vg m scan fp auth contact chat w e f x signed sender =
      let P = λ (r : Handled Fpr Blob). Change codec env m chat vg w r.1 Steps.auth_required in
      let moved : (l : List Effect)
          → Change codec env m chat vg w (record w { expects = contact_confirm; log = l })
              Steps.auth_required =
        λ l.
          answered scan fp refl e f x signed sender refl refl
            (record { scan = refl; invitenumbers = refl; auths = refl }) in
      unwrap_split P env.self_fingerprint w (λ _. idle (log_only w _))
        λ own _. unwrap_split P _ _ (λ _. moved _) λ grpid _. if_both P _ (moved _) (moved _)

  pub handle_auth_required-Change :
      (vg : Bool) (m : Mime Fpr) (contact chat : ℕ) (w : World Fpr Blob)
      → Change codec env m chat vg w
          (handle_auth_required codec env vg m contact chat w).1
          Steps.auth_required
  unfolding handle_auth_required
  handle_auth_required-Change vg m contact chat w =
      let P = λ (r : Handled Fpr Blob). Change codec env m chat vg w r.1 Steps.auth_required in
      option_split P w.qr_scan (λ none_scanned. idle (log_only w _))
        λ scan scanned.
          if_split P (not (expects_eq w.expects auth_required) || (vg && not (is_group scan.state)))
            (λ out_of_sync. idle (log_only w _))
            λ in_sync.
              unwrap_split P scan.fingerprint w (λ _. idle (log_only w _))
                λ fp given.
                  unwrap_split P scan.auth w (λ _. idle (log_only w _))
                    λ auth has_auth.
                      unless_split P (encrypted_and_signed m (some fp))
                        (λ unsigned. idle (log_only w _))
                        λ signed.
                          unless_split P (fingerprint_equals_sender codec env w fp chat)
                            (λ other. idle (log_only w _))
                            λ sender.
                              answer_with_auth-Change vg m scan fp auth contact chat w scanned given
                                (in_step w.expects _ in_sync) signed sender

  complete-Change :
      (vg : Bool) (m : Mime Fpr) (scan : Scan Fpr) (fp : Fpr) (chat : ℕ) (w v : World Fpr Blob)
      → ((x : Expects) (l : List Effect)
          → (x ≡ contact_confirm) ⊎ (x ≡ not_active)
          → Change codec env m chat vg w (record v { expects = x; log = l }) Steps.confirm)
      → Change codec env m chat vg w (complete codec env vg chat fp v).1 Steps.confirm
  unfolding complete send
  complete-Change vg m scan fp chat w v moved =
      let P = λ (r : Handled Fpr Blob). Change codec env m chat vg w r.1 Steps.confirm in
      if_both P _ (moved not_active _ (inr refl)) (moved not_active _ (inr refl))

  confirm_member-Change :
      (vg : Bool) (m : Mime Fpr) (scan : Scan Fpr) (fp : Fpr) (chat : ℕ) (w v : World Fpr Blob)
      → v.expects ≡ contact_confirm
      → ((x : Expects) (l : List Effect)
          → (x ≡ contact_confirm) ⊎ (x ≡ not_active)
          → Change codec env m chat vg w (record v { expects = x; log = l }) Steps.confirm)
      → Change codec env m chat vg w (confirm_member codec env vg m chat fp v).1 Steps.confirm
  unfolding confirm_member
  confirm_member-Change vg m scan fp chat w v e moved =
      let P = λ (r : Handled Fpr Blob). Change codec env m chat vg w r.1 Steps.confirm in
      let done : Change codec env m chat vg w (complete codec env vg chat fp v).1 Steps.confirm =
        complete-Change vg m scan fp chat w v moved in
      let same : Change codec env m chat vg w v Steps.confirm = moved v.expects v.log (inl e) in
      if_both P vg
        (option_split P (env.is_self_addr (or_empty m.member_added)) (λ unknown. same)
          λ is_self asked. unless_split P is_self (λ other. same) (λ self. done))
        done

  mark_inviter-Change :
      (vg : Bool) (m : Mime Fpr) (scan : Scan Fpr) (fp : Fpr) (contact chat : ℕ) (encrypted : Bool)
      (w : World Fpr Blob)
      → (vg ≡ false → encrypted ≡ true)
      → w.qr_scan ≡ some scan
      → scan.fingerprint ≡ some fp
      → w.expects ≡ contact_confirm
      → Change codec env m chat vg w
          (mark_inviter codec env vg m contact chat fp encrypted w).1
          Steps.confirm
  unfolding mark_inviter
  mark_inviter-Change vg m scan fp contact chat encrypted w needs e f x =
      let P = λ (r : Handled Fpr Blob). Change codec env m chat vg w r.1 Steps.confirm in
      if_split P (encrypted && not (encrypted_and_signed m (some fp))) (λ bad. idle (log_only w _))
        λ good.
          option_split P (mark_peer_as_verified codec fp w.peers) (λ refused. idle (log_only w _))
            λ peers marked. confirm_member-Change vg m scan fp chat w _ x λ y l valid.
              confirmed scan fp refl e f x (λ v. ground (arith, needs v)) marked valid
                (record { scan = refl; invitenumbers = refl; auths = refl })

  in_confirm : (x : Expects) → expects_eq x contact_confirm ≡ true → x ≡ contact_confirm
  in_confirm contact_confirm h = refl
  in_confirm not_active h = cc
  in_confirm auth_required h = cc

  pub handle_confirm-Change :
      (vg : Bool) (m : Mime Fpr) (contact chat : ℕ) (w : World Fpr Blob)
      → Change codec env m chat vg w (handle_confirm codec env vg m contact chat w).1 Steps.confirm
  unfolding handle_confirm expect_encrypted_of
  handle_confirm-Change vg m contact chat w =
      let P = λ (r : Handled Fpr Blob). Change codec env m chat vg w r.1 Steps.confirm in
      unless_split P (expects_eq w.expects contact_confirm) (λ other. idle (log_only w _))
        λ expected.
          option_split P w.qr_scan (λ none_scanned. idle (log_only w _))
            λ scan scanned.
              if_split P (vg && not (is_group scan.state)) (λ out_of_sync. idle (log_only w _))
                λ in_sync.
                  unwrap_split P scan.fingerprint w (λ _. idle (log_only w _))
                    λ fp given.
                      unwrap_split P (if vg then scan.text2 else some []) w
                        (λ _. idle (log_only w _))
                        λ grpid _.
                          mark_inviter-Change vg m scan fp contact chat
                            (expect_encrypted_of codec env vg grpid) w (λ v. ground arith) scanned
                            given (in_confirm w.expects expected)
