-- ===== src/Securejoin/Fine.antt =====
-- securejoin.rs: what a join leaves in Bob's state.
use juttmy_core.Prelude.{
  ℕ, Text, Bool, true, false, not, is_some, Option, none, some, Eq, List, [], if◌then◌else◌,
  if_both, if_split, option_split, ◌≡◌, ◌≢◌, ◌⊎◌, inl, inr, refl, subst, arith, some-injective,
}
use juttmy_core.Peerstate.Saving.{Codec}
use juttmy_core.Qr.{Outside, Lot, Call}
use juttmy_core.Qr.Check.{check_qr}
use juttmy_core.Qr.Invite.{IsAsking, check_qr-IsAsking}
use juttmy_core.Securejoin.{World, Env, Mime, Scan, fingerprint_equals_sender, handshake_msg}
use juttmy_core.Securejoin.Joiner.{is_group}
use juttmy_core.Securejoin.Joining.{
  Joiner, Joined, Joining, asks, scan_of, state_of, cleanup, unwrap_or_panic, send_and_finish,
  take_shortcut, send_request, request, securejoin, dc_join_securejoin, Waiter, wait_round,
  found_chat,
}
use juttmy_core.Securejoin.Joining
use juttmy_core.Securejoin.Replies.{IsInvite}
use juttmy_core.Securejoin.Steps.{Kind}
use juttmy_core.Securejoin.Handle.{handle_securejoin_handshake}
use juttmy_core.Securejoin.Changes.{Change, idle, answered, accepted, confirmed}
use juttmy_core.Securejoin.Changes.Handle.{handle_securejoin_handshake-Change}

-- What Bob scanned, if anything, is an invitation.
abbrev pub Invited : {Fpr Blob : Type 0} → World Fpr Blob → Type 0
Invited w = (scan : _) → w.qr_scan ≡ some scan → IsInvite scan

-- What Bob scanned is there, and is of a group.
abbrev pub Group : {Fpr Blob : Type 0} → World Fpr Blob → Type 0
Group w = (scan : _) × (w.qr_scan ≡ some scan) × (is_group scan.state ≡ true)

-- A join that did not panic, and left an invitation or nothing; where it waits, the group is there.
pub record IsFine {Fpr Blob : Type 0} (r : Joining Fpr Blob) : Type 0 where
  pub calm : r.0 ≢ Joining.panic
  pub invited : Invited r.1
  pub waits : r.0 ≡ Joining.waiting → Group r.1

not_none : {A : Type 0} (o : Option A) → is_some o ≡ true → o ≢ none
not_none none h = absurd (cc)
not_none (some a) h = λ e. cc

pub some_of : {A : Type 0} (o : Option A) → o ≢ none → is_some o ≡ true
some_of none h = absurd (h refl)
some_of (some a) h = refl

IsInvite-scan_of : {Fpr : Type 0} (lot : Lot Fpr) → IsAsking lot → IsInvite (scan_of lot)
IsInvite-scan_of lot a = record {
  fingerprint = not_none lot.fingerprint a.fingerprint;
  auth = not_none lot.auth a.auth;
  group = λ g. not_none lot.text2 (ground (arith, g, a.group));
}

pub unwrap_or_panic_split :
    {A Fpr Blob : Type 0} (o : Option A) (w : World Fpr Blob) (next : A → Joining Fpr Blob)
    → is_some o ≡ true
    → ((a : A) → IsFine (next a))
    → IsFine (unwrap_or_panic o w next)
unfolding unwrap_or_panic
unwrap_or_panic_split none w next h fine = absurd (cc)
unwrap_or_panic_split (some a) w next h fine = fine a

pub nothing_scanned :
    {Fpr Blob : Type 0} (ongoing : Bool) (w : World Fpr Blob) → Invited (cleanup ongoing w)
nothing_scanned ongoing w = λ scan e. absurd (cc)

module _ {Key Fpr Blob : Type 0} ⦃ef : Eq Fpr⦄ (codec : Codec Key Fpr Blob) (out : Outside) where
  module _ (env : Env Fpr) where
    send_and_finish-IsFine :
        (vg : Bool) (chat : ℕ) (step param2 : Text) (own : Option Fpr) (grpid : Text)
        (w : World Fpr Blob)
        → Invited w
        → (vg ≡ true → Group w)
        → IsFine (send_and_finish codec out env vg chat step param2 own grpid w)
    unfolding send_and_finish
    send_and_finish-IsFine vg chat step param2 own grpid w h group =
        let msg = handshake_msg codec.hex chat step param2 own grpid in
        if_both IsFine (not (env.send_msg msg))
          (record { calm = λ e. cc; invited = nothing_scanned true w; waits = λ e. cc })
          (if_split IsFine vg
            (λ joins. record { calm = λ e. cc; invited = h; waits = λ _. group joins })
            (λ _. record { calm = λ e. cc; invited = h; waits = λ e. cc }))

    module _ (scan : Scan Fpr) (invite : IsInvite scan) (chat : ℕ) (w : World Fpr Blob)
        (h : Invited w) (group : is_group scan.state ≡ true → Group w) where
      group_id_given : is_some (if is_group scan.state then scan.text2 else some []) ≡ true
      group_id_given =
          if_split (λ o. is_some o ≡ true) (is_group scan.state)
            (λ g. some_of scan.text2 (invite.group g)) (λ _. refl)

      take_shortcut-IsFine : IsFine (take_shortcut codec out env scan chat w)
      unfolding take_shortcut
      take_shortcut-IsFine =
          unwrap_or_panic_split scan.auth _ _ (some_of scan.auth invite.auth) λ auth.
            unwrap_or_panic_split (if is_group scan.state then scan.text2 else some []) _ _
              group_id_given
              λ grpid.
                send_and_finish-IsFine (is_group scan.state) chat _ auth env.self_fingerprint grpid
                  _ h group

      send_request-IsFine :
          is_some scan.invitenumber ≡ true → IsFine (send_request codec out env scan chat w)
      unfolding send_request
      send_request-IsFine number =
          unwrap_or_panic_split scan.invitenumber _ _ number
            λ n. send_and_finish-IsFine (is_group scan.state) chat _ n none [] _ h group

    request-IsFine :
        (scan : Scan Fpr) (chat : ℕ) (w : World Fpr Blob)
        → IsInvite scan
        → is_some scan.invitenumber ≡ true
        → IsFine (request codec out env scan chat w)
    unfolding request
    request-IsFine scan chat w invite number =
        let w' : World Fpr Blob = record w { qr_scan = some scan } in
        let h : Invited w' = λ s e. subst IsInvite (some-injective e) invite in
        unwrap_or_panic_split scan.fingerprint w' _ (some_of scan.fingerprint invite.fingerprint)
          λ fp.
            if_both IsFine (fingerprint_equals_sender codec env w' fp chat)
              (take_shortcut-IsFine scan invite chat w' h (λ g. (scan, refl, g)))
              (send_request-IsFine scan invite chat w' h (λ g. (scan, refl, g)) number)

    securejoin-IsFine :
        (joiner : Joiner) (lot : Lot Fpr) (w : World Fpr Blob)
        → (asks (state_of lot.state) ≡ false) ⊎ IsAsking lot
        → IsFine (securejoin codec out env joiner (scan_of lot) w)
    unfolding securejoin
    securejoin-IsFine joiner lot w asked =
        if_split IsFine (not (asks (state_of lot.state)))
          (λ _. record { calm = λ e. cc; invited = nothing_scanned true w; waits = λ e. cc })
          λ asking. elim asked [
            | inl nothing ↦ absurd (ground (arith, asking, nothing))
            | inr a ↦
                option_split {A = ℕ} {B = Joining Fpr Blob} IsFine
                  (joiner.create_by_contact_id lot.id)
                  (λ _. record {
                    calm = λ e. cc;
                    invited = nothing_scanned true w;
                    waits = λ e. cc;
                  })
                  λ chat _.
                    if_both IsFine joiner.shall_stop_ongoing
                      (record { calm = λ e. cc; invited = nothing_scanned true w; waits = λ e. cc })
                      (request-IsFine (scan_of lot) chat w (IsInvite-scan_of lot a) a.invitenumber)
          ]

    pub dc_join_securejoin-IsFine :
        (joiner : Joiner) (qr : Text) (w : World Fpr Blob)
        → IsFine (dc_join_securejoin codec out env joiner qr w).0
    unfolding dc_join_securejoin
    dc_join_securejoin-IsFine joiner qr w =
        if_both {A = Joining Fpr Blob × List Call} (λ r. IsFine (r.0)) (not joiner.alloc_ongoing)
          (record { calm = λ e. cc; invited = nothing_scanned false w; waits = λ e. cc })
          (securejoin-IsFine joiner (check_qr codec out qr w.peers).0 w
            (check_qr-IsAsking codec out qr w.peers))

    pub kept_scan :
        (m : Mime Fpr) (contact : ℕ) (w : World Fpr Blob)
        → (handle_securejoin_handshake codec env m contact w).1.qr_scan ≡ w.qr_scan
    kept_scan m contact w = elim (handle_securejoin_handshake-Change codec env m contact w) [
      | inl i ↦ i.scan
      | inr h ↦ changed h.change
    ]
      where
        changed :
            {chat : ℕ} {vg : Bool} {k : Kind} {w' : World Fpr Blob}
            → Change codec env m chat vg w w' k
            → w'.qr_scan ≡ w.qr_scan
        changed (idle i) = i.scan
        changed (answered _ _ _ _ _ _ _ _ _ _ f) = f.scan
        changed (accepted _ _ _ _ _ _ _ _ _ f) = f.scan
        changed (confirmed _ _ _ _ _ _ _ _ _ f) = f.scan
