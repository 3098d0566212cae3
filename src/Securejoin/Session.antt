-- ===== src/Securejoin/Session.antt =====
-- securejoin.rs: any run of joins, messages and rounds of a wait, from a device where nothing was
-- scanned.
use juttmy_core.Prelude.{
  ℕ, Text, Bool, true, false, not, Option, none, some, Eq, if_both, ◌≡◌, ◌≢◌, refl, sym, subst, ◌∙◌,
  arith,
}
use juttmy_core.Peerstate.Saving.{Codec}
use juttmy_core.Qr.{Outside}
use juttmy_core.Securejoin.{World, Env, Mime, Scan, fingerprint_equals_sender, handshake_msg}
use juttmy_core.Securejoin
use juttmy_core.Securejoin.Joining.{
  Joiner, Joined, Joining, asks, scan_of, state_of, cleanup, unwrap_or_panic, send_and_finish,
  take_shortcut, send_request, request, securejoin, dc_join_securejoin, Waiter, wait_round,
  found_chat,
}
use juttmy_core.Securejoin.Joining
use juttmy_core.Securejoin.Replies.{handle_securejoin_handshake-ne-panic}
use juttmy_core.Securejoin.Handle.{handle_securejoin_handshake}
use juttmy_core.Securejoin.Fine.{
  Invited, Group, IsFine, some_of, unwrap_or_panic_split, nothing_scanned,
  dc_join_securejoin-IsFine, kept_scan,
}

module _ {Key Fpr Blob : Type 0} ⦃ef : Eq Fpr⦄ (codec : Codec Key Fpr Blob) (out : Outside) where
  abbrev pub is_waiting : Joined → Bool
  is_waiting Joining.waiting = true
  is_waiting _ = false

  waiting_of : (j : Joined) → is_waiting j ≡ true → j ≡ Joining.waiting
  waiting_of Joining.waiting h = refl
  waiting_of (Joining.chat c) h = absurd (cc)
  waiting_of Joining.qr_code h = absurd (cc)
  waiting_of Joining.aborted h = absurd (cc)
  waiting_of Joining.send_message h = absurd (cc)
  waiting_of Joining.unknown_contact h = absurd (cc)
  waiting_of Joining.missing_chat h = absurd (cc)
  waiting_of Joining.panic h = absurd (cc)

  -- The worlds that joins, messages and the rounds of a wait lead to, with whether a join waits for
  -- the chat of its group, each step with what the other modules answer then. While one join waits,
  -- no other is called.
  pub data Reach : World Fpr Blob → Bool → Type 0 where
    started : (w : World Fpr Blob) → w.qr_scan ≡ none → Reach w false
    joined :
        {w : World Fpr Blob} (env : Env Fpr) (joiner : Joiner) (qr : Text)
        → Reach w false
        → Reach
            (dc_join_securejoin codec out env joiner qr w).0.1
            (is_waiting (dc_join_securejoin codec out env joiner qr w).0.0)
    waited :
        {w : World Fpr Blob} (waiter : Waiter)
        → Reach w true
        → Reach (wait_round waiter w).1 (is_waiting (wait_round waiter w).0)
    handled :
        {w : World Fpr Blob} {waits : Bool} (env : Env Fpr) (m : Mime Fpr) (contact : ℕ)
        → Reach w waits
        → Reach (handle_securejoin_handshake codec env m contact w).1 waits

  found_chat-IsFine :
      (o : Option ℕ) (waiter : Waiter) (w : World Fpr Blob)
      → Invited w
      → Group w
      → IsFine (found_chat o waiter w)
  unfolding found_chat
  found_chat-IsFine (some c) waiter w h group = record {
    calm = λ e. cc;
    invited = nothing_scanned true w;
    waits = λ e. cc;
  }
  found_chat-IsFine none waiter w h group =
      if_both IsFine waiter.elapsed (record { calm = λ e. cc; invited = h; waits = λ _. group })
        (record { calm = λ e. cc; invited = h; waits = λ _. group })

  abbrev ask_chat : Waiter → World Fpr Blob → Scan Fpr → Joining Fpr Blob
  ask_chat waiter w scan =
      unwrap_or_panic scan.text2 w λ grpid. found_chat (waiter.get_chat_id_by_grpid grpid) waiter w

  wait_round-IsFine :
      (waiter : Waiter) (w : World Fpr Blob) → Invited w → Group w → IsFine (wait_round waiter w)
  unfolding wait_round unwrap_or_panic
  wait_round-IsFine waiter w h (scan, there, g) =
      if_both IsFine (not waiter.stopped)
        (record { calm = λ e. cc; invited = h; waits = λ _. (scan, there, g) })
        (subst (λ o. IsFine (unwrap_or_panic o w (ask_chat waiter w))) (sym there)
          (unwrap_or_panic_split scan.text2 w _ (some_of scan.text2 ((h scan there).group g))
            λ grpid.
              found_chat-IsFine (waiter.get_chat_id_by_grpid grpid) waiter w h (scan, there, g)))

  -- What is kept: the scan is an invitation, and is there while a join waits.
  record Holds (w : World Fpr Blob) (waits : Bool) : Type 0 where
    invited : Invited w
    group : waits ≡ true → Group w

  Holds-IsFine : (r : Joining Fpr Blob) → IsFine r → Holds r.1 (is_waiting r.0)
  Holds-IsFine r fine = record {
    invited = fine.invited;
    group = λ e. fine.waits (waiting_of r.0 e);
  }

  Reach-Holds : (w : World Fpr Blob) (waits : Bool) → Reach w waits → Holds w waits
  Reach-Holds w waits (started _ nothing) = record {
    invited = λ scan e. absurd (ground (arith, nothing, e));
    group = λ e. cc;
  }
  Reach-Holds w waits (joined {w = v} env joiner qr r) =
      Holds-IsFine _ (dc_join_securejoin-IsFine codec out env joiner qr v)
  Reach-Holds w waits (waited {w = v} waiter r) =
      let h = Reach-Holds v true r in
      Holds-IsFine _ (wait_round-IsFine waiter v h.invited (h.group refl))
  Reach-Holds w waits (handled {w = v} env m contact r) =
      let h = Reach-Holds v waits r in
      let kept = kept_scan codec out env m contact v in
      record {
        invited = λ scan e. h.invited scan (sym kept ∙ e);
        group = λ e. let (scan, there, g) = h.group e in (scan, kept ∙ there, g);
      }

  -- Where no join is called while another one waits for the chat of its group, nothing that is
  -- scanned and no message makes a device panic, in whatever order joins and messages come from a
  -- start where nothing was scanned, and where the device has a key of its own when the message
  -- comes: what `check_qr` lets through is all that the join and the handlers unwrap.
  pub Reach-ne-panic :
      (w : World Fpr Blob) (waits : Bool) (env : Env Fpr) (joiner : Joiner) (qr : Text)
      (m : Mime Fpr) (contact : ℕ)
      → Reach w waits
      → env.self_fingerprint ≢ none
      → ((dc_join_securejoin codec out env joiner qr w).0.0 ≢ Joining.panic)
        × ((handle_securejoin_handshake codec env m contact w).0 ≢ Securejoin.panic)
  Reach-ne-panic w waits env joiner qr m contact r own = (
    (dc_join_securejoin-IsFine codec out env joiner qr w).calm,
    handle_securejoin_handshake-ne-panic codec env m contact w
        (record { own = own; invite = (Reach-Holds w waits r).invited }),
  )

  -- A join that waits for the chat of its group finds the scanned group in every round of the wait,
  -- whatever the program answers, and does not panic, in whatever order joins, messages and rounds
  -- came from a start where nothing was scanned, if no join is called while another one waits.
  pub wait_round-ne-panic :
      (w : World Fpr Blob) (waiter : Waiter)
      → Reach w true
      → (wait_round waiter w).0 ≢ Joining.panic
  wait_round-ne-panic w waiter r =
      let h = Reach-Holds w true r in (wait_round-IsFine waiter w h.invited (h.group refl)).calm
