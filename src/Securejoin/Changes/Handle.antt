-- ===== src/Securejoin/Changes/Handle.antt =====
-- securejoin.rs: the changes that one message makes, and the panics that it cannot cause.
use juttmy_core.Prelude.{
  ℕ, Text, ◌≡◌, Bool, some, Eq, arith, if_split, option_split, ◌<◌, leb, ◌⊎◌, inl, inr,
}
use juttmy_core.Peerstate.Saving.{Codec}
use juttmy_core.Securejoin.{
  World, Env, Mime, emit, unblocked, last_special, fingerprint_equals_sender,
}
use juttmy_core.Securejoin.Steps.{Handled, Kind, kind_of, join_vg}
use juttmy_core.Securejoin.Steps
use juttmy_core.Securejoin.Handle.{dispatch, handle_securejoin_handshake}
use juttmy_core.Securejoin.Changes.{Change, Idle, idle, answered, accepted, confirmed, log_only}
use juttmy_core.Securejoin.Changes.Inviter.{
  handle_request-Idle, handle_request_with_auth-Change, handle_received-Idle,
}
use juttmy_core.Securejoin.Changes.Joiner.{handle_auth_required-Change, handle_confirm-Change}

module _ {Key Fpr Blob : Type 0} ⦃ef : Eq Fpr⦄ (codec : Codec Key Fpr Blob) (env : Env Fpr) where
  dispatch-Change :
      (k : Kind) (vg : Bool) (m : Mime Fpr) (contact chat : ℕ) (w : World Fpr Blob)
      → Change codec env m chat vg w (dispatch codec env k vg m contact chat w).1 k
  unfolding dispatch
  dispatch-Change Steps.request vg m contact chat w =
      idle (handle_request-Idle codec env vg m contact chat w)
  dispatch-Change Steps.auth_required vg m contact chat w =
      handle_auth_required-Change codec env vg m contact chat w
  dispatch-Change Steps.request_with_auth vg m contact chat w =
      handle_request_with_auth-Change codec env vg m contact chat w
  dispatch-Change Steps.confirm vg m contact chat w =
      handle_confirm-Change codec env vg m contact chat w
  dispatch-Change Steps.received vg m contact chat w =
      idle (handle_received-Idle codec env vg m contact w)
  dispatch-Change Steps.unknown vg m contact chat w = idle (log_only w w.log)

  -- The chat was unblocked before the message was looked at: only the log differs.
  Change-unblocked :
      {k : Kind} {m : Mime Fpr} {chat : ℕ} {vg : Bool} {w' : World Fpr Blob} (w : World Fpr Blob)
      → Change codec env m chat vg (emit (unblocked chat) w) w' k
      → Change codec env m chat vg w w' k
  unfolding fingerprint_equals_sender
  Change-unblocked w (idle i) = idle (record {
    peers = i.peers;
    expects = i.expects;
    scan = i.scan;
    invitenumbers = i.invitenumbers;
    auths = i.auths;
  })
  Change-unblocked w (answered scan fp k e f x s t y p r) =
      answered scan fp k e f x s t y p
        (record { scan = r.scan; invitenumbers = r.invitenumbers; auths = r.auths })
  Change-unblocked w (accepted fp auth k s t g x p y r) =
      accepted fp auth k s t g x p y
        (record { scan = r.scan; invitenumbers = r.invitenumbers; auths = r.auths })
  Change-unblocked w (confirmed scan fp k e f x s p y r) =
      confirmed scan fp k e f x s p y
        (record { scan = r.scan; invitenumbers = r.invitenumbers; auths = r.auths })

  -- The step and the chat of a message that was looked at, with the change that it made.
  pub record Handling (m : Mime Fpr) (contact : ℕ) (w w' : World Fpr Blob) : Type 0 where
    pub step : Text
    pub chat : ℕ
    pub blocked : Bool
    pub is_step : m.secure_join ≡ some step
    pub is_chat : env.create_or_lookup contact ≡ some (chat, blocked)
    pub is_contact : last_special < contact
    pub change : Change codec env m chat (join_vg step) w w' (kind_of step)

  -- Handling a message either leaves all but the log as it was, or makes one of the changes listed
  -- by `Change`, by a step of that kind: the table of peers changes only by marking the sender's
  -- fingerprint behind a valid signature and a known secret, or, while Bob waits for the
  -- confirmation, the fingerprint that he scanned; and what Bob expects only goes from
  -- `auth_required` to `contact_confirm`, behind a signature by the scanned fingerprint, and from
  -- there to `not_active`.
  pub handle_securejoin_handshake-Change :
      (m : Mime Fpr) (contact : ℕ) (w : World Fpr Blob)
      → Idle w (handle_securejoin_handshake codec env m contact w).1
        ⊎ Handling m contact w (handle_securejoin_handshake codec env m contact w).1
  unfolding handle_securejoin_handshake
  handle_securejoin_handshake-Change m contact w =
      let P = λ (r : Handled Fpr Blob). Idle w r.1 ⊎ Handling m contact w r.1 in
      if_split P (leb contact last_special) (λ special. inl (log_only w w.log))
        λ normal.
          option_split P m.secure_join (λ missing. inl (log_only w w.log))
            λ step given.
              option_split P (env.create_or_lookup contact) (λ no_chat. inl (log_only w w.log))
                λ found is_found. inr (record {
                  step = step;
                  chat = found.0;
                  blocked = found.1;
                  is_step = given;
                  is_chat = is_found;
                  is_contact = ground arith;
                  change =
                      if_split
                        (λ v.
                          Change codec env m found.0 (join_vg step) w
                            (dispatch codec env (kind_of step) (join_vg step) m contact found.0 v).1
                            (kind_of step))
                        found.1 (λ b. Change-unblocked w (dispatch-Change _ _ m contact found.0 _))
                        (λ b. dispatch-Change _ _ m contact found.0 w);
                })
