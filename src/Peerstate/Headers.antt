-- ===== src/Peerstate/Headers.antt =====
-- peerstate.rs: what a header or a gossip header changes, and what a late one does not.
use juttmy_core.Prelude.{
  ℤ, ◌≤ℤ◌, Text, text_eq, ◌≡◌, true, not, ◌||◌, some, Eq, arith, ltb_ℤ, ◌∙◌, ap,
}
use juttmy_core.Peerstate.{
  Aheader, Peerstate, EncryptPreference, reset, recalc_fingerprint, recalc_public, recalc_gossip,
  apply_header, take_preference, take_public_key, timestamps,
}
use juttmy_core.Peerstate.Consistency.{IsConsistent}

-- The preference after a header: `reset` cannot be sent, and is ignored.
abbrev pub preference_after : EncryptPreference → EncryptPreference → EncryptPreference
preference_after old reset = old
preference_after old sent = sent

module _ {Key Fpr : Type 0} where
  take_preference_lem :
      (p : Peerstate Key Fpr) (h : Aheader Key)
      → (take_preference p h).prefer_encrypt ≡ preference_after p.prefer_encrypt h.prefer_encrypt
  unfolding take_preference
  take_preference_lem p h = ground arith

module _ {Key Fpr : Type 0} ⦃ek : Eq Key⦄ ⦃ef : Eq Fpr⦄ (f : Key → Fpr) where
  -- The key of a newer header, over a key that was there.
  record TakesKey (p q : Peerstate Key Fpr) (k old : Key) : Type 0 where
    key : q.public_key ≡ some k
    print : q.public_key_fingerprint ≡ some (f k)
    changed : q.fingerprint_changed ≡ (p.fingerprint_changed || not (ef.beq (f old) (f k)))
    preference : q.prefer_encrypt ≡ p.prefer_encrypt
    seen : q.last_seen ≡ p.last_seen
    autocrypt : q.last_seen_autocrypt ≡ p.last_seen_autocrypt

  take_public_key_lem :
      (p : Peerstate Key Fpr) (h : Aheader Key) (old : Key)
      → IsConsistent f p
      → p.public_key ≡ some old
      → TakesKey p (take_public_key f p h) h.public_key old
  unfolding take_public_key recalc_fingerprint recalc_public recalc_gossip
  take_public_key_lem p h old c e =
      ground (arith, ek.beq_iff old h.public_key, ef.beq_iff (f old) (f h.public_key))

module _ {Key Fpr : Type 0} ⦃ek : Eq Key⦄ ⦃ef : Eq Fpr⦄ (f : Key → Fpr) (lower : Text → Text) where
  apply_header_fresh :
      (p : Peerstate Key Fpr) (h : Aheader Key) (t : ℤ)
      → text_eq (lower p.addr) (lower h.addr) ≡ true
      → ltb_ℤ p.last_seen t ≡ true
      → apply_header f lower p h t
        ≡ take_public_key f
            (take_preference
              (record p { last_seen = t; last_seen_autocrypt = t; to_save = some timestamps })
              h)
            h
  unfolding apply_header
  apply_header_fresh p h t same fresh = rw (same, fresh)

  -- What a newer header of the same peer, whose key was `old`, leaves.
  pub record Fresh (p q : Peerstate Key Fpr) (h : Aheader Key) (old : Key) (t : ℤ) : Type 0 where
    pub key : q.public_key ≡ some h.public_key
    pub print : q.public_key_fingerprint ≡ some (f h.public_key)
    pub changed :
        q.fingerprint_changed ≡ (p.fingerprint_changed || not (ef.beq (f old) (f h.public_key)))
    pub preference : q.prefer_encrypt ≡ preference_after p.prefer_encrypt h.prefer_encrypt
    pub seen : q.last_seen ≡ t
    pub autocrypt : q.last_seen_autocrypt ≡ t

  take_preference_kept :
      (p : Peerstate Key Fpr) (h : Aheader Key)
      → IsConsistent f p
      → ((take_preference p h).public_key ≡ p.public_key)
        × ((take_preference p h).fingerprint_changed ≡ p.fingerprint_changed)
        × ((take_preference p h).last_seen ≡ p.last_seen)
        × ((take_preference p h).last_seen_autocrypt ≡ p.last_seen_autocrypt)
        × IsConsistent f (take_preference p h)
  unfolding take_preference
  take_preference_kept p h c =
      (ground arith, ground arith, ground arith, ground arith, ground arith)

  -- A header of the same address (up to case) that is newer than the last message replaces the key
  -- and its fingerprint, sets both times, takes over a preference other than `reset`, and raises
  -- `fingerprint_changed` exactly when the fingerprint of the new key differs from the old one's
  -- (or it was raised before), for a consistent state that had the key `old`.
  pub apply_header-Fresh :
      (p : Peerstate Key Fpr) (h : Aheader Key) (old : Key) (t : ℤ)
      → IsConsistent f p
      → p.public_key ≡ some old
      → text_eq (lower p.addr) (lower h.addr) ≡ true
      → ltb_ℤ p.last_seen t ≡ true
      → Fresh p (apply_header f lower p h t) h old t
  apply_header-Fresh p h old t c e same fresh =
      let stamped = record p {
        last_seen = t;
        last_seen_autocrypt = t;
        to_save = some timestamps;
      } in
      let c' : IsConsistent f stamped = record {
        public = c.public;
        gossip = c.gossip;
        verified = c.verified;
      } in
      let (key, changed, seen, autocrypt, ok) = take_preference_kept stamped h c' in
      let new = take_public_key_lem f (take_preference stamped h) h old ok (key ∙ e) in
      rw (apply_header_fresh p h t same fresh) (record {
        key = new.key;
        print = new.print;
        changed = new.changed ∙ ap (λ b. b || not (ef.beq (f old) (f h.public_key))) changed;
        preference = new.preference ∙ take_preference_lem stamped h;
        seen = new.seen ∙ seen;
        autocrypt = new.autocrypt ∙ autocrypt;
      })

  -- The address stays, and the time of the last message does not go back.
  take_public_key_kept :
      (p : Peerstate Key Fpr) (h : Aheader Key)
      → ((take_public_key f p h).addr ≡ p.addr) × ((take_public_key f p h).last_seen ≡ p.last_seen)
  unfolding take_public_key recalc_fingerprint recalc_public recalc_gossip
  take_public_key_kept p h = (ground arith, ground arith)

  apply_header-last_seen :
      (p : Peerstate Key Fpr) (h : Aheader Key) (t : ℤ)
      → text_eq (lower p.addr) (lower h.addr) ≡ true
      → t ≤ℤ (apply_header f lower p h t).last_seen
  unfolding apply_header take_preference
  apply_header-last_seen p h t same =
      let stamped = record p {
        last_seen = t;
        last_seen_autocrypt = t;
        to_save = some timestamps;
      } in
      ground (arith, take_public_key_kept (take_preference stamped h) h)

  apply_header_stale :
      (p : Peerstate Key Fpr) (h : Aheader Key) (t : ℤ)
      → t ≤ℤ p.last_seen
      → apply_header f lower p h t ≡ p
  unfolding apply_header
  apply_header_stale p h t late = ground arith

  -- After a header of the peer's address, another header that is not newer than it (the same one
  -- once more, or any older one) has no effect, whether or not the first was applied.
  pub apply_header_replay :
      (p : Peerstate Key Fpr) (h late : Aheader Key) (t t' : ℤ)
      → text_eq (lower p.addr) (lower h.addr) ≡ true
      → t' ≤ℤ t
      → apply_header f lower (apply_header f lower p h t) late t' ≡ apply_header f lower p h t
  apply_header_replay p h late t t' same older =
      apply_header_stale (apply_header f lower p h t) late t'
        (omega (arith, apply_header-last_seen p h t same))
