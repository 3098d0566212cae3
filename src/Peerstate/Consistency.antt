-- ===== src/Peerstate/Consistency.antt =====
-- peerstate.rs: a stored fingerprint is always the fingerprint of the key stored beside it.
use juttmy_core.Prelude.{ℤ, Text, ◌≡◌, if_both, Option, none, some, Eq, arith, refl}
use juttmy_core.Peerstate.{
  timestamps, Aheader, Peerstate, PeerstateKeyType, PeerstateVerifiedStatus,
  from_header as first_header, from_gossip as first_gossip, recalc_fingerprint, recalc_public,
  recalc_gossip, degrade_encryption, set_verified, apply_header, apply_gossip, take_preference,
  take_public_key, take_gossip_key, take_gossip_preference,
}

-- The fingerprint of a key, if there is one.
abbrev pub print_of : {Key Fpr : Type 0} → (Key → Fpr) → Option Key → Option Fpr
print_of f none = none
print_of f (some k) = some (f k)

pub record IsConsistent {Key Fpr : Type 0} (f : Key → Fpr) (p : Peerstate Key Fpr) : Type 0 where
  pub public : p.public_key_fingerprint ≡ print_of f p.public_key
  pub gossip : p.gossip_key_fingerprint ≡ print_of f p.gossip_key
  pub verified : p.verified_key_fingerprint ≡ print_of f p.verified_key

module _ {Key Fpr : Type 0} (f : Key → Fpr) where
  take_preference-IsConsistent :
      {p : Peerstate Key Fpr} (h : Aheader Key)
      → IsConsistent f p
      → IsConsistent f (take_preference p h)
  unfolding take_preference
  take_preference-IsConsistent h c = ground arith

  take_gossip_preference-IsConsistent :
      {p : Peerstate Key Fpr} (h : Aheader Key)
      → IsConsistent f p
      → IsConsistent f (take_gossip_preference p h)
  unfolding take_gossip_preference
  take_gossip_preference-IsConsistent h c = ground arith

module _ {Key Fpr : Type 0} ⦃ek : Eq Key⦄ ⦃ef : Eq Fpr⦄ (f : Key → Fpr) where
  -- After a new public key is put in, whatever the public fingerprint was before.
  recalc_fingerprint_public :
      (p : Peerstate Key Fpr) (k : Key)
      → IsConsistent f p
      → IsConsistent f (recalc_fingerprint f (record p { public_key = some k }))
  unfolding recalc_fingerprint recalc_public recalc_gossip
  recalc_fingerprint_public p k c = ground arith

  -- After a new gossip key is put in.
  recalc_fingerprint_gossip :
      (p : Peerstate Key Fpr) (k : Key)
      → IsConsistent f p
      → IsConsistent f (recalc_fingerprint f (record p { gossip_key = some k }))
  unfolding recalc_fingerprint recalc_public recalc_gossip
  recalc_fingerprint_gossip p k c = ground arith

  take_public_key-IsConsistent :
      {p : Peerstate Key Fpr} (h : Aheader Key)
      → IsConsistent f p
      → IsConsistent f (take_public_key f p h)
  unfolding take_public_key
  take_public_key-IsConsistent {p} h c = ground (arith, recalc_fingerprint_public p h.public_key c)

  take_gossip_key-IsConsistent :
      {p : Peerstate Key Fpr} (h : Aheader Key)
      → IsConsistent f p
      → IsConsistent f (take_gossip_key f p h)
  unfolding take_gossip_key
  take_gossip_key-IsConsistent {p} h c = ground (arith, recalc_fingerprint_gossip p h.public_key c)

  set_verified-IsConsistent :
      {p : Peerstate Key Fpr} (which : PeerstateKeyType) (x : Fpr) (v : PeerstateVerifiedStatus)
      → IsConsistent f p
      → IsConsistent f (set_verified p which x v).0
  unfolding set_verified
  set_verified-IsConsistent which x v c = ground arith

  degrade-IsConsistent :
      {p : Peerstate Key Fpr} (t : ℤ) → IsConsistent f p → IsConsistent f (degrade_encryption p t)
  unfolding degrade_encryption
  degrade-IsConsistent t c = record { public = c.public; gossip = c.gossip; verified = c.verified }

module _ {Key Fpr : Type 0} ⦃ek : Eq Key⦄ ⦃ef : Eq Fpr⦄ (f : Key → Fpr) (lower : Text → Text) where
  apply_header-IsConsistent :
      {p : Peerstate Key Fpr} (h : Aheader Key) (t : ℤ)
      → IsConsistent f p
      → IsConsistent f (apply_header f lower p h t)
  unfolding apply_header
  apply_header-IsConsistent {p} h t c =
      let stamped = record p {
        last_seen = t;
        last_seen_autocrypt = t;
        to_save = some timestamps;
      } in
      let fresh : IsConsistent f stamped = record {
        public = c.public;
        gossip = c.gossip;
        verified = c.verified;
      } in
      if_both (IsConsistent f) _ c (
        if_both (IsConsistent f) _
          (take_public_key-IsConsistent f h (take_preference-IsConsistent f h fresh)) c)

  apply_gossip-IsConsistent :
      {p : Peerstate Key Fpr} (h : Aheader Key) (t : ℤ)
      → IsConsistent f p
      → IsConsistent f (apply_gossip f lower p h t)
  unfolding apply_gossip
  apply_gossip-IsConsistent {p} h t c =
      let stamped = record p { gossip_timestamp = t; to_save = some timestamps } in
      let fresh : IsConsistent f stamped = record {
        public = c.public;
        gossip = c.gossip;
        verified = c.verified;
      } in
      if_both (IsConsistent f) _ c (
        if_both (IsConsistent f) _
          (take_gossip_preference-IsConsistent f h (take_gossip_key-IsConsistent f h fresh)) c)

  -- What the mail receiver and the handshake do with a peer's state.
  pub data Step (p : Peerstate Key Fpr) : Peerstate Key Fpr → Type 0 where
    header : (h : Aheader Key) (t : ℤ) → Step p (apply_header f lower p h t)
    gossip : (h : Aheader Key) (t : ℤ) → Step p (apply_gossip f lower p h t)
    degrade : (t : ℤ) → Step p (degrade_encryption p t)
    verify :
        (which : PeerstateKeyType) (x : Fpr) (v : PeerstateVerifiedStatus)
        → Step p (set_verified p which x v).0

  pub data Reach : Peerstate Key Fpr → Type 0 where
    from_header : (h : Aheader Key) (t : ℤ) → Reach (first_header f h t)
    from_gossip : (h : Aheader Key) (t : ℤ) → Reach (first_gossip f h t)
    next : {p q : Peerstate Key Fpr} → Reach p → Step p q → Reach q

  Step-IsConsistent : {p q : Peerstate Key Fpr} → Step p q → IsConsistent f p → IsConsistent f q
  Step-IsConsistent (header h t) c = apply_header-IsConsistent h t c
  Step-IsConsistent (gossip h t) c = apply_gossip-IsConsistent h t c
  Step-IsConsistent (degrade t) c = degrade-IsConsistent f t c
  Step-IsConsistent (verify which x v) c = set_verified-IsConsistent f which x v c

  -- In every state that headers, gossip, degradation and verification lead to from a first header
  -- or a first gossip header, each of the three fingerprints is the fingerprint of its key, and is
  -- missing exactly when its key is.
  pub Reach-IsConsistent : {p : Peerstate Key Fpr} → Reach p → IsConsistent f p
  unfolding first_header first_gossip
  Reach-IsConsistent (from_header h t) = record { public = refl; gossip = refl; verified = refl }
  Reach-IsConsistent (from_gossip h t) = record { public = refl; gossip = refl; verified = refl }
  Reach-IsConsistent (next r s) = Step-IsConsistent s (Reach-IsConsistent r)
