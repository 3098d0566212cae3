-- ===== src/Peerstate/Saving/Tracking.antt =====
-- peerstate.rs: `to_save` tells what an operation has changed.
use juttmy_core.Prelude.{ℤ, Text, ◌≡◌, ◌≢◌, refl, Bool, none, some, Eq, arith, if_both, ◌∙◌}
use juttmy_core.Peerstate.{
  Aheader, Peerstate, PeerstateKeyType, PeerstateVerifiedStatus, unverified, bidirect_verified,
  public_key, gossip_key, timestamps, all, reset, mutual_preference, recalc_fingerprint,
  recalc_public, recalc_gossip, apply_header, apply_gossip, take_preference, take_public_key,
  take_gossip_key, take_gossip_preference, degrade_encryption, set_verified,
}
use juttmy_core.Peerstate.Consistency.{Step}
use juttmy_core.Peerstate.Consistency

-- All columns but the three times are equal.
pub record SameContent {Key Fpr : Type 0} (p q : Peerstate Key Fpr) : Type 0 where
  pub prefer_encrypt : q.prefer_encrypt ≡ p.prefer_encrypt
  pub public_key : q.public_key ≡ p.public_key
  pub public_print : q.public_key_fingerprint ≡ p.public_key_fingerprint
  pub gossip_key : q.gossip_key ≡ p.gossip_key
  pub gossip_print : q.gossip_key_fingerprint ≡ p.gossip_key_fingerprint
  pub verified_key : q.verified_key ≡ p.verified_key
  pub verified_print : q.verified_key_fingerprint ≡ p.verified_key_fingerprint

-- `q.to_save` tells what differs between `q` and the stored `p`.
pub record Tracks {Key Fpr : Type 0} (p q : Peerstate Key Fpr) : Type 0 where
  pub addr : q.addr ≡ p.addr
  pub content : q.to_save ≢ some all → SameContent p q
  pub last_seen : q.to_save ≡ none → q.last_seen ≡ p.last_seen
  pub last_seen_autocrypt : q.to_save ≡ none → q.last_seen_autocrypt ≡ p.last_seen_autocrypt
  pub gossip_timestamp : q.to_save ≡ none → q.gossip_timestamp ≡ p.gossip_timestamp

module _ {Key Fpr : Type 0} {p : Peerstate Key Fpr} where
  Tracks-all : (q : Peerstate Key Fpr) → q.addr ≡ p.addr → q.to_save ≡ some all → Tracks p q
  Tracks-all q a e = record {
    addr = a;
    content = λ n. absurd (n e);
    last_seen = λ n. cc;
    last_seen_autocrypt = λ n. cc;
    gossip_timestamp = λ n. cc;
  }

  Tracks-preference :
      {q : Peerstate Key Fpr} (h : Aheader Key) → Tracks p q → Tracks p (take_preference q h)
  unfolding take_preference
  Tracks-preference {q} h t =
      if_both (Tracks p) _
        (Tracks-all (record q { prefer_encrypt = h.prefer_encrypt; to_save = some all }) t.addr
          refl)
        t

  Tracks-gossip_preference :
      {q : Peerstate Key Fpr} (h : Aheader Key) → Tracks p q → Tracks p (take_gossip_preference q h)
  unfolding take_gossip_preference
  Tracks-gossip_preference {q} h t =
      if_both (Tracks p) _
        (Tracks-all (record q { prefer_encrypt = mutual_preference; to_save = some all }) t.addr
          refl)
        t

module _ {Key Fpr : Type 0} ⦃ek : Eq Key⦄ ⦃ef : Eq Fpr⦄ (f : Key → Fpr) where
  addr-recalc : (q : Peerstate Key Fpr) → (recalc_fingerprint f q).addr ≡ q.addr
  unfolding recalc_fingerprint recalc_public recalc_gossip
  addr-recalc q = ground arith

module _ {Key Fpr : Type 0} {p : Peerstate Key Fpr} ⦃ek : Eq Key⦄ ⦃ef : Eq Fpr⦄
    (f : Key → Fpr) where
  Tracks-public_key :
      {q : Peerstate Key Fpr} (h : Aheader Key) → Tracks p q → Tracks p (take_public_key f q h)
  unfolding take_public_key
  Tracks-public_key {q} h t =
      let q' = record q { public_key = some h.public_key } in
      if_both (Tracks p) _
        (Tracks-all (record (recalc_fingerprint f q') { to_save = some all })
          (addr-recalc f q' ∙ t.addr) refl)
        t

  Tracks-gossip_key :
      {q : Peerstate Key Fpr} (h : Aheader Key) → Tracks p q → Tracks p (take_gossip_key f q h)
  unfolding take_gossip_key
  Tracks-gossip_key {q} h t =
      let q' = record q { gossip_key = some h.public_key } in
      if_both (Tracks p) _
        (Tracks-all (record (recalc_fingerprint f q') { to_save = some all })
          (addr-recalc f q' ∙ t.addr) refl)
        t

module _ {Key Fpr : Type 0} (p : Peerstate Key Fpr) where
  Tracks-self : p.to_save ≡ none → Tracks p p
  Tracks-self e = record {
    addr = refl;
    content = λ n. record {
      prefer_encrypt = refl;
      public_key = refl;
      public_print = refl;
      gossip_key = refl;
      gossip_print = refl;
      verified_key = refl;
      verified_print = refl;
    };
    last_seen = λ n. refl;
    last_seen_autocrypt = λ n. refl;
    gossip_timestamp = λ n. refl;
  }

  -- Only the times differ from a state that was stored.
  Tracks-times :
      (a b c : ℤ)
      → Tracks p (record p {
        last_seen = a;
        last_seen_autocrypt = b;
        gossip_timestamp = c;
        to_save = some timestamps;
      })
  Tracks-times a b c = record {
    addr = refl;
    content = λ n. record {
      prefer_encrypt = refl;
      public_key = refl;
      public_print = refl;
      gossip_key = refl;
      gossip_print = refl;
      verified_key = refl;
      verified_print = refl;
    };
    last_seen = λ n. cc;
    last_seen_autocrypt = λ n. cc;
    gossip_timestamp = λ n. cc;
  }

module _ {Key Fpr : Type 0} ⦃ek : Eq Key⦄ ⦃ef : Eq Fpr⦄ (f : Key → Fpr) (lower : Text → Text) where
  set_verified-Tracks :
      (p : Peerstate Key Fpr) (which : PeerstateKeyType) (x : Fpr) (v : PeerstateVerifiedStatus)
      → p.to_save ≡ none
      → Tracks p (set_verified p which x v).0
  unfolding set_verified
  set_verified-Tracks p which x unverified e = Tracks-self p e
  set_verified-Tracks p public_key x bidirect_verified e =
      if_both (λ (r : Peerstate Key Fpr × Bool). Tracks p r.0) _
        (Tracks-all
          (record p {
            to_save = some all;
            verified_key = p.public_key;
            verified_key_fingerprint = p.public_key_fingerprint;
          })
          refl refl)
        (Tracks-self p e)
  set_verified-Tracks p gossip_key x bidirect_verified e =
      if_both (λ (r : Peerstate Key Fpr × Bool). Tracks p r.0) _
        (Tracks-all
          (record p {
            to_save = some all;
            verified_key = p.gossip_key;
            verified_key_fingerprint = p.gossip_key_fingerprint;
          })
          refl refl)
        (Tracks-self p e)

  -- One change of a state that has just been loaded or saved.
  pub Step-Tracks : {p q : Peerstate Key Fpr} → Step f lower p q → p.to_save ≡ none → Tracks p q
  unfolding apply_header apply_gossip degrade_encryption
  Step-Tracks {p} (Consistency.header h t) e = if_both (Tracks p) _ (Tracks-self p e) (
      if_both (Tracks p) _
        (Tracks-public_key f h (Tracks-preference h (Tracks-times p t t p.gossip_timestamp)))
        (Tracks-self p e))
  Step-Tracks {p} (Consistency.gossip h t) e = if_both (Tracks p) _ (Tracks-self p e) (
      if_both (Tracks p) _
        (Tracks-gossip_preference h
          (Tracks-gossip_key f h (Tracks-times p p.last_seen p.last_seen_autocrypt t)))
        (Tracks-self p e))
  Step-Tracks {p} (Consistency.degrade t) e =
      Tracks-all (record p { prefer_encrypt = reset; last_seen = t; to_save = some all }) refl refl
  Step-Tracks {p} (Consistency.verify which x v) e = set_verified-Tracks p which x v e
