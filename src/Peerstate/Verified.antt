-- ===== src/Peerstate/Verified.antt =====
-- peerstate.rs: who may set the verified key, and to what.
use juttmy_core.Prelude.{
  ◌⊎◌, ℤ, Text, ◌≡◌, refl, sym, true, false, Option, none, some, Eq, arith, if◌then◌else◌, List, [],
  ◌∷◌, Bool-cases, inl, inr, ap, ◌∙◌,
}
use juttmy_core.Peerstate.{
  Aheader, Peerstate, PeerstateKeyType, PeerstateVerifiedStatus, unverified, bidirect_verified,
  public_key, gossip_key, recalc_fingerprint, peek_key, has_verified_key, member, option_eq,
  recalc_public, recalc_gossip, apply_header, apply_gossip, take_preference, take_public_key,
  take_gossip_key, take_gossip_preference, degrade_encryption, set_verified,
  from_header as first_header, from_gossip as first_gossip,
}
use juttmy_core.Peerstate.Consistency.{IsConsistent, print_of, Step, Reach, Reach-IsConsistent}
use juttmy_core.Peerstate.Consistency

module _ {Key Fpr : Type 0} ⦃ek : Eq Key⦄ ⦃ef : Eq Fpr⦄ (f : Key → Fpr) where
  key_of_print :
      (key : Option Key) (print : Option Fpr) (x : Fpr)
      → print ≡ print_of f key
      → option_eq print (some x) ≡ true
      → (k : Key) × (key ≡ some k) × (f k ≡ x)
  key_of_print none print x e h = absurd (ground (arith, e))
  key_of_print (some k) print x e h = (k, refl, ground (arith, ef.beq_iff (f k) x))

  set_verified_ok :
      (p : Peerstate Key Fpr) (which : PeerstateKeyType) (x : Fpr) (v : PeerstateVerifiedStatus)
      → IsConsistent f p
      → (set_verified p which x v).1 ≡ true
      → (k : Key) × (peek_key (set_verified p which x v).0 bidirect_verified ≡ some k)
        × (f k ≡ x)
        × (has_verified_key (set_verified p which x v).0 (x ∷ []) ≡ true)
  unfolding set_verified peek_key has_verified_key
  set_verified_ok p which x unverified c h = absurd (cc)
  set_verified_ok p public_key x bidirect_verified c h =
      let (k, e, i) =
        key_of_print p.public_key p.public_key_fingerprint x c.public (ground arith) in
      (k, ground arith, i, ground (arith, ef.beq_iff x x))
  set_verified_ok p gossip_key x bidirect_verified c h =
      let (k, e, i) =
        key_of_print p.gossip_key p.gossip_key_fingerprint x c.gossip (ground arith) in
      (k, ground arith, i, ground (arith, ef.beq_iff x x))

  set_verified-member :
      (p : Peerstate Key Fpr) (which : PeerstateKeyType) (x : Fpr) (v : PeerstateVerifiedStatus)
      (known : List Fpr) (k : Key)
      → IsConsistent f p
      → (set_verified p which x v).0.verified_key ≡ some k
      → (set_verified p which x v).1 ≡ true
      → member (f k) (x ∷ known) ≡ true
  unfolding peek_key
  set_verified-member p which x v known k c e h =
      let (k', is, print, found) = set_verified_ok p which x v c h in
      ground (arith, ef.beq_iff (f k) x)

  set_verified_failed :
      (p : Peerstate Key Fpr) (which : PeerstateKeyType) (x : Fpr) (v : PeerstateVerifiedStatus)
      → (set_verified p which x v).1 ≡ false
      → (set_verified p which x v).0 ≡ p
  unfolding set_verified
  set_verified_failed p which x v h = ground arith

  -- In a consistent state, either `set_verified` fails and changes nothing, or it succeeds: then a
  -- key with the very fingerprint that it was called for is the one for verified encryption, and
  -- `has_verified_key` finds the fingerprint.
  pub set_verified_lem :
      (p : Peerstate Key Fpr) (which : PeerstateKeyType) (x : Fpr) (v : PeerstateVerifiedStatus)
      → IsConsistent f p
      → (((set_verified p which x v).1 ≡ false) × ((set_verified p which x v).0 ≡ p))
        ⊎ (((set_verified p which x v).1 ≡ true)
            × ((k : Key) × (peek_key (set_verified p which x v).0 bidirect_verified ≡ some k)
                × (f k ≡ x)
                × (has_verified_key (set_verified p which x v).0 (x ∷ []) ≡ true)))
  set_verified_lem p which x v c = elim (Bool-cases (set_verified p which x v).1) [
    | inl done ↦ inr (done, set_verified_ok p which x v c done)
    | inr failed ↦ inl (failed, set_verified_failed p which x v failed)
  ]

  take_public_key-verified_key :
      (p : Peerstate Key Fpr) (h : Aheader Key)
      → (take_public_key f p h).verified_key ≡ p.verified_key
  unfolding take_public_key recalc_fingerprint recalc_public recalc_gossip
  take_public_key-verified_key p h = ground arith

  take_gossip_key-verified_key :
      (p : Peerstate Key Fpr) (h : Aheader Key)
      → (take_gossip_key f p h).verified_key ≡ p.verified_key
  unfolding take_gossip_key recalc_fingerprint recalc_public recalc_gossip
  take_gossip_key-verified_key p h = ground arith

module _ {Key Fpr : Type 0} ⦃ek : Eq Key⦄ ⦃ef : Eq Fpr⦄ (f : Key → Fpr) (lower : Text → Text) where
  apply_header-verified_key :
      (p : Peerstate Key Fpr) (h : Aheader Key) (t : ℤ)
      → (apply_header f lower p h t).verified_key ≡ p.verified_key
  unfolding apply_header take_preference
  apply_header-verified_key p h t = grind (arith, take_public_key-verified_key f)

  apply_gossip-verified_key :
      (p : Peerstate Key Fpr) (h : Aheader Key) (t : ℤ)
      → (apply_gossip f lower p h t).verified_key ≡ p.verified_key
  unfolding apply_gossip take_gossip_preference
  apply_gossip-verified_key p h t = grind (arith, take_gossip_key-verified_key f)

  -- The fingerprints for which `set_verified` succeeded on the way to a state, the last first.
  pub attested : {p : Peerstate Key Fpr} → Reach f lower p → List Fpr
  attested (Consistency.from_header h t) = []
  attested (Consistency.from_gossip h t) = []
  attested (Consistency.next r (Consistency.header h t)) = attested r
  attested (Consistency.next r (Consistency.gossip h t)) = attested r
  attested (Consistency.next r (Consistency.degrade t)) = attested r
  attested (Consistency.next {p} r (Consistency.verify which x v)) =
      if (set_verified p which x v).1 then x ∷ attested r else attested r

  -- Headers, gossip and degradation never make a key the verified one: the fingerprint of the
  -- verified key of a state reached from a first header or a first gossip header is one for which
  -- `set_verified` succeeded on the way.
  pub verified-attested :
      {p : Peerstate Key Fpr} (r : Reach f lower p) (k : Key)
      → p.verified_key ≡ some k
      → member (f k) (attested r) ≡ true
  unfolding attested first_header first_gossip
  verified-attested (Consistency.from_header h t) k e = cc
  verified-attested (Consistency.from_gossip h t) k e = cc
  verified-attested (Consistency.next {p} r (Consistency.header h t)) k e =
      verified-attested r k (sym (apply_header-verified_key p h t) ∙ e)
  verified-attested (Consistency.next {p} r (Consistency.gossip h t)) k e =
      verified-attested r k (sym (apply_gossip-verified_key p h t) ∙ e)
  verified-attested (Consistency.next {p} r (Consistency.degrade t)) k e =
      verified-attested r k (unfold degrade_encryption in e)
  verified-attested (Consistency.next {p} r (Consistency.verify which x v)) k e =
      elim (Bool-cases (set_verified p which x v).1) [
        | inl done ↦
            rw done (
              set_verified-member f p which x v (attested r) k (Reach-IsConsistent f lower r) e
                done)
        | inr failed ↦ rw failed (
            verified-attested r k
              (ap (λ q. q.verified_key) (sym (set_verified_failed f p which x v failed)) ∙ e))
      ]
