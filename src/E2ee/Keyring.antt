-- ===== src/E2ee/Keyring.antt =====
-- e2ee.rs: for whom `encrypt` encrypts.
use juttmy_core.Prelude.{
  Text, Bool, true, Option, none, some, List, [], ◌∷◌, ◌++◌, arith, ◌≡◌, refl, subst,
}
use juttmy_core.Peerstate.{Peerstate, PeerstateVerifiedStatus, take_key}
use juttmy_core.E2ee.{
  EncryptHelper, Checked, ok, missing, failed, Peer, should_encrypt, take_keys, encrypt,
}
use juttmy_core.E2ee.Votes.{first_missing, should_encrypt_iff}

ok_injective : {A : Type 0} {x y : A} → ok x ≡ ok y → x ≡ y
ok_injective e = cc

-- The match on the key of a peer, and on the keys of the others.
abbrev with_key : {Key : Type 0} → Text → Option Key → Checked (List Key) → Checked (List Key)
with_key a o rest = elim o [
  | none ↦ missing a
  | some key ↦ elim rest [ ok keys ↦ ok (key ∷ keys) | missing b ↦ missing b | failed ↦ failed ]
]

encrypted :
    {Key Mail : Type 0} (pk_encrypt : Mail → List Key → Option Text) (own : Key) (mail : Mail)
    (r : Checked (List Key)) (c : Text)
    → elim r [
      | missing a ↦ missing a
      | failed ↦ failed
      | ok keys ↦ elim (pk_encrypt mail (keys ++ own ∷ [])) [ none ↦ failed | some t ↦ ok t ]
    ]
      ≡ ok c
    → (keys : List Key) × (r ≡ ok keys) × (pk_encrypt mail (keys ++ own ∷ []) ≡ some c)
encrypted pk_encrypt own mail (missing a) c e = absurd (cc)
encrypted pk_encrypt own mail failed c e = absurd (cc)
encrypted pk_encrypt own mail (ok keys) c e = (keys, refl, ground arith)

module _ {Key Fpr : Type 0} where
  -- One key for each recipient, the one that its peer state has for the verification status asked
  -- for, and at the end the own key.
  abbrev pub Covers : Key → PeerstateVerifiedStatus → List (Peer Key Fpr) → List Key → Type 0
  Covers own status [] [] = ⊥
  Covers own status [] (k ∷ ks) = (k ≡ own) × (ks ≡ [])
  Covers own status (x ∷ xs) [] = ⊥
  Covers own status ((none, a) ∷ xs) (k ∷ ks) = ⊥
  Covers own status ((some p, a) ∷ xs) (k ∷ ks) =
      (take_key p status ≡ some k) × Covers own status xs ks

  one_key :
      (own : Key) (status : PeerstateVerifiedStatus) (p : Peerstate Key Fpr) (a : Text)
      (peers : List (Peer Key Fpr)) (o : Option Key) (rest : Checked (List Key)) (keys : List Key)
      → take_key p status ≡ o
      → ((ks : List Key) → rest ≡ ok ks → Covers own status peers (ks ++ own ∷ []))
      → with_key a o rest ≡ ok keys
      → Covers own status ((some p, a) ∷ peers) (keys ++ own ∷ [])
  one_key own status p a peers none rest keys t step e = absurd (cc)
  one_key own status p a peers (some k) (missing b) keys t step e = absurd (cc)
  one_key own status p a peers (some k) failed keys t step e = absurd (cc)
  one_key own status p a peers (some k) (ok ks) keys t step e =
      subst (λ l. Covers own status ((some p, a) ∷ peers) (l ++ own ∷ [])) (ok_injective e)
        (t, step ks refl)

  take_keys-Covers :
      (own : Key) (status : PeerstateVerifiedStatus) (peers : List (Peer Key Fpr)) (keys : List Key)
      → first_missing peers ≡ none
      → take_keys status peers ≡ ok keys
      → Covers own status peers (keys ++ own ∷ [])
  unfolding take_keys
  take_keys-Covers own status [] [] f e = (refl, refl)
  take_keys-Covers own status [] (k ∷ ks) f e = absurd (cc)
  take_keys-Covers own status ((none, a) ∷ peers) keys f e = absurd (cc)
  take_keys-Covers own status ((some p, a) ∷ peers) keys f e =
      one_key own status p a peers (take_key p status) (take_keys status peers) keys refl
        (λ ks. take_keys-Covers own status peers ks f) e

  -- A message is encrypted, after `should_encrypt` has said yes, only with one key for each
  -- recipient and the own key: no recipient is passed over, and each key is the one that its peer
  -- state has for the verification status asked for.
  pub encrypt-Covers :
      {Mail : Type 0} (pk_encrypt : Mail → List Key → Option Text) (h : EncryptHelper Key)
      (g : Bool) (status : PeerstateVerifiedStatus) (mail : Mail) (peers : List (Peer Key Fpr))
      (c : Text)
      → should_encrypt h g peers ≡ ok true
      → encrypt pk_encrypt h status mail peers ≡ ok c
      → (ring : List Key) × (pk_encrypt mail ring ≡ some c) × Covers h.public_key status peers ring
  unfolding encrypt
  encrypt-Covers pk_encrypt h g status mail peers c agreed done =
      let (keys, e, out) = encrypted pk_encrypt h.public_key mail (take_keys status peers) c done in
      let all_there = ((should_encrypt_iff h g peers []).0.0 agreed).0 in
      (keys ++ h.public_key ∷ [], out, take_keys-Covers h.public_key status peers keys all_there e)
