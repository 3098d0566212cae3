-- ===== src/E2ee/Votes.antt =====
-- e2ee.rs: `should_encrypt` against the rule that its comment states.
use juttmy_core.Prelude.{
  ℕ, ◌+◌, ◌*◌, ◌<◌, Text, if◌then◌else◌, Bool, true, false, Option, none, some, List, [], ◌∷◌,
  length, arith, ltb, length, ◌≡◌, ◌≢◌, ◌⊎◌, ◌↔◌, inl, inr, refl, ap,
}
use juttmy_core.Peerstate.{
  EncryptPreference, no_preference, mutual_preference, reset, preference_eq,
}
use juttmy_core.E2ee.{EncryptHelper, Checked, ok, missing, Peer, count_preferences, should_encrypt}

-- One for a party that prefers encryption.
abbrev pub vote : EncryptPreference → ℕ
vote mutual_preference = 1
vote _ = 0

own_vote : (e : EncryptPreference) → (if preference_eq e mutual_preference then 1 else 0) ≡ vote e
own_vote e = ground arith

-- The answer where encryption is guaranteed.
sure :
    (o : Option Text) (a : Text) (P : Type 0)
    → let r : Checked Bool = elim o [ none ↦ ok true | some b ↦ missing b ] in
      ((r ≡ ok true) ↔ ((o ≡ none) × ((true ≡ true) ⊎ P)))
      × ((r ≡ missing a) ↔ ((true ≡ true) × (o ≡ some a)))
sure none a P = ((λ _. (refl, inl refl), λ _. refl), (λ e. cc, λ (_, e). cc))
sure (some b) a P = ((λ e. cc, λ (e, _). cc), (λ e. (refl, cc), λ (_, e). cc))

-- A Boolean answer that is yes exactly when `P`.
abbrev Answers : Checked Bool → Type 0 → Type 0
Answers r P = (b : Bool) × (r ≡ ok b) × ((b ≡ true) ↔ P)

Answers-iff : {r : Checked Bool} {P Q : Type 0} → P ↔ Q → Answers r P → Answers r Q
Answers-iff (to, from) (b, e, (there, back)) = (b, e, (λ h. to (there h), λ q. back (from q)))

-- One peer that has a state.
voted_step :
    (e : EncryptPreference) (next voted : Checked Bool) (F R : Type 0) (total count v : ℕ)
    → Answers next (F × (R × (total < 2 * (count + v))))
    → Answers voted (F × (R × (total < 2 * (count + 1 + v))))
    → Answers
        (elim e [ no_preference ↦ next | mutual_preference ↦ voted | reset ↦ ok false ])
        (F × (((e ≢ reset) × R) × (total < 2 * (count + (vote e + v)))))
voted_step no_preference next voted F R total count v silent _ =
    Answers-iff
      (λ (f, (r, lt)). (f, ((λ e. cc, r), omega arith)), λ (f, ((_, r), lt)). (f, (r, omega arith)))
      silent
voted_step mutual_preference next voted F R total count v _ agreed =
    Answers-iff
      (λ (f, (r, lt)). (f, ((λ e. cc, r), omega arith)), λ (f, ((_, r), lt)). (f, (r, omega arith)))
      agreed
voted_step reset next voted F R total count v _ _ =
    (false, refl, (λ e. cc, λ (f, ((n, r), lt)). absurd (n refl)))

module _ {Key Fpr : Type 0} where
  -- The votes of the peers.
  abbrev pub votes : List (Peer Key Fpr) → ℕ
  votes [] = 0
  votes ((none, a) ∷ peers) = votes peers
  votes ((some p, a) ∷ peers) = vote p.prefer_encrypt + votes peers

  -- The first address without a peer state.
  abbrev pub first_missing : List (Peer Key Fpr) → Option Text
  first_missing [] = none
  first_missing ((none, a) ∷ peers) = some a
  first_missing ((some p, a) ∷ peers) = first_missing peers

  -- No peer asked to reset encryption.
  abbrev pub NoReset : List (Peer Key Fpr) → Type 0
  NoReset [] = Unit
  NoReset ((none, a) ∷ peers) = NoReset peers
  NoReset ((some p, a) ∷ peers) = (p.prefer_encrypt ≢ reset) × NoReset peers

  -- Who must agree where encryption is not guaranteed.
  abbrev pub Agreed : ℕ → ℕ → List (Peer Key Fpr) → Type 0
  Agreed total own peers = NoReset peers × (total < 2 * (own + votes peers))

  -- With encryption guaranteed, only a missing key stops it.
  guaranteed_lem :
      (total count : ℕ) (peers : List (Peer Key Fpr))
      → count_preferences true total count peers
        ≡ elim (first_missing peers) [ none ↦ ok true | some a ↦ missing a ]
  unfolding count_preferences
  guaranteed_lem total count [] = refl
  guaranteed_lem total count ((none, a) ∷ peers) = refl
  guaranteed_lem total count ((some p, a) ∷ peers) =
      ground (arith, guaranteed_lem total count peers, guaranteed_lem total (count + 1) peers)

  -- Otherwise there is never an error, and the answer is yes exactly with all states and votes.
  voted_lem :
      (total count : ℕ) (peers : List (Peer Key Fpr))
      → Answers
          (count_preferences false total count peers)
          ((first_missing peers ≡ none) × Agreed total count peers)
  unfolding count_preferences
  voted_lem total count [] = (ltb total (2 * count), refl, ground arith)
  voted_lem total count ((none, a) ∷ peers) = (false, refl, ground arith)
  voted_lem total count ((some p, a) ∷ peers) =
      voted_step p.prefer_encrypt (count_preferences false total count peers)
        (count_preferences false total (count + 1) peers) (first_missing peers ≡ none)
        (NoReset peers) total count (votes peers) (voted_lem total count peers)
        (voted_lem total (count + 1) peers)

  -- The answer is yes exactly when every recipient has a state and either encryption is
  -- guaranteed, or no one asked for a reset and strictly more than half of the recipients, the
  -- sender included, prefer it. A missing state is an error exactly when encryption is guaranteed,
  -- and then the first missing one.
  pub should_encrypt_iff :
      (h : EncryptHelper Key) (g : Bool) (peers : List (Peer Key Fpr)) (a : Text)
      → ((should_encrypt h g peers ≡ ok true) ↔ (
          (first_missing peers ≡ none)
          × ((g ≡ true) ⊎ Agreed (length peers + 1) (vote h.prefer_encrypt) peers)))
        × ((should_encrypt h g peers ≡ missing a) ↔ ((g ≡ true) × (first_missing peers ≡ some a)))
  unfolding should_encrypt
  should_encrypt_iff h true peers a =
      rw (guaranteed_lem (length peers + 1) _ peers)
        (sure (first_missing peers) a (Agreed (length peers + 1) (vote h.prefer_encrypt) peers))
  should_encrypt_iff h false peers a =
      let (b, e, agreed) = voted_lem (length peers + 1) (vote h.prefer_encrypt) peers in
      rw (own_vote h.prefer_encrypt, e)
        (
          (
            λ yes. let (f, v) = agreed.0 (cc) in (f, inr v),
            λ (f, v). elim v [ inl e ↦ cc | inr v ↦ ap ok (agreed.1 (f, v)) ],
          ),
          (λ e. cc, λ (n, _). cc),
        )
