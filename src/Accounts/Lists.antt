-- ===== src/Accounts/Lists.antt =====
-- accounts.rs: lists of accounts in the order of their ids.
use juttmy_core.Prelude.{
  ℕ, ◌+◌, ◌<◌, ltb, ◌==◌, if_both, if_split, Bool-cases, true, false, some, List, [], ◌∷◌, ◌++◌,
  ◌≡◌, ◌≢◌, ◌⊎◌, inl, inr, refl, ap, sym, ◌∙◌, arith, All, All-append, append-nil, append_assoc,
  subst,
}
use juttmy_core.Accounts.{AccountConfig, find, has, remove, insert, first_id, load_into}

-- Every id is below `n`, or above it.
abbrev pub Below : ℕ → List AccountConfig → Type 0
Below n cs = All (λ a. a.id < n) cs

abbrev pub Above : ℕ → List AccountConfig → Type 0
Above n cs = All (λ a. n < a.id) cs

abbrev pub Ascending : List AccountConfig → Type 0
Ascending [] = Unit
Ascending (a ∷ cs) = Above a.id cs × Ascending cs

All-remove :
    (P : AccountConfig → Type 0) (id : ℕ) (cs : List AccountConfig)
    → All P cs
    → All P (remove id cs)
unfolding remove
All-remove P id [] h = tt
All-remove P id (a ∷ cs) (p, h) = if_both (All P) (a.id == id) h (p, All-remove P id cs h)

pub Below-remove : (n id : ℕ) (cs : List AccountConfig) → Below n cs → Below n (remove id cs)
Below-remove n id cs h = All-remove (λ a. a.id < n) id cs h

pub Ascending-remove : (id : ℕ) (cs : List AccountConfig) → Ascending cs → Ascending (remove id cs)
unfolding remove
Ascending-remove id [] h = tt
Ascending-remove id (a ∷ cs) (above, h) =
    if_both Ascending (a.id == id) h
      (All-remove (λ b. a.id < b.id) id cs above, Ascending-remove id cs h)

pub Below-more : (n : ℕ) (cs : List AccountConfig) → Below n cs → Below (n + 1) cs
Below-more n [] h = tt
Below-more n (a ∷ cs) (p, h) = (omega (arith, p), Below-more n cs h)

pub Ascending-last :
    (c : AccountConfig) (cs : List AccountConfig)
    → Below c.id cs
    → Ascending cs
    → Ascending (cs ++ c ∷ [])
Ascending-last c [] below h = (tt, tt)
Ascending-last c (a ∷ cs) (p, below) (above, h) =
    (All-append (λ b. a.id < b.id) cs (c ∷ []) above (p, tt), Ascending-last c cs below h)

pub insert-last :
    (c : AccountConfig) (cs : List AccountConfig) → Below c.id cs → insert c cs ≡ cs ++ c ∷ []
unfolding insert
insert-last c [] h = refl
insert-last c (a ∷ cs) (p, h) =
    let other : (c.id == a.id) ≡ false = ground (arith, p) in
    let behind : ltb c.id a.id ≡ false = ground (arith, p) in
    rw (other, behind) (ap (a ∷◌) (insert-last c cs h))

pub remove-last :
    (c : AccountConfig) (cs : List AccountConfig) → Below c.id cs → remove c.id (cs ++ c ∷ []) ≡ cs
unfolding remove
remove-last c [] h = let same : (c.id == c.id) ≡ true = ground arith in rw same refl
remove-last c (a ∷ cs) (p, h) =
    let other : (a.id == c.id) ≡ false = ground (arith, p) in
    rw other (ap (a ∷◌) (remove-last c cs h))

pub find-last :
    (c : AccountConfig) (cs : List AccountConfig)
    → Below c.id cs
    → find c.id (cs ++ c ∷ []) ≡ some c
unfolding find
find-last c [] h = let same : (c.id == c.id) ≡ true = ground arith in rw same refl
find-last c (a ∷ cs) (p, h) =
    let other : (a.id == c.id) ≡ false = ground (arith, p) in rw other (find-last c cs h)

pub has-append :
    (id : ℕ) (cs more : List AccountConfig) → has id cs ≡ true → has id (cs ++ more) ≡ true
unfolding find
has-append id [] more h = absurd (cc)
has-append id (a ∷ cs) more h = elim (Bool-cases (a.id == id)) [
  | inl here ↦ rw here refl
  | inr other ↦ rw other (has-append id cs more (ground (arith, other, h)))
]

-- Another account stays.
pub has-remove :
    (id other : ℕ) (cs : List AccountConfig)
    → id ≢ other
    → has id cs ≡ true
    → has id (remove other cs) ≡ true
unfolding find remove
has-remove id other [] h e = absurd (cc)
has-remove id other (a ∷ cs) h e =
    if_split (λ l. has id l ≡ true) (a.id == other) (λ gone. ground (arith, gone, h, e))
      λ _. elim (Bool-cases (a.id == id)) [
        | inl here ↦ rw here refl
        | inr past ↦ rw past (has-remove id other cs h (ground (arith, past, e)))
      ]

pub has-first_id :
    (cs : List AccountConfig) → (has (first_id cs) cs ≡ true) ⊎ ((cs ≡ []) × (first_id cs ≡ 0))
unfolding find
has-first_id [] = inr (refl, refl)
has-first_id (a ∷ cs) = inl (let same : (a.id == a.id) ≡ true = ground arith in rw same refl)

All-middle :
    (P : AccountConfig → Type 0) (before : List AccountConfig) (c : AccountConfig)
    (cs : List AccountConfig)
    → All P (before ++ c ∷ cs)
    → P c
All-middle P [] c cs (p, h) = p
All-middle P (b ∷ before) c cs (p, h) = All-middle P before c cs h

Below-middle :
    (before : List AccountConfig) (c : AccountConfig) (cs : List AccountConfig)
    → Ascending (before ++ c ∷ cs)
    → Below c.id before
Below-middle [] c cs h = tt
Below-middle (b ∷ before) c cs (above, h) =
    (All-middle (λ a. b.id < a.id) before c cs above, Below-middle before c cs h)

-- Accounts in order are loaded as they are.
pub load_into-Ascending :
    (before cs : List AccountConfig) → Ascending (before ++ cs) → load_into before cs ≡ before ++ cs
unfolding load_into
load_into-Ascending before [] h = sym (append-nil before)
load_into-Ascending before (c ∷ cs) h =
    let joined = append_assoc before (c ∷ []) cs in
    ap (λ l. load_into l cs) (insert-last c before (Below-middle before c cs h))
    ∙ load_into-Ascending (before ++ c ∷ []) cs (subst Ascending (sym joined) h)
    ∙ joined

pub remove-missing : (id : ℕ) (cs : List AccountConfig) → has id cs ≡ false → remove id cs ≡ cs
unfolding find remove
remove-missing id [] h = refl
remove-missing id (a ∷ cs) h = elim (Bool-cases (a.id == id)) [
  | inl here ↦ absurd (ground (arith, here, h))
  | inr past ↦ rw past (ap (a ∷◌) (remove-missing id cs (ground (arith, past, h))))
]
