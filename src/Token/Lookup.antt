-- ===== src/Token/Lookup.antt =====
-- token.rs: a token that was looked up or made is there afterwards.
use juttmy_core.Prelude.{
  ℕ, Text, All, All-append, text_eq, text_eq_self, ◌==◌, if_split, option_split, some-injective,
  if◌then◌else◌, Bool, Bool-cases, true, false, ◌&&◌, Option, none, some, List, [], ◌∷◌, ◌++◌, ◌≡◌,
  ◌≢◌, refl, subst, inl, inr, arith,
}
use juttmy_core.Token.{
  Namespace, namespace_number, TokenRow, in_namespace, save, lookup, lookup_or_new, exists,
}

same : (n : ℕ) → (n == n) ≡ true
same n = ground arith

lookup-exists :
    (n : Namespace) (id : ℕ) (token : Text) (rows : List TokenRow)
    → lookup n id rows ≡ some token
    → exists n token rows ≡ true
unfolding lookup exists
lookup-exists n id token [] e = absurd (cc)
lookup-exists n id token (r ∷ rs) e =
    if_split (λ o. o ≡ some token → exists n token (r ∷ rs) ≡ true)
      (in_namespace n r && r.foreign_id == id)
      (λ at e. first (some-injective e) (ground (arith, at)))
      (λ _ e. ground (arith, lookup-exists n id token rs e)) e
  where
    first : r.token ≡ token → in_namespace n r ≡ true → exists n token (r ∷ rs) ≡ true
    first e at = rw (at, e, text_eq_self token) refl

exists-last :
    (n : Namespace) (id : ℕ) (token : Text) (rows : List TokenRow)
    → exists n token (rows ++ record { namespc = n; foreign_id = id; token = token } ∷ []) ≡ true
unfolding exists
exists-last n id token [] = rw (same (namespace_number n), text_eq_self token) refl
exists-last n id token (r ∷ rs) = ground (arith, exists-last n id token rs)

rest_none :
    {A : Type 0} (test : Bool) (o rest : Option A)
    → test ≡ false
    → (if test then o else rest) ≡ none
    → rest ≡ none
rest_none true o rest miss e = absurd (cc)
rest_none false o rest miss e = e

lookup-last :
    (n : Namespace) (id : ℕ) (token : Text) (rows : List TokenRow)
    → lookup n id rows ≡ none
    → lookup n id (rows ++ record { namespc = n; foreign_id = id; token = token } ∷ []) ≡ some token
unfolding lookup
lookup-last n id token [] e = rw (same (namespace_number n), same id) refl
lookup-last n id token (r ∷ rs) e = elim (Bool-cases (in_namespace n r && r.foreign_id == id)) [
  | inl at ↦ absurd (found at e)
  | inr other ↦ rw other (lookup-last n id token rs (rest_none _ (some r.token) _ other e))
]
  where
    found : (in_namespace n r && r.foreign_id == id) ≡ true → lookup n id (r ∷ rs) ≢ none
    found at = rw at (λ e. cc)

-- What `lookup_or_new` gives.
abbrev Given : Namespace → ℕ → Text × List TokenRow → Type 0
Given n id result =
    (exists n (result.0) (result.1) ≡ true) × (lookup n id (result.1) ≡ some (result.0))

given :
    (n : Namespace) (id : ℕ) (token : Text) (rows : List TokenRow)
    → Given n id (lookup_or_new token n id rows)
unfolding lookup_or_new save
given n id token rows =
    option_split {A = Text} (Given n id) (lookup n id rows)
      (λ missing. (exists-last n id token rows, lookup-last n id token rows missing))
      λ found e. (lookup-exists n id found rows e, e)

again :
    (n : Namespace) (id : ℕ) (other : Text) (result : Text × List TokenRow)
    → lookup n id (result.1) ≡ some (result.0)
    → lookup_or_new other n id (result.1) ≡ result
unfolding lookup_or_new
again n id other (token, rows) e = rw (lookup_or_new, e) refl

-- The token that is found or made is in the table afterwards, for its namespace, and it is the one
-- that is found from then on, whatever new token would be made.
pub lookup_or_new_lem :
    (n : Namespace) (id : ℕ) (token other : Text) (rows : List TokenRow)
    → (exists n (lookup_or_new token n id rows).0 (lookup_or_new token n id rows).1 ≡ true)
      × (lookup_or_new other n id (lookup_or_new token n id rows).1 ≡ lookup_or_new token n id rows)
lookup_or_new_lem n id token other rows =
    let (there, found) = given n id token rows in
    (there, again n id other (lookup_or_new token n id rows) found)

-- A property of all tokens.
module _ (P : Text → Type 0) (n : Namespace) (id : ℕ) where
  lookup-All :
      (token : Text) (rows : List TokenRow)
      → All (λ r. P r.token) rows
      → lookup n id rows ≡ some token
      → P token
  unfolding lookup
  lookup-All token [] all e = absurd (cc)
  lookup-All token (r ∷ rs) (p, all) e =
      if_split (λ o. o ≡ some token → P token) (in_namespace n r && r.foreign_id == id)
        (λ _ e. subst P (some-injective e) p) (λ _ e. lookup-All token rs all e) e

  pub lookup_or_new-All :
      (token : Text) (rows : List TokenRow)
      → P token
      → All (λ r. P r.token) rows
      → P (lookup_or_new token n id rows).0 × All (λ r. P r.token) (lookup_or_new token n id rows).1
  unfolding lookup_or_new save
  lookup_or_new-All token rows p all =
      option_split {A = Text} (λ (o : Text × List TokenRow). P (o.0) × All (λ r. P r.token) (o.1))
        (lookup n id rows) (λ _. (p, All-append (λ r. P r.token) rows _ all (p, tt)))
        λ found e. (lookup-All found rows all e, all)

exists-append :
    (n : Namespace) (token : Text) (rows more : List TokenRow)
    → exists n token rows ≡ true
    → exists n token (rows ++ more) ≡ true
unfolding exists
exists-append n token [] more e = absurd (cc)
exists-append n token (r ∷ rs) more e =
    elim (Bool-cases (in_namespace n r && text_eq r.token token)) [
      | inl here ↦ rw here refl
      | inr other ↦ rw other (exists-append n token rs more (ground (arith, other, e)))
    ]

-- A token stays when another is looked up or made.
pub exists-lookup_or_new :
    (n m : Namespace) (id : ℕ) (token new : Text) (rows : List TokenRow)
    → exists n token rows ≡ true
    → exists n token (lookup_or_new new m id rows).1 ≡ true
unfolding lookup_or_new save
exists-lookup_or_new n m id token new rows e =
    option_split {A = Text} (λ (o : Text × List TokenRow). exists n token (o.1) ≡ true)
      (lookup m id rows) (λ _. exists-append n token rows _ e) λ found _. e
