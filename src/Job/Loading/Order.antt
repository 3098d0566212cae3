-- ===== src/Job/Loading/Order.antt =====
-- job.rs: the two orders of the queries, and the first row in an order.
use juttmy_core.Prelude.{
  ◌≡◌, ◌≢◌, ◌⊎◌, inl, inr, subst, refl, arith, if_split, if_both, option_split, Bool, true, false,
  none, some, List, [], ◌∷◌, All, ◌∙◌, sym, ap, Bool-cases, if◌then◌else◌,
}
use juttmy_core.Job.Loading.{InterruptInfo, by_action, by_time, order_of, where_rows, best}

-- What a query's order has to be.
pub record IsOrder {A : Type 0} (le : A → A → Bool) : Type 0 where
  pub total : (r s : A) → le r s ≡ false → le s r ≡ true
  pub trans : (r s u : A) → le r s ≡ true → le s u ≡ true → le r u ≡ true

by_action-IsOrder : IsOrder by_action
by_action-IsOrder = record { total = λ r s h. ground arith; trans = λ r s u h k. ground arith }

by_time-IsOrder : IsOrder by_time
by_time-IsOrder = record { total = λ r s h. ground arith; trans = λ r s u h k. ground arith }

pub order_of-IsOrder : (info : InterruptInfo) → IsOrder (order_of info)
order_of-IsOrder info = if_both IsOrder _ by_action-IsOrder by_time-IsOrder

-- The row is in the table.
abbrev pub In : {A : Type 0} → A → List A → Type 0
In r [] = ⊥
In r (x ∷ xs) = (x ≡ r) ⊎ In r xs

pub In-All : {A : Type 0} (P : A → Type 0) (r : A) (rows : List A) → In r rows → All P rows → P r
In-All P r [] i a = elim i [ ]
In-All P r (x ∷ rows) (inl e) (p, a) = subst P e p
In-All P r (x ∷ rows) (inr i) (p, a) = In-All P r rows i a

pub All-where :
    {A : Type 0} (P : A → Type 0) (ok : A → Bool) (rows : List A)
    → All P rows
    → All P (where_rows ok rows)
unfolding where_rows
All-where P ok [] a = tt
All-where P ok (x ∷ rows) (p, a) =
    if_both (All P) (ok x) (p, All-where P ok rows a) (All-where P ok rows a)

module _ {A : Type 0} (le : A → A → Bool) where
  -- The first of a row and the first of the others.
  data First (x : A) (rows : List A) (r : A) : Type 0 where
    alone : best le rows ≡ none → x ≡ r → First x rows r
    before : (s : A) → best le rows ≡ some s → le x s ≡ true → x ≡ r → First x rows r
    behind : best le rows ≡ some r → le x r ≡ false → First x rows r

  best-First : (x : A) (rows : List A) (r : A) → best le (x ∷ rows) ≡ some r → First x rows r
  unfolding best
  best-First x rows r =
      option_split (λ found. found ≡ some r → First x rows r) (best le rows) (λ e h. alone e (cc))
        λ s e.
          if_split (λ found. found ≡ some r → First x rows r) (le x s) (λ l h. before s e l (cc))
            λ l h. let same : s ≡ r = cc in behind (e ∙ ap some same) (ap (le x) (sym same) ∙ l)

  pub best-In : (rows : List A) (r : A) → best le rows ≡ some r → In r rows
  unfolding best
  best-In [] r h = cc
  best-In (x ∷ rows) r h = elim (best-First x rows r h) [
    | alone e same ↦ inl same
    | before s e l same ↦ inl same
    | behind e l ↦ inr (best-In rows r e)
  ]

  best-cons-some : (x : A) (rows : List A) → best le (x ∷ rows) ≢ none
  unfolding best
  best-cons-some x rows =
      option_split (λ found. found ≢ none) (best le rows) (λ e h. cc)
        λ s e. if_split (λ found. found ≢ none) (le x s) (λ l h. cc) (λ l h. cc)

  pub best-none : (rows : List A) → best le rows ≡ none → rows ≡ []
  best-none [] h = refl
  best-none (x ∷ rows) h = elim (best-cons-some x rows h) [ ]

  module _ (o : IsOrder le) where
    le_refl : (r : A) → le r r ≡ true
    le_refl r = elim (Bool-cases (le r r)) [ inl yes_ ↦ yes_ | inr no_ ↦ o.total r r no_ ]

    All-le :
        (x r : A) (rows : List A)
        → le x r ≡ true
        → All (λ s. le r s ≡ true) rows
        → All (λ s. le x s ≡ true) rows
    All-le x r [] h a = tt
    All-le x r (s ∷ rows) h (l, a) = (o.trans x r s h l, All-le x r rows h a)

    -- The first row is not behind any.
    pub best-least : (rows : List A) (r : A) → best le rows ≡ some r → All (λ s. le r s ≡ true) rows
    best-least [] r h = tt
    best-least (x ∷ rows) r h = elim (best-First x rows r h) [
      | alone e same ↦ rw (best-none rows e) (ap (le r) same ∙ le_refl r, tt)
      | before s e l same ↦
          subst (λ q. All (λ s. le q s ≡ true) (x ∷ rows)) same
            (le_refl x, All-le x s rows l (best-least rows s e))
      | behind e l ↦ (o.total x r l, best-least rows r e)
    ]

    best-first :
        (x : A) (rows : List A) → All (λ s. le x s ≡ true) rows → best le (x ∷ rows) ≡ some x
    unfolding best
    best-first x rows a =
        option_split (λ found. found ≡ some x) (best le rows) (λ e. refl)
          λ s e. rw (In-All (λ s. le x s ≡ true) s rows (best-In rows s e) a) refl

    best-behind :
        (x r : A) (rows : List A)
        → best le rows ≡ some r
        → le x r ≡ false
        → best le (x ∷ rows) ≡ some r
    unfolding best
    best-behind x r rows e l = rw (best, e, l) refl

    -- The first row stays the first when others go.
    pub best-where :
        (ok : A → Bool) (rows : List A) (r : A)
        → best le rows ≡ some r
        → ok r ≡ true
        → best le (where_rows ok rows) ≡ some r
    unfolding where_rows
    best-where ok [] r h k = h
    best-where ok (x ∷ rows) r h k =
        let stays : x ≡ r
            → All (λ s. le x s ≡ true) rows
            → best le (if ok x then x ∷ where_rows ok rows else where_rows ok rows) ≡ some r =
          λ same a.
            let ok_x : ok x ≡ true = ap ok same ∙ k in
            rw ok_x (
              best-first x (where_rows ok rows) (All-where (λ s. le x s ≡ true) ok rows a)
              ∙ ap some same) in
        elim (best-First x rows r h) [
          | alone e same ↦ stays same (rw (best-none rows e) tt)
          | before s e l same ↦ stays same (All-le x s rows l (best-least rows s e))
          | behind e l ↦
              if_split (λ left. best le left ≡ some r) (ok x)
                (λ _. best-behind x r (where_rows ok rows) (best-where ok rows r e k) l)
                λ _. best-where ok rows r e k
        ]
