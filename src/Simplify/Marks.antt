-- ===== src/Simplify/Marks.antt =====
-- simplify.rs: the marks of a footer, and where the lines are cut.
use juttmy_core.Prelude.{
  ℕ, zero, suc, ◌+◌, ◌-◌, ◌≤◌, ◌<◌, ◌≡◌, ◌≢◌, ◌⊎◌, ◌==◌, ◌&&◌, if◌then◌else◌, if_split,
  length-append, Text, codes, text_eq, eq_of_text_eq, Option, none, some, All, List, refl, true,
  false, ◌∷◌, [], ◌++◌, arith, take, length, inl, inr, Bool, Bool-cases, ap, sym, subst, is_empty,
  ◌∙◌, ltb, ltb→lt, ◌||◌, some-injective,
}
use juttmy_core.Simplify.{is_footer_mark, nearly_standard, line_at, holds}

-- The marks that begin a footer: two dashes with one space or with two.
abbrev pub Mark : Text → Type 0
Mark line = (line ≡ codes "-- ") ⊎ (line ≡ codes "--  ")

abbrev pub Unmarked : Text → Type 0
Unmarked line = ¬ Mark line

-- Two dashes alone, in the line `n`, with a line that is not empty below, and with an empty line or
-- nothing above.
abbrev pub IsBare : List Text → ℕ → Type 0
IsBare lines n =
    (line_at n lines ≡ some (codes "--"))
    × ((n ≡ 0) ⊎ (line_at (n - 1) lines ≡ some []))
    × (x : Text) × (line_at (n + 1) lines ≡ some x)
    × (x ≢ [])

-- The lines that are left: those above the first mark; if there is none, those above the last two
-- dashes alone; and all lines, if there are no such dashes either.
pub data Cuts : List Text → List Text → Type 0 where
  at_mark :
      (above : List Text) (mark : Text) (below : List Text)
      → Mark mark
      → All Unmarked above
      → Cuts (above ++ mark ∷ below) above
  at_bare :
      {lines : List Text} (n : ℕ)
      → All Unmarked lines
      → IsBare lines n
      → ((m : ℕ) → IsBare lines m → m ≤ n)
      → Cuts lines (take n lines)
  whole : {lines : List Text} → All Unmarked lines → ((m : ℕ) → ¬ IsBare lines m) → Cuts lines lines

pub is_footer_mark-Mark : (line : Text) → is_footer_mark line ≡ true → Mark line
is_footer_mark-Mark line h = elim (Bool-cases (text_eq line (codes "-- "))) [
  | inl one ↦ inl (eq_of_text_eq line (codes "-- ") one)
  | inr other ↦ inr (eq_of_text_eq line (codes "--  ") (ground (arith, h, other)))
]

pub is_footer_mark-Unmarked : (line : Text) → is_footer_mark line ≡ false → Unmarked line
is_footer_mark-Unmarked line h (inl e) = absurd (ground (arith, h, ap is_footer_mark e))
is_footer_mark-Unmarked line h (inr e) = absurd (ground (arith, h, ap is_footer_mark e))

-- The loop's candidate: the last two dashes alone before the line `bound`.
unfoldable pub IsLast : List Text → ℕ → Option ℕ → Type 0
IsLast lines bound none = (m : ℕ) → m < bound → ¬ IsBare lines m
IsLast lines bound (some n) = IsBare lines n × ((m : ℕ) → m < bound → IsBare lines m → m ≤ n)

line_at-append :
    (pre : List Text) (line : Text) (rest : List Text)
    → line_at (length pre) (pre ++ line ∷ rest) ≡ some line
line_at-append [] line rest = refl
line_at-append (a ∷ pre) line rest = line_at-append pre line rest

pub line_at-end : (pre : List Text) (n : ℕ) → length pre ≤ n → line_at n pre ≡ none
line_at-end [] zero h = refl
line_at-end [] (suc n) h = refl
line_at-end (a ∷ pre) zero h = ground (arith, h)
line_at-end (a ∷ pre) (suc n) h = line_at-end pre n (omega (arith, h))

line_below :
    (pre : List Text) (line : Text) (rest : List Text)
    → line_at (suc (length pre)) (pre ++ line ∷ rest) ≡ line_at 0 rest
line_below [] line rest = refl
line_below (a ∷ pre) line rest = line_below pre line rest

line_next :
    (pre : List Text) (line : Text) (rest : List Text)
    → line_at (length pre + 1) (pre ++ line ∷ rest) ≡ line_at 0 rest
line_next pre line rest =
    let count : length pre + 1 ≡ suc (length pre) = omega arith in
    ap (λ n. line_at n (pre ++ line ∷ rest)) count ∙ line_below pre line rest

is_empty_full : (x : Text) → x ≢ [] → is_empty x ≡ false
is_empty_full [] h = absurd (h refl)
is_empty_full (c ∷ x) h = refl

holds-empty : (o : Option Text) → holds is_empty o ≡ true → o ≡ some []
holds-empty none h = cc
holds-empty (some []) h = refl
holds-empty (some (c ∷ line)) h = cc

-- The test of the loop in the line `n`.
abbrev pub is_bare : List Text → ℕ → Text → Bool
is_bare lines n line = text_eq line (codes "--") && nearly_standard lines n

IsBare-is_bare :
    (pre : List Text) (line : Text) (rest : List Text)
    → is_bare (pre ++ line ∷ rest) (length pre) line ≡ true
    → IsBare (pre ++ line ∷ rest) (length pre)
IsBare-is_bare pre line [] h = absurd (ground (arith, h, length-append pre (line ∷ [])))
IsBare-is_bare pre line (x ∷ below) h =
    let lines = pre ++ line ∷ x ∷ below in
    let next = line_next pre line (x ∷ below) in
    let dashes : text_eq line (codes "--") ≡ true = ground (arith, h) in
    (
      line_at-append pre line (x ∷ below) ∙ ap some (eq_of_text_eq line (codes "--") dashes),
      elim (Bool-cases (length pre == 0)) [
        | inl first ↦ inl (ground (arith, first))
        | inr later ↦ inr (holds-empty (line_at (length pre - 1) lines) (ground (arith, h, later)))
      ],
      x,
      next,
      λ e. ground (arith, h, next, e),
    )

is_bare-IsBare :
    (pre : List Text) (line : Text) (rest : List Text)
    → IsBare (pre ++ line ∷ rest) (length pre)
    → is_bare (pre ++ line ∷ rest) (length pre) line ≡ true
is_bare-IsBare pre line [] (at, above, x, next, full) =
    let end = line_next pre line [] in absurd (cc)
is_bare-IsBare pre line (x' ∷ below) (at, above, x, next, full) =
    let lines = pre ++ line ∷ x' ∷ below in
    let n = length pre in
    let count = length-append pre (line ∷ x' ∷ below) in
    let next' = line_next pre line (x' ∷ below) in
    let dashes : line ≡ codes "--" =
      some-injective (sym (line_at-append pre line (x' ∷ below)) ∙ at) in
    let same : x' ≡ x = some-injective (sym next' ∙ next) in
    let test : text_eq line (codes "--") ≡ true = ap (λ l. text_eq l (codes "--")) dashes in
    let up : (n == 0 || holds is_empty (line_at (n - 1) lines)) ≡ true = elim above [
      | inl first ↦ ground (arith, first)
      | inr blank ↦ let e = ap (holds is_empty) blank in ground (arith, e)
    ] in
    let down : holds is_empty (line_at (n + 1) lines) ≡ false =
      ap (holds is_empty) next ∙ is_empty_full x full in
    let inside : (n == length lines - 1) ≡ false = ground (arith, count) in
    rw (test, up, inside, down) refl

-- The candidate after a further line.
pub step-IsLast :
    (pre : List Text) (line : Text) (rest : List Text) (nearly : Option ℕ)
    → IsLast (pre ++ line ∷ rest) (length pre) nearly
    → IsLast
        (pre ++ line ∷ rest)
        (length pre + 1)
        (if is_bare (pre ++ line ∷ rest) (length pre) line then some (length pre) else nearly)
unfolding IsLast
step-IsLast pre line rest nearly h =
    let lines = pre ++ line ∷ rest in
    if_split (IsLast lines (length pre + 1)) (is_bare lines (length pre) line)
      (λ bare. (IsBare-is_bare pre line rest bare, λ m below _. omega (arith, below)))
      λ other. kept nearly h λ m below bare. elim (Bool-cases (ltb m (length pre))) [
        | inl before ↦ ltb→lt m (length pre) before
        | inr at ↦
            let same : m ≡ length pre = ground (arith, below, at) in
            let found = is_bare-IsBare pre line rest (subst (IsBare lines) same bare) in absurd (cc)
      ]
  where
    kept :
        (nearly : Option ℕ)
        → IsLast (pre ++ line ∷ rest) (length pre) nearly
        → ((m : ℕ) → m < length pre + 1 → IsBare (pre ++ line ∷ rest) m → m < length pre)
        → IsLast (pre ++ line ∷ rest) (length pre + 1) nearly
    kept none h before = λ m below bare. h m (before m below bare) bare
    kept (some n) (here, last) before = (here, λ m below bare. last m (before m below bare) bare)
