-- ===== src/Simplify/Escaping.antt =====
-- simplify.rs: what `escape_message_footer_marks` protects.
use juttmy_core.Prelude.{
  ℕ, Text, codes, split, without, Lacks, starts_with, strip_prefix, none, some, All, List,
  without-Lacks, ◌≢◌, ◌≡◌, refl, Bool, true, false, ◌∷◌, [], arith, ◌&&◌, ◌==◌, Bool-cases, inl,
  inr, Option-cases, subst, sym, ◌∙◌, ap,
}
use juttmy_core.Simplify.{
  zwsp, newline, dash, replace_marks, escape_message_footer_marks, split_lines,
}

abbrev pub marks : Text → Bool
marks s = starts_with (codes "--") s

abbrev at_mark : ℕ → ℕ → ℕ → Bool
at_mark c d e = c == newline && d == dash && e == dash

module _ (c d e : ℕ) (s : Text) where
  replace_marks_at :
      at_mark c d e ≡ true
      → replace_marks (c ∷ d ∷ e ∷ s) ≡ newline ∷ dash ∷ zwsp ∷ dash ∷ replace_marks s
  unfolding replace_marks
  replace_marks_at at = rw (replace_marks, at) refl

  replace_marks_past :
      at_mark c d e ≡ false → replace_marks (c ∷ d ∷ e ∷ s) ≡ c ∷ replace_marks (d ∷ e ∷ s)
  unfolding replace_marks
  replace_marks_past past = rw (replace_marks, past) refl

  at_mark-newline : at_mark c d e ≡ true → (c ≡ newline) × (d ≡ dash) × (e ≡ dash)
  at_mark-newline at = ground arith

-- Deleting the escapes gives back a text that has none of its own.
without-replace_marks : (s : Text) → Lacks zwsp s → without zwsp (replace_marks s) ≡ s
without-replace_marks (c ∷ d ∷ e ∷ s) (hc, (hd, (he, hs))) = elim (Bool-cases (at_mark c d e)) [
  | inl at ↦
      let (ec, ed, ee) = at_mark-newline c d e s at in
      rw (replace_marks_at c d e s at, ec, ed, ee)
        (ap (λ t. newline ∷ dash ∷ dash ∷ t) (without-replace_marks s hs))
  | inr other ↦ rw (replace_marks_past c d e s other) (
      keep c (replace_marks (d ∷ e ∷ s)) (d ∷ e ∷ s) hc
        (without-replace_marks (d ∷ e ∷ s) (hd, (he, hs))))
]
  where
    keep : (c : ℕ) (t u : Text) → c ≢ zwsp → without zwsp t ≡ u → without zwsp (c ∷ t) ≡ c ∷ u
    keep c t u h e = rw e (ground arith)
without-replace_marks (c ∷ d ∷ []) h = unfold replace_marks in without-Lacks zwsp (c ∷ d ∷ []) h
without-replace_marks (c ∷ []) h = unfold replace_marks in without-Lacks zwsp (c ∷ []) h
without-replace_marks [] h = unfold replace_marks in refl

replace_marks-head : (c : ℕ) (s : Text) → (t : Text) × (replace_marks (c ∷ s) ≡ c ∷ t)
replace_marks-head c (d ∷ e ∷ s) = elim (Bool-cases (at_mark c d e)) [
  | inl at ↦
      let (ec, ed, ee) = at_mark-newline c d e s at in
      (_, replace_marks_at c d e s at ∙ ap (λ x. x ∷ dash ∷ zwsp ∷ dash ∷ replace_marks s) (sym ec))
  | inr other ↦ (_, replace_marks_past c d e s other)
]
replace_marks-head c (d ∷ []) = unfold replace_marks in (_, refl)
replace_marks-head c [] = unfold replace_marks in (_, refl)

marks-replace_marks : (s : Text) → marks (replace_marks s) ≡ marks s
marks-replace_marks (c ∷ d ∷ e ∷ s) = elim (Bool-cases (at_mark c d e)) [
  | inl at ↦
      let (ec, ed, ee) = at_mark-newline c d e s at in rw (replace_marks_at c d e s at, ec) refl
  | inr other ↦
      let (t, head) = replace_marks-head d (e ∷ s) in
      rw (replace_marks_past c d e s other, head) refl
]
marks-replace_marks (c ∷ d ∷ []) = unfold replace_marks in refl
marks-replace_marks (c ∷ []) = unfold replace_marks in refl
marks-replace_marks [] = unfold replace_marks in refl

-- No line but the first begins with "--".
abbrev Calm : Text → Type 0
Calm [] = Unit
Calm (c ∷ s) = (c ≡ newline → marks s ≡ false) × Calm s

replace_marks-Calm : (s : Text) → Calm (replace_marks s)
replace_marks-Calm (c ∷ d ∷ e ∷ s) = elim (Bool-cases (at_mark c d e)) [
  | inl at ↦ rw (replace_marks_at c d e s at) (
    λ _. refl,
    (
      λ (h : dash ≡ newline). ground arith,
      (
        λ (h : zwsp ≡ newline). ground arith,
        (λ (h : dash ≡ newline). ground arith, replace_marks-Calm s),
      ),
    ),
  )
  | inr other ↦
      rw (replace_marks_past c d e s other)
        (λ at. marks-replace_marks (d ∷ e ∷ s) ∙ ground arith, replace_marks-Calm (d ∷ e ∷ s))
]
replace_marks-Calm (c ∷ d ∷ []) = unfold replace_marks in (λ _. ground arith, (λ _. refl, tt))
replace_marks-Calm (c ∷ []) = unfold replace_marks in (λ _. refl, tt)
replace_marks-Calm [] = unfold replace_marks in tt

abbrev pub Unmarked : Text → Type 0
Unmarked line = marks line ≡ false

-- The lines of such a text: the first begins with "--" when the text does.
split-Calm :
    (s : Text)
    → Calm s
    → (l : Text) × (ls : List Text) × (split newline s ≡ l ∷ ls)
      × (marks l ≡ marks s)
      × (starts_with (codes "-") l ≡ starts_with (codes "-") s)
      × All Unmarked ls
split-Calm [] h = ([], [], refl, refl, refl, tt)
split-Calm (c ∷ s) (hc, h) =
    let (l, ls, e, same, one, later) = split-Calm s h in
    elim (Bool-cases (c == newline)) [
      | inl at ↦
          rw (at, e)
            ([], l ∷ ls, refl, ground arith, ground arith, (same ∙ hc (ground arith), later))
      | inr other ↦ rw (other, e) (c ∷ l, ls, refl, ap (λ b. (dash == c) && b) one, refl, later)
    ]

marks-unprefixed : (s : Text) → strip_prefix (codes "--") s ≡ none → marks s ≡ false
marks-unprefixed [] h = refl
marks-unprefixed (c ∷ []) h = ground arith
marks-unprefixed (c ∷ d ∷ s) h = ground arith

strip_prefix-marks :
    (s rest : Text) → strip_prefix (codes "--") s ≡ some rest → s ≡ dash ∷ dash ∷ rest
strip_prefix-marks [] rest h = cc
strip_prefix-marks (c ∷ []) rest h = ground arith
strip_prefix-marks (c ∷ d ∷ s) rest h = ground arith

prefixed :
    (s rest : Text)
    → Lacks zwsp s
    → s ≡ dash ∷ dash ∷ rest
    → dash ∷ dash ∷ without zwsp (replace_marks rest) ≡ s
prefixed s rest h e =
    let (_, (_, hr)) = subst (Lacks zwsp) e h in rw (without-replace_marks rest hr) (sym e)

-- `escape_message_footer_marks` loses nothing: deleting its escapes, as `render_message` does,
-- gives back the text, if that has no zero width space of its own.
pub without-escape_message_footer_marks :
    (s : Text) → Lacks zwsp s → without zwsp (escape_message_footer_marks s) ≡ s
unfolding escape_message_footer_marks
without-escape_message_footer_marks s h = elim (Option-cases (strip_prefix (codes "--") s)) [
  | inl bare ↦ rw bare (without-replace_marks s h)
  | inr (rest, marked) ↦ rw marked (prefixed s rest h (strip_prefix-marks s rest marked))
]

escape-Calm :
    (s : Text)
    → Calm (escape_message_footer_marks s) × (marks (escape_message_footer_marks s) ≡ false)
unfolding escape_message_footer_marks
escape-Calm s = elim (Option-cases (strip_prefix (codes "--") s)) [
  | inl bare ↦ rw bare (replace_marks-Calm s, marks-replace_marks s ∙ marks-unprefixed s bare)
  | inr (rest, marked) ↦ rw marked (
    (
      λ (h : dash ≡ newline). ground arith,
      (
        λ (h : zwsp ≡ newline). ground arith,
        (λ (h : dash ≡ newline). ground arith, replace_marks-Calm rest),
      ),
    ),
    refl,
  )
]

pub escape-Unmarked : (s : Text) → All Unmarked (split_lines (escape_message_footer_marks s))
escape-Unmarked s =
    let (calm, first) = escape-Calm s in
    let (l, ls, e, same, one, later) = split-Calm (escape_message_footer_marks s) calm in
    rw e (same ∙ first, later)
