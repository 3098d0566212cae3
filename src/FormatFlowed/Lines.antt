-- ===== src/FormatFlowed/Lines.antt =====
-- format_flowed.rs: the lines that stand for one line of the text, and how they are joined.
use juttmy_core.Prelude.{
  Text, split, Lacks, All, List, ◌≡◌, refl, Bool, true, false, not, ◌∷◌, [], ◌++◌, if◌then◌else◌,
  sym, ap, ◌∙◌, append_assoc, append-nil, split-append, split-Lacks, none, some, ◌==◌, list_laws,
}
use juttmy_core.FormatFlowed.{newline, space, strip_space, unstuff, unformat_lines}

-- Does a text end with a space?
abbrev pub ends_space : Text → Bool
ends_space [] = false
ends_space (c ∷ []) = c == space
ends_space (c ∷ d ∷ s) = ends_space (d ∷ s)

-- The lines stand for a line of the text: all but the last end with a space.
pub data Flows : List Text → Text → Type 0 where
  last :
      {line t : Text}
      → unstuff line ≡ t
      → ends_space t ≡ false
      → Lacks newline line
      → Flows (line ∷ []) t
  soft :
      {line next : Text} {more : List Text} {t : Text} (u rest : Text)
      → unstuff line ≡ u ++ space ∷ []
      → t ≡ (u ++ space ∷ []) ++ rest
      → Lacks newline line
      → Flows (next ∷ more) rest
      → Flows (line ∷ next ∷ more) t

strip_space_ends : (t : Text) → ends_space t ≡ false → strip_space t ≡ none
strip_space_ends [] h = refl
strip_space_ends (c ∷ []) h = rw h refl
strip_space_ends (c ∷ d ∷ s) h = rw (strip_space_ends (d ∷ s) h) refl

strip_space-append : (u : Text) → strip_space (u ++ space ∷ []) ≡ some u
strip_space-append [] = refl
strip_space-append (c ∷ []) = refl
strip_space-append (c ∷ d ∷ u) = rw (strip_space-append (d ∷ u)) refl

module _ (lines : List Text) where
  unformat_fixed :
      (r : Text) (skip : Bool) (line : Text)
      → ends_space (unstuff line) ≡ false
      → unformat_lines false r skip (line ∷ lines)
        ≡ unformat_lines false
            ((if not skip then r ++ newline ∷ [] else r) ++ unstuff line)
            false
            lines
  unfolding unformat_lines
  unformat_fixed r skip line h = rw (unformat_lines, strip_space_ends (unstuff line) h) refl

  unformat_soft :
      (r : Text) (skip : Bool) (line u : Text)
      → unstuff line ≡ u ++ space ∷ []
      → unformat_lines false r skip (line ∷ lines)
        ≡ unformat_lines false
            ((if not skip then r ++ newline ∷ [] else r) ++ u ++ space ∷ [])
            true
            lines
  unfolding unformat_lines
  unformat_soft r skip line u h = rw (unformat_lines, h, strip_space-append u) refl

soft_text :
    (before u rest : Text) → before ++ u ++ space ∷ [] ++ rest ≡ before ++ (u ++ space ∷ [] ++ rest)
soft_text before u rest = simp list_laws

-- Joining the lines of a line of the text gives that line.
pub unformat_lines-Flows :
    (segs : List Text) (t : Text) (rest : List Text) (r : Text) (skip : Bool)
    → Flows segs t
    → unformat_lines false r skip (segs ++ rest)
      ≡ unformat_lines false ((if not skip then r ++ newline ∷ [] else r) ++ t) false rest
unformat_lines-Flows segs t rest r skip (last {line} e h plain) =
    unformat_fixed rest r skip line (ap ends_space e ∙ h)
    ∙ ap (λ s. unformat_lines false ((if not skip then r ++ newline ∷ [] else r) ++ s) false rest) e
unformat_lines-Flows segs t rest r skip (soft {line} {next} {more} u t' e et plain f) =
    let before = if not skip then r ++ newline ∷ [] else r in
    unformat_soft (next ∷ more ++ rest) r skip line u e
    ∙ unformat_lines-Flows (next ∷ more) t' rest (before ++ u ++ space ∷ []) true f
    ∙ ap (λ s. unformat_lines false s false rest) (soft_text before u t' ∙ ap (before ++◌) (sym et))

abbrev Solid : Text → Type 0
Solid line = Lacks newline line

pub Flows-Solid : (segs : List Text) (t : Text) → Flows segs t → All (Lacks newline) segs
Flows-Solid segs t (last e h plain) = (plain, tt)
Flows-Solid segs t (soft {line} {next} {more} u t' e et plain f) =
    (plain, Flows-Solid (next ∷ more) t' f)

-- Every line with a line break before it.
abbrev pub tail_lines : List Text → Text
tail_lines [] = []
tail_lines (line ∷ lines) = newline ∷ line ++ tail_lines lines

pub tail_lines-append : (xs ys : List Text) → tail_lines (xs ++ ys) ≡ tail_lines xs ++ tail_lines ys
tail_lines-append [] ys = refl
tail_lines-append (x ∷ xs) ys =
    ap (λ t. newline ∷ x ++ t) (tail_lines-append xs ys)
    ∙ ap (newline ∷◌) (sym (append_assoc x (tail_lines xs) (tail_lines ys)))

-- Lines joined and split again.
pub split-tail_lines :
    (line : Text) (lines : List Text)
    → Lacks newline line
    → All (Lacks newline) lines
    → split newline (line ++ tail_lines lines) ≡ line ∷ lines
split-tail_lines line [] h hs = ap (split newline) (append-nil line) ∙ split-Lacks newline line h
split-tail_lines line (next ∷ lines) h (hn, hs) =
    split-append newline line (next ++ tail_lines lines)
    ∙ rw (split-Lacks newline line h, split-tail_lines next lines hn hs) refl

-- The lines of an empty text are those of an empty line.
pub Flows-nonempty :
    (segs : List Text) (t s : Text) → Flows segs t → newline ∷ s ≡ tail_lines segs → s ≡ [] → t ≡ []
Flows-nonempty segs t s (last {line = []} e h plain) es empty = sym e
Flows-nonempty segs t s (last {line = c ∷ line} e h plain) es empty = cc
Flows-nonempty segs t s (soft {line = []} u t' e et plain f) es empty = cc
Flows-nonempty segs t s (soft {line = c ∷ line} u t' e et plain f) es empty = cc
