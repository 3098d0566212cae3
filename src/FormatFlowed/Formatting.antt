-- ===== src/FormatFlowed/Formatting.antt =====
-- format_flowed.rs: the lines that a formatted line is made of.
use juttmy_core.Prelude.{
  ℕ, ◌+◌, Text, codes, starts_with, is_empty, trim_end, is_whitespace, byte_len, without, Lacks,
  List, ◌≡◌, ◌≢◌, refl, false, ◌&&◌, ◌∷◌, [], ◌++◌, arith, if◌then◌else◌, if_split, if_both,
  without-Lacks, sym, ap, append-nil, ltb, ◌==◌,
}
use juttmy_core.FormatFlowed.{newline, return, space, unstuff, format_line_flowed, format_line}
use juttmy_core.FormatFlowed.Lines.{ends_space, Flows, last, tail_lines}
use juttmy_core.FormatFlowed.Buffer.{Inline}
use juttmy_core.FormatFlowed.Breaking.{flow_chars-Flows}

unstuff-start : (t : Text) → starts_with (codes " ") t ≡ false → unstuff t ≡ t
unstuff-start [] h = refl
unstuff-start (c ∷ t) h = ground arith

-- The lines that stand for one line.
abbrev pub Formatted : Text → Text → Type 0
Formatted out t =
    (segs : List Text) × (s : Text) × (without return out ≡ s)
    × (newline ∷ s ≡ tail_lines segs)
    × Flows segs t

format_line_flowed-Formatted :
    (t : Text)
    → Inline t
    → starts_with (codes " ") t ≡ false
    → ends_space t ≡ false
    → Formatted (format_line_flowed t []) t
unfolding format_line_flowed
format_line_flowed-Formatted t plain start trail =
    flow_chars-Flows t (record { result = []; buffer = []; after_space = false }) plain
      (record { plain = (tt, tt); after = λ e. cc; start = λ _. start; trail = trail })

pub format_line-Formatted :
    (t : Text)
    → Inline t
    → starts_with (codes " ") t ≡ false
    → ends_space t ≡ false
    → Formatted (format_line [] t) t
unfolding format_line
format_line-Formatted t plain start trail =
    if_split (λ out. Formatted out t) (ltb 78 (byte_len [] + byte_len t))
      (λ _. format_line_flowed-Formatted t plain start trail)
      λ _.
        if_split (λ stuffing. Formatted ([] ++ stuffing ++ t) t)
          (is_empty [] && starts_with (codes ">") t)
          (λ quoted. (
            (space ∷ t) ∷ [],
            space ∷ t,
            without-Lacks return (space ∷ t) (omega arith, plain.1),
            ap (λ u. newline ∷ space ∷ u) (sym (append-nil t)),
            last refl trail (omega arith, plain.0),
          ))
          (λ _. (
            t ∷ [],
            t,
            without-Lacks return t plain.1,
            ap (newline ∷◌) (sym (append-nil t)),
            last (unstuff-start t start) trail plain.0,
          ))

-- A character before a trimmed text.
abbrev trim_cons : ℕ → Text → Text
trim_cons c rest = elim rest [ [] ↦ if is_whitespace c then [] else c ∷ [] | d ∷ t ↦ c ∷ d ∷ t ]

trim_cons-ends_space :
    (c : ℕ) (rest : Text) → ends_space rest ≡ false → ends_space (trim_cons c rest) ≡ false
trim_cons-ends_space c [] h = ground arith
trim_cons-ends_space c (d ∷ t) h = h

trim_cons-Lacks : (b c : ℕ) (rest : Text) → c ≢ b → Lacks b rest → Lacks b (trim_cons c rest)
trim_cons-Lacks b c [] hc h = if_both (Lacks b) (is_whitespace c) tt (hc, tt)
trim_cons-Lacks b c (d ∷ t) hc h = (hc, h)

trim_cons-start :
    (c : ℕ) (rest : Text) → (32 == c) ≡ false → starts_with (codes " ") (trim_cons c rest) ≡ false
trim_cons-start c [] h = ground arith
trim_cons-start c (d ∷ t) h = rw h refl

pub trim_end-ends_space : (l : Text) → ends_space (trim_end l) ≡ false
trim_end-ends_space [] = refl
trim_end-ends_space (c ∷ l) = trim_cons-ends_space c (trim_end l) (trim_end-ends_space l)

pub trim_end-Lacks : (b : ℕ) (l : Text) → Lacks b l → Lacks b (trim_end l)
trim_end-Lacks b [] h = tt
trim_end-Lacks b (c ∷ l) (hc, h) = trim_cons-Lacks b c (trim_end l) hc (trim_end-Lacks b l h)

pub trim_end-start :
    (l : Text) → starts_with (codes " ") l ≡ false → starts_with (codes " ") (trim_end l) ≡ false
trim_end-start [] h = refl
trim_end-start (c ∷ l) h = trim_cons-start c (trim_end l) (ground arith)
