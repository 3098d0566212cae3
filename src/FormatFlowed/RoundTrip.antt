-- ===== src/FormatFlowed/RoundTrip.antt =====
-- format_flowed.rs: a formatted text is read back.
use juttmy_core.Prelude.{
  Text, codes, starts_with, is_empty, trim_end, split, split-cons, split-parts, All-both, join,
  without, Lacks, All, All-append, List, map, ◌≡◌, ◌≢◌, refl, true, false, not, ◌∷◌, [], ◌++◌,
  if◌then◌else◌, subst, sym, ap, ◌∙◌, append_assoc, append-nil, list_laws,
}
use juttmy_core.FormatFlowed.{
  newline, return, crlf, format_line, format_lines, format_flowed, unformat_lines, unformat_flowed,
}
use juttmy_core.FormatFlowed.Lines.{
  tail_lines, tail_lines-append, split-tail_lines, Flows-Solid, Flows-nonempty,
  unformat_lines-Flows,
}
use juttmy_core.FormatFlowed.Buffer.{Inline, without-append}
use juttmy_core.FormatFlowed.Formatting.{
  Formatted, format_line-Formatted, trim_end-ends_space, trim_end-Lacks, trim_end-start,
}

-- A line of the text: no line ends, and no space at its start.
abbrev Unindented : Text → Type 0
Unindented l = starts_with (codes " ") l ≡ false

abbrev Sendable : Text → Type 0
Sendable l = Inline l × Unindented l

trim_end-Formatted : (l : Text) → Sendable l → Formatted (format_line [] (trim_end l)) (trim_end l)
trim_end-Formatted l ((nl, cr), start) =
    format_line-Formatted (trim_end l) (trim_end-Lacks newline l nl, trim_end-Lacks return l cr)
      (trim_end-start l start) (trim_end-ends_space l)

is_empty-append : (s t : Text) → is_empty s ≡ false → is_empty (s ++ t) ≡ false
is_empty-append [] t h = cc
is_empty-append (c ∷ s) t h = refl

-- The further lines: they are broken into lines that `unformat_lines` joins again.
abbrev Sent : Text → List Text → Type 0
Sent r ls =
    (segs : List Text) × (without return (format_lines [] r ls)
      ≡ without return r ++ tail_lines segs)
    × All (Lacks newline) segs
    × ((before : Text)
        → unformat_lines false before false segs ≡ before ++ tail_lines (map trim_end ls))

more_lines :
    (r s : Text) (segs : List Text) (out : Text)
    → without return out ≡ s
    → newline ∷ s ≡ tail_lines segs
    → without return (r ++ crlf ++ out) ≡ without return r ++ tail_lines segs
more_lines r s segs out e ended =
    without-append return (r ++ crlf) out
    ∙ ap (λ t. t ++ without return out) (without-append return r crlf)
    ∙ append_assoc (without return r) (newline ∷ []) (without return out)
    ∙ ap (λ t. without return r ++ newline ∷ t) e
    ∙ ap (without return r ++◌) ended

format_lines-Sent : (ls : List Text) (r : Text) → All Sendable ls → is_empty r ≡ false → Sent r ls
unfolding format_lines unformat_lines
format_lines-Sent [] r h full =
    ([], sym (append-nil (without return r)), tt, λ before. sym (append-nil before))
format_lines-Sent (l ∷ ls) r (h, hs) full =
    let t = trim_end l in
    let (segs, s, e, ended, flows) = trim_end-Formatted l h in
    let out = r ++ crlf ++ format_line [] t in
    let (more, e', solid, joined) =
      format_lines-Sent ls out hs
        (is_empty-append (r ++ crlf) (format_line [] t) (is_empty-append r crlf full)) in
    (
      segs ++ more,
      ap
            (λ full.
              without return
                (format_lines [] ((if not full then r ++ crlf else r) ++ format_line [] t) ls))
            full
          ∙ e'
          ∙ ap (λ w. w ++ tail_lines more) (more_lines r s segs (format_line [] t) e ended)
          ∙ append_assoc (without return r) (tail_lines segs) (tail_lines more)
          ∙ ap (without return r ++◌) (sym (tail_lines-append segs more)),
      All-append (Lacks newline) segs more (Flows-Solid segs t flows) solid,
      λ before.
          unformat_lines-Flows segs t more before false flows
          ∙ joined (before ++ newline ∷ [] ++ t)
          ∙ simp list_laws,
    )

join-tail_lines : (t : Text) (ts : List Text) → join (newline ∷ []) (t ∷ ts) ≡ t ++ tail_lines ts
join-tail_lines t [] = sym (append-nil t)
join-tail_lines t (u ∷ ts) =
    ap (λ w. t ++ newline ∷ [] ++ w) (join-tail_lines u ts)
    ∙ append_assoc t (newline ∷ []) (u ++ tail_lines ts)

nonempty : (out t : Text) → Formatted out t → t ≢ [] → is_empty out ≡ false
nonempty [] t (segs, s, e, ended, flows) h =
    elim (h (Flows-nonempty segs t s flows ended (sym e))) [ ]
nonempty (c ∷ out) t f h = refl

-- The lines of all that is sent for a text.
sent_lines :
    (segs more : List Text) (s : Text)
    → newline ∷ s ≡ tail_lines segs
    → All (Lacks newline) segs
    → All (Lacks newline) more
    → split newline (s ++ tail_lines more) ≡ segs ++ more
sent_lines [] more s ended h hs = cc
sent_lines (x ∷ xs) more s ended (hx, hxs) hs =
    let first : s ≡ x ++ tail_lines xs = cc in
    ap (λ w. split newline (w ++ tail_lines more)) first
    ∙ ap (split newline) (
        append_assoc x (tail_lines xs) (tail_lines more)
        ∙ ap (x ++◌) (sym (tail_lines-append xs more)))
    ∙ split-tail_lines x (xs ++ more) hx (All-append (Lacks newline) xs more hxs hs)

unformat-lines :
    (l : Text) (ls : List Text)
    → All Sendable (l ∷ ls)
    → trim_end l ≢ []
    → unformat_flowed (without return (format_lines [] [] (l ∷ ls))) false
      ≡ join (newline ∷ []) (map trim_end (l ∷ ls))
unfolding format_lines
unformat-lines l ls (h, hs) start =
    let t = trim_end l in
    let f = trim_end-Formatted l h in
    let (segs, s, e, ended, flows) = f in
    let (more, e', solid, joined) =
      format_lines-Sent ls (format_line [] t) hs (nonempty (format_line [] t) t f start) in
    ap (λ w. unformat_flowed w false) (e' ∙ ap (λ w. w ++ tail_lines more) e)
    ∙ ap (unformat_lines false [] true)
        (sent_lines segs more s ended (Flows-Solid segs t flows) solid)
    ∙ unformat_lines-Flows segs t more [] true flows
    ∙ joined t
    ∙ sym (join-tail_lines t (map trim_end ls))

-- The first line of a text is not blank.
abbrev pub Starts : List Text → Type 0
Starts [] = ⊥
Starts (l ∷ ls) = trim_end l ≢ []

-- Formatted text is read back: unformatting it, as it is received without carriage returns, gives
-- the text without the white space at the ends of its lines. The text has no carriage returns, no
-- line that begins with a space, and its first line is not blank.
pub unformat_flowed-format_flowed :
    (text : Text)
    → Lacks return text
    → All Unindented (split newline text)
    → Starts (split newline text)
    → unformat_flowed (without return (format_flowed text)) false
      ≡ join (newline ∷ []) (map trim_end (split newline text))
unformat_flowed-format_flowed text plain unindented start =
    let (l, ls, e) = split-cons newline text in
    let sendable =
      All-both Inline Unindented (split newline text) (split-parts newline return text plain)
        unindented in
    subst
      (λ lines.
        unformat_flowed (without return (format_lines [] [] lines)) false
        ≡ join (newline ∷ []) (map trim_end lines))
      (sym e) (unformat-lines l ls (subst (All Sendable) e sendable) (subst Starts e start))
