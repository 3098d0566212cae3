-- ===== src/Simplify/Shown.antt =====
-- simplify.rs: which lines `render_message` writes.
use juttmy_core.Prelude.{
  ℕ, zero, suc, ◌≤◌, Text, leb, without-Lacks, split-append, split-Lacks, Lacks, All, List, ◌≡◌,
  refl, Bool, true, false, ◌&&◌, ◌∷◌, [], ◌++◌, arith, if◌then◌else◌, sym, ap, ◌∙◌, append_assoc,
  append-nil, Bool-cases, inl, inr, All-both,
}
use Prim.Native.Nat.{min}
use juttmy_core.Simplify.{
  newline, zwsp, Rendered, linebreaks, render_line, render_lines, render_message, split_lines,
  is_empty_line,
}
use juttmy_core.Simplify.Rendering.{Plain, Line, Written, render_line-Written, render_lines-Written}

-- Does a line hold nothing but spaces and control characters?
abbrev pub is_blank : Text → Bool
is_blank [] = true
is_blank (c ∷ line) = leb c 32 && is_blank line

-- The lines that are not blank.
abbrev pub solid : List Text → List Text
solid [] = []
solid (line ∷ lines) = if is_blank line then solid lines else line ∷ solid lines

is_empty_line_lem : (line : Text) → is_empty_line line ≡ is_blank line
is_empty_line_lem [] = refl
is_empty_line_lem (c ∷ line) = ground (arith, is_empty_line_lem line)

solid-append : (a b : List Text) → solid (a ++ b) ≡ solid a ++ solid b
solid-append [] b = refl
solid-append (line ∷ a) b = elim (Bool-cases (is_blank line)) [
  | inl blank ↦ rw blank (solid-append a b)
  | inr full ↦ rw full (ap (◌∷◌ line) (solid-append a b))
]

-- Line breaks and a line.
solid-linebreaks :
    (n : ℕ) (line : Text)
    → Lacks newline line
    → solid (split_lines (linebreaks n ++ line)) ≡ solid (line ∷ [])
solid-linebreaks zero line plain = ap solid (split-Lacks newline line plain)
solid-linebreaks (suc n) line plain = solid-linebreaks n line plain

solid-more :
    (s : Text) (breaks : ℕ) (line : Text)
    → 1 ≤ breaks
    → Lacks newline line
    → solid (split_lines ((s ++ linebreaks breaks) ++ line))
      ≡ solid (split_lines s) ++ solid (line ∷ [])
solid-more s zero line some_break plain = ground (arith, some_break)
solid-more s (suc n) line some_break plain =
    ap (λ t. solid (split_lines t)) (append_assoc s (linebreaks (suc n)) line)
    ∙ ap solid (split-append newline s (linebreaks n ++ line))
    ∙ solid-append (split_lines s) (split_lines (linebreaks n ++ line))
    ∙ ap (λ l. solid (split_lines s) ++ l) (solid-linebreaks n line plain)

abbrev Any : Text → Type 0
Any line = Unit

-- What a line adds to the lines that are not blank.
render_line-solid :
    (r : Rendered) (line : Text)
    → Written Any tt r
    → Lacks newline line
    → solid (split_lines (render_line r line).ret) ≡ solid (split_lines r.ret) ++ solid (line ∷ [])
unfolding render_line
render_line-solid r line w plain =
    let same = is_empty_line_lem line in
    elim (Bool-cases (is_empty_line line)) [
      | inl blank ↦ rw (blank, sym same ∙ blank) (sym (append-nil (solid (split_lines r.ret))))
      | inr full ↦ rw full (elim (Bool-cases r.empty_body) [
        | inl empty ↦ rw (empty, w.start empty) (ap solid (split-Lacks newline line plain))
        | inr some_text ↦ rw some_text (
            solid-more r.ret (min r.pending_linebreaks 2) line (omega (arith, w.breaks some_text))
              plain)
      ])
    ]

render_lines-solid :
    (r : Rendered) (lines : List Text)
    → Written Any tt r
    → All (Line Any tt) lines
    → solid (split_lines (render_lines r lines).ret) ≡ solid (split_lines r.ret) ++ solid lines
unfolding render_lines
render_lines-solid r [] w h = sym (append-nil (solid (split_lines r.ret)))
render_lines-solid r (line ∷ lines) w ((_, (plain, clean)), h) =
    render_lines-solid (render_line r line) lines
      (render_line-Written Any tt r line w tt plain clean) h
    ∙ ap (λ l. l ++ solid lines) (render_line-solid r line w plain)
    ∙ append_assoc (solid (split_lines r.ret)) (solid (line ∷ [])) (solid lines)
    ∙ ap (λ l. solid (split_lines r.ret) ++ l) (sym (solid-append (line ∷ []) lines))

All-Any : (lines : List Text) → All Any lines
All-Any [] = tt
All-Any (line ∷ lines) = (tt, All-Any lines)

-- The lines that are not blank are written as they are, in their order, and nothing else.
pub render_message-solid :
    (lines : List Text)
    → All Plain lines
    → solid (split_lines (render_message lines false)) ≡ solid lines
unfolding render_message
render_message-solid lines h =
    let start : Rendered = record { ret = []; pending_linebreaks = 0; empty_body = true } in
    let begun : Written Any tt start = record {
      lines = (tt, tt);
      plain = tt;
      start = λ _. refl;
      breaks = λ e. cc;
    } in
    let plain = All-both Any Plain lines (All-Any lines) h in
    let done = render_lines-Written Any tt start lines begun plain in
    ap (λ t. solid (split_lines t)) (without-Lacks zwsp (render_lines start lines).ret done.plain)
    ∙ render_lines-solid start lines begun plain
