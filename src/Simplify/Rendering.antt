-- ===== src/Simplify/Rendering.antt =====
-- simplify.rs: the lines of what `render_message` writes.
use juttmy_core.Prelude.{
  ℕ, zero, suc, ◌≤◌, Text, without-Lacks, split-append, split-Lacks, Lacks, Lacks-append, All,
  All-append, List, ◌≡◌, refl, true, false, ◌∷◌, [], ◌++◌, arith, if_both, if_split, subst, sym,
  append_assoc,
}
use Prim.Native.Nat.{min}
use juttmy_core.Simplify.{
  zwsp, newline, Rendered, linebreaks, render_line, render_lines, render_message, split_lines,
  is_empty_line,
}

-- What is asked of a line: no character that a line does not hold or that the rendering deletes.
abbrev pub Plain : Text → Type 0
Plain line = Lacks newline line × Lacks zwsp line

module _ (P : Text → Type 0) (blank : P []) where
  -- The state of the loop: what is written has only lines with the property, and nothing is
  -- written, or a line break is pending.
  pub record Written (r : Rendered) : Type 0 where
    pub lines : All P (split_lines r.ret)
    pub plain : Lacks zwsp r.ret
    pub start : r.empty_body ≡ true → r.ret ≡ []
    pub breaks : r.empty_body ≡ false → 1 ≤ r.pending_linebreaks

  lines-append :
      (s t : Text)
      → All P (split_lines s)
      → All P (split_lines t)
      → All P (split_lines (s ++ newline ∷ t))
  lines-append s t hs ht =
      subst (All P) (sym (split-append newline s t))
        (All-append P (split_lines s) (split_lines t) hs ht)

  -- Line breaks and a line.
  lines-linebreaks :
      (n : ℕ) (line : Text)
      → P line
      → Lacks newline line
      → All P (split_lines (linebreaks n ++ line))
  lines-linebreaks zero line p plain = subst (All P) (sym (split-Lacks newline line plain)) (p, tt)
  lines-linebreaks (suc n) line p plain = (blank, lines-linebreaks n line p plain)

  linebreaks-Lacks : (n : ℕ) → Lacks zwsp (linebreaks n)
  linebreaks-Lacks zero = tt
  linebreaks-Lacks (suc n) = (omega arith, linebreaks-Lacks n)

  lines-more :
      (s : Text) (breaks : ℕ) (line : Text)
      → 1 ≤ breaks
      → All P (split_lines s)
      → P line
      → Lacks newline line
      → All P (split_lines ((s ++ linebreaks breaks) ++ line))
  lines-more s zero line some_break h p plain = ground (arith, some_break)
  lines-more s (suc n) line some_break h p plain =
      subst (λ t. All P (split_lines t)) (sym (append_assoc s (linebreaks (suc n)) line))
        (lines-append s (linebreaks n ++ line) h (lines-linebreaks n line p plain))

  text_Written :
      (ret line : Text)
      → All P (split_lines (ret ++ line))
      → Lacks zwsp ret
      → Lacks zwsp line
      → Written (record { ret = ret ++ line; pending_linebreaks = 1; empty_body = false })
  text_Written ret line lines plain clean = record {
    lines = lines;
    plain = Lacks-append zwsp ret line plain clean;
    start = λ e. cc;
    breaks = λ _. omega arith;
  }

  pub render_line-Written :
      (r : Rendered) (line : Text)
      → Written r
      → P line
      → Lacks newline line
      → Lacks zwsp line
      → Written (render_line r line)
  unfolding render_line
  render_line-Written r line w p plain clean =
      if_both Written (is_empty_line line)
        (record { lines = w.lines; plain = w.plain; start = w.start; breaks = λ _. omega arith })
        (if_split
          (λ (ret : Text).
            Written (record { ret = ret ++ line; pending_linebreaks = 1; empty_body = false }))
          r.empty_body
          (λ empty.
            text_Written r.ret line
              (subst (λ ret. All P (split_lines (ret ++ line))) (sym (w.start empty))
                (subst (All P) (sym (split-Lacks newline line plain)) (p, tt)))
              w.plain clean)
          (λ full.
            let breaks = min r.pending_linebreaks 2 in
            text_Written (r.ret ++ linebreaks breaks) line
              (lines-more r.ret breaks line (omega (arith, w.breaks full)) w.lines p plain)
              (Lacks-append zwsp r.ret (linebreaks breaks) w.plain (linebreaks-Lacks breaks))
              clean))

  abbrev pub Line : Text → Type 0
  Line line = P line × Plain line

  pub render_lines-Written :
      (r : Rendered) (lines : List Text)
      → Written r
      → All Line lines
      → Written (render_lines r lines)
  unfolding render_lines
  render_lines-Written r [] w h = w
  render_lines-Written r (line ∷ lines) w ((p, (plain, clean)), h) =
      render_lines-Written (render_line r line) lines (render_line-Written r line w p plain clean) h

  pub render_message-lines :
      (lines : List Text) → All Line lines → All P (split_lines (render_message lines false))
  unfolding render_message
  render_message-lines lines h =
      let start : Rendered = record { ret = []; pending_linebreaks = 0; empty_body = true } in
      let done =
        render_lines-Written start lines
          (record { lines = (blank, tt); plain = tt; start = λ _. refl; breaks = λ e. cc }) h in
      subst (λ t. All P (split_lines t))
        (sym (without-Lacks zwsp (render_lines start lines).ret done.plain)) done.lines
