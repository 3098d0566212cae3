-- ===== src/FormatFlowed/Breaking.antt =====
-- format_flowed.rs: `format_line_flowed` breaks a line into lines that stand for it.
use juttmy_core.Prelude.{
  ℕ, Text, codes, starts_with, is_empty, without, without-Lacks, Lacks-append, ◌≡◌, ◌≢◌, refl, Bool,
  true, false, ◌∷◌, [], ◌++◌, arith, if◌then◌else◌, if_split, sym, ap, ◌∙◌, append_assoc,
  append-nil, ◌==◌,
}
use juttmy_core.FormatFlowed.{
  newline, return, space, quote, crlf, unstuff, Flow, breaks, flow_char, flow_chars,
}
use juttmy_core.FormatFlowed.Lines.{ends_space, last}
use juttmy_core.FormatFlowed.Buffer.{
  without-append, unstuff-append, unstuff_char, ends_space-append, Inline, Ready, Broken, pushed,
  flushed,
}

Inline-push : (s : Text) (c : ℕ) → Inline s → c ≢ newline → c ≢ return → Inline (s ++ c ∷ [])
Inline-push s c (nl, cr) n r =
    (Lacks-append newline s (c ∷ []) nl (n, tt), Lacks-append return s (c ∷ []) cr (r, tt))

push-nonempty : (s : Text) (c : ℕ) → s ++ c ∷ [] ≢ []
push-nonempty [] c e = cc
push-nonempty (d ∷ s) c e = cc

unstuff_push :
    (s : Text) (c : ℕ) → (c == space) ≡ false → unstuff (s ++ c ∷ []) ≡ unstuff s ++ c ∷ []
unstuff_push [] c h = unstuff_char c h
unstuff_push (d ∷ s) c h = unstuff-append (d ∷ s) c λ e. cc

-- The buffer before ">" is pushed.
abbrev stuffed : Text → Text
stuffed b = if is_empty b then space ∷ [] else b

stuffed-Inline : (b : Text) → Inline b → Inline (stuffed b)
stuffed-Inline [] h = ((omega arith, tt), (omega arith, tt))
stuffed-Inline (d ∷ b) h = h

unstuff-stuffed : (b : Text) (c : ℕ) → unstuff (stuffed b ++ c ∷ []) ≡ unstuff b ++ c ∷ []
unstuff-stuffed [] c = refl
unstuff-stuffed (d ∷ b) c = unstuff-append (d ∷ b) c λ e. cc

ends_space-unstuff : (s : Text) → ends_space s ≡ false → ends_space (unstuff s) ≡ false
ends_space-unstuff [] h = refl
ends_space-unstuff (c ∷ []) h = ground arith
ends_space-unstuff (c ∷ d ∷ s) h = ground arith

-- The state behind a character that was pushed to `b`.
ready :
    (r b : Text) (a : Bool) (c : ℕ) (line : Text)
    → Inline b
    → c ≢ newline
    → c ≢ return
    → (a ≡ true → (u : Text) × (unstuff (b ++ c ∷ []) ≡ u ++ space ∷ []))
    → ends_space (c ∷ line) ≡ false
    → Ready (record { result = r; buffer = b ++ c ∷ []; after_space = a }) line
ready r b a c line plain nl cr after trail = record {
  plain = Inline-push b c plain nl cr;
  after = after;
  start = λ e. elim (push-nonempty b c e) [ ];
  trail = ap ends_space (append_assoc b (c ∷ []) line) ∙ ends_space-append b c line ∙ trail;
}

space_start :
    (b : Text) (c : ℕ) (line : Text)
    → (b ≡ [] → starts_with (codes " ") (c ∷ line) ≡ false)
    → (c == space) ≡ true
    → b ≢ []
space_start b c line h sp e = ground (arith, h e)

-- The loop breaks the text in the buffer and before it into lines that stand for it.
pub flow_chars-Flows :
    (line : Text) (f : Flow)
    → Inline line
    → Ready f line
    → Broken f (without return f.result) line (unstuff f.buffer ++ line)
unfolding flow_chars flow_char
flow_chars-Flows [] f plain w = (
  f.buffer ∷ [],
  f.buffer,
  without-append return f.result f.buffer
      ∙ ap (without return f.result ++◌) (without-Lacks return f.buffer w.plain.1),
  ap (newline ∷◌) (sym (append-nil f.buffer)),
  last (sym (append-nil (unstuff f.buffer)))
      (ap ends_space (append-nil (unstuff f.buffer))
        ∙ ends_space-unstuff f.buffer (ap ends_space (sym (append-nil f.buffer)) ∙ w.trail))
      w.plain.0,
)
flow_chars-Flows (c ∷ line) f ((nl, nls), (cr, crs)) w =
    let Goal : Flow → Type 0 =
      λ g. Broken g (without return f.result) line (unstuff f.buffer ++ c ∷ line) in
    let trail = sym (ends_space-append f.buffer c line) ∙ w.trail in
    let next = λ (g : Flow) (h : Ready g line). flow_chars-Flows line g (nls, crs) h in
    let pushed_char : Text → Bool → Flow =
      λ b a. record { result = f.result; buffer = b ++ c ∷ []; after_space = a } in
    if_split Goal (c == space)
      (λ sp.
        let e = unstuff-append f.buffer c (space_start f.buffer c line w.start sp) in
        pushed f.result f.buffer f.after_space (f.buffer ++ c ∷ []) true c line e (
          next (pushed_char f.buffer true) (
            ready f.result f.buffer true c line w.plain nl cr
              (λ _. (unstuff f.buffer, e ∙ ap (λ d. unstuff f.buffer ++ d ∷ []) (ground arith)))
              trail)))
      λ not_space.
        if_split Goal (c == quote)
          (λ q.
            let b = stuffed f.buffer in
            pushed f.result f.buffer f.after_space (b ++ c ∷ []) false c line
              (unstuff-stuffed f.buffer c)
              (next (pushed_char b false) (
                ready f.result b false c line (stuffed-Inline f.buffer w.plain) nl cr (λ e. cc)
                  trail)))
          λ not_quote.
            if_split Goal (breaks f c)
              (λ br.
                let (u, e) = w.after (ground arith) in
                flushed f.result f.buffer c line u w.plain e not_space (
                  next _ (
                    ready (f.result ++ f.buffer ++ crlf) [] false c line (tt, tt) nl cr (λ e. cc)
                      trail)))
              λ go.
                pushed f.result f.buffer f.after_space (f.buffer ++ c ∷ []) false c line
                  (unstuff_push f.buffer c not_space)
                  (next (pushed_char f.buffer false)
                    (ready f.result f.buffer false c line w.plain nl cr (λ e. cc) trail))
