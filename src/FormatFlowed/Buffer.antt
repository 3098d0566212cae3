-- ===== src/FormatFlowed/Buffer.antt =====
-- format_flowed.rs: the buffer of `format_line_flowed`, and the lines it becomes.
use juttmy_core.Prelude.{
  ℕ, Text, codes, starts_with, without, without-Lacks, Lacks, List, ◌≡◌, ◌≢◌, refl, Bool, true,
  false, ◌∷◌, [], ◌++◌, arith, if◌then◌else◌, if_split, subst, ap, ◌∙◌, append_assoc, ◌==◌,
  list_laws,
}
use juttmy_core.FormatFlowed.{newline, return, space, crlf, unstuff, Flow, flow_chars}
use juttmy_core.FormatFlowed.Lines.{ends_space, Flows, soft, tail_lines}

pub without-append : (b : ℕ) (s t : Text) → without b (s ++ t) ≡ without b s ++ without b t
without-append b [] t = refl
without-append b (c ∷ s) t =
    if_split
      (λ u. (if c == b then without b (s ++ t) else c ∷ without b (s ++ t)) ≡ u ++ without b t)
      (c == b) (λ at. rw (at) (without-append b s t)) (λ past. rw (past, without-append b s t) refl)

pub unstuff-append : (s : Text) (c : ℕ) → s ≢ [] → unstuff (s ++ c ∷ []) ≡ unstuff s ++ c ∷ []
unstuff-append [] c h = ground (arith, h)
unstuff-append (d ∷ s) c h = ground arith

pub unstuff_char : (c : ℕ) → (c == space) ≡ false → unstuff (c ∷ []) ≡ c ∷ []
unstuff_char c h = ground arith

pub ends_space-append : (s : Text) (c : ℕ) (t : Text) → ends_space (s ++ c ∷ t) ≡ ends_space (c ∷ t)
ends_space-append [] c t = refl
ends_space-append (d ∷ []) c t = refl
ends_space-append (d ∷ e ∷ s) c t = ends_space-append (e ∷ s) c t

-- Text that may stand in a line.
abbrev pub Inline : Text → Type 0
Inline s = Lacks newline s × Lacks return s

-- The loop before the characters `line`.
pub record Ready (f : Flow) (line : Text) : Type 0 where
  pub plain : Inline f.buffer
  pub after : f.after_space ≡ true → (u : Text) × (unstuff f.buffer ≡ u ++ space ∷ [])
  pub start : f.buffer ≡ [] → starts_with (codes " ") line ≡ false
  pub trail : ends_space (f.buffer ++ line) ≡ false

abbrev pub written : Flow → Text → Text
written f line = (flow_chars [] f line).result ++ (flow_chars [] f line).buffer

-- The loop ends with `from` and lines that stand for `t`.
abbrev pub Broken : Flow → Text → Text → Text → Type 0
Broken f from line t =
    (segs : List Text) × (s : Text) × (without return (written f line) ≡ from ++ s)
    × (newline ∷ s ≡ tail_lines segs)
    × Flows segs t

-- A character is pushed to the buffer, or put behind a stuffed space.
pub pushed :
    (r b : Text) (a : Bool) (b' : Text) (a' : Bool) (c : ℕ) (line : Text)
    → unstuff b' ≡ unstuff b ++ c ∷ []
    → Broken
        (record { result = r; buffer = b'; after_space = a' })
        (without return r)
        line
        (unstuff b' ++ line)
    → Broken
        (record { result = r; buffer = b'; after_space = a' })
        (without return r)
        line
        (unstuff b ++ c ∷ line)
pushed r b a b' a' c line e x =
    subst (Broken (record { result = r; buffer = b'; after_space = a' }) (without return r) line)
      (ap (λ u. u ++ line) e ∙ append_assoc (unstuff b) (c ∷ []) line) x

-- The buffer becomes a line.
pub flushed :
    (r b : Text) (c : ℕ) (line u : Text)
    → Inline b
    → unstuff b ≡ u ++ space ∷ []
    → (c == space) ≡ false
    → Broken
        (record { result = r ++ b ++ crlf; buffer = c ∷ []; after_space = false })
        (without return (r ++ b ++ crlf))
        line
        (unstuff (c ∷ []) ++ line)
    → Broken
        (record { result = r ++ b ++ crlf; buffer = c ∷ []; after_space = false })
        (without return r)
        line
        (unstuff b ++ c ∷ line)
flushed r b c line u (nl, cr) eu e (segs, s, written, ended, flows) = (
  b ∷ segs,
  b ++ newline ∷ s,
  written
      ∙ ap (λ t. t ++ s)
          (without-append return (r ++ b) crlf
            ∙ ap (λ t. t ++ newline ∷ [])
                (without-append return r b ∙ ap (without return r ++◌) (without-Lacks return b cr)))
      ∙ simp list_laws,
  ap (λ t. newline ∷ b ++ t) ended,
  flow segs ended flows,
)
  where
    flow :
        (segs : List Text)
        → newline ∷ s ≡ tail_lines segs
        → Flows segs (unstuff (c ∷ []) ++ line)
        → Flows (b ∷ segs) (unstuff b ++ c ∷ line)
    flow [] ended flows = cc
    flow (next ∷ more) ended flows =
        soft u (c ∷ line) eu (ap (λ t. t ++ c ∷ line) eu) nl
          (subst (λ t. Flows (next ∷ more) (t ++ line)) (unstuff_char c e) flows)
