-- ===== src/Simplify/Chat.antt =====
-- simplify.rs: what `simplify` leaves of a chat message.
use juttmy_core.Prelude.{
  split-parts, All-both, ℕ, zero, suc, ◌+◌, ◌==◌, Text, without, Lacks, All, List, Bool, true,
  false, ◌∷◌, [], if_both, if_split, drop, take, option_split, Option, ◌≡◌, ◌++◌, inl, inr, none,
}
use juttmy_core.Simplify.{
  zwsp, newline, split_lines, skip_forward_header, remove_top_quote, remove_message_footer,
  simplify, is_forwarded, top_scan,
}
use juttmy_core.Simplify.Marks.{Unmarked, Cuts, at_mark, at_bare, whole}
use juttmy_core.Simplify.Cutting.{remove_message_footer-Cuts}
use juttmy_core.Simplify.Shown.{solid, render_message-solid}
use juttmy_core.Simplify.Rendering.{Plain, render_message-lines}

Lacks-without_other : (b c : ℕ) (s : Text) → Lacks b s → Lacks b (without c s)
Lacks-without_other b c [] h = tt
Lacks-without_other b c (d ∷ s) (hd, h) =
    if_both (Lacks b) (d == c) (Lacks-without_other b c s h) (hd, Lacks-without_other b c s h)

module _ (P : Text → Type 0) where
  All-drop : (n : ℕ) (lines : List Text) → All P lines → All P (drop n lines)
  All-drop zero lines h = h
  All-drop (suc n) [] h = tt
  All-drop (suc n) (line ∷ lines) (h, hs) = All-drop n lines hs

  All-take : (n : ℕ) (lines : List Text) → All P lines → All P (take n lines)
  All-take zero lines h = tt
  All-take (suc n) [] h = tt
  All-take (suc n) (line ∷ lines) (h, hs) = (h, All-take n lines hs)

  All-before : (a b : List Text) → All P (a ++ b) → All P a
  All-before [] b h = tt
  All-before (line ∷ a) b (h, hs) = (h, All-before a b hs)

  skip_forward_header-All : (lines : List Text) → All P lines → All P (skip_forward_header lines).0
  unfolding skip_forward_header
  skip_forward_header-All (a ∷ b ∷ c ∷ rest) (ha, (hb, (hc, h))) =
      if_split (λ (r : List Text × Bool). All P r.0) (is_forwarded a b c) (λ _. h)
        (λ _. (ha, (hb, (hc, h))))
  skip_forward_header-All (a ∷ b ∷ []) h = h
  skip_forward_header-All (a ∷ []) h = h
  skip_forward_header-All [] h = h

  remove_top_quote-All : (lines : List Text) → All P lines → All P (remove_top_quote lines).0
  unfolding remove_top_quote
  remove_top_quote-All lines h =
      option_split (λ (r : List Text × Option Text). All P r.0) (top_scan lines 0 0 none false).1
        (λ _. h) λ last _. All-drop (last + 1) lines h

Unmarked-Cuts : {lines kept : List Text} → Cuts lines kept → All Unmarked kept
Unmarked-Cuts (at_mark above mark below _ plain) = plain
Unmarked-Cuts {lines = lines} (at_bare n plain _ _) = All-take Unmarked n lines plain
Unmarked-Cuts (whole plain _) = plain

All-Cuts : (P : Text → Type 0) {lines kept : List Text} → Cuts lines kept → All P lines → All P kept
All-Cuts P (at_mark above mark below _ _) h = All-before P above (mark ∷ below) h
All-Cuts P {lines = lines} (at_bare n _ _ _) h = All-take P n lines h
All-Cuts P (whole _ _) h = h

-- The lines of a message behind the header of a forwarded message and the quote at the top.
abbrev pub body : Text → List Text
body s = (remove_top_quote (skip_forward_header (split_lines (without 13 s))).0).0

body-Plain : (s : Text) → Lacks zwsp s → All Plain (body s)
body-Plain s h =
    let all = split_lines (without 13 s) in
    remove_top_quote-All Plain (skip_forward_header all).0 (
      skip_forward_header-All Plain all
        (split-parts newline zwsp (without 13 s) (Lacks-without_other zwsp 13 s h)))

-- Behind the header of a forwarded message and the quote at the top, a chat message is cut at the
-- first mark, which is a line of two dashes with one space or with two; where there is none, at the
-- last line of two dashes alone that has a line below that is not empty, and an empty line or none
-- above; where there is no such line either, it is not cut. Of the lines above the cut, those that
-- hold more than spaces and control characters are shown, unchanged and in their order, with only
-- blank lines between them; no mark is shown. The text is one without a zero width space, which
-- rendering deletes.
pub simplify-Cuts :
    (s : Text)
    → Lacks zwsp s
    → (kept : List Text) × Cuts (body s) kept
      × (solid (split_lines (simplify s true).0) ≡ solid kept)
      × All Unmarked (split_lines (simplify s true).0)
unfolding simplify
simplify-Cuts s h =
    let kept = remove_message_footer (body s) in
    let cuts = remove_message_footer-Cuts (body s) in
    let plain = All-Cuts Plain cuts (body-Plain s h) in
    let bare : Unmarked [] = λ mark. elim mark [ inl e ↦ cc | inr e ↦ cc ] in
    (
      kept,
      cuts,
      render_message-solid kept plain,
      render_message-lines Unmarked bare kept
          (All-both Unmarked Plain kept (Unmarked-Cuts cuts) plain),
    )
