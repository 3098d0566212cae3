-- ===== src/Simplify/Footer.antt =====
-- simplify.rs: which lines `remove_message_footer` leaves.
use juttmy_core.Prelude.{
  ℕ, option_split, ◌+◌, Text, codes, text_eq, none, All, List, ◌≡◌, refl, false, ◌∷◌, [], arith,
}
use juttmy_core.Simplify.{
  is_footer_mark, scan_footer, remove_message_footer, split_lines, escape_message_footer_marks,
}
use juttmy_core.Simplify.Escaping.{Unmarked, escape-Unmarked}

abbrev Kept : Text → Type 0
Kept line = is_footer_mark line ≡ false

Unmarked-Kept : (line : Text) → Unmarked line → Kept line × (text_eq line (codes "--") ≡ false)
Unmarked-Kept [] h = (refl, refl)
Unmarked-Kept (c ∷ []) h = (ground arith, ground arith)
Unmarked-Kept (c ∷ d ∷ s) h = (ground arith, ground arith)

scan_footer-Unmarked :
    (lines : List Text) (ix : ℕ) (rest : List Text)
    → All Unmarked rest
    → scan_footer lines ix none rest ≡ none
unfolding scan_footer
scan_footer-Unmarked lines ix [] h = refl
scan_footer-Unmarked lines ix (line ∷ rest) (h, hs) =
    let (kept, bare) = Unmarked-Kept line h in
    rw (kept, bare) (scan_footer-Unmarked lines (ix + 1) rest hs)

whole :
    (lines : List Text)
    → scan_footer lines 0 none lines ≡ none
    → remove_message_footer lines ≡ lines
unfolding remove_message_footer
whole lines e =
    option_split (λ kept. kept ≡ lines) (scan_footer lines 0 none lines) (λ _. refl) (λ ix e'. cc)

-- In an escaped text no footer is found: all its lines stay.
pub remove_message_footer-escape_message_footer_marks :
    (s : Text)
    → remove_message_footer (split_lines (escape_message_footer_marks s))
      ≡ split_lines (escape_message_footer_marks s)
remove_message_footer-escape_message_footer_marks s =
    let lines = split_lines (escape_message_footer_marks s) in
    whole lines (scan_footer-Unmarked lines 0 lines (escape-Unmarked s))
