-- ===== src/Simplify/Tests.antt =====
-- Runs of the simplification, on the examples of the tests of simplify.rs, and its theorems at
-- concrete inputs.
use juttmy_core.Prelude.{
  Text, codes, without, All, List, ◌≡◌, refl, true, false, ◌∷◌, arith, none, some,
}
use juttmy_core.Simplify.{
  zwsp, newline, dash, split_lines, skip_forward_header, remove_top_quote, remove_bottom_quote,
  top_scan, remove_message_footer, scan_footer, remove_nonstandard_footer, simplify, render_message,
  render_lines, render_line, escape_message_footer_marks, replace_marks,
}
use juttmy_core.Simplify.Escaping.{without-escape_message_footer_marks}
use juttmy_core.Simplify.Marks.{Unmarked, Cuts}
use juttmy_core.Simplify.Shown.{solid}
use juttmy_core.Simplify.Footer.{remove_message_footer-escape_message_footer_marks}
use juttmy_core.Simplify.Chat.{body, simplify-Cuts}

abbrev signed_mail : Text
signed_mail = codes "Hi\n> a\n\n-- \nme"

abbrev marked_text : Text
marked_text = codes "--\n--text --in line"

simplify-signed_mail : simplify signed_mail true ≡ (codes "Hi\n> a", false, none)
unfolding simplify skip_forward_header remove_top_quote top_scan remove_message_footer scan_footer
    render_message render_lines render_line
simplify-signed_mail = refl

simplify-quoted_mail : simplify signed_mail false ≡ (codes "Hi", false, some (codes "a"))
unfolding simplify skip_forward_header remove_top_quote top_scan remove_message_footer scan_footer
    render_message render_lines render_line remove_bottom_quote remove_nonstandard_footer
simplify-quoted_mail = refl

simplify-sijus :
    simplify (codes "Message text here\n---Desde\n\nQuote here") false
    ≡ (codes "Message text here [...]", false, none)
unfolding simplify skip_forward_header remove_top_quote top_scan remove_message_footer scan_footer
    render_message render_lines render_line remove_bottom_quote remove_nonstandard_footer
simplify-sijus = refl

escape-marked_text :
    escape_message_footer_marks marked_text
    ≡ dash ∷ zwsp ∷ dash ∷ newline ∷ dash ∷ zwsp ∷ dash ∷ codes "text --in line"
unfolding escape_message_footer_marks replace_marks
escape-marked_text = refl

without-escape_message_footer_marks_example :
    without zwsp (escape_message_footer_marks (codes "--\na")) ≡ codes "--\na"
without-escape_message_footer_marks_example =
    without-escape_message_footer_marks (codes "--\na")
      (omega arith, (omega arith, (omega arith, (omega arith, tt))))

remove_message_footer-escape_message_footer_marks_example :
    remove_message_footer (split_lines (escape_message_footer_marks marked_text))
    ≡ split_lines (escape_message_footer_marks marked_text)
remove_message_footer-escape_message_footer_marks_example =
    remove_message_footer-escape_message_footer_marks marked_text

simplify-Cuts_example :
    (kept : List Text) × Cuts (body (codes "a\n-- ")) kept
    × (solid (split_lines (simplify (codes "a\n-- ") true).0) ≡ solid kept)
    × All Unmarked (split_lines (simplify (codes "a\n-- ") true).0)
simplify-Cuts_example =
    simplify-Cuts (codes "a\n-- ")
      (omega arith, (omega arith, (omega arith, (omega arith, (omega arith, tt)))))
