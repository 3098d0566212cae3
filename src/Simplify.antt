-- ===== src/Simplify.antt =====
-- simplify.rs: the text of a mail without forwarding header, quotes and footers, by its lines.
pub mod Escaping
pub mod Footer
pub mod Rendering
pub mod Shown
pub mod Marks
pub mod Cutting
pub mod Chat
pub mod Tests
use juttmy_core.Prelude.{
  ℕ, zero, suc, ◌+◌, ◌-◌, Text, codes, text_eq, starts_with, strip_prefix, is_empty, trim, byte_len,
  split, join, without, ltb, leb, ◌==◌, if◌then◌else◌, is_some, Bool, true, false, not, ◌&&◌, ◌||◌,
  Option, none, some, List, [], ◌∷◌, ◌++◌, map, length, take, drop,
}
use Prim.Native.Nat.{min}
use mathlib.Core.List.{reverse}

abbrev pub zwsp : ℕ
zwsp = 0x200B

abbrev pub newline : ℕ
newline = 10

abbrev pub dash : ℕ
dash = 45

-- `text.replace("\n--", "\n-\u{200B}-")`
unfoldable pub replace_marks : Text → Text
replace_marks (c ∷ d ∷ e ∷ s) = elim (c == newline && d == dash && e == dash) [
  | true ↦ newline ∷ dash ∷ zwsp ∷ dash ∷ replace_marks s
  | false ↦ c ∷ replace_marks (d ∷ e ∷ s)
]
replace_marks (c ∷ d ∷ []) = c ∷ d ∷ []
replace_marks (c ∷ []) = c ∷ []
replace_marks [] = []

unfoldable pub escape_message_footer_marks : Text → Text
escape_message_footer_marks text = elim (strip_prefix (codes "--") text) [
  | some rest ↦ dash ∷ zwsp ∷ dash ∷ replace_marks rest
  | none ↦ replace_marks text
]

-- `lines[ix]`, which is read at an index within the lines only.
abbrev pub line_at : ℕ → List Text → Option Text
line_at ix lines = elim (drop ix lines) [ [] ↦ none | line ∷ _ ↦ some line ]

abbrev pub holds : (Text → Bool) → Option Text → Bool
holds test none = false
holds test (some line) = test line

abbrev pub is_footer_mark : Text → Bool
is_footer_mark line = text_eq line (codes "-- ") || text_eq line (codes "--  ")

-- The condition under which "--" is nearly a standard footer.
abbrev pub nearly_standard : List Text → ℕ → Bool
nearly_standard lines ix =
    (ix == 0 || holds is_empty (line_at (ix - 1) lines))
    && not (ix == length lines - 1)
    && not (holds is_empty (line_at (ix + 1) lines))

-- The loop of `remove_message_footer`: the index of the footer.
unfoldable pub scan_footer : List Text → ℕ → Option ℕ → List Text → Option ℕ
scan_footer lines ix nearly [] = nearly
scan_footer lines ix nearly (line ∷ rest) =
    let more =
      scan_footer lines (ix + 1)
        (if text_eq line (codes "--") && nearly_standard lines ix then some ix else nearly) rest in
    if is_footer_mark line then some ix else more

unfoldable pub remove_message_footer : List Text → List Text
remove_message_footer lines = elim (scan_footer lines 0 none lines) [
  | none ↦ lines
  | some ix ↦ take ix lines
]

abbrev is_nonstandard_footer : Text → Bool
is_nonstandard_footer line =
    text_eq line (codes "--")
    || starts_with (codes "---") line
    || starts_with (codes "_____") line
    || starts_with (codes "=====") line
    || starts_with (codes "*****") line
    || starts_with (codes "~~~~~") line

unfoldable pub remove_nonstandard_footer : List Text → List Text × Bool
remove_nonstandard_footer [] = ([], false)
remove_nonstandard_footer (line ∷ lines) =
    let rest = remove_nonstandard_footer lines in
    if is_nonstandard_footer line then ([], true) else (line ∷ rest.0, rest.1)

abbrev pub split_lines : Text → List Text
split_lines buf = split newline buf

abbrev pub is_empty_line : Text → Bool
is_empty_line [] = true
is_empty_line (c ∷ buf) = not (ltb 32 c) && is_empty_line buf

abbrev ends_with_colon : Text → Bool
ends_with_colon [] = false
ends_with_colon (c ∷ []) = c == 58
ends_with_colon (c ∷ d ∷ buf) = ends_with_colon (d ∷ buf)

abbrev pub is_quoted_headline : Text → Bool
is_quoted_headline buf = leb (byte_len buf) 80 && ends_with_colon buf

abbrev pub is_plain_quote : Text → Bool
is_plain_quote buf = starts_with (codes ">") buf

-- The pattern of a forwarded message, and its guard.
abbrev pub is_forwarded : Text → Text → Text → Bool
is_forwarded title first_line blank =
    text_eq title (codes "---------- Forwarded message ----------")
    && is_empty blank
    && starts_with (codes "From: ") first_line

unfoldable pub skip_forward_header : List Text → List Text × Bool
skip_forward_header (title ∷ first_line ∷ blank ∷ rest) =
    if is_forwarded title first_line blank
    then (rest, true)
    else (title ∷ first_line ∷ blank ∷ rest, false)
skip_forward_header lines = (lines, false)

-- The text of a quoted line.
abbrev unquote : Text → Text
unquote s = elim (strip_prefix (codes ">") s) [
  | none ↦ s
  | some u ↦ elim (strip_prefix (codes " ") u) [ none ↦ u | some v ↦ v ]
]

abbrev quoted_text : List Text → Text
quoted_text lines = join (newline ∷ []) (map unquote lines)

-- The loop of `remove_bottom_quote`, on the lines from the last to the first: the line after the
-- quote, and the quote's first line.
bottom_scan : List Text → ℕ → Option ℕ → ℕ × Option ℕ
bottom_scan [] first last = (first, last)
bottom_scan (line ∷ above) first last =
    let more =
      bottom_scan above
        (if is_plain_quote line && not (is_some last) then length above + 1 else first)
        (if is_plain_quote line then some (length above) else last) in
    if is_plain_quote line || is_empty_line line then more else (first, last)

-- One line above the quote goes when it passes the test.
abbrev step_over : (Text → Bool) → List Text → ℕ → ℕ
step_over test lines l_last =
    if ltb 1 l_last && holds test (line_at (l_last - 1) lines) then l_last - 1 else l_last

unfoldable pub remove_bottom_quote : List Text → List Text × Option Text
unfolding bottom_scan
remove_bottom_quote lines =
    let (first, last) = bottom_scan (reverse lines) (length lines) none in
    elim last [
      | none ↦ (lines, none)
      | some l_last ↦ (
        take (step_over is_quoted_headline lines (step_over is_empty_line lines l_last)) lines,
        some (quoted_text (drop l_last (take first lines))),
      )
    ]

-- The loop of `remove_top_quote`: the quote's first and last line.
pub top_scan : List Text → ℕ → ℕ → Option ℕ → Bool → ℕ × Option ℕ
top_scan [] l first last headline = (first, last)
top_scan (line ∷ rest) l first last headline =
    let is_headline = is_quoted_headline line && not headline && not (is_some last) in
    let quote = is_plain_quote line in
    let more =
      top_scan rest (l + 1) (if quote && not (is_some last) then l else first)
        (if quote then some l else last)
        (headline || (not quote && not (is_empty_line line) && is_headline)) in
    if quote || is_empty_line line || is_headline then more else (first, last)

unfoldable pub remove_top_quote : List Text → List Text × Option Text
unfolding top_scan
remove_top_quote lines =
    let (first, found) = top_scan lines 0 0 none false in
    elim found [
      | none ↦ (lines, none)
      | some last ↦ (drop (last + 1) lines, some (quoted_text (drop first (take (last + 1) lines))))
    ]

-- What `render_message` has written, the line breaks that a further line brings, and whether no
-- line was written.
pub record Rendered : Type 0 where
  pub ret : Text
  pub pending_linebreaks : ℕ
  pub empty_body : Bool

abbrev pub linebreaks : ℕ → Text
linebreaks zero = []
linebreaks (suc n) = newline ∷ linebreaks n

unfoldable pub render_line : Rendered → Text → Rendered
render_line r line =
    if is_empty_line line
    then record r { pending_linebreaks = r.pending_linebreaks + 1 }
    else record {
      ret =
          (if r.empty_body then r.ret else r.ret ++ linebreaks (min r.pending_linebreaks 2))
          ++ line;
      pending_linebreaks = 1;
      empty_body = false;
    }

unfoldable pub render_lines : Rendered → List Text → Rendered
render_lines r [] = r
render_lines r (line ∷ lines) = render_lines (render_line r line) lines

unfoldable pub render_message : List Text → Bool → Text
render_message lines is_cut_at_end =
    let r = render_lines (record { ret = []; pending_linebreaks = 0; empty_body = true }) lines in
    without zwsp (if is_cut_at_end && not r.empty_body then r.ret ++ codes " [...]" else r.ret)

abbrev all_blank : List Text → Bool
all_blank [] = true
all_blank (line ∷ lines) = is_empty (trim line) && all_blank lines

-- The lines of a message that is not a chat message, without footer and quote.
abbrev simplify_mail : List Text → List Text → Option Text → Text × Option Text
simplify_mail original_lines lines top_quote =
    let without_footer = remove_nonstandard_footer lines in
    let without_quote = remove_bottom_quote without_footer.0 in
    let swap = not (is_some top_quote) && is_some without_quote.1 in
    let rest_of_bottom = if swap then none else without_quote.1 in
    (
      if all_blank without_quote.0
          then render_message original_lines false
          else render_message without_quote.0 (without_footer.1 || is_some rest_of_bottom),
      if swap then without_quote.1 else top_quote,
    )

unfoldable pub simplify : Text → Bool → Text × Bool × Option Text
simplify input is_chat_message =
    let forwarded = skip_forward_header (split_lines (without 13 input)) in
    let body = remove_top_quote forwarded.0 in
    let lines = remove_message_footer body.0 in
    let mail = simplify_mail body.0 lines body.1 in
    if is_chat_message
    then (render_message lines false, forwarded.1, body.1)
    else (mail.0, forwarded.1, mail.1)
