-- ===== src/FormatFlowed/Tests.antt =====
-- Runs of format_flowed.rs on the examples of its tests, and its theorem at a concrete input.
use juttmy_core.Prelude.{
  Text, codes, ◌≡◌, refl, false, ◌∷◌, [], ◌++◌, arith, split, join, map, without, trim_end,
}
use juttmy_core.FormatFlowed.{
  newline, return, crlf, format_flowed, format_flowed_quote, format_line, format_lines,
  format_line_flowed, flow_chars, flow_char, unformat_flowed, unformat_lines,
}
use juttmy_core.FormatFlowed.RoundTrip.{unformat_flowed-format_flowed}

abbrev long_line : Text
long_line =
    codes
      "this is a very long quote that should be wrapped using format=flowed and unwrapped on the receiver"

format_flowed-quoted : format_flowed (codes "> Not a quote") ≡ codes " > Not a quote"
unfolding format_lines format_line
format_flowed-quoted = refl

format_flowed_quote-long_line :
    format_flowed_quote long_line
    ≡ codes "> this is a very long quote that should be wrapped using format=flowed and "
      ++ crlf
      ++ codes "> unwrapped on the receiver"
unfolding format_lines format_line format_line_flowed flow_chars flow_char
format_flowed_quote-long_line = refl

-- Blank lines at the start of a text are not sent.
format_flowed-blank_start : format_flowed (codes "\n\na") ≡ codes "a"
unfolding format_lines format_line
format_flowed-blank_start = refl

-- The space at the start of a line is taken for stuffing.
unformat_flowed-indented : unformat_flowed (format_flowed (codes " a")) false ≡ codes "a"
unfolding format_lines format_line unformat_lines
unformat_flowed-indented = refl

unformat_flowed-format_flowed_example :
    unformat_flowed (without return (format_flowed (codes "a \n>b"))) false
    ≡ join (newline ∷ []) (map trim_end (split newline (codes "a \n>b")))
unformat_flowed-format_flowed_example =
    unformat_flowed-format_flowed (codes "a \n>b")
      (omega arith, (omega arith, (omega arith, (omega arith, (omega arith, tt)))))
      (refl, (refl, tt)) λ e. cc
