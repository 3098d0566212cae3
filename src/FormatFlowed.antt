-- ===== src/FormatFlowed.antt =====
-- format_flowed.rs: long lines are broken for sending, and joined again on receipt (RFC 2646).
pub mod Lines
pub mod Buffer
pub mod Breaking
pub mod Formatting
pub mod RoundTrip
pub mod Tests
use juttmy_core.Prelude.{
  ℕ, ◌+◌, Text, codes, starts_with, strip_prefix, is_empty, is_whitespace, trim_end, byte_len,
  split, ltb, leb, ◌==◌, if◌then◌else◌, Bool, true, false, not, ◌&&◌, Option, none, some, List, [],
  ◌∷◌, ◌++◌,
}

abbrev pub newline : ℕ
newline = 10

abbrev pub return : ℕ
return = 13

abbrev pub space : ℕ
space = 32

abbrev pub quote : ℕ
quote = 62

abbrev pub crlf : Text
crlf = return ∷ newline ∷ []

-- The variables of `format_line_flowed`.
pub record Flow : Type 0 where
  pub result : Text
  pub buffer : Text
  pub after_space : Bool

-- The characters before which the line is broken.
abbrev pub breaks : Flow → ℕ → Bool
breaks f c = f.after_space && leb 72 (byte_len f.buffer) && not (is_whitespace c)

-- The body of the loop.
unfoldable pub flow_char : Text → Flow → ℕ → Flow
flow_char prefix f c =
    if c == space
    then record f { buffer = f.buffer ++ c ∷ []; after_space = true }
    else if c == quote
    then record f {
      buffer = (if is_empty f.buffer then space ∷ [] else f.buffer) ++ c ∷ [];
      after_space = false;
    }
    else if breaks f c
    then record {
      result = f.result ++ f.buffer ++ crlf;
      buffer = prefix ++ c ∷ [];
      after_space = false;
    }
    else record f { buffer = f.buffer ++ c ∷ []; after_space = false }

unfoldable pub flow_chars : Text → Flow → Text → Flow
flow_chars prefix f [] = f
flow_chars prefix f (c ∷ line) = flow_chars prefix (flow_char prefix f c) line

unfoldable pub format_line_flowed : Text → Text → Text
format_line_flowed line prefix =
    let f = flow_chars prefix (record { result = []; buffer = prefix; after_space = false }) line in
    f.result ++ f.buffer

-- What the loop of `format_flowed_prefix` adds for one line.
unfoldable pub format_line : Text → Text → Text
format_line prefix line =
    if ltb 78 (byte_len prefix + byte_len line)
    then format_line_flowed line prefix
    else prefix
      ++ (if is_empty prefix && starts_with (codes ">") line then space ∷ [] else [])
      ++ line

unfoldable pub format_lines : Text → Text → List Text → Text
format_lines prefix result [] = result
format_lines prefix result (line ∷ lines) =
    format_lines prefix
      ((if not (is_empty result) then result ++ crlf else result)
        ++ format_line prefix (trim_end line))
      lines

abbrev pub format_flowed_prefix : Text → Text → Text
format_flowed_prefix text prefix = format_lines prefix [] (split newline text)

abbrev pub format_flowed : Text → Text
format_flowed text = format_flowed_prefix text []

abbrev pub format_flowed_quote : Text → Text
format_flowed_quote text = format_flowed_prefix text (codes "> ")

-- `strip_suffix(" ")`
abbrev pub strip_space : Text → Option Text
strip_space [] = none
strip_space (c ∷ []) = if c == space then some [] else none
strip_space (c ∷ d ∷ s) = elim (strip_space (d ∷ s)) [ none ↦ none | some t ↦ some (c ∷ t) ]

-- A line without its space-stuffing.
abbrev pub unstuff : Text → Text
unstuff line = elim (strip_prefix (codes " ") line) [ none ↦ line | some rest ↦ rest ]

-- The loop of `unformat_flowed`.
unfoldable pub unformat_lines : Bool → Text → Bool → List Text → Text
unformat_lines delsp result skip_newline [] = result
unformat_lines delsp result skip_newline (line ∷ lines) =
    let before = if not skip_newline then result ++ newline ∷ [] else result in
    elim (strip_space (unstuff line)) [
      | some flowed ↦
          unformat_lines delsp (before ++ flowed ++ (if not delsp then space ∷ [] else [])) true
            lines
      | none ↦ unformat_lines delsp (before ++ unstuff line) false lines
    ]

abbrev pub unformat_flowed : Text → Bool → Text
unformat_flowed text delsp = unformat_lines delsp [] true (split newline text)
