-- ===== src/Address.antt =====
-- dc_tools.rs and contact.rs: e-mail addresses.
pub mod Dots
pub mod Parsing
pub mod Tests
use juttmy_core.Prelude.{
  ℕ, ◌+◌, ◌-◌, Text, codes, leb, ◌==◌, if◌then◌else◌, Bool, true, false, ◌||◌, Option, none, some,
  is_some, [], ◌∷◌, ◌++◌, byte_len, len_utf8, is_empty, is_whitespace, trim, starts_with, drop,
}

abbrev pub at_sign : ℕ
at_sign = 64

abbrev pub dot : ℕ
dot = 46

pub record EmailAddress : Type 0 where
  pub local : Text
  pub domain : Text

-- `Display`
abbrev pub to_string : EmailAddress → Text
to_string e = e.local ++ at_sign ∷ e.domain

-- `rsplitn(2, b)`, where it gives two parts: what stands before the last `b`, and behind it.
unfoldable pub rsplit : ℕ → Text → Option (Text × Text)
rsplit b [] = none
rsplit b (c ∷ s) = elim (rsplit b s) [
  | none ↦ if c == b then some ([], s) else none
  | some parts ↦ some (c ∷ parts.0, parts.1)
]

-- `find(b)`: the bytes before the first `b`.
unfoldable pub find : ℕ → Text → Option ℕ
find b [] = none
find b (c ∷ s) =
    let rest = find b s in
    if c == b then some 0 else elim rest [ none ↦ none | some n ↦ some (len_utf8 c + n) ]

-- `chars().any(..)`
unfoldable pub any_char : (ℕ → Bool) → Text → Bool
any_char bad [] = false
any_char bad (c ∷ s) = bad c || any_char bad s

abbrev pub is_bad : ℕ → Bool
is_bad c = is_whitespace c || c == 60 || c == 62

-- The test of the domain's dot; the domain is longer than three bytes.
abbrev pub ends_well : Text → Bool
ends_well domain = elim (find dot domain) [
  | none ↦ false
  | some dot_idx ↦ if leb (byte_len domain - 2) dot_idx then false else true
]

-- `from_str`; the text of the error is left out.
unfoldable pub from_str : Text → Option EmailAddress
from_str input =
    if is_empty input
    then none
    else if any_char is_bad input
    then none
    else elim (rsplit at_sign input) [
      | none ↦ none
      | some parts ↦
          if is_empty parts.0
          then none
          else if leb (byte_len parts.1) 3
          then none
          else if ends_well parts.1
          then some (record { local = parts.0; domain = parts.1 })
          else none
    ]

unfoldable pub may_be_valid_addr : Text → Bool
may_be_valid_addr addr = is_some (from_str addr)

unfoldable pub addr_normalize : Text → Text
addr_normalize addr =
    let norm = trim addr in if starts_with (codes "mailto:") norm then drop 7 norm else norm
