-- ===== src/Params.antt =====
-- param.rs: lists of key=value parameters, and their text.
pub mod Keys
pub mod Map
pub mod Lines
pub mod Reading
pub mod RoundTrip
pub mod Fields
pub mod Tests
use juttmy_core.Prelude.{
  ℕ, zero, suc, ◌+◌, Text, split, join, is_empty, is_some, length, ltb, ◌==◌, if◌then◌else◌, Bool,
  true, false, Option, none, some, List, [], ◌∷◌, ◌++◌, map,
}
use Keys.{Param, letter, from_u8}

abbrev pub newline : ℕ
newline = 10

abbrev pub equals : ℕ
equals = 61

-- `inner`: the entries in the order of their keys.
abbrev pub Params : Type 0
Params = List (Param × Text)

unfoldable pub get : Params → Param → Option Text
get [] key = none
get ((k, v) ∷ inner) key =
    let rest = get inner key in if letter k == letter key then some v else rest

abbrev pub exists : Params → Param → Bool
exists inner key = is_some (get inner key)

unfoldable pub set : Params → Param → Text → Params
set [] key value = (key, value) ∷ []
set ((k, v) ∷ inner) key value =
    let rest = set inner key value in
    if letter key == letter k
    then (key, value) ∷ inner
    else if ltb (letter key) (letter k)
    then (key, value) ∷ (k, v) ∷ inner
    else (k, v) ∷ rest

unfoldable pub remove : Params → Param → Params
remove [] key = []
remove ((k, v) ∷ inner) key =
    let rest = remove inner key in if letter k == letter key then inner else (k, v) ∷ rest

abbrev pub len : Params → ℕ
len inner = length inner

-- `Display`
abbrev pub print_entry : Param × Text → Text
print_entry (key, value) = letter key ∷ equals ∷ join (newline ∷ newline ∷ []) (split newline value)

abbrev pub to_string : Params → Text
to_string inner = join (newline ∷ []) (map print_entry inner)

-- `str::lines`
abbrev pub drop_last_empty : List Text → List Text
drop_last_empty [] = []
drop_last_empty (l ∷ []) = if is_empty l then [] else l ∷ []
drop_last_empty (l ∷ m ∷ ls) = l ∷ drop_last_empty (m ∷ ls)

abbrev pub strip_return : Text → Text
strip_return [] = []
strip_return (c ∷ []) = if c == 13 then [] else c ∷ []
strip_return (c ∷ d ∷ s) = c ∷ strip_return (d ∷ s)

abbrev pub text_lines : Text → List Text
text_lines s = map strip_return (drop_last_empty (split newline s))

-- `line.splitn(2, '=')`, where it gives two parts.
unfoldable pub split_key : Text → Option (Text × Text)
split_key [] = none
split_key (c ∷ l) =
    let rest = split_key l in
    if c == equals
    then some ([], l)
    else elim rest [ none ↦ none | some kv ↦ some (c ∷ kv.0, kv.1) ]

pub data Parsed : Type 0 where
  parsed : Params → Parsed
  unknown_key not_a_pair : Text → Parsed

-- An entry is inserted, and the loop goes on.
abbrev pub insert_entry : Params → Text → Text → (Params → Parsed) → Parsed
insert_entry inner [] value next = unknown_key []
insert_entry inner (c ∷ key) value next = elim (from_u8 c) [
  | none ↦ unknown_key (c ∷ key)
  | some k ↦ next (set inner k value)
]

-- The two loops of `from_str`, with the key and the value that were read so far.
unfoldable pub parse_entry : Params → Text → Text → List Text → Parsed
parse_entry inner key value [] = insert_entry inner key value parsed
parse_entry inner key value ([] ∷ []) = insert_entry inner key (value ++ newline ∷ []) parsed
parse_entry inner key value ([] ∷ line ∷ lines) =
    parse_entry inner key (value ++ newline ∷ line) lines
parse_entry inner key value ((c ∷ line) ∷ lines) = elim (split_key (c ∷ line)) [
  | none ↦ insert_entry inner key value (λ _. not_a_pair (c ∷ line))
  | some kv ↦ insert_entry inner key value (λ inner'. parse_entry inner' kv.0 kv.1 lines)
]

abbrev pub parse_lines : List Text → Parsed
parse_lines [] = parsed []
parse_lines (line ∷ lines) = elim (split_key line) [
  | none ↦ not_a_pair line
  | some kv ↦ parse_entry [] kv.0 kv.1 lines
]

unfoldable pub from_str : Text → Parsed
from_str s = parse_lines (text_lines s)
