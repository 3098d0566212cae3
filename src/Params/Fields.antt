-- ===== src/Params/Fields.antt =====
-- param.rs: what `from_str` reads from lines of one entry each.
use juttmy_core.Prelude.{
  ℕ, Text, List, [], ◌∷◌, ◌≡◌, ◌≢◌, refl, arith, ap, sym, ◌∙◌, All, Lacks, map, split, split-append,
  split-Lacks, join, append_assoc,
}
use juttmy_core.Params.{
  Params, set, newline, equals, drop_last_empty, strip_return, from_str, parsed, parse_entry,
  parse_lines,
}
use juttmy_core.Params.Keys.{Param, letter, letter_bound}
use juttmy_core.Params.Reading.{split_key-letter, drop-first, parse_next, insert-letter}
use juttmy_core.Params.RoundTrip.{text_lines-Clean}

-- A line of one entry.
abbrev pub field : Param × Text → Text
field (k, v) = letter k ∷ equals ∷ v

-- The entries, set one after the other.
abbrev pub set_fields : Params → List (Param × Text) → Params
set_fields inner [] = inner
set_fields inner ((k, v) ∷ fields) = set_fields (set inner k v) fields

abbrev pub Line : Param × Text → Type 0
Line (k, v) = Lacks newline v × Lacks 13 v

parse-fields :
    (inner : Params) (k : Param) (v : Text) (fields : List (Param × Text))
    → parse_entry inner (letter k ∷ []) v (map field fields)
      ≡ parsed (set_fields (set inner k v) fields)
unfolding parse_entry
parse-fields inner k v [] = insert-letter inner k v parsed
parse-fields inner k v ((k', v') ∷ fields) =
    parse_next inner k v k' v' (map field fields) ∙ parse-fields (set inner k v) k' v' fields

split-join :
    (l : Text) (ls : List Text)
    → All (Lacks newline) (l ∷ ls)
    → split newline (join (newline ∷ []) (l ∷ ls)) ≡ l ∷ ls
split-join l [] (h, tt) = split-Lacks newline l h
split-join l (m ∷ ls) (h, hs) =
    ap (split newline) (append_assoc l (newline ∷ []) (join (newline ∷ []) (m ∷ ls)))
    ∙ split-append newline l (join (newline ∷ []) (m ∷ ls))
    ∙ rw (split-Lacks newline l h, split-join m ls hs) refl

no_empty_line :
    (fields : List (Param × Text)) → drop_last_empty (map field fields) ≡ map field fields
no_empty_line [] = refl
no_empty_line ((k, v) ∷ fields) =
    drop-first (letter k) (equals ∷ v) (map field fields)
    ∙ ap (field (k, v) ∷◌) (no_empty_line fields)

module _ (b : ℕ) (other : b ≢ equals) (above : (k : Param) → letter k ≢ b) where
  field-Lacks : (k : Param) (v : Text) → Lacks b v → Lacks b (field (k, v))
  field-Lacks k v h = (above k, (λ e. other (sym e), h))

  pub fields-Lacks :
      (fields : List (Param × Text))
      → All (λ f. Lacks b (f.1)) fields
      → All (Lacks b) (map field fields)
  fields-Lacks [] h = tt
  fields-Lacks ((k, v) ∷ fields) (hv, h) = (field-Lacks k v hv, fields-Lacks fields h)

-- Lines of one entry each are read as these entries, set one after the other.
pub from_str-fields :
    (f : Param × Text) (fields : List (Param × Text))
    → All (λ e. Lacks newline (e.1)) (f ∷ fields)
    → All (λ e. Lacks 13 (e.1)) (f ∷ fields)
    → from_str (join (newline ∷ []) (map field (f ∷ fields))) ≡ parsed (set_fields [] (f ∷ fields))
unfolding from_str
from_str-fields (k, v) fields one_line clean =
    let lines = map field ((k, v) ∷ fields) in
    let same = split-join (field (k, v)) (map field fields) (
      fields-Lacks newline (λ e. omega (arith, e)) (λ k e. omega (arith, e, letter_bound k))
        ((k, v) ∷ fields) one_line) in
    ap (λ ls. parse_lines (map strip_return (drop_last_empty ls))) same
    ∙ ap parse_lines (
        text_lines-Clean lines (
          fields-Lacks 13 (λ e. omega (arith, e)) (λ k e. omega (arith, e, letter_bound k))
            ((k, v) ∷ fields) clean))
    ∙ ap parse_lines (no_empty_line ((k, v) ∷ fields))
    ∙ rw (parse_lines, split_key-letter k v) (parse-fields [] k v fields)
