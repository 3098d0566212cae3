-- ===== src/Params/RoundTrip.antt =====
-- param.rs: the text of the parameters is read back.
use juttmy_core.Prelude.{
  Text, split, split-append, split-cons, split-parts, join, is_empty, Lacks, Lacks-append, All,
  List, [], ◌∷◌, ◌++◌, map, ◌≡◌, refl, arith, if_split, ◌==◌, ap, sym, subst, ◌∙◌, append-nil,
  append_assoc,
}
use juttmy_core.Params.{
  Params, newline, equals, print_entry, to_string, drop_last_empty, strip_return, parsed,
  parse_entry, parse_lines, from_str,
}
use juttmy_core.Params.Keys.{Param, letter, letter_bound}
use juttmy_core.Params.Map.{IsSorted}
use juttmy_core.Params.Lines.{blanks, added, value-lines, split-print_entry}
use juttmy_core.Params.Reading.{
  Shown, nothing, entry, drop-blanks, split_key-letter, drop-first, parse-Shown,
}

split-Lacks-All : (s : Text) → All (Lacks newline) (split newline s)
split-Lacks-All [] = (tt, tt)
split-Lacks-All (c ∷ s) =
    let (l, ls, e) = split-cons newline s in
    let (h, hs) = subst (All (Lacks newline)) e (split-Lacks-All s) in
    rw e (
      if_split (All (Lacks newline)) (c == newline) (λ _. (tt, (h, hs)))
        λ past. ((ground arith, h), hs))

-- The values hold no carriage return.
abbrev pub Clean : Param × Text → Type 0
Clean (k, v) = Lacks 13 v

print_entry-Shown :
    (k : Param) (v : Text)
    → (p : Text) × (ps : List Text) × (split newline (print_entry (k, v))
        ≡ (letter k ∷ equals ∷ p) ∷ blanks ps)
      × (p ++ added ps ≡ v)
print_entry-Shown k v =
    let (p, ps, e) = split-cons newline v in
    (
      p,
      ps,
      split-print_entry k v p ps e (subst (All (Lacks newline)) e (split-Lacks-All v)),
      value-lines v p ps e,
    )

-- The lines of the text of the parameters.
to_string-Shown :
    (k : Param) (v : Text) (es : Params)
    → (lines : List Text) × (split newline (to_string ((k, v) ∷ es)) ≡ lines)
      × Shown ((k, v) ∷ es) lines
to_string-Shown k v [] =
    let (p, ps, e, ev) = print_entry-Shown k v in
    (
      _,
      e ∙ ap ((letter k ∷ equals ∷ p) ∷◌) (sym (append-nil (blanks ps))),
      entry k v p ps ev nothing,
    )
to_string-Shown k v ((k', v') ∷ es) =
    let (p, ps, e, ev) = print_entry-Shown k v in
    let (lines, e', shown) = to_string-Shown k' v' es in
    let rest = to_string ((k', v') ∷ es) in
    (
      _,
      ap (split newline) (append_assoc (print_entry (k, v)) (newline ∷ []) rest)
          ∙ split-append newline (print_entry (k, v)) rest
          ∙ rw (e, e') refl,
      entry k v p ps ev shown,
    )

strip_return-Lacks : (l : Text) → Lacks 13 l → strip_return l ≡ l
strip_return-Lacks [] h = refl
strip_return-Lacks (c ∷ []) h = ground arith
strip_return-Lacks (c ∷ d ∷ l) (hc, h) = ap (c ∷◌) (strip_return-Lacks (d ∷ l) h)

pub text_lines-Clean :
    (ls : List Text)
    → All (Lacks 13) ls
    → map strip_return (drop_last_empty ls) ≡ drop_last_empty ls
text_lines-Clean [] h = refl
text_lines-Clean (l ∷ []) (hl, tt) =
    if_split (λ ls. map strip_return ls ≡ ls) (is_empty l) (λ _. refl)
      λ _. ap (λ x. x ∷ []) (strip_return-Lacks l hl)
text_lines-Clean (l ∷ m ∷ ls) (hl, h) =
    rw (strip_return-Lacks l hl) (ap (l ∷◌) (text_lines-Clean (m ∷ ls) h))

join-Lacks :
    (sep : Text) (ls : List Text) → Lacks 13 sep → All (Lacks 13) ls → Lacks 13 (join sep ls)
join-Lacks sep [] hs h = tt
join-Lacks sep (l ∷ []) hs (hl, h) = hl
join-Lacks sep (l ∷ m ∷ ls) hs (hl, h) =
    Lacks-append 13 (l ++ sep) (join sep (m ∷ ls)) (Lacks-append 13 l sep hl hs)
      (join-Lacks sep (m ∷ ls) hs h)

All-second : (P Q : Text → Type 0) (ls : List Text) → All (λ l. P l × Q l) ls → All Q ls
All-second P Q [] h = tt
All-second P Q (l ∷ ls) ((p, q), h) = (q, All-second P Q ls h)

split-Clean : (s : Text) → Lacks 13 s → All (Lacks 13) (split newline s)
split-Clean s h =
    All-second (Lacks newline) (Lacks 13) (split newline s) (split-parts newline 13 s h)

print_entry-Clean : (k : Param) (v : Text) → Lacks 13 v → Lacks 13 (print_entry (k, v))
print_entry-Clean k v h = (
  omega (arith, letter_bound k),
  (
    omega arith,
    join-Lacks (newline ∷ newline ∷ []) (split newline v) (omega arith, (omega arith, tt))
        (split-Clean v h),
  ),
)

printed-Clean : (p : Params) → All Clean p → All (Lacks 13) (map print_entry p)
printed-Clean [] h = tt
printed-Clean ((k, v) ∷ p) (hv, h) = (print_entry-Clean k v hv, printed-Clean p h)

-- The first entry opens the outer loop.
parse_lines-Shown :
    (p : Params) (lines : List Text)
    → IsSorted p
    → Shown p lines
    → parse_lines (drop_last_empty lines) ≡ parsed p
unfolding parse_entry
parse_lines-Shown [] lines h nothing = refl
parse_lines-Shown p lines h (entry {es = es} {lines = more} k v q ps ev shown) =
    ap parse_lines (drop-first (letter k) (equals ∷ q) (blanks ps ++ more))
    ∙ first
    ∙ drop-blanks [] (letter k ∷ []) q ps more
    ∙ ap (λ w. parse_entry [] (letter k ∷ []) w (drop_last_empty more)) ev
    ∙ parse-Shown [] k v es more h shown
  where
    first :
        parse_lines ((letter k ∷ equals ∷ q) ∷ drop_last_empty (blanks ps ++ more))
        ≡ parse_entry [] (letter k ∷ []) q (drop_last_empty (blanks ps ++ more))
    first = rw (parse_lines, split_key-letter k q) refl

-- The text of parameters is read back as the same parameters: their keys are in order, as those of
-- the map are, and no value holds a carriage return. Values may hold line breaks and empty lines.
pub from_str-to_string : (p : Params) → IsSorted p → All Clean p → from_str (to_string p) ≡ parsed p
unfolding from_str
from_str-to_string [] h c = refl
from_str-to_string ((k, v) ∷ es) h c =
    let p = (k, v) ∷ es in
    let (lines, e, shown) = to_string-Shown k v es in
    let clean =
      split-Clean (to_string p)
        (join-Lacks (newline ∷ []) (map print_entry p) (omega arith, tt) (printed-Clean p c)) in
    ap parse_lines (text_lines-Clean (split newline (to_string p)) clean)
    ∙ ap (λ ls. parse_lines (drop_last_empty ls)) e
    ∙ parse_lines-Shown p lines h shown
