-- ===== src/Params/Reading.antt =====
-- param.rs: what `from_str` reads from the lines of printed entries.
use juttmy_core.Prelude.{
  ℕ, Text, List, [], ◌∷◌, ◌++◌, ◌≡◌, ◌<◌, refl, false, arith, ltb, ◌==◌, some, ap, sym, subst, ◌∙◌,
  append-nil, append_assoc,
}
use juttmy_core.Params.{
  Params, set, newline, equals, drop_last_empty, split_key, Parsed, parsed, insert_entry,
  parse_entry,
}
use juttmy_core.Params.Keys.{Param, letter, from_u8-letter, letter_bound}
use juttmy_core.Params.Map.{Above, IsSorted}
use juttmy_core.Params.Lines.{blanks, added}

-- The lines of the entries: each entry by its first line and the further ones.
pub data Shown : Params → List Text → Type 0 where
  nothing : Shown [] []
  entry :
      {es : Params} {lines : List Text} (k : Param) (v p : Text) (ps : List Text)
      → p ++ added ps ≡ v
      → Shown es lines
      → Shown ((k, v) ∷ es) ((letter k ∷ equals ∷ p) ∷ (blanks ps ++ lines))

drop-blank :
    (inner : Params) (key value p : Text) (lines : List Text)
    → parse_entry inner key value (drop_last_empty ([] ∷ p ∷ lines))
      ≡ parse_entry inner key (value ++ newline ∷ p) (drop_last_empty lines)
unfolding parse_entry
drop-blank inner key value [] [] = refl
drop-blank inner key value (c ∷ p) [] = refl
drop-blank inner key value p (l ∷ lines) = refl

pub drop-blanks :
    (inner : Params) (key value : Text) (ps lines : List Text)
    → parse_entry inner key value (drop_last_empty (blanks ps ++ lines))
      ≡ parse_entry inner key (value ++ added ps) (drop_last_empty lines)
drop-blanks inner key value [] lines =
    ap (λ v. parse_entry inner key v (drop_last_empty lines)) (sym (append-nil value))
drop-blanks inner key value (p ∷ ps) lines =
    drop-blank inner key value p (blanks ps ++ lines)
    ∙ drop-blanks inner key (value ++ newline ∷ p) ps lines
    ∙ ap (λ v. parse_entry inner key v (drop_last_empty lines))
        (append_assoc value (newline ∷ p) (added ps))

pub split_key-letter :
    (k : Param) (p : Text) → split_key (letter k ∷ equals ∷ p) ≡ some (letter k ∷ [], p)
unfolding split_key
split_key-letter k p =
    let no_equals : (letter k == equals) ≡ false = ground (arith, letter_bound k) in
    rw no_equals refl

Above-last :
    (n : ℕ) (acc : Params) (k : Param) (v : Text) (es : Params)
    → Above n (acc ++ (k, v) ∷ es)
    → n < letter k
Above-last n [] k v es h = h.0
Above-last n ((k', v') ∷ acc) k v es (lt, h) = omega (arith, Above-last (letter k') acc k v es h)

Above-IsSorted : (n : ℕ) (p : Params) → Above n p → IsSorted p
Above-IsSorted n [] h = tt
Above-IsSorted n ((k, v) ∷ p) (lt, h) = h

-- Behind keys below it, a key is inserted at the end.
set-last :
    (acc : Params) (k : Param) (v : Text) (es : Params)
    → IsSorted (acc ++ (k, v) ∷ es)
    → set acc k v ≡ acc ++ (k, v) ∷ []
unfolding set
set-last [] k v es h = refl
set-last ((k', v') ∷ acc) k v es h =
    let lt = Above-last (letter k') acc k v es h in
    let other : (letter k == letter k') ≡ false = ground (arith, lt) in
    let behind : ltb (letter k) (letter k') ≡ false = ground (arith, lt) in
    rw (other, behind)
      (ap ((k', v') ∷◌) (set-last acc k v es (Above-IsSorted (letter k') (acc ++ (k, v) ∷ es) h)))

pub insert-letter :
    (inner : Params) (k : Param) (v : Text) (next : Params → Parsed)
    → insert_entry inner (letter k ∷ []) v next ≡ next (set inner k v)
insert-letter inner k v next = rw (insert_entry, from_u8-letter k) refl

module _ (inner : Params) (k : Param) (v : Text) (k' : Param) (p : Text) (lines : List Text) where
  pub parse_next :
      parse_entry inner (letter k ∷ []) v ((letter k' ∷ equals ∷ p) ∷ lines)
      ≡ parse_entry (set inner k v) (letter k' ∷ []) p lines
  unfolding parse_entry
  parse_next =
      rw (parse_entry, split_key-letter k' p)
        (insert-letter inner k v (λ inner'. parse_entry inner' (letter k' ∷ []) p lines))

pub drop-first :
    (c : ℕ) (l : Text) (lines : List Text)
    → drop_last_empty ((c ∷ l) ∷ lines) ≡ (c ∷ l) ∷ drop_last_empty lines
drop-first c l [] = refl
drop-first c l (m ∷ lines) = refl

pub parse-Shown :
    (inner : Params) (k : Param) (v : Text) (es : Params) (lines : List Text)
    → IsSorted (inner ++ (k, v) ∷ es)
    → Shown es lines
    → parse_entry inner (letter k ∷ []) v (drop_last_empty lines) ≡ parsed (inner ++ (k, v) ∷ es)
unfolding parse_entry
parse-Shown inner k v es lines h nothing =
    insert-letter inner k v parsed ∙ ap parsed (set-last inner k v [] h)
parse-Shown inner k v es lines h (entry {es = es'} {lines = lines'} k' v' p ps ev shown) =
    let before = inner ++ (k, v) ∷ [] in
    ap (parse_entry inner (letter k ∷ []) v)
      (drop-first (letter k') (equals ∷ p) (blanks ps ++ lines'))
    ∙ parse_next inner k v k' p (drop_last_empty (blanks ps ++ lines'))
    ∙ drop-blanks (set inner k v) (letter k' ∷ []) p ps lines'
    ∙ ap (λ w. parse_entry w (letter k' ∷ []) (p ++ added ps) (drop_last_empty lines'))
        (set-last inner k v es h)
    ∙ ap (λ w. parse_entry before (letter k' ∷ []) w (drop_last_empty lines')) ev
    ∙ parse-Shown before k' v' es' lines'
        (subst IsSorted (sym (append_assoc inner ((k, v) ∷ []) ((k', v') ∷ es'))) h) shown
    ∙ ap parsed (append_assoc inner ((k, v) ∷ []) ((k', v') ∷ es'))
