-- ===== src/Params/Lines.antt =====
-- param.rs: the lines of a printed entry.
use juttmy_core.Prelude.{
  ℕ, Text, split, split-append, split-Lacks, split-cons, join, Lacks, All, List, [], ◌∷◌, ◌++◌, ◌≡◌,
  ◌≢◌, refl, arith, if_split, ◌==◌, ap, sym, ◌∙◌, append-nil, append_assoc,
}
use juttmy_core.Params.{newline, equals, print_entry}
use juttmy_core.Params.Keys.{Param, letter, letter_bound}

-- The further lines of a value, each behind an empty line; and what they add to the value.
abbrev pub blanks : List Text → List Text
blanks [] = []
blanks (p ∷ ps) = [] ∷ p ∷ blanks ps

abbrev pub added : List Text → Text
added [] = []
added (p ∷ ps) = newline ∷ p ++ added ps

split-join_blank :
    (p : Text) (ps : List Text)
    → Lacks newline p
    → All (Lacks newline) ps
    → split newline (join (newline ∷ newline ∷ []) (p ∷ ps)) ≡ p ∷ blanks ps
split-join_blank p [] h hs = split-Lacks newline p h
split-join_blank p (q ∷ ps) h (hq, hs) =
    ap (split newline)
      (append_assoc p (newline ∷ newline ∷ []) (join (newline ∷ newline ∷ []) (q ∷ ps)))
    ∙ split-append newline p (newline ∷ join (newline ∷ newline ∷ []) (q ∷ ps))
    ∙ rw (split-Lacks newline p h, split-join_blank q ps hq hs) refl

join-parts : (p : Text) (ps : List Text) → join (newline ∷ []) (p ∷ ps) ≡ p ++ added ps
join-parts p [] = sym (append-nil p)
join-parts p (q ∷ ps) =
    ap (λ t. p ++ newline ∷ [] ++ t) (join-parts q ps)
    ∙ append_assoc p (newline ∷ []) (q ++ added ps)

join-cons_first :
    (c : ℕ) (l : Text) (ls : List Text)
    → join (newline ∷ []) ((c ∷ l) ∷ ls) ≡ c ∷ join (newline ∷ []) (l ∷ ls)
join-cons_first c l [] = refl
join-cons_first c l (m ∷ ls) = refl

split_plain :
    (c : ℕ) (s : Text) (l : Text) (ls : List Text)
    → c ≢ newline
    → split newline s ≡ l ∷ ls
    → split newline (c ∷ s) ≡ (c ∷ l) ∷ ls
split_plain c s l ls h e = rw e (ground arith)

-- Parts joined give the text.
join-split : (s : Text) → join (newline ∷ []) (split newline s) ≡ s
join-split [] = refl
join-split (c ∷ s) =
    let (l, ls, e) = split-cons newline s in
    let back : join (newline ∷ []) (l ∷ ls) ≡ s = ap (join (newline ∷ [])) (sym e) ∙ join-split s in
    rw e (
      if_split (λ parts. join (newline ∷ []) parts ≡ c ∷ s) (c == newline)
        (λ at. ap (newline ∷◌) back ∙ ap (λ d. d ∷ s) (sym (ground arith)))
        (λ past. join-cons_first c l ls ∙ ap (c ∷◌) back))

-- The value of an entry by its lines.
pub value-lines : (v p : Text) (ps : List Text) → split newline v ≡ p ∷ ps → p ++ added ps ≡ v
value-lines v p ps e = sym (join-parts p ps) ∙ ap (join (newline ∷ [])) (sym e) ∙ join-split v

module _ (k : Param) (v p : Text) (ps : List Text) (e : split newline v ≡ p ∷ ps)
    (plain : All (Lacks newline) (p ∷ ps)) where
  pub split-print_entry : split newline (print_entry (k, v)) ≡ (letter k ∷ equals ∷ p) ∷ blanks ps
  split-print_entry =
      let body = join (newline ∷ newline ∷ []) (split newline v) in
      split_plain (letter k) (equals ∷ body) (equals ∷ p) (blanks ps)
        (omega (arith, letter_bound k))
        (split_plain equals body p (blanks ps) (omega arith) (
          ap (λ parts. split newline (join (newline ∷ newline ∷ []) parts)) e
          ∙ split-join_blank p ps plain.0 plain.1))
