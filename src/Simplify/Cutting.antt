-- ===== src/Simplify/Cutting.antt =====
-- simplify.rs: `remove_message_footer` cuts the lines where the marks ask for it.
use juttmy_core.Prelude.{
  ℕ, ◌+◌, ◌<◌, ◌≡◌, if◌then◌else◌, if_split, option_split, append_assoc, length-append, All-append,
  Text, Option, none, some, All, List, refl, ◌∷◌, [], ◌++◌, arith, take, length, inl, inr,
  Bool-cases, ap, sym, subst, ltb, ltb→lt, append-nil,
}
use juttmy_core.Simplify.{is_footer_mark, scan_footer, remove_message_footer}
use juttmy_core.Simplify.Marks.{
  Unmarked, IsBare, Cuts, at_mark, at_bare, whole, is_footer_mark-Mark, is_footer_mark-Unmarked,
  IsLast, line_at-end, step-IsLast, is_bare,
}

-- The lines before the index that the loop gives.
abbrev cut : Option ℕ → List Text → List Text
cut none lines = lines
cut (some ix) lines = take ix lines

take-length : (pre rest : List Text) → take (length pre) (pre ++ rest) ≡ pre
take-length [] rest = refl
take-length (line ∷ pre) rest = ap (◌∷◌ line) (take-length pre rest)

-- Past the last line there are no dashes.
IsBare-inside : (lines : List Text) (m : ℕ) → IsBare lines m → m < length lines
IsBare-inside lines m bare = elim (Bool-cases (ltb m (length lines))) [
  | inl inside ↦ ltb→lt m (length lines) inside
  | inr outside ↦
      let past = line_at-end lines m (ground (arith, outside)) in let at = bare.0 in absurd (cc)
]

end-Cuts :
    (lines : List Text) (nearly : Option ℕ)
    → All Unmarked lines
    → IsLast lines (length lines) nearly
    → Cuts lines (cut nearly lines)
unfolding IsLast
end-Cuts lines none plain h = whole plain λ m bare. h m (IsBare-inside lines m bare) bare
end-Cuts lines (some n) plain (here, last) =
    at_bare n plain here λ m bare. last m (IsBare-inside lines m bare) bare

scan_footer-Cuts :
    (pre rest : List Text) (nearly : Option ℕ)
    → All Unmarked pre
    → IsLast (pre ++ rest) (length pre) nearly
    → Cuts (pre ++ rest) (cut (scan_footer (pre ++ rest) (length pre) nearly rest) (pre ++ rest))
unfolding scan_footer
scan_footer-Cuts pre [] nearly plain h =
    subst (λ lines. IsLast lines (length pre) nearly → Cuts lines (cut nearly lines))
      (sym (append-nil pre)) (end-Cuts pre nearly plain) h
scan_footer-Cuts pre (line ∷ rest) nearly plain h =
    let lines = pre ++ line ∷ rest in
    if_split (λ found. Cuts lines (cut found lines)) (is_footer_mark line)
      (λ mark.
        subst (Cuts lines) (sym (take-length pre (line ∷ rest)))
          (at_mark pre line rest (is_footer_mark-Mark line mark) plain))
      λ kept.
        let more : List Text = pre ++ line ∷ [] in
        let next = if is_bare lines (length pre) line then some (length pre) else nearly in
        let all : more ++ rest ≡ lines = append_assoc pre (line ∷ []) rest in
        let count : length more ≡ length pre + 1 = length-append pre (line ∷ []) in
        let plain' =
          All-append Unmarked pre (line ∷ []) plain (is_footer_mark-Unmarked line kept, tt) in
        let last = step-IsLast pre line rest nearly h in
        subst (λ n. Cuts lines (cut (scan_footer lines n next rest) lines)) count
          (subst
            (λ l.
              IsLast l (length more) next → Cuts l (cut (scan_footer l (length more) next rest) l))
            all (scan_footer-Cuts more rest next plain')
            (subst (λ n. IsLast lines n next) (sym count) last))

-- What is left are the lines that `Cuts` asks for.
pub remove_message_footer-Cuts : (lines : List Text) → Cuts lines (remove_message_footer lines)
unfolding remove_message_footer IsLast
remove_message_footer-Cuts lines =
    let cuts = scan_footer-Cuts [] lines none tt (λ m below. ground (arith, below)) in
    option_split {A = ℕ} (λ l. Cuts lines l) (scan_footer lines 0 none lines)
      (λ e. subst (λ found. Cuts lines (cut found lines)) e cuts)
      λ ix e. subst (λ found. Cuts lines (cut found lines)) e cuts
