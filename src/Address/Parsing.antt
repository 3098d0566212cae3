-- ===== src/Address/Parsing.antt =====
-- dc_tools.rs: what `EmailAddress::from_str` accepts.
use juttmy_core.Prelude.{
  ℕ, ◌≤◌, ◌||◌, ◌≢◌, Bool, All, is_whitespace, Text, leb, ◌==◌, if_split, option_split,
  some-injective, true, false, Option, none, some, [], ◌∷◌, ◌++◌, ◌≡◌, refl, ap, sym, subst, arith,
  Lacks, ◌<◌, ◌↔◌, byte_len, is_empty,
}
use juttmy_core.Address.{
  EmailAddress, at_sign, to_string, rsplit, any_char, is_bad, ends_well, from_str,
}
use juttmy_core.Address.Dots.{ends_well_iff}

-- The parts of an address: the local part is not empty; no character is white space, `<` or `>`; the
-- domain has no `@` and is longer than three bytes, and its first dot has two bytes behind it.
pub record IsAddress (e : EmailAddress) : Type 0 where
  pub local : e.local ≢ []
  pub one_at : Lacks at_sign e.domain
  pub no_space : All (λ c. is_whitespace c ≡ false) (to_string e)
  pub no_less : Lacks b'<' (to_string e)
  pub no_greater : Lacks b'>' (to_string e)
  pub long : 3 < byte_len e.domain
  pub dotted :
      (before : Text) × (behind : Text) × (e.domain ≡ before ++ b'.' ∷ behind)
      × Lacks b'.' before
      × (2 ≤ byte_len behind)

or_false : (a b : Bool) → (a || b) ≡ false → (a ≡ false) × (b ≡ false)
or_false true b e = absurd (cc)
or_false false b e = (refl, e)

both_false : (a b : Bool) → a ≡ false → b ≡ false → (a || b) ≡ false
both_false a b h k = ground (arith, h, k)

-- The test of the characters.
good_characters :
    (s : Text)
    → (any_char is_bad s ≡ false)
      ↔ (All (λ c. is_whitespace c ≡ false) s × Lacks b'<' s × Lacks b'>' s)
unfolding any_char
good_characters [] = (λ _. (tt, tt, tt), λ _. refl)
good_characters (c ∷ s) =
    let (there, back) = good_characters s in
    (
      λ e.
          let h : (is_bad c ≡ false) × (any_char is_bad s ≡ false) = or_false (is_bad c) _ e in
          let (space, less) = or_false (is_whitespace c || c == 60) (c == 62) h.0 in
          let (space', less') = or_false (is_whitespace c) (c == 60) space in
          let (all, l, g) = there h.1 in ((space', all), ((λ k. cc), l), ((λ k. cc), g)),
      λ ((space, all), (less, l), (greater, g)).
          both_false (is_bad c) _
            (both_false (is_whitespace c || c == 60) (c == 62)
              (both_false (is_whitespace c) (c == 60) space (ground (arith, less)))
              (ground (arith, greater)))
            (back (all, l, g)),
    )

rsplit-none : (b : ℕ) (s : Text) → rsplit b s ≡ none → Lacks b s
unfolding rsplit
rsplit-none b [] e = tt
rsplit-none b (c ∷ s) e =
    option_split {A = Text × Text} (λ o. o ≡ none → Lacks b (c ∷ s)) (rsplit b s)
      (λ last.
        if_split (λ o. o ≡ none → Lacks b (c ∷ s)) (c == b) (λ _ e. absurd (cc))
          λ other _. (ground (arith, other), rsplit-none b s last))
      (λ parts _ e. absurd (cc)) e

abbrev Splits : ℕ → Text → Text × Text → Type 0
Splits b s (l, d) = (l ++ b ∷ d ≡ s) × Lacks b d

rsplit-some : (b : ℕ) (s : Text) (parts : Text × Text) → rsplit b s ≡ some parts → Splits b s parts
unfolding rsplit
rsplit-some b [] parts e = absurd (cc)
rsplit-some b (c ∷ s) parts e =
    option_split {A = Text × Text} (λ o. o ≡ some parts → Splits b (c ∷ s) parts) (rsplit b s)
      (λ last.
        if_split (λ o. o ≡ some parts → Splits b (c ∷ s) parts) (c == b)
          (λ at e.
            subst (Splits b (c ∷ s)) (some-injective e)
              (ap (λ x. x ∷ s) (ground (arith, at)), rsplit-none b s last))
          (λ _ e. absurd (cc)))
      (λ q found e.
        let (same, lacks) = rsplit-some b s q found in
        subst (Splits b (c ∷ s)) (some-injective e) (ap (c ∷◌) same, lacks))
      e

rsplit-Lacks : (b : ℕ) (s : Text) → Lacks b s → rsplit b s ≡ none
unfolding rsplit
rsplit-Lacks b [] h = refl
rsplit-Lacks b (c ∷ s) (other, h) = rw (rsplit-Lacks b s h) (ground (arith, other))

rsplit-parts : (b : ℕ) (l d : Text) → Lacks b d → rsplit b (l ++ b ∷ d) ≡ some (l, d)
unfolding rsplit
rsplit-parts b [] d h = rw (rsplit-Lacks b d h) (ground arith)
rsplit-parts b (c ∷ l) d h = rw (rsplit-parts b l d h) refl

module _ (input : Text) (e : EmailAddress) where
  abbrev Accepts : Option EmailAddress → Type 0
  Accepts o = o ≡ some e → IsAddress e × (to_string e ≡ input)

  characters :
      (parts : Text × Text)
      → parts.0 ++ at_sign ∷ parts.1 ≡ input
      → any_char is_bad input ≡ false
      → All (λ c. is_whitespace c ≡ false) (parts.0 ++ at_sign ∷ parts.1)
        × Lacks b'<' (parts.0 ++ at_sign ∷ parts.1)
        × Lacks b'>' (parts.0 ++ at_sign ∷ parts.1)
  characters parts same good =
      (good_characters (parts.0 ++ at_sign ∷ parts.1)).0
        (subst (λ s. any_char is_bad s ≡ false) (sym same) good)

  accepted : from_str input ≡ some e → IsAddress e × (to_string e ≡ input)
  unfolding from_str
  accepted =
      if_split Accepts (is_empty input) (λ _ e. absurd (cc))
        λ _.
          if_split Accepts (any_char is_bad input) (λ _ e. absurd (cc))
            λ good.
              option_split {A = Text × Text} Accepts (rsplit at_sign input) (λ _ e. absurd (cc))
                λ parts found.
                  if_split Accepts (is_empty parts.0) (λ _ e. absurd (cc))
                    λ local.
                      if_split Accepts (leb (byte_len parts.1) 3) (λ _ e. absurd (cc))
                        λ long.
                          if_split Accepts (ends_well parts.1)
                            (λ ends result.
                              let (same, lacks) = rsplit-some at_sign input parts found in
                              subst (λ e'. IsAddress e' × (to_string e' ≡ input))
                                (some-injective result)
                                (
                                  record {
                                    local = λ e. cc (ap is_empty e);
                                    one_at = lacks;
                                    no_space = (characters parts same good).0;
                                    no_less = (characters parts same good).1;
                                    no_greater = (characters parts same good).2;
                                    long = ground (arith, long);
                                    dotted = (ends_well_iff parts.1 (ground (arith, long))).0 ends;
                                  },
                                  same,
                                ))
                            λ _ e. absurd (cc)

not_empty : (e : EmailAddress) → is_empty (to_string e) ≡ false
not_empty e = go e.local
  where
    go : (l : Text) → is_empty (l ++ at_sign ∷ e.domain) ≡ false
    go [] = refl
    go (c ∷ l) = refl

not_nil : (s : Text) → s ≢ [] → is_empty s ≡ false
not_nil [] h = absurd (h refl)
not_nil (c ∷ s) h = refl

accepts : (e : EmailAddress) → IsAddress e → from_str (to_string e) ≡ some e
unfolding from_str
accepts e a =
    let long : leb (byte_len e.domain) 3 ≡ false = ground (arith, a.long) in
    rw
      (
        from_str,
        not_empty e,
        (good_characters (to_string e)).1 (a.no_space, a.no_less, a.no_greater),
        rsplit-parts at_sign e.local e.domain a.one_at,
        not_nil e.local a.local,
        long,
        (ends_well_iff e.domain a.long).1 a.dotted,
      )
      refl

-- A text is accepted as an address exactly if it is the text of one: a local part that is not
-- empty, `@`, and a domain of more than three bytes without `@`, whose first dot has at least two
-- bytes behind it, all without white space and angle brackets. The parts are then that local part and
-- that domain.
pub from_str_iff :
    (input : Text) (e : EmailAddress)
    → (from_str input ≡ some e) ↔ (IsAddress e × (to_string e ≡ input))
from_str_iff input e =
    (accepted input e, λ (a, same). subst (λ s. from_str s ≡ some e) same (accepts e a))
