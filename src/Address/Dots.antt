-- ===== src/Address/Dots.antt =====
-- dc_tools.rs: the dot in the domain of an address.
use juttmy_core.Prelude.{
  ℕ, ◌+◌, ◌-◌, ◌≤◌, len_utf8, if◌then◌else◌, Text, leb, ◌==◌, some-injective, true, false, Option,
  none, some, [], ◌∷◌, ◌++◌, ◌≡◌, refl, ap, arith, Lacks, ◌<◌, ◌↔◌, byte_len, Bool-cases, inl, inr,
  ==_iff, Option-cases, ◌∙◌,
}
use juttmy_core.Address.{ends_well, find}

-- The first dot: what stands before it, and behind it.
abbrev Dotted : Text → Text → Text → Type 0
Dotted d before behind = (d ≡ before ++ b'.' ∷ behind) × Lacks b'.' before

byte_len-dot :
    (before behind : Text)
    → byte_len (before ++ b'.' ∷ behind) ≡ byte_len before + 1 + byte_len behind
byte_len-dot [] behind = omega arith
byte_len-dot (c ∷ before) behind = omega (arith, byte_len-dot before behind)

find-some :
    (d : Text) (n : ℕ)
    → find b'.' d ≡ some n
    → (before : Text) × (behind : Text) × Dotted d before behind × (byte_len before ≡ n)
unfolding find
find-some [] n e = absurd (cc)
find-some (c ∷ d) n e = elim (Bool-cases (c == b'.')) [
  | inl at ↦
      let here : some 0 ≡ some n = rw at at e in
      ([], d, (ap (λ x. x ∷ d) ((==_iff c b'.').0 at), tt), some-injective here)
  | inr other ↦ elim (Option-cases (find b'.' d)) [
    | inl nowhere ↦ absurd (let e' = rw (other, nowhere) at e in cc)
    | inr (m, later) ↦
        let (before, behind, (same, lacks), len) = find-some d m later in
        let sum : some (len_utf8 c + m) ≡ some n = rw (other, later) at e in
        (
          c ∷ before,
          behind,
          (ap (c ∷◌) same, (ground (arith, other), lacks)),
          omega (arith, len, some-injective sum),
        )
  ]
]

find-Dotted :
    (before behind : Text)
    → Lacks b'.' before
    → find b'.' (before ++ b'.' ∷ behind) ≡ some (byte_len before)
unfolding find
find-Dotted [] behind h = ground arith
find-Dotted (c ∷ before) behind (h, hs) = rw (find-Dotted before behind hs) (ground (arith, h))

pub ends_well_iff :
    (d : Text)
    → 3 < byte_len d
    → (ends_well d ≡ true) ↔ (
        (before : Text) × (behind : Text) × (d ≡ before ++ b'.' ∷ behind)
        × Lacks b'.' before
        × (2 ≤ byte_len behind))
ends_well_iff d long = (there (find b'.' d) refl, back)
  where
    Ends : Option ℕ → Type 0
    Ends o =
        elim o [ none ↦ false | some n ↦ if leb (byte_len d - 2) n then false else true ] ≡ true

    there :
        (o : Option ℕ)
        → find b'.' d ≡ o
        → Ends o
        → (before : Text) × (behind : Text) × (d ≡ before ++ b'.' ∷ behind)
          × Lacks b'.' before
          × (2 ≤ byte_len behind)
    there none e ends = absurd (cc)
    there (some n) e ends =
        let (before, behind, (same, lacks), len) = find-some d n e in
        let total = ap byte_len same ∙ byte_len-dot before behind in
        (before, behind, same, lacks, ground (arith, ends, total, len))

    back :
        ((before : Text) × (behind : Text) × (d ≡ before ++ b'.' ∷ behind)
          × Lacks b'.' before
          × (2 ≤ byte_len behind))
        → ends_well d ≡ true
    back (before, behind, same, lacks, two) =
        let total = ap byte_len same ∙ byte_len-dot before behind in
        let found : find b'.' d ≡ some (byte_len before) =
          ap (find b'.') same ∙ find-Dotted before behind lacks in
        rw (ends_well, found) (ground (arith, total, two))
