-- ===== src/Prelude/Splitting.antt =====
-- `str::split` at one character, `join`, and the deletion of one character from a text.
use Prim.Native.Nat.{ℕ}
use mathlib.Core.Path.{◌≡◌, refl}
use mathlib.Core.Logic.{◌≢◌, inl, inr}
use mathlib.Core.List.{List, [], ◌∷◌, ◌++◌}
use native.Mathlib.Omega.{arith}
use juttmy_core.Prelude.Tests.{◌==◌, if◌then◌else◌, Bool-cases, if_both, if_split}
use juttmy_core.Prelude.Lists.{All}
use juttmy_core.Prelude.Strings.{Text, Lacks}

-- A character before the first part.
abbrev pub cons_first : ℕ → List Text → List Text
cons_first c [] = (c ∷ []) ∷ []
cons_first c (l ∷ ls) = (c ∷ l) ∷ ls

-- `str::split(b)`
abbrev pub split : ℕ → Text → List Text
split b [] = [] ∷ []
split b (c ∷ s) = let rest = split b s in if c == b then [] ∷ rest else cons_first c rest

-- `join`
abbrev pub join : Text → List Text → Text
join sep [] = []
join sep (l ∷ []) = l
join sep (l ∷ m ∷ ls) = l ++ sep ++ join sep (m ∷ ls)

-- `replace(b, "")`, and `retain(|c| c != b)`
abbrev pub without : ℕ → Text → Text
without b [] = []
without b (c ∷ s) = let rest = without b s in if c == b then rest else c ∷ rest

-- A split text has a first part.
pub split-cons : (b : ℕ) (s : Text) → (l : Text) × (ls : List Text) × (split b s ≡ l ∷ ls)
split-cons b [] = ([], [], refl)
split-cons b (c ∷ s) =
    let (l, ls, e) = split-cons b s in
    rw e (
      if_both (λ parts. (l' : Text) × (ls' : List Text) × (parts ≡ l' ∷ ls')) (c == b) (_, _, refl)
        (_, _, refl))

cons_first-append :
    (b c : ℕ) (s : Text) (ls : List Text)
    → cons_first c (split b s ++ ls) ≡ cons_first c (split b s) ++ ls
cons_first-append b c s ls = let (l, more, e) = split-cons b s in rw e refl

-- A part is what follows the separator, or is joined to the end of the part before.
pub split-append : (b : ℕ) (s t : Text) → split b (s ++ b ∷ t) ≡ split b s ++ split b t
split-append b [] t = ground arith
split-append b (c ∷ s) t =
    let step = split-append b s t in
    elim (Bool-cases (c == b)) [
      | inl at ↦ rw (at, step) refl
      | inr other ↦ rw (other, step) (cons_first-append b c s (split b t))
    ]

pub split-Lacks : (b : ℕ) (s : Text) → Lacks b s → split b s ≡ s ∷ []
split-Lacks b [] h = refl
split-Lacks b (c ∷ s) (h, hs) = rw (split-Lacks b s hs) (ground arith)

pub without-Lacks : (b : ℕ) (s : Text) → Lacks b s → without b s ≡ s
without-Lacks b [] h = refl
without-Lacks b (c ∷ s) (h, hs) = rw (without-Lacks b s hs) (ground arith)

pub Lacks-without : (b : ℕ) (s : Text) → Lacks b (without b s)
Lacks-without b [] = tt
Lacks-without b (c ∷ s) = ground (arith, Lacks-without b s)

-- A part lacks the separator, and every character that the text lacks.
module _ (b d : ℕ) where
  cons_first-Part :
      (c : ℕ) (ls : List Text)
      → c ≢ b
      → c ≢ d
      → All (λ l. Lacks b l × Lacks d l) ls
      → All (λ l. Lacks b l × Lacks d l) (cons_first c ls)
  cons_first-Part c [] h h' all = (((h, tt), (h', tt)), tt)
  cons_first-Part c (l ∷ ls) h h' ((x, y), all) = (((h, x), (h', y)), all)

  pub split-parts : (s : Text) → Lacks d s → All (λ l. Lacks b l × Lacks d l) (split b s)
  split-parts [] h = ((tt, tt), tt)
  split-parts (c ∷ s) (hc, h) =
      if_split (All (λ l. Lacks b l × Lacks d l)) (c == b) (λ _. ((tt, tt), split-parts s h))
        λ other. cons_first-Part c (split b s) (ground arith) hc (split-parts s h)

pub All-both :
    {A : Type 0} (P Q : A → Type 0) (xs : List A) → All P xs → All Q xs → All (λ x. P x × Q x) xs
All-both P Q [] hp hq = tt
All-both P Q (x ∷ xs) (p, hp) (q, hq) = ((p, q), All-both P Q xs hp hq)
