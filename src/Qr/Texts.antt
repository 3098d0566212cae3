-- ===== src/Qr/Texts.antt =====
-- qr.rs: texts of safe characters, which stand for themselves in a code.
use juttmy_core.Prelude.{
  ℕ, ◌+◌, Text, leb, ◌==◌, if◌then◌else◌, Bool, true, false, ◌&&◌, ◌||◌, some, List, [], ◌∷◌, ◌++◌,
  ◌≡◌, ◌≢◌, ◌<◌, refl, ap, sym, ◌∙◌, arith, All, Lacks, map, join, append_assoc,
}
use juttmy_core.Qr.Decode.{split_once, replace}

-- Letters, digits and `-._%`.
abbrev pub is_safe : ℕ → Bool
is_safe c =
    (leb 48 c && leb c 57)
    || (leb 65 c && leb c 90)
    || (leb 97 c && leb c 122)
    || c == 37
    || c == 45
    || c == 46
    || c == 95

abbrev pub Safe : Text → Type 0
Safe s = All (λ c. is_safe c ≡ true) s

-- `char::to_ascii_lowercase`
abbrev pub lower : ℕ → ℕ
lower c = if leb 65 c && leb c 90 then c + 32 else c

-- What is documented of `str::to_lowercase`, for ASCII.
abbrev pub IsLowercase : (Text → Text) → Type 0
IsLowercase to_lowercase = (s : Text) → All (λ c. c < 128) s → to_lowercase s ≡ map lower s

safe_not : (b c : ℕ) → is_safe b ≡ false → is_safe c ≡ true → c ≢ b
safe_not b c unsafe safe e = let bad : true ≡ false = sym safe ∙ ap is_safe e ∙ unsafe in cc

pub Safe-Lacks : (b : ℕ) (s : Text) → is_safe b ≡ false → Safe s → Lacks b s
Safe-Lacks b [] unsafe h = tt
Safe-Lacks b (c ∷ s) unsafe (hc, h) = (safe_not b c unsafe hc, Safe-Lacks b s unsafe h)

safe_small : (c : ℕ) → is_safe c ≡ true → c < 128
safe_small c h = ground (arith, h)

pub Safe-Ascii : (s : Text) → Safe s → All (λ c. c < 128) s
Safe-Ascii [] h = tt
Safe-Ascii (c ∷ s) (hc, h) = (safe_small c hc, Safe-Ascii s h)

pub split_once-parts : (b : ℕ) (s t : Text) → Lacks b s → split_once b (s ++ b ∷ t) ≡ some (s, t)
unfolding split_once
split_once-parts b [] t h = ground arith
split_once-parts b (c ∷ s) t (hc, h) = rw (split_once-parts b s t h) (ground (arith, hc))

pub replace-Lacks : (a : ℕ) (by s : Text) → Lacks a s → replace a by s ≡ s
unfolding replace
replace-Lacks a by [] h = refl
replace-Lacks a by (c ∷ s) (hc, h) = rw (replace-Lacks a by s h) (ground (arith, hc))

replace-before :
    (a : ℕ) (by s t : Text) → Lacks a s → replace a by (s ++ a ∷ t) ≡ s ++ by ++ replace a by t
unfolding replace
replace-before a by [] t h = ground arith
replace-before a by (c ∷ s) t (hc, h) = rw (replace-before a by s t h) (ground (arith, hc))

pub replace-join :
    (a : ℕ) (by : Text) (ls : List Text)
    → All (Lacks a) ls
    → replace a by (join (a ∷ []) ls) ≡ join by ls
unfolding replace
replace-join a by [] h = refl
replace-join a by (l ∷ []) (hl, h) = replace-Lacks a by l hl
replace-join a by (l ∷ m ∷ ls) (hl, h) =
    ap (replace a by) (append_assoc l (a ∷ []) (join (a ∷ []) (m ∷ ls)))
    ∙ replace-before a by l (join (a ∷ []) (m ∷ ls)) hl
    ∙ ap (λ s. l ++ by ++ s) (replace-join a by (m ∷ ls) h)
