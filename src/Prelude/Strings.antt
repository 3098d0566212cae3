-- ===== src/Prelude/Strings.antt =====
-- Rust's `str` as the list of its code points, with the operations of the standard library that the
-- program calls. `byte_len` is `str::len`: the length of the UTF-8 encoding.
use Prim.Native.Nat.{ℕ, ◌+◌}
use Prim.Native.Char.{code}
use Prim.Native.String.{String}
use mathlib.Core.Path.{◌≡◌, refl}
use mathlib.Core.Logic.{◌↔◌, ◌≢◌}
use mathlib.Core.Bool.{Bool, true, false, ◌&&◌, ◌||◌}
use mathlib.Core.Option.{Option, none, some}
use mathlib.Core.List.{List, [], ◌∷◌, ◌++◌}
use native.Mathlib.Omega.{arith}
use juttmy_core.Prelude.Tests.{ltb, leb, ◌==◌, if◌then◌else◌, Eq}

abbrev pub Text : Type 0
Text = List ℕ

-- The code points of a literal.
abbrev pub codes : String → Text
codes String.[] = []
codes (String.◌∷◌ c s) = code c ∷ codes s

-- `char::len_utf8`
abbrev pub len_utf8 : ℕ → ℕ
len_utf8 c = if ltb c 0x80 then 1 else if ltb c 0x800 then 2 else if ltb c 0x10000 then 3 else 4

-- `str::len`
abbrev pub byte_len : Text → ℕ
byte_len [] = 0
byte_len (c ∷ s) = len_utf8 c + byte_len s

-- `==` on `str`
abbrev pub text_eq : Text → Text → Bool
text_eq [] [] = true
text_eq [] (d ∷ t) = false
text_eq (c ∷ s) [] = false
text_eq (c ∷ s) (d ∷ t) = c == d && text_eq s t

-- `str::is_empty`
abbrev pub is_empty : Text → Bool
is_empty [] = true
is_empty (c ∷ s) = false

-- `str::strip_prefix`
abbrev pub strip_prefix : Text → Text → Option Text
strip_prefix [] s = some s
strip_prefix (p ∷ ps) [] = none
strip_prefix (p ∷ ps) (c ∷ s) = let rest = strip_prefix ps s in if p == c then rest else none

-- `str::starts_with`
abbrev pub starts_with : Text → Text → Bool
starts_with [] s = true
starts_with (p ∷ ps) [] = false
starts_with (p ∷ ps) (c ∷ s) = p == c && starts_with ps s

-- `char::is_whitespace`: the characters with the Unicode property White_Space.
abbrev pub is_whitespace : ℕ → Bool
is_whitespace c =
    c == 32
    || (leb 9 c && leb c 13)
    || c == 0x85
    || c == 0xA0
    || c == 0x1680
    || (leb 0x2000 c && leb c 0x200A)
    || c == 0x2028
    || c == 0x2029
    || c == 0x202F
    || c == 0x205F
    || c == 0x3000

-- `str::trim_start`, `str::trim_end`, `str::trim`
abbrev pub trim_start_matches : (ℕ → Bool) → Text → Text
trim_start_matches p [] = []
trim_start_matches p (c ∷ s) = let rest = trim_start_matches p s in if p c then rest else c ∷ s

-- Trims the end: a character goes when it and all that follows it are trimmed.
abbrev pub trim_end_matches : (ℕ → Bool) → Text → Text
trim_end_matches p [] = []
trim_end_matches p (c ∷ s) = elim (trim_end_matches p s) [
  | [] ↦ if p c then [] else c ∷ []
  | d ∷ t ↦ c ∷ d ∷ t
]

abbrev pub trim_end : Text → Text
trim_end = trim_end_matches is_whitespace

abbrev pub trim : Text → Text
trim s = trim_end (trim_start_matches is_whitespace s)

-- `str::contains(char)`
abbrev pub contains : ℕ → Text → Bool
contains b [] = false
contains b (c ∷ s) = c == b || contains b s

-- `b` is not in the text.
abbrev pub Lacks : ℕ → Text → Type 0
Lacks b [] = Unit
Lacks b (c ∷ s) = (c ≢ b) × Lacks b s

pub text_eq_self : (s : Text) → text_eq s s ≡ true
text_eq_self [] = refl
text_eq_self (c ∷ s) = ground (arith, text_eq_self s)

pub eq_of_text_eq : (s t : Text) → text_eq s t ≡ true → s ≡ t
eq_of_text_eq [] [] h = refl
eq_of_text_eq [] (d ∷ t) h = cc
eq_of_text_eq (c ∷ s) [] h = cc
eq_of_text_eq (c ∷ s) (d ∷ t) h = ground (arith, eq_of_text_eq s t)

pub text_eq_iff : (s t : Text) → (text_eq s t ≡ true) ↔ (s ≡ t)
text_eq_iff s t = (eq_of_text_eq s t, λ e. rw e (text_eq_self t))

instance abbrev pub text_eq_instance : Eq Text
text_eq_instance = record { beq = text_eq; beq_iff = text_eq_iff }

pub Lacks-append : (b : ℕ) (s t : Text) → Lacks b s → Lacks b t → Lacks b (s ++ t)
Lacks-append b [] t hs ht = ht
Lacks-append b (c ∷ s) t (h, hs) ht = (h, Lacks-append b s t hs ht)
