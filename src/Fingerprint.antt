-- ===== src/Fingerprint.antt =====
-- key.rs: the fingerprint of a key and its two text forms.
pub mod Display
pub mod Tests
use juttmy_core.Prelude.{
  ℕ, ◌+◌, ◌%◌, Text, leb, ltb, ◌==◌, if◌then◌else◌, Bool, ◌&&◌, ◌||◌, Option, none, some, List, [],
  ◌∷◌, length,
}

-- The functions of the crate `hex`, and `str::to_uppercase`.
pub record Hex : Type 0 where
  pub encode_upper : List ℕ → Text
  pub decode : Text → Option (List ℕ)
  pub to_uppercase : Text → Text

pub record Fingerprint : Type 0 where
  pub bytes : List ℕ

-- `Fingerprint::new`
unfoldable pub new : List ℕ → Option Fingerprint
new v = if length v == 20 then some (record { bytes = v }) else none

abbrev pub is_hex_digit : ℕ → Bool
is_hex_digit c = (leb 48 c && leb c 57) || (leb 65 c && leb c 70)

-- `chars().filter(..)`
unfoldable pub keep : (ℕ → Bool) → Text → Text
keep ok [] = []
keep ok (c ∷ s) = let rest = keep ok s in if ok c then c ∷ rest else rest

-- The loop of `Display`, from the character with the number `i` on.
unfoldable pub spaced : ℕ → Text → Text
spaced i [] = []
spaced i (c ∷ s) =
    let rest = c ∷ spaced (i + 1) s in
    if ltb 0 i && i % 20 == 0 then 10 ∷ rest else if ltb 0 i && i % 4 == 0 then 32 ∷ rest else rest

module _ (lib : Hex) where
  abbrev pub hex : Fingerprint → Text
  hex fp = lib.encode_upper fp.bytes

  -- `Display`
  abbrev pub to_string : Fingerprint → Text
  to_string fp = spaced 0 (hex fp)

  unfoldable pub from_str : Text → Option Fingerprint
  from_str input = elim (lib.decode (keep is_hex_digit (lib.to_uppercase input))) [
    | none ↦ none
    | some v ↦ new v
  ]
