-- ===== src/Fingerprint/Display.antt =====
-- key.rs: a fingerprint is read back from its text forms.
use juttmy_core.Prelude.{
  ℕ, ◌+◌, ◌%◌, ◌<◌, Text, ltb, ◌==◌, if_both, true, ◌&&◌, some, List, [], ◌∷◌, length, ◌≡◌, refl,
  arith, All,
}
use juttmy_core.Fingerprint.{
  Hex, Fingerprint, new, is_hex_digit, keep, spaced, hex, to_string, from_str,
}

abbrev pub Digits : Text → Type 0
Digits s = All (λ c. is_hex_digit c ≡ true) s

-- The characters that `to_uppercase` leaves alone.
abbrev pub Upper : Text → Type 0
Upper s = All (λ c. c < 97) s

-- What is documented of the crate, at some bytes, and of `to_uppercase`.
pub record IsHex (lib : Hex) (v : List ℕ) : Type 0 where
  pub digits : Digits (lib.encode_upper v)
  pub decode-encode_upper : lib.decode (lib.encode_upper v) ≡ some v
  pub to_uppercase-Upper : (s : Text) → Upper s → lib.to_uppercase s ≡ s

digit_kept :
    (c : ℕ) (s rest : Text)
    → is_hex_digit c ≡ true
    → keep is_hex_digit s ≡ rest
    → keep is_hex_digit (c ∷ s) ≡ c ∷ rest
unfolding keep
digit_kept c s rest ok e = rw (ok, e) refl

keep-spaced : (i : ℕ) (s : Text) → Digits s → keep is_hex_digit (spaced i s) ≡ s
unfolding spaced keep
keep-spaced i [] h = refl
keep-spaced i (c ∷ s) (ok, h) =
    let rest = digit_kept c (spaced (i + 1) s) s ok (keep-spaced (i + 1) s h) in
    if_both (λ t. keep is_hex_digit t ≡ c ∷ s) (ltb 0 i && i % 20 == 0) rest
      (if_both (λ t. keep is_hex_digit t ≡ c ∷ s) (ltb 0 i && i % 4 == 0) rest rest)

keep-Digits : (s : Text) → Digits s → keep is_hex_digit s ≡ s
unfolding keep
keep-Digits [] h = refl
keep-Digits (c ∷ s) (ok, h) = digit_kept c s s ok (keep-Digits s h)

digit_small : (c : ℕ) → is_hex_digit c ≡ true → c < 97
digit_small c h = ground (arith, h)

Upper-spaced : (i : ℕ) (s : Text) → Digits s → Upper (spaced i s)
unfolding spaced
Upper-spaced i [] h = tt
Upper-spaced i (c ∷ s) (ok, h) =
    let rest : Upper (c ∷ spaced (i + 1) s) = (digit_small c ok, Upper-spaced (i + 1) s h) in
    if_both Upper (ltb 0 i && i % 20 == 0) (omega arith, rest)
      (if_both Upper (ltb 0 i && i % 4 == 0) (omega arith, rest) rest)

Upper-Digits : (s : Text) → Digits s → Upper s
Upper-Digits [] h = tt
Upper-Digits (c ∷ s) (ok, h) = (digit_small c ok, Upper-Digits s h)

module _ (lib : Hex) (fp : Fingerprint) (law : IsHex lib fp.bytes) where
  from_str-text :
      (s : Text)
      → length fp.bytes ≡ 20
      → Upper s
      → keep is_hex_digit s ≡ lib.encode_upper fp.bytes
      → from_str lib s ≡ some fp
  unfolding from_str new
  from_str-text s full upper digits =
      rw (from_str, law.to_uppercase-Upper s upper, digits, law.decode-encode_upper, new, full) refl

  -- A fingerprint of 20 bytes is read back from its digits, and from the text that is shown, which
  -- has a space after four digits and a line break after twenty.
  pub from_str-to_string_lem :
      length fp.bytes ≡ 20
      → (from_str lib (hex lib fp) ≡ some fp) × (from_str lib (to_string lib fp) ≡ some fp)
  from_str-to_string_lem full =
      let digits = law.digits in
      (
        from_str-text (hex lib fp) full (Upper-Digits _ digits) (keep-Digits _ digits),
        from_str-text (to_string lib fp) full (Upper-spaced 0 _ digits) (keep-spaced 0 _ digits),
      )
