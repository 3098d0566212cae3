-- ===== src/Fingerprint/Tests.antt =====
-- A fingerprint through both text forms.
use juttmy_core.Prelude.{
  ℕ, ◌+◌, ◌-◌, ◌*◌, ◌/◌, ◌%◌, Text, codes, ltb, if◌then◌else◌, Option, none, some, List, [], ◌∷◌,
  ◌≡◌, refl,
}
use juttmy_core.Fingerprint.{Hex, Fingerprint, hex, to_string, from_str, spaced}
use juttmy_core.Fingerprint.Display.{IsHex, from_str-to_string_lem}

abbrev digit : ℕ → ℕ
digit n = if ltb n 10 then 48 + n else 55 + n

abbrev value : ℕ → ℕ
value c = if ltb c 58 then c - 48 else c - 55

abbrev encode_upper : List ℕ → Text
encode_upper [] = []
encode_upper (b ∷ v) = digit (b / 16) ∷ digit (b % 16) ∷ encode_upper v

abbrev decode : Text → Option (List ℕ)
decode [] = some []
decode (c ∷ []) = none
decode (c ∷ d ∷ s) = elim (decode s) [ none ↦ none | some v ↦ some ((value c * 16 + value d) ∷ v) ]

abbrev plain_hex : Hex
plain_hex = record { encode_upper = encode_upper; decode = decode; to_uppercase = λ s. s }

abbrev twenty : Fingerprint
twenty = record {
  bytes =
      0 ∷ 255 ∷ 16 ∷ 171 ∷ 4 ∷ 5 ∷ 6 ∷ 7 ∷ 8 ∷ 9 ∷ 10 ∷ 11 ∷ 12 ∷ 13 ∷ 14 ∷ 15 ∷ 16 ∷ 17 ∷ 18 ∷ 19
      ∷ [];
}

to_string-twenty :
    to_string plain_hex twenty ≡ codes "00FF 10AB 0405 0607 0809\n0A0B 0C0D 0E0F 1011 1213"
unfolding spaced
to_string-twenty = refl

twenty-IsHex : IsHex plain_hex (twenty.bytes)
twenty-IsHex = record {
  digits = (
    refl,
    (
      refl,
      (
        refl,
        (
          refl,
          (
            refl,
            (
              refl,
              (
                refl,
                (
                  refl,
                  (
                    refl,
                    (
                      refl,
                      (
                        refl,
                        (
                          refl,
                          (
                            refl,
                            (
                              refl,
                              (
                                refl,
                                (
                                  refl,
                                  (
                                    refl,
                                    (
                                      refl,
                                      (
                                        refl,
                                        (
                                          refl,
                                          (
                                            refl,
                                            (
                                              refl,
                                              (
                                                refl,
                                                (
                                                  refl,
                                                  (
                                                    refl,
                                                    (
                                                      refl,
                                                      (
                                                        refl,
                                                        (
                                                          refl,
                                                          (
                                                            refl,
                                                            (
                                                            refl,
                                                            (
                                                            refl,
                                                            (
                                                            refl,
                                                            (
                                                            refl,
                                                            (
                                                            refl,
                                                            (
                                                            refl,
                                                            (
                                                            refl,
                                                            (refl, (refl, (refl, (refl, tt)))),
                                                            ),
                                                            ),
                                                            ),
                                                            ),
                                                            ),
                                                            ),
                                                            ),
                                                          ),
                                                        ),
                                                      ),
                                                    ),
                                                  ),
                                                ),
                                              ),
                                            ),
                                          ),
                                        ),
                                      ),
                                    ),
                                  ),
                                ),
                              ),
                            ),
                          ),
                        ),
                      ),
                    ),
                  ),
                ),
              ),
            ),
          ),
        ),
      ),
    ),
  );
  decode-encode_upper = refl;
  to_uppercase-Upper = λ s h. refl;
}

from_str-to_string_lem_example :
    (from_str plain_hex (hex plain_hex twenty) ≡ some twenty)
    × (from_str plain_hex (to_string plain_hex twenty) ≡ some twenty)
from_str-to_string_lem_example = from_str-to_string_lem plain_hex twenty twenty-IsHex refl
