-- ===== src/Qr/Reading.antt =====
-- qr.rs: how a code of fields is read.
use juttmy_core.Prelude.{
  ℕ, Text, codes, true, false, some, List, [], ◌∷◌, ◌++◌, ◌≡◌, ◌<◌, refl, ap, ◌∙◌, arith, All,
  All-append, Lacks, map, join,
}
use juttmy_core.Address.{addr_normalize, may_be_valid_addr}
use juttmy_core.Params.{parsed, newline, from_str}
use juttmy_core.Params.Keys.{Param, letter, letter_bound}
use juttmy_core.Params.Fields.{field, set_fields, from_str-fields, fields-Lacks}
use juttmy_core.Peerstate.Saving.{Row, Codec, from_fingerprint}
use juttmy_core.Qr.{Outside, normalize_address, starts_with_ignore_case}
use juttmy_core.Qr.Decode.{
  Payload, split_fragment, replace, decode_name, read_payload, fill, decode_openpgp, decode_parts,
}
use juttmy_core.Qr.Check.{check_qr}
use juttmy_core.Qr.Texts.{
  Safe, is_safe, IsLowercase, Safe-Lacks, Safe-Ascii, split_once-parts, replace-Lacks, replace-join,
}
use juttmy_core.Securejoin.Code.{code_of}

-- A text that is encoded in safe characters, and decoded again.
abbrev pub Encodes : Outside → (Text → Text) → Text → Type 0
Encodes out encode s = Safe (encode s) × (out.percent_decode (encode s) ≡ some s)

-- An address that `normalize_address` leaves alone.
abbrev pub IsPlainAddr : Text → Type 0
IsPlainAddr addr = (addr_normalize addr ≡ addr) × (may_be_valid_addr addr ≡ true)

starts_with_scheme :
    (out : Outside) (s : Text)
    → IsLowercase out.to_lowercase
    → All (λ c. c < 128) s
    → starts_with_ignore_case out (codes "OPENPGP4FPR:" ++ s) (codes "OPENPGP4FPR:") ≡ true
starts_with_scheme out s low ascii =
    let scheme : All (λ c. c < 128) (codes "OPENPGP4FPR:") = (
      omega arith,
      (
        omega arith,
        (
          omega arith,
          (
            omega arith,
            (
              omega arith,
              (
                omega arith,
                (
                  omega arith,
                  (omega arith, (omega arith, (omega arith, (omega arith, (omega arith, tt))))),
                ),
              ),
            ),
          ),
        ),
      ),
    ) in
    rw
      (
        low (codes "OPENPGP4FPR:") scheme,
        low (codes "OPENPGP4FPR:" ++ s)
            (All-append (λ c. c < 128) (codes "OPENPGP4FPR:") s scheme ascii),
      )
      refl

-- Values of safe characters.
abbrev Values : List (Param × Text) → Type 0
Values fields = All (λ f. (letter (f.0) < 128) × Safe (f.1)) fields

Values-Lacks :
    (b : ℕ) (fields : List (Param × Text))
    → is_safe b ≡ false
    → Values fields
    → All (λ f. Lacks b (f.1)) fields
Values-Lacks b [] unsafe h = tt
Values-Lacks b ((k, v) ∷ fields) unsafe ((_, hv), h) =
    (Safe-Lacks b v unsafe hv, Values-Lacks b fields unsafe h)

join-Ascii :
    (fields : List (Param × Text))
    → Values fields
    → All (λ c. c < 128) (join (38 ∷ []) (map field fields))
join-Ascii [] h = tt
join-Ascii ((k, v) ∷ []) ((hk, hv), h) = (hk, (omega arith, Safe-Ascii v hv))
join-Ascii ((k, v) ∷ f ∷ fields) ((hk, hv), h) =
    All-append (λ c. c < 128) (field (k, v) ++ 38 ∷ []) (join (38 ∷ []) (map field (f ∷ fields)))
      (hk, (omega arith, All-append (λ c. c < 128) v (38 ∷ []) (Safe-Ascii v hv) (omega arith, tt)))
      (join-Ascii (f ∷ fields) h)

-- The fragment, read as parameters.
fragment_read :
    (f : Param × Text) (fields : List (Param × Text))
    → Values (f ∷ fields)
    → from_str (replace 38 (newline ∷ []) (join (38 ∷ []) (map field (f ∷ fields))))
      ≡ parsed (set_fields [] (f ∷ fields))
fragment_read f fields h =
    ap from_str (
      replace-join 38 (newline ∷ []) (map field (f ∷ fields)) (
        fields-Lacks 38 (λ e. omega (arith, e)) (λ k e. omega (arith, e, letter_bound k))
          (f ∷ fields) (Values-Lacks 38 (f ∷ fields) refl h)))
    ∙ from_str-fields f fields (Values-Lacks newline (f ∷ fields) refl h)
        (Values-Lacks 13 (f ∷ fields) refl h)

split_fragment-parts : (s t : Text) → Safe s → split_fragment (s ++ 35 ∷ t) ≡ (s, t)
split_fragment-parts s t safe =
    rw (split_fragment, split_once-parts 35 s t (Safe-Lacks 35 s refl safe)) refl

pub normalized :
    (out : Outside) (encode : Text → Text) (addr : Text)
    → Encodes out encode addr
    → IsPlainAddr addr
    → normalize_address out (encode addr) ≡ some addr
unfolding normalize_address
normalized out encode addr (safe, back) (same, valid) =
    rw (normalize_address, back, same, valid) refl

pub name_decoded :
    (out : Outside) (encode : Text → Text) (name : Text)
    → Encodes out encode name
    → decode_name out (encode name) ≡ some name
name_decoded out encode name (safe, back) =
    rw
      (
        decode_name,
        replace-Lacks 43 (codes "%20") (encode name) (Safe-Lacks 43 (encode name) refl safe),
      )
      back

module _ {Key Fpr Blob : Type 0} (codec : Codec Key Fpr Blob) (out : Outside)
    (low : IsLowercase out.to_lowercase) (peers : List (Row Blob)) where
  decoded :
      (fp : Fpr) (f : Param × Text) (fields : List (Param × Text)) (payload : Payload Fpr)
      → codec.parse (codec.hex fp) ≡ some fp
      → Safe (codec.hex fp)
      → Values (f ∷ fields)
      → read_payload codec out fp (set_fields [] (f ∷ fields)) ≡ some payload
      → decode_openpgp codec out (code_of (codec.hex fp) (map field (f ∷ fields))) peers
        ≡ fill codec out payload (from_fingerprint codec fp peers)
  unfolding decode_openpgp
  decoded fp f fields payload same safe h e =
      let fragment = join (38 ∷ []) (map field (f ∷ fields)) in
      ap (λ parts. decode_parts codec out parts peers)
        (split_fragment-parts (codec.hex fp) fragment safe)
      ∙ rw (same, fragment_read f fields h, e) refl

  pub check_qr-code :
      (fp : Fpr) (f : Param × Text) (fields : List (Param × Text)) (payload : Payload Fpr)
      → codec.parse (codec.hex fp) ≡ some fp
      → Safe (codec.hex fp)
      → Values (f ∷ fields)
      → read_payload codec out fp (set_fields [] (f ∷ fields)) ≡ some payload
      → check_qr codec out (code_of (codec.hex fp) (map field (f ∷ fields))) peers
        ≡ fill codec out payload (from_fingerprint codec fp peers)
  unfolding check_qr
  check_qr-code fp f fields payload same safe h e =
      let fragment = join (38 ∷ []) (map field (f ∷ fields)) in
      let scheme = starts_with_scheme out (codec.hex fp ++ 35 ∷ fragment) low (
        All-append (λ c. c < 128) (codec.hex fp) (35 ∷ fragment) (Safe-Ascii (codec.hex fp) safe)
          (omega arith, join-Ascii (f ∷ fields) h)) in
      rw scheme (decoded fp f fields payload same safe h e)
