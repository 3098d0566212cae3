-- ===== src/Qr/Tests.antt =====
-- Codes that are scanned, and the theorems at concrete inputs. Fingerprints are one character, and
-- the encoding writes `@` as `%`.
use juttmy_core.Prelude.{
  ℕ, ◌==◌, Text, codes, if◌then◌else◌, false, Option, none, some, [], ◌∷◌, map, ◌≡◌, ◌⊎◌, refl,
  arith,
}
use juttmy_core.Address.{from_str, rsplit, find, any_char, addr_normalize, may_be_valid_addr}
use juttmy_core.Peerstate.Saving.{Codec}
use juttmy_core.Securejoin.Code.{Inviter, contact_code, group_code, dc_get_securejoin_qr}
use juttmy_core.Securejoin.Joining.{asks, state_of}
use juttmy_core.Params.{split_key, parse_entry, set, get}
use juttmy_core.Params
use juttmy_core.Params.Keys.{letter, from_u8}
use juttmy_core.Qr.Decode.{decode_openpgp, split_once, replace, read_payload, fill, ask}
use juttmy_core.Qr.{Outside, normalize_address, from_text}
use juttmy_core.Qr.Check.{check_qr}
use juttmy_core.Qr.Invite.{IsAsking, check_qr-IsAsking}
use juttmy_core.Qr.Texts.{lower}
use juttmy_core.Qr.Reading.{IsPlainAddr}
use juttmy_core.Qr.RoundTrip.{IsReadable, contact_lot, group_lot}
use juttmy_core.Qr.Codes.{
  Reads, number, secret, dc_get_securejoin_qr-contact, dc_get_securejoin_qr-group,
}

abbrev parse_print : Text → Option ℕ
parse_print [] = none
parse_print (x ∷ s) = some x

abbrev codec : Codec ℕ ℕ ℕ
codec = record {
  to_bytes = λ k. k;
  from_slice = λ b. some b;
  hex = λ x. x ∷ [];
  parse = parse_print;
}

abbrev encode : Text → Text
encode s = map (λ c. if c == 64 then 37 else c) s

abbrev decode : Text → Option Text
decode s = some (map (λ c. if c == 37 then 64 else c) s)

abbrev out : Outside
out = record {
  to_lowercase = map lower;
  percent_decode = decode;
  url_parse = λ u. none;
  vcard_name = λ q. none;
  vcard_email = λ q. none;
  add_or_lookup = λ name addr. some 10;
  create_or_lookup = λ id. some 3;
}

abbrev inviter : Inviter
inviter = record {
  self_addr = some (codes "alice@example.org");
  self_name = codes "Alice";
  self_fingerprint = some (70 ∷ []);
  load_chat = λ c. some (codes "team", codes "g1");
  encode_without_dot = encode;
  encode = encode;
}

abbrev addr : Text
addr = codes "alice@example.org"

plain_addr : IsPlainAddr addr
unfolding addr_normalize may_be_valid_addr from_str rsplit any_char find
plain_addr = (refl, refl)

readable : IsReadable codec out inviter 70 addr
readable = record {
  lowercase = λ s ascii. refl;
  parse-hex = refl;
  safe_hex = (refl, tt);
  encoded = (
    (
      refl,
      (
        refl,
        (
          refl,
          (
            refl,
            (
              refl,
              (
                refl,
                (
                  refl,
                  (
                    refl,
                    (refl, (refl, (refl, (refl, (refl, (refl, (refl, (refl, (refl, tt))))))))),
                  ),
                ),
              ),
            ),
          ),
        ),
      ),
    ),
    refl,
  );
  plain = plain_addr;
}

dc_get_securejoin_qr-contact_example :
    Reads codec out inviter
      (contact_code inviter addr
        (codec.hex 70)
        (number (codes "n1") (codes "s1") 0 []).0
        (secret (codes "n1") (codes "s1") 0 []).0)
      (secret (codes "n1") (codes "s1") 0 []).1
      (number (codes "n1") (codes "s1") 0 []).0
      (secret (codes "n1") (codes "s1") 0 []).0
      (contact_lot out inviter 70 addr
        (number (codes "n1") (codes "s1") 0 []).0
        (secret (codes "n1") (codes "s1") 0 []).0)
      []
      (dc_get_securejoin_qr inviter (codes "n1") (codes "s1") 0 [])
dc_get_securejoin_qr-contact_example =
    dc_get_securejoin_qr-contact codec out inviter 70 addr (codes "n1") (codes "s1") [] [] readable
      refl refl ((refl, (refl, (refl, (refl, (refl, tt))))), refl) (refl, (refl, tt))
      (refl, (refl, tt)) tt

dc_get_securejoin_qr-group_example :
    Reads codec out inviter
      (group_code inviter addr
        (codec.hex 70)
        (codes "team", codes "g1")
        (number (codes "n1") (codes "s1") 5 []).0
        (secret (codes "n1") (codes "s1") 5 []).0)
      (secret (codes "n1") (codes "s1") 5 []).1
      (number (codes "n1") (codes "s1") 5 []).0
      (secret (codes "n1") (codes "s1") 5 []).0
      (group_lot out inviter 70 addr
        (number (codes "n1") (codes "s1") 5 []).0
        (secret (codes "n1") (codes "s1") 5 []).0
        (codes "team")
        (codes "g1"))
      []
      (dc_get_securejoin_qr inviter (codes "n1") (codes "s1") 5 [])
dc_get_securejoin_qr-group_example =
    dc_get_securejoin_qr-group codec out inviter 70 addr (codes "n1") (codes "s1") [] [] 5
      (codes "team") (codes "g1") readable refl refl (λ e. omega (arith, e)) refl
      ((refl, (refl, (refl, (refl, tt)))), refl) (refl, (refl, tt)) (refl, (refl, tt))
      (refl, (refl, tt)) tt

check_qr-IsAsking_example :
    (asks (
        state_of
          (check_qr codec out (codes "OPENPGP4FPR:F#a=alice%example.org&n=&i=1&s=2") []).0.state)
      ≡ false)
    ⊎ IsAsking (check_qr codec out (codes "OPENPGP4FPR:F#a=alice%example.org&n=&i=1&s=2") []).0
check_qr-IsAsking_example =
    check_qr-IsAsking codec out (codes "OPENPGP4FPR:F#a=alice%example.org&n=&i=1&s=2") []

check_qr-contact :
    (check_qr codec out (codes "OPENPGP4FPR:F#a=alice%example.org&n=Alice&i=1&s=2") []).0
    ≡ (contact_lot out inviter 70 addr (codes "1") (codes "2")).0
unfolding check_qr decode_openpgp split_once replace Params.from_str split_key parse_entry from_u8
    set letter read_payload get normalize_address addr_normalize may_be_valid_addr from_str rsplit
    any_char find fill ask
check_qr-contact = refl

check_qr-text : (check_qr codec out (codes "hello") []).0 ≡ (from_text (codes "hello")).0
unfolding check_qr
check_qr-text = refl
