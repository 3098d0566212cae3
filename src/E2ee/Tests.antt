-- ===== src/E2ee/Tests.antt =====
-- Encryption decided, done and taken back at concrete inputs. Keys and fingerprints are numbers.
use juttmy_core.Prelude.{
  ℕ, ◌+◌, pos, Text, codes, ◌≡◌, ◌⊎◌, ◌↔◌, refl, true, false, Option, none, some, nat_eq, List, [],
  ◌∷◌,
}
use juttmy_core.Peerstate.{
  EncryptPreference, mutual_preference, no_preference, Peerstate, unverified, take_key,
}
use juttmy_core.Peerstate.Saving.{Codec, select, from_addr, from_row}
use juttmy_core.Peerstate.Saving.Persist.{ReadsBack}
use juttmy_core.E2ee.{
  EncryptHelper, Peer, ok, missing, should_encrypt, count_preferences, encrypt, take_keys,
}
use juttmy_core.E2ee.Votes.{first_missing, Agreed, should_encrypt_iff}
use juttmy_core.E2ee.Keyring.{Covers, encrypt-Covers}
use juttmy_core.E2ee.Decrypt.{
  ParsedMail, Outside, Received, done, from_headers, get_autocrypt_mime, handle_fingerprint_change,
  decrypt_if_autocrypt_message, try_decrypt, take_header, decrypt_after, has_decrypted_pgp_armor,
  decrypt_part,
}
use juttmy_core.E2ee.Decrypt.Reset.{state_after, try_decrypt-from_addr}

abbrev print : ℕ → ℕ
print k = k + 100

abbrev alice : EncryptHelper ℕ
alice = record { prefer_encrypt = mutual_preference; addr = codes "a@a.org"; public_key = 7 }

abbrev bob : EncryptPreference → Peerstate ℕ ℕ
bob preference = record {
  addr = codes "b@b.org";
  last_seen = pos 10;
  last_seen_autocrypt = pos 10;
  prefer_encrypt = preference;
  public_key = some 2;
  public_key_fingerprint = some 102;
  gossip_key = none;
  gossip_timestamp = pos 0;
  gossip_key_fingerprint = none;
  verified_key = none;
  verified_key_fingerprint = none;
  to_save = none;
  fingerprint_changed = false;
}

abbrev two : List (Peer ℕ ℕ)
two =
    (some (bob mutual_preference), codes "b@b.org")
    ∷ (some (bob no_preference), codes "c@c.org")
    ∷ []

abbrev with_stranger : List (Peer ℕ ℕ)
with_stranger = (none, codes "d@d.org") ∷ two

-- Two of three prefer encryption; a stranger's missing key stops it.
decisions :
    (should_encrypt alice false two ≡ ok true)
    × (should_encrypt alice false with_stranger ≡ ok false)
    × (should_encrypt alice true with_stranger ≡ missing (codes "d@d.org"))
unfolding should_encrypt count_preferences
decisions = (refl, refl, refl)

should_encrypt_iff_example :
    ((should_encrypt alice true with_stranger ≡ ok true)
      ↔ ((first_missing with_stranger ≡ none) × ((true ≡ true) ⊎ Agreed 4 1 with_stranger)))
    × ((should_encrypt alice true with_stranger ≡ missing (codes "d@d.org"))
        ↔ ((true ≡ true) × (first_missing with_stranger ≡ some (codes "d@d.org"))))
should_encrypt_iff_example = should_encrypt_iff alice true with_stranger (codes "d@d.org")

abbrev pk_encrypt : Text → List ℕ → Option Text
pk_encrypt mail [] = none
pk_encrypt mail (k ∷ ks) = some (k ∷ mail)

encrypt-Covers_example :
    (ring : List ℕ) × (pk_encrypt (codes "hi") ring ≡ some (2 ∷ codes "hi"))
    × Covers alice.public_key unverified two ring
unfolding should_encrypt count_preferences encrypt take_keys take_key
encrypt-Covers_example =
    encrypt-Covers pk_encrypt alice false unverified (codes "hi") two (2 ∷ codes "hi") refl refl

abbrev parse_print : Text → Option ℕ
parse_print [] = none
parse_print (x ∷ s) = some x

abbrev plain_codec : Codec ℕ ℕ ℕ
plain_codec = record {
  to_bytes = λ k. k;
  from_slice = λ b. some b;
  hex = λ x. x ∷ [];
  parse = parse_print;
}

abbrev outside : Outside ℕ ℕ
outside = record {
  lower = λ s. s;
  contact_of = λ a. some 10;
  pk_decrypt = λ d keys. some (1 ∷ [], 102 ∷ []);
}

abbrev plain_mail : ParsedMail ℕ
plain_mail = record {
  from = codes "B@b.org";
  autocrypt = none;
  mimetype = codes "text/plain";
  subparts = [];
}

abbrev armored : ParsedMail ℕ
armored = record plain_mail {
  mimetype = codes "multipart/encrypted";
  subparts =
      record { mimetype = codes "application/pgp-encrypted"; body = none }
      ∷ record {
        mimetype = codes "application/octet-stream";
        body = some (codes " -----BEGIN PGP MESSAGE-----");
      }
      ∷ [];
}

abbrev known : Received ℕ
known = record {
  acpeerstates =
      record {
        addr = codes "b@b.org";
        last_seen = pos 10;
        last_seen_autocrypt = pos 10;
        prefer_encrypted = pos 1;
        public_key = some 2;
        gossip_timestamp = pos 0;
        gossip_key = none;
        public_key_fingerprint = some (102 ∷ []);
        gossip_key_fingerprint = none;
        verified_key = none;
        verified_key_fingerprint = none;
      }
      ∷ [];
  told = [];
}

plain_codec-ReadsBack : ReadsBack plain_codec
plain_codec-ReadsBack = record { key = λ k. refl; print = λ x. refl }

decrypted :
    (try_decrypt print plain_codec outside armored (pos 20) known).0
    ≡ done (some (1 ∷ [])) (102 ∷ [])
unfolding try_decrypt take_header decrypt_after from_headers get_autocrypt_mime
    handle_fingerprint_change decrypt_if_autocrypt_message decrypt_part has_decrypted_pgp_armor
    from_addr from_row select
decrypted = refl

try_decrypt-from_addr_example :
    from_addr plain_codec
      (codes "B@b.org")
      (try_decrypt print plain_codec outside plain_mail (pos 20) known).1.acpeerstates
    ≡ some (state_after false false (pos 20) (bob mutual_preference))
unfolding try_decrypt take_header decrypt_after from_headers get_autocrypt_mime
    handle_fingerprint_change decrypt_if_autocrypt_message from_addr from_row select
try_decrypt-from_addr_example =
    try_decrypt-from_addr print plain_codec outside plain_mail (pos 20) known
      (bob mutual_preference) none [] plain_codec-ReadsBack refl refl refl
