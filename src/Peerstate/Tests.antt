-- ===== src/Peerstate/Tests.antt =====
-- Runs of the peer state, and its theorems at concrete inputs. Keys and fingerprints are numbers.
use juttmy_core.Prelude.{
  ℕ, ◌+◌, pos, Text, codes, ◌≡◌, ◌⊎◌, refl, true, false, Option, none, some, nat_eq, arith, [], ◌∷◌,
}
use juttmy_core.Peerstate.{
  Aheader, Peerstate, mutual_preference, from_header, apply_header, recalc_fingerprint,
  recalc_public, recalc_gossip, take_preference, take_public_key, set_verified, peek_key,
  has_verified_key, member, public_key, bidirect_verified, unverified, take_key,
}
use juttmy_core.Peerstate.Consistency.{IsConsistent, Step, Reach, Reach-IsConsistent}
use juttmy_core.Peerstate.Consistency
use juttmy_core.Peerstate.Headers.{Fresh, apply_header-Fresh, apply_header_replay}
use juttmy_core.Peerstate.Verified.{set_verified_lem, attested, verified-attested}
use juttmy_core.Peerstate.Saving.{Codec, to_row, select, from_addr, save_to_db}
use juttmy_core.Peerstate.Saving.Persist.{
  ReadsBack, loaded, from_addr-save_to_db, from_addr-save_to_db_create,
}

abbrev print : ℕ → ℕ
print k = k + 100

abbrev same_case : Text → Text
same_case s = s

abbrev header_with : ℕ → Aheader ℕ
header_with k = record {
  addr = codes "a@b.org";
  public_key = k;
  prefer_encrypt = mutual_preference;
}

abbrev alice : Peerstate ℕ ℕ
alice = from_header print (header_with 1) (pos 10)

abbrev start : Reach {Fpr = ℕ} print same_case alice
start = Consistency.from_header (header_with 1) (pos 10)

abbrev newer : Peerstate ℕ ℕ
newer = apply_header print same_case alice (header_with 2) (pos 20)

newer_changed : (newer.fingerprint_changed ≡ true) × (newer.public_key_fingerprint ≡ some 102)
unfolding apply_header take_preference take_public_key recalc_fingerprint recalc_public
    recalc_gossip from_header
newer_changed = (refl, refl)

peeked : (peek_key alice unverified ≡ some 1) × (take_key alice bidirect_verified ≡ none)
unfolding peek_key take_key from_header
peeked = (refl, refl)

Reach-IsConsistent_example : IsConsistent print newer
Reach-IsConsistent_example =
    Reach-IsConsistent print same_case
      (Consistency.next start (Consistency.header (header_with 2) (pos 20)))

apply_header-Fresh_example : Fresh print same_case alice newer (header_with 2) 1 (pos 20)
unfolding from_header
apply_header-Fresh_example =
    apply_header-Fresh print same_case alice (header_with 2) 1 (pos 20)
      (Reach-IsConsistent print same_case start) refl refl refl

apply_header_replay_example : apply_header print same_case newer (header_with 1) (pos 20) ≡ newer
unfolding from_header
apply_header_replay_example =
    apply_header_replay print same_case alice (header_with 2) (header_with 1) (pos 20) (pos 20) refl
      (omega arith)

abbrev checked : Peerstate ℕ ℕ
checked = (set_verified alice public_key 101 bidirect_verified).0

set_verified_lem_example :
    (((set_verified alice public_key 101 bidirect_verified).1 ≡ false) × (checked ≡ alice))
    ⊎ (((set_verified alice public_key 101 bidirect_verified).1 ≡ true)
        × ((k : ℕ) × (peek_key checked bidirect_verified ≡ some k)
            × (print k ≡ 101)
            × (has_verified_key checked (101 ∷ []) ≡ true)))
set_verified_lem_example =
    set_verified_lem print alice public_key 101 bidirect_verified
      (Reach-IsConsistent print same_case start)

abbrev verification : Reach {Fpr = ℕ} print same_case checked
verification = Consistency.next start (Consistency.verify public_key 101 bidirect_verified)

verified-attested_example : member 101 (attested print same_case verification) ≡ true
unfolding set_verified from_header
verified-attested_example = verified-attested print same_case verification 1 refl

abbrev plain_parse : Text → Option ℕ
plain_parse [] = none
plain_parse (x ∷ s) = some x

-- Keys and fingerprints stored as themselves.
abbrev plain : Codec ℕ ℕ ℕ
plain = record {
  to_bytes = λ k. k;
  from_slice = λ b. some b;
  hex = λ x. x ∷ [];
  parse = plain_parse;
}

plain-ReadsBack : ReadsBack plain
plain-ReadsBack = record { key = λ k. refl; print = λ x. refl }

abbrev stored : Peerstate ℕ ℕ
stored = loaded alice

abbrev stored_newer : Peerstate ℕ ℕ
stored_newer = apply_header print same_case stored (header_with 2) (pos 20)

from_addr-save_to_db_example :
    from_addr plain stored_newer.addr
      (save_to_db plain stored_newer false (to_row plain stored ∷ []))
    ≡ some (loaded stored_newer)
unfolding from_header select to_row
from_addr-save_to_db_example =
    from_addr-save_to_db print same_case plain {p = stored} {q = stored_newer}
      (to_row plain stored ∷ []) plain-ReadsBack refl refl
      (Consistency.header (header_with 2) (pos 20))

from_addr-save_to_db_create_example :
    from_addr plain alice.addr (save_to_db plain alice true []) ≡ some (loaded alice)
unfolding select
from_addr-save_to_db_create_example =
    from_addr-save_to_db_create plain alice [] plain-ReadsBack refl
