-- ===== src/Securejoin/Tests.antt =====
-- A run of the handshake, and its theorems at concrete inputs. Keys and fingerprints are numbers.
use juttmy_core.Prelude.{
  ℕ, pos, Text, codes, ◌≡◌, ◌≢◌, refl, true, false, Option, none, some, nat_eq, subst, [], ◌∷◌, All,
  ◌⊎◌,
}
use juttmy_core.Peerstate.{set_verified}
use juttmy_core.Peerstate.Saving.{
  Row, Codec, select_print, select, find, from_row, save_to_db, from_addr, from_fingerprint,
}
use juttmy_core.Securejoin.{
  World, Env, Mime, Scan, ask_verify_contact, not_active, auth_required, ok, ignore, panic,
  encrypted_and_signed, fingerprint_equals_sender, mark_peer_as_verified,
}
use juttmy_core.Securejoin.Changes.{Idle}
use juttmy_core.Securejoin.Changes.Handle.{Handling, handle_securejoin_handshake-Change}
use juttmy_core.Securejoin.Secrecy.{IsEncrypted}
use juttmy_core.Securejoin.Encryption.{handle_securejoin_handshake-IsEncrypted}
use juttmy_core.Qr.{Outside, normalize_address}
use juttmy_core.Qr.Check.{check_qr}
use juttmy_core.Qr.Decode.{decode_openpgp, split_once, replace, read_payload, fill, ask}
use juttmy_core.Params.{split_key, parse_entry, set, get}
use juttmy_core.Params
use juttmy_core.Params.Keys.{letter, from_u8}
use juttmy_core.Address.{rsplit, any_char, addr_normalize, may_be_valid_addr}
use juttmy_core.Address
use juttmy_core.Securejoin.Joining.{
  Joiner, dc_join_securejoin, Waiter, wait_round, securejoin, request, take_shortcut, send_request,
  send_and_finish, unwrap_or_panic,
}
use juttmy_core.Securejoin.Joining
use juttmy_core.Securejoin.Session.{
  Reach, started, joined, is_waiting, Reach-ne-panic, wait_round-ne-panic,
}
use juttmy_core.Securejoin.Handle.{handle_securejoin_handshake, dispatch}
use juttmy_core.Securejoin.Steps.{kind_of, join_vg, send}
use juttmy_core.Securejoin.Inviter.{handle_request_with_auth, check_auth, accept}

abbrev parse_number : Text → Option ℕ
parse_number [] = none
parse_number (x ∷ s) = some x

abbrev plain : Codec ℕ ℕ ℕ
plain = record {
  to_bytes = λ k. k;
  from_slice = λ b. some b;
  hex = λ x. x ∷ [];
  parse = parse_number;
}

-- The peer with the contact 10, the key 7 and the fingerprint 70.
abbrev peer : Row ℕ
peer = record {
  addr = codes "peer@b.org";
  last_seen = pos 5;
  last_seen_autocrypt = pos 5;
  prefer_encrypted = pos 0;
  public_key = some 7;
  gossip_timestamp = pos 0;
  gossip_key = none;
  public_key_fingerprint = some (70 ∷ []);
  gossip_key_fingerprint = none;
  verified_key = none;
  verified_key_fingerprint = none;
}

abbrev env : Env ℕ
env = record {
  create_or_lookup = λ c. some (3, true);
  chat_contacts = λ c. 10 ∷ [];
  contact_addr = λ c. some (codes "peer@b.org");
  contact_verified = λ c. some true;
  self_fingerprint = some 80;
  send_msg = λ s. true;
  group_chat = λ g. none;
  is_self_addr = λ a. some true;
}

abbrev scan : Scan ℕ
scan = record {
  state = ask_verify_contact;
  id = 10;
  text2 = none;
  fingerprint = some 70;
  invitenumber = some (codes "i");
  auth = some (codes "secret");
}

abbrev bob : World ℕ ℕ
bob = record {
  expects = auth_required;
  qr_scan = some scan;
  peers = peer ∷ [];
  invitenumbers = [];
  auths = [];
  log = [];
}

abbrev alice : World ℕ ℕ
alice = record {
  expects = not_active;
  qr_scan = none;
  peers = peer ∷ [];
  invitenumbers = codes "i" ∷ [];
  auths = codes "secret" ∷ [];
  log = [];
}

abbrev message : Text → Mime ℕ
message step = record {
  secure_join = some step;
  invitenumber = some (codes "i");
  fingerprint = some (70 ∷ []);
  auth = some (codes "secret");
  group = none;
  member_added = none;
  was_encrypted = true;
  signatures = 70 ∷ [];
}

-- Alice takes the secret, and the peer is verified.
accepted_run :
    (handle_securejoin_handshake plain env (message (codes "vc-request-with-auth")) 10 alice).0
    ≡ ok ignore
unfolding handle_securejoin_handshake dispatch kind_of join_vg handle_request_with_auth check_auth
    accept send mark_peer_as_verified fingerprint_equals_sender from_addr from_fingerprint
    select_print select find from_row save_to_db set_verified encrypted_and_signed
accepted_run = refl

handle_securejoin_handshake-Change_example :
    Idle alice
      (handle_securejoin_handshake plain env (message (codes "vc-request-with-auth")) 10 alice).1
    ⊎ Handling plain env
        (message (codes "vc-request-with-auth"))
        10
        alice
        (handle_securejoin_handshake plain env (message (codes "vc-request-with-auth")) 10 alice).1
handle_securejoin_handshake-Change_example =
    handle_securejoin_handshake-Change plain env (message (codes "vc-request-with-auth")) 10 alice

handle_securejoin_handshake-IsEncrypted_example :
    All IsEncrypted
      (handle_securejoin_handshake plain env (message (codes "vc-auth-required")) 10 bob).1.log
handle_securejoin_handshake-IsEncrypted_example =
    handle_securejoin_handshake-IsEncrypted plain env (message (codes "vc-auth-required")) 10 bob tt

-- A code that is scanned when nothing was scanned, and a message afterwards.
abbrev outside : Outside
outside = record {
  to_lowercase = λ s. s;
  percent_decode = λ s. some s;
  url_parse = λ u. none;
  vcard_name = λ q. none;
  vcard_email = λ q. none;
  add_or_lookup = λ name addr. some 10;
  create_or_lookup = λ id. some 3;
}

abbrev joiner : Joiner
joiner = record {
  alloc_ongoing = true;
  shall_stop_ongoing = false;
  create_by_contact_id = λ id. some 3;
}

abbrev idle_bob : World ℕ ℕ
idle_bob = record bob { expects = not_active; qr_scan = none }

abbrev code : Text
code = codes "OPENPGP4FPR:F#a=peer@b.org&n=&i=1&s=2"

Reach-ne-panic_example :
    ((dc_join_securejoin plain outside env joiner code
        (dc_join_securejoin plain outside env joiner code idle_bob).0.1).0.0
      ≢ Joining.panic)
    × ((handle_securejoin_handshake plain env
          (message (codes "vc-auth-required"))
          10
          (dc_join_securejoin plain outside env joiner code idle_bob).0.1).0
        ≢ panic)
Reach-ne-panic_example =
    Reach-ne-panic plain outside (dc_join_securejoin plain outside env joiner code idle_bob).0.1
      (is_waiting plain outside (dc_join_securejoin plain outside env joiner code idle_bob).0.0) env
      joiner code (message (codes "vc-auth-required")) 10
      (joined env joiner code (started idle_bob refl)) (λ e. cc)

abbrev stopped_waiter : Waiter
stopped_waiter = record { stopped = true; get_chat_id_by_grpid = λ g. none; elapsed = false }

-- The code of a group is scanned: the join waits for the chat of the group.
abbrev code_of_group : Text
code_of_group = codes "OPENPGP4FPR:F#a=peer@b.org&g=G&x=X&i=1&s=2"

abbrev waiting_bob : World ℕ ℕ
waiting_bob = (dc_join_securejoin plain outside env joiner code_of_group idle_bob).0.1

join-group_code :
    is_waiting plain outside
      (dc_join_securejoin plain outside env joiner code_of_group idle_bob).0.0
    ≡ true
unfolding dc_join_securejoin securejoin request fingerprint_equals_sender take_shortcut send_request
    send_and_finish unwrap_or_panic select_print select find from_row check_qr decode_openpgp
    split_once replace Params.from_str split_key parse_entry from_u8 set letter read_payload get
    normalize_address addr_normalize may_be_valid_addr Address.from_str rsplit any_char Address.find
    fill ask from_addr
join-group_code = refl

waiting_bob-Reach : Reach plain outside waiting_bob true
waiting_bob-Reach =
    subst (Reach plain outside waiting_bob) join-group_code
      (joined env joiner code_of_group (started idle_bob refl))

wait_round-ne-panic_example : (wait_round stopped_waiter waiting_bob).0 ≢ Joining.panic
wait_round-ne-panic_example =
    wait_round-ne-panic plain outside waiting_bob stopped_waiter waiting_bob-Reach
