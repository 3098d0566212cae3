-- ===== src/Lib.antt =====
-- The core of juttmy-core, a chat engine over e-mail: how it learns the keys of its peers, how
-- two devices verify each other's keys by scanning a QR code, and how it cleans the text of a
-- mail.
--
-- Peerstate (src/peerstate.rs, with the types of src/aheader.rs) keeps for each address the keys
-- that Autocrypt headers and gossip headers brought, which of them was verified, and what has to
-- be saved. `Peerstate.antt` has the record and its operations under the names of the source;
-- `Peerstate/Saving.antt` the table `acpeerstates` as a list of rows, with `from_addr`,
-- `from_fingerprint` and `save_to_db`; `Peerstate/Consistency.antt` the states that the
-- operations lead to; `Peerstate/Headers.antt`, `Peerstate/Verified.antt`,
-- `Peerstate/Saving/Tracking.antt` and `Peerstate/Saving/Persist.antt` are on headers,
-- verification and saving.
--
-- E2ee (src/e2ee.rs) uses these states: `E2ee.antt` has the decision whether a message is
-- encrypted and the keys it is encrypted with, followed in `E2ee/Votes.antt` and
-- `E2ee/Keyring.antt`; `E2ee/Decrypt.antt` what a received message does to the stored state of
-- its sender, followed in `E2ee/Decrypt/Reset.antt` with `Peerstate/Saving/Lookup.antt`.
--
-- Contact (src/contact.rs) keeps the names of addresses: `Contact.antt` has the table of contacts
-- with `add_or_lookup`, `Contact/Columns.antt`, `Contact/Rows.antt` and `Contact/Names.antt` what
-- it leaves; `Contact/Lookup.antt` has the lookup by address.
--
-- ServerParams (src/configure/server_params.rs) is the list of servers to try:
-- `ServerParams.antt` has the expansion, `ServerParams/Sockets.antt` and
-- `ServerParams/Expansion.antt` what it yields.
--
-- Securejoin (src/securejoin.rs, with src/token.rs) handles the messages of the setup-contact and
-- the verified-group protocols. `Securejoin.antt` has its types and the checks of one message;
-- `Securejoin/Inviter.antt` and `Securejoin/Joiner.antt` the arms of
-- `handle_securejoin_handshake` for the two sides, each arm one function and each part of an arm
-- behind a check a function of its own; `Securejoin/Handle.antt` composes them and has
-- `observe_securejoin_on_other_device`. The state that an arm reads and writes is the record
-- `World`: what Bob expects and has scanned, the table of peers, the tokens, and a log of what is
-- handed to the rest of the program. An arm works on the peers by `mark_peer_as_verified`, that
-- is by `set_verified` and `save_to_db` of Peerstate. The chats, contacts and the sending of
-- messages are the functions of the record `Env`. A panic of `unwrap` is an outcome of its own.
-- `Securejoin/Changes.antt`, `Securejoin/Replies.antt`, `Securejoin/Secrecy.antt` and
-- `Securejoin/Encryption.antt` are on what an arm changes and sends.
--
-- Simplify (src/simplify.rs) and FormatFlowed (src/format_flowed.rs) work on the text of a mail.
-- `Simplify.antt` and `FormatFlowed.antt` have the functions of the two files, with each loop as
-- a function on the rest of the lines or characters and the variables of the loop as its
-- arguments or as a record; `Simplify/Escaping.antt`, `Simplify/Footer.antt`,
-- `Simplify/Marks.antt`, `Simplify/Cutting.antt`, `Simplify/Rendering.antt`,
-- `Simplify/Shown.antt` and `Simplify/Chat.antt` follow a chat message, and
-- `FormatFlowed/Lines.antt`, `FormatFlowed/Buffer.antt`, `FormatFlowed/Breaking.antt`,
-- `FormatFlowed/Formatting.antt` and `FormatFlowed/RoundTrip.antt` a text that is broken and
-- joined.
--
-- Params (src/param.rs) is the map of parameters that messages, chats and jobs store as text.
-- `Params/Keys.antt` has the keys and their letters, `Params.antt` the map as a list of entries
-- in the order of the keys (as a `BTreeMap` iterates them), its text and the parser, whose two
-- loops are one function on the lines with the key and value read so far; `Params/Map.antt` has
-- the order of the entries, `Params/Lines.antt`, `Params/Reading.antt` and
-- `Params/RoundTrip.antt` on the text.
--
-- Smearing (src/dc_tools.rs) gives sent messages their timestamps: `Smearing.antt` has the three
-- functions, which take the time and the last timestamp and return the new last one with their
-- result; `Smearing/Stamps.antt` sequences of calls.
--
-- Qr (src/qr.rs, with src/lot.rs) reads a scanned code. `Qr.antt` has the lots and what the
-- decoders use of other crates and of the contacts, the record `Outside`; `Qr/Decode.antt` the
-- codes of fingerprints, by the steps of `decode_openpgp`; `Qr/Check.antt` the other schemes and
-- `check_qr`. The code comes from `dc_get_securejoin_qr` (src/securejoin.rs), in
-- `Securejoin/Code.antt`, with the tokens of src/token.rs, in `Token.antt`; it leads to
-- `dc_join_securejoin`, in `Securejoin/Joining.antt`, where the wait for the chat of a group is
-- by rounds (`wait_round`), between which messages are handled. `Qr/Texts.antt`,
-- `Qr/Reading.antt`, `Qr/RoundTrip.antt`, `Qr/Codes.antt`, `Params/Fields.antt` and
-- `Token/Lookup.antt` follow a code from the inviter to the lot; `Qr/Invite.antt`,
-- `Securejoin/Fine.antt` and `Securejoin/Session.antt` a lot to the handshake and to the wait.
--
-- Address (`EmailAddress` of src/dc_tools.rs, and src/contact.rs) and Fingerprint (src/key.rs)
-- are the texts that such a code holds, with `Address/Dots.antt`, `Address/Parsing.antt` and
-- `Fingerprint/Display.antt`.
--
-- Accounts (src/accounts.rs) keeps the accounts of a device: `Accounts.antt` has the
-- configuration, the open contexts, the file accounts.toml and the operations on them, with what
-- the file system answers as an argument; `Accounts/Lists.antt`, `Accounts/Consistency.antt`,
-- `Accounts/Reopening.antt`, `Accounts/Steps.antt` and `Accounts/Runs.antt` are on their
-- agreement.
--
-- Message (src/message.rs) has the states of sent messages: `Message.antt` the tables of messages
-- and receipts with what fails a message and what counts a receipt, `Message/Receipts.antt` the
-- receipts of a chat.
--
-- Job (src/job.rs) is the queue of what is to be done on the servers, kept in the table `jobs`.
-- `Job.antt` has the jobs, the rows, and what adds, saves and deletes them; `Job/Loading.antt`
-- the choice of the next job, whose loop runs on fuel: a round that does not end it deletes a
-- row, so one round more than there are rows is enough; `Job/Perform.antt` what is done with a
-- job, with the action as a parameter. `Job/Storing.antt`, `Job/Loading/Order.antt`,
-- `Job/Loading/Rows.antt`, `Job/Loading/Choice.antt`, `Job/Perform/Backoff.antt`,
-- `Job/Perform/Outcome.antt`, `Job/Perform/Late.antt` and `Job/Perform/Rounds.antt` are on these.
--
-- Ephemeral (src/ephemeral.rs) is the timer after which messages are deleted: `Ephemeral.antt`
-- has the type and its integer forms, `Ephemeral/Codes.antt` reads them back.
--
-- The bytes of a key, its fingerprint, the hexadecimal form of a fingerprint and the lower-casing
-- of a text are parameters, since they stand in other crates. Text is a list of code points,
-- numbers are natural numbers or integers over them. Every loop but those of Job, and but the
-- wait of Securejoin, which is modelled by its single rounds, is structural recursion on a list.
--
-- Not modelled: the database connection, the network, the parsing of mails and the cryptography,
-- which other crates do.
pub mod Prelude
pub mod Peerstate
pub mod Contact
pub mod E2ee
pub mod Ephemeral
pub mod Accounts
pub mod Address
pub mod Fingerprint
pub mod FormatFlowed
pub mod Job
pub mod Message
pub mod Qr
pub mod Params
pub mod Securejoin
pub mod ServerParams
pub mod Simplify
pub mod Smearing
pub mod Token
