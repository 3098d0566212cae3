-- ===== src/Peerstate/Saving.antt =====
-- peerstate.rs: the table `acpeerstates`, `save_to_db`, `from_addr` and `from_stmt`.
--
-- The table is a list of rows in the order of insertion. Its column `addr` is declared
-- `COLLATE NOCASE` (sql.rs), so every comparison of addresses in the statements folds the letters
-- A to Z. `to_bytes` and `from_slice` are the serialisation of the OpenPGP library; `hex` and
-- `parse` write and read a fingerprint. Statements do not fail.
pub mod Tracking
pub mod Persist
pub mod Lookup
use juttmy_core.Prelude.{
  ℕ, ◌+◌, ℤ, pos, negsuc, Text, text_eq, ◌≡◌, refl, Bool, true, false, ◌&&◌, ◌||◌, Option, none,
  some, Eq, arith, if◌then◌else◌, List, [], ◌∷◌, ◌++◌, leb, map, eqb_ℤ, is_some, text_eq_self, ap,
  ◌∙◌, sym, Bool-cases, inl, inr,
}
use juttmy_core.Peerstate.{
  Peerstate, EncryptPreference, no_preference, mutual_preference, reset, ToSave, timestamps, all,
  or_else,
}

pub record Row (Blob : Type 0) : Type 0 where
  pub addr : Text
  pub last_seen : ℤ
  pub last_seen_autocrypt : ℤ
  pub prefer_encrypted : ℤ
  pub public_key : Option Blob
  pub gossip_timestamp : ℤ
  pub gossip_key : Option Blob
  pub public_key_fingerprint : Option Text
  pub gossip_key_fingerprint : Option Text
  pub verified_key : Option Blob
  pub verified_key_fingerprint : Option Text

-- SQLite's NOCASE.
abbrev pub fold_case : ℕ → ℕ
fold_case c = if leb b'A' c && leb c b'Z' then c + 32 else c

abbrev pub nocase_eq : Text → Text → Bool
nocase_eq a b = text_eq (map fold_case a) (map fold_case b)

-- `self.prefer_encrypt as i64`
abbrev number_of : EncryptPreference → ℤ
number_of no_preference = pos 0
number_of mutual_preference = pos 1
number_of reset = pos 20

-- `EncryptPreference::from_i32(n).unwrap_or_default()`
abbrev preference_of : ℤ → EncryptPreference
preference_of n =
    if eqb_ℤ n (pos 1) then mutual_preference else if eqb_ℤ n (pos 20) then reset else no_preference

abbrev and_then : {A B : Type 0} → Option A → (A → Option B) → Option B
and_then none g = none
and_then (some a) g = g a

abbrev option_map : {A B : Type 0} → (A → B) → Option A → Option B
option_map g none = none
option_map g (some a) = some (g a)

-- `UPDATE … WHERE addr=?` by a change of the row.
pub update_where :
    {Blob : Type 0} → Text → (Row Blob → Row Blob) → List (Row Blob) → List (Row Blob)
update_where a change [] = []
update_where a change (r ∷ rs) =
    (if nocase_eq r.addr a then change r else r) ∷ update_where a change rs

-- The first row of `SELECT … WHERE addr=?`.
unfoldable pub select : {Blob : Type 0} → Text → List (Row Blob) → Option (Row Blob)
select a [] = none
select a (r ∷ rs) = let rest = select a rs in if nocase_eq r.addr a then some r else rest

-- A test on a column: NULL is not true.
abbrev is_true : Option Bool → Bool
is_true none = false
is_true (some b) = b

-- The first element that passes a test.
unfoldable pub find : {A : Type 0} → (A → Bool) → List A → Option A
find p [] = none
find p (x ∷ xs) = let rest = find p xs in if p x then some x else rest

module _ {Blob : Type 0} where
  -- `WHERE public_key_fingerprint=? COLLATE NOCASE OR gossip_key_fingerprint=? COLLATE NOCASE`
  abbrev pub has_print : Text → Row Blob → Bool
  has_print h r =
      is_true (option_map (λ s. nocase_eq s h) r.public_key_fingerprint)
      || is_true (option_map (λ s. nocase_eq s h) r.gossip_key_fingerprint)

  -- `ORDER BY public_key_fingerprint=? DESC`: the rows where it holds, then the others, then those
  -- where the column is NULL; within each, the order of insertion.
  unfoldable pub select_print : Text → List (Row Blob) → Option (Row Blob)
  select_print h table =
      or_else (find (λ r. is_true (option_map (λ s. text_eq s h) r.public_key_fingerprint)) table) (
        or_else (find (λ r. has_print h r && is_some r.public_key_fingerprint) table)
          (find (has_print h) table))

-- How keys and fingerprints are stored.
pub record Codec (Key Fpr Blob : Type 0) : Type 0 where
  pub to_bytes : Key → Blob
  pub from_slice : Blob → Option Key
  pub hex : Fpr → Text
  pub parse : Text → Option Fpr

module _ {Key Fpr Blob : Type 0} (codec : Codec Key Fpr Blob) where
  -- The values of `paramsv!` in `save_to_db`.
  unfoldable pub to_row : Peerstate Key Fpr → Row Blob
  to_row p = record {
    addr = p.addr;
    last_seen = p.last_seen;
    last_seen_autocrypt = p.last_seen_autocrypt;
    prefer_encrypted = number_of p.prefer_encrypt;
    public_key = option_map codec.to_bytes p.public_key;
    gossip_timestamp = p.gossip_timestamp;
    gossip_key = option_map codec.to_bytes p.gossip_key;
    public_key_fingerprint = option_map codec.hex p.public_key_fingerprint;
    gossip_key_fingerprint = option_map codec.hex p.gossip_key_fingerprint;
    verified_key = option_map codec.to_bytes p.verified_key;
    verified_key_fingerprint = option_map codec.hex p.verified_key_fingerprint;
  }

  -- The closure of `from_stmt`.
  unfoldable pub from_row : Row Blob → Peerstate Key Fpr
  from_row r = record {
    addr = r.addr;
    last_seen = r.last_seen;
    last_seen_autocrypt = r.last_seen_autocrypt;
    prefer_encrypt = preference_of r.prefer_encrypted;
    public_key = and_then r.public_key codec.from_slice;
    public_key_fingerprint = and_then r.public_key_fingerprint codec.parse;
    gossip_key = and_then r.gossip_key codec.from_slice;
    gossip_timestamp = r.gossip_timestamp;
    gossip_key_fingerprint = and_then r.gossip_key_fingerprint codec.parse;
    verified_key = and_then r.verified_key codec.from_slice;
    verified_key_fingerprint = and_then r.verified_key_fingerprint codec.parse;
    to_save = none;
    fingerprint_changed = false;
  }

  unfoldable pub from_addr : Text → List (Row Blob) → Option (Peerstate Key Fpr)
  from_addr a table = option_map from_row (select a table)

  unfoldable pub from_fingerprint : Fpr → List (Row Blob) → Option (Peerstate Key Fpr)
  from_fingerprint fp table = option_map from_row (select_print (codec.hex fp) table)

  -- The statement that sets every column but `addr`.
  abbrev set_all : Peerstate Key Fpr → Row Blob → Row Blob
  set_all p r =
      let new = to_row p in
      record {
        addr = r.addr;
        last_seen = new.last_seen;
        last_seen_autocrypt = new.last_seen_autocrypt;
        prefer_encrypted = new.prefer_encrypted;
        public_key = new.public_key;
        gossip_timestamp = new.gossip_timestamp;
        gossip_key = new.gossip_key;
        public_key_fingerprint = new.public_key_fingerprint;
        gossip_key_fingerprint = new.gossip_key_fingerprint;
        verified_key = new.verified_key;
        verified_key_fingerprint = new.verified_key_fingerprint;
      }

  abbrev set_timestamps : Peerstate Key Fpr → Row Blob → Row Blob
  set_timestamps p r = record r {
    last_seen = p.last_seen;
    last_seen_autocrypt = p.last_seen_autocrypt;
    gossip_timestamp = p.gossip_timestamp;
  }

  -- The test of `to_save`, and the statement that it chooses.
  save_update : Peerstate Key Fpr → Option ToSave → List (Row Blob) → List (Row Blob)
  save_update p (some all) table = update_where p.addr (set_all p) table
  save_update p (some timestamps) table = update_where p.addr (set_timestamps p) table
  save_update p none table = table

  unfoldable pub save_to_db : Peerstate Key Fpr → Bool → List (Row Blob) → List (Row Blob)
  unfolding save_update update_where
  save_to_db p true table = table ++ (to_row p ∷ [])
  save_to_db p false table = save_update p p.to_save table
