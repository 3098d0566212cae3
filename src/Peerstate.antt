-- ===== src/Peerstate.antt =====
-- src/peerstate.rs and the types of src/aheader.rs: the state of an Autocrypt peer.
--
-- Each method is a function on the record `Peerstate` that returns the new record. Keys and
-- fingerprints are those of the OpenPGP library: the types `Key` and `Fpr` with their equality, and
-- the function `fingerprint`, are parameters. So is `str::to_lowercase`, as `lower`. Times are i64
-- seconds that are only compared, so ℤ. The field `context` is not kept in the record.
pub mod Consistency
pub mod Verified
pub mod Saving
mod Tests
pub mod Headers
use juttmy_core.Prelude.{
  ℤ, pos, ltb_ℤ, eqb_ℤ, Text, text_eq, Bool, true, false, not, ◌&&◌, ◌||◌, Option, none, some,
  if◌then◌else◌, is_some, Eq, List, [], ◌∷◌,
}

pub data EncryptPreference : Type 0 where
  no_preference mutual_preference reset : EncryptPreference

pub data PeerstateKeyType : Type 0 where
  gossip_key public_key : PeerstateKeyType

pub data PeerstateVerifiedStatus : Type 0 where
  unverified bidirect_verified : PeerstateVerifiedStatus

pub data ToSave : Type 0 where
  timestamps all : ToSave

-- The derived `PartialEq`.
abbrev pub preference_eq : EncryptPreference → EncryptPreference → Bool
preference_eq no_preference no_preference = true
preference_eq mutual_preference mutual_preference = true
preference_eq reset reset = true
preference_eq _ _ = false

pub record Aheader (Key : Type 0) : Type 0 where
  pub addr : Text
  pub public_key : Key
  pub prefer_encrypt : EncryptPreference

pub record Peerstate (Key Fpr : Type 0) : Type 0 where
  pub addr : Text
  pub last_seen : ℤ
  pub last_seen_autocrypt : ℤ
  pub prefer_encrypt : EncryptPreference
  pub public_key : Option Key
  pub public_key_fingerprint : Option Fpr
  pub gossip_key : Option Key
  pub gossip_timestamp : ℤ
  pub gossip_key_fingerprint : Option Fpr
  pub verified_key : Option Key
  pub verified_key_fingerprint : Option Fpr
  pub to_save : Option ToSave
  pub fingerprint_changed : Bool

-- `==` on an `Option`.
abbrev pub option_eq : {A : Type 0} ⦃e : Eq A⦄ → Option A → Option A → Bool
option_eq none none = true
option_eq none (some b) = false
option_eq (some a) none = false
option_eq ⦃e⦄ (some a) (some b) = e.beq a b

-- `a.or_else(|| b)`
abbrev pub or_else : {A : Type 0} → Option A → Option A → Option A
or_else none k = k
or_else (some k) _ = some k

-- `HashSet::contains`
abbrev pub member : {A : Type 0} ⦃e : Eq A⦄ → A → List A → Bool
member f [] = false
member ⦃e⦄ f (g ∷ gs) = e.beq f g || member f gs

module _ {Key Fpr : Type 0} where
  pub peek_key : Peerstate Key Fpr → PeerstateVerifiedStatus → Option Key
  peek_key p bidirect_verified = p.verified_key
  peek_key p unverified = or_else p.public_key p.gossip_key

  unfoldable pub take_key : Peerstate Key Fpr → PeerstateVerifiedStatus → Option Key
  take_key p bidirect_verified = p.verified_key
  take_key p unverified = or_else p.public_key p.gossip_key

  -- `self.to_save = Some(ToSave::All)`
  abbrev pub save_all : Peerstate Key Fpr → Peerstate Key Fpr
  save_all p = record p { to_save = some all }

  unfoldable pub degrade_encryption : Peerstate Key Fpr → ℤ → Peerstate Key Fpr
  degrade_encryption p message_time = record p {
    prefer_encrypt = reset;
    last_seen = message_time;
    to_save = some all;
  }

  -- The header that `render_gossip_header` prints.
  pub gossip_header : Peerstate Key Fpr → PeerstateVerifiedStatus → Option (Aheader Key)
  unfolding peek_key
  gossip_header p min_verified = elim (peek_key p min_verified) [
    | none ↦ none
    | some key ↦ some (record {
      addr = p.addr;
      public_key = key;
      prefer_encrypt =
          if ltb_ℤ (pos 0) p.last_seen_autocrypt then p.prefer_encrypt else no_preference;
    })
  ]

module _ {Key Fpr : Type 0} where
  -- `prefer_encrypt` of a header that is newer than the last one.
  take_preference : Peerstate Key Fpr → Aheader Key → Peerstate Key Fpr
  take_preference p header =
      if (preference_eq header.prefer_encrypt mutual_preference
          || preference_eq header.prefer_encrypt no_preference)
        && not (preference_eq header.prefer_encrypt p.prefer_encrypt)
      then record p { prefer_encrypt = header.prefer_encrypt; to_save = some all }
      else p

  -- The preference of a gossip header is applied one way, to a peer that never sent a header.
  take_gossip_preference : Peerstate Key Fpr → Aheader Key → Peerstate Key Fpr
  take_gossip_preference p header =
      if eqb_ℤ p.last_seen_autocrypt (pos 0)
        && preference_eq p.prefer_encrypt no_preference
        && preference_eq header.prefer_encrypt mutual_preference
      then record p { prefer_encrypt = mutual_preference; to_save = some all }
      else p

module _ {Key Fpr : Type 0} ⦃ef : Eq Fpr⦄ where
  unfoldable pub set_verified :
      Peerstate Key Fpr
      → PeerstateKeyType
      → Fpr
      → PeerstateVerifiedStatus
      → Peerstate Key Fpr × Bool
  set_verified p which_key fingerprint unverified = (p, false)
  set_verified p public_key fingerprint bidirect_verified =
      if option_eq p.public_key_fingerprint (some fingerprint)
      then (
        record p {
          to_save = some all;
          verified_key = p.public_key;
          verified_key_fingerprint = p.public_key_fingerprint;
        },
        true,
      )
      else (p, false)
  set_verified p gossip_key fingerprint bidirect_verified =
      if option_eq p.gossip_key_fingerprint (some fingerprint)
      then (
        record p {
          to_save = some all;
          verified_key = p.gossip_key;
          verified_key_fingerprint = p.gossip_key_fingerprint;
        },
        true,
      )
      else (p, false)

  pub has_verified_key : Peerstate Key Fpr → List Fpr → Bool
  has_verified_key p fingerprints = elim p.verified_key_fingerprint [
    | none ↦ false
    | some vkc ↦ member vkc fingerprints && is_some p.verified_key
  ]

module _ {Key Fpr : Type 0} (fingerprint : Key → Fpr) where
  pub from_header : Aheader Key → ℤ → Peerstate Key Fpr
  from_header header message_time = record {
    addr = header.addr;
    last_seen = message_time;
    last_seen_autocrypt = message_time;
    prefer_encrypt = header.prefer_encrypt;
    public_key = some header.public_key;
    public_key_fingerprint = some (fingerprint header.public_key);
    gossip_key = none;
    gossip_timestamp = pos 0;
    gossip_key_fingerprint = none;
    verified_key = none;
    verified_key_fingerprint = none;
    to_save = some all;
    fingerprint_changed = false;
  }

  pub from_gossip : Aheader Key → ℤ → Peerstate Key Fpr
  from_gossip header message_time = record {
    addr = header.addr;
    last_seen = pos 0;
    last_seen_autocrypt = pos 0;
    prefer_encrypt = no_preference;
    public_key = none;
    public_key_fingerprint = none;
    gossip_key = some header.public_key;
    gossip_timestamp = message_time;
    gossip_key_fingerprint = some (fingerprint header.public_key);
    verified_key = none;
    verified_key_fingerprint = none;
    to_save = some all;
    fingerprint_changed = false;
  }

module _ {Key Fpr : Type 0} ⦃ek : Eq Key⦄ ⦃ef : Eq Fpr⦄ (fingerprint : Key → Fpr) where
  -- The first half of `recalc_fingerprint`.
  recalc_public : Peerstate Key Fpr → Peerstate Key Fpr
  recalc_public p = elim p.public_key [
    | none ↦ p
    | some key ↦
        let old = p.public_key_fingerprint in
        let new : Option Fpr = some (fingerprint key) in
        if not (is_some old) || not (is_some new) || not (option_eq old new)
        then record p {
          public_key_fingerprint = new;
          to_save = some all;
          fingerprint_changed = is_some old || p.fingerprint_changed;
        }
        else record p { public_key_fingerprint = new }
  ]

  -- The second half.
  recalc_gossip : Peerstate Key Fpr → Peerstate Key Fpr
  recalc_gossip p = elim p.gossip_key [
    | none ↦ p
    | some key ↦
        let old = p.gossip_key_fingerprint in
        let new : Option Fpr = some (fingerprint key) in
        if not (is_some old) || not (is_some new) || not (option_eq old new)
        then record p {
          gossip_key_fingerprint = new;
          to_save = some all;
          fingerprint_changed =
              (is_some old && not (is_some p.public_key_fingerprint)) || p.fingerprint_changed;
        }
        else record p { gossip_key_fingerprint = new }
  ]

  pub recalc_fingerprint : Peerstate Key Fpr → Peerstate Key Fpr
  recalc_fingerprint p = recalc_gossip (recalc_public p)

  take_public_key : Peerstate Key Fpr → Aheader Key → Peerstate Key Fpr
  take_public_key p header =
      if not (option_eq p.public_key (some header.public_key))
      then save_all (recalc_fingerprint (record p { public_key = some header.public_key }))
      else p

  take_gossip_key : Peerstate Key Fpr → Aheader Key → Peerstate Key Fpr
  take_gossip_key p header =
      if not (option_eq p.gossip_key (some header.public_key))
      then save_all (recalc_fingerprint (record p { gossip_key = some header.public_key }))
      else p

module _ {Key Fpr : Type 0} ⦃ek : Eq Key⦄ ⦃ef : Eq Fpr⦄ (fingerprint : Key → Fpr)
    (lower : Text → Text) where
  pub apply_header : Peerstate Key Fpr → Aheader Key → ℤ → Peerstate Key Fpr
  apply_header p header message_time =
      if not (text_eq (lower p.addr) (lower header.addr))
      then p
      else if ltb_ℤ p.last_seen message_time
      then take_public_key fingerprint
          (take_preference
            (record p {
              last_seen = message_time;
              last_seen_autocrypt = message_time;
              to_save = some timestamps;
            })
            header)
          header
      else p

  pub apply_gossip : Peerstate Key Fpr → Aheader Key → ℤ → Peerstate Key Fpr
  apply_gossip p header message_time =
      if not (text_eq (lower p.addr) (lower header.addr))
      then p
      else if ltb_ℤ p.gossip_timestamp message_time
      then take_gossip_preference
          (take_gossip_key fingerprint
            (record p { gossip_timestamp = message_time; to_save = some timestamps }) header)
          header
      else p
