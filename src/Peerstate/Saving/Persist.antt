-- ===== src/Peerstate/Saving/Persist.antt =====
-- peerstate.rs: `to_save` names a statement that stores all that has changed.
use juttmy_core.Prelude.{
  Text, text_eq_self, ◌≡◌, refl, true, false, Option, none, some, Eq, arith, List, [], ◌∷◌, ◌++◌,
  map, Bool-cases, inl, inr, ap,
}
use juttmy_core.Peerstate.{Peerstate, ToSave, timestamps, all, EncryptPreference}
use juttmy_core.Peerstate.Consistency.{Step}
use juttmy_core.Peerstate.Saving.{
  Row, Codec, nocase_eq, select, to_row, from_row, from_addr, save_to_db, save_update, update_where,
  set_all, set_timestamps, number_of, preference_of, and_then, option_map, fold_case,
}
use juttmy_core.Peerstate.Saving.Tracking.{Tracks, Step-Tracks}

-- What the code relies on in the serialisations: they can be read back.
pub record ReadsBack {Key Fpr Blob : Type 0} (codec : Codec Key Fpr Blob) : Type 0 where
  pub key : (k : Key) → codec.from_slice (codec.to_bytes k) ≡ some k
  pub print : (x : Fpr) → codec.parse (codec.hex x) ≡ some x

-- A state as it is loaded: nothing to save, and no warning pending.
abbrev pub loaded : {Key Fpr : Type 0} → Peerstate Key Fpr → Peerstate Key Fpr
loaded p = record p { to_save = none; fingerprint_changed = false }

pub select-update_where :
    {Blob : Type 0} (a : Text) (change : Row Blob → Row Blob) (rs : List (Row Blob))
    → ((r : Row Blob) → (change r).addr ≡ r.addr)
    → select a (update_where a change rs) ≡ option_map change (select a rs)
unfolding select update_where
select-update_where a change [] keeps = refl
select-update_where a change (r ∷ rs) keeps = elim (Bool-cases (nocase_eq r.addr a)) [
  | inl here ↦ rw (here, keeps r, here) refl
  | inr there ↦ rw (there, there) (select-update_where a change rs keeps)
]

module _ {Key Fpr Blob : Type 0} (codec : Codec Key Fpr Blob) where
  read_back :
      {A B : Type 0} (g : A → B) (h : B → Option A) (o : Option A)
      → ((x : A) → h (g x) ≡ some x)
      → and_then (option_map g o) h ≡ o
  read_back g h none b = refl
  read_back g h (some x) b = b x

  preference_of-number_of : (e : EncryptPreference) → preference_of (number_of e) ≡ e
  preference_of-number_of e = ground arith

  pub from_row-to_row :
      (p : Peerstate Key Fpr) → ReadsBack codec → from_row codec (to_row codec p) ≡ loaded p
  unfolding from_row to_row
  from_row-to_row p b = cc (
    preference_of-number_of p.prefer_encrypt,
    read_back codec.to_bytes codec.from_slice p.public_key b.key,
    read_back codec.to_bytes codec.from_slice p.gossip_key b.key,
    read_back codec.to_bytes codec.from_slice p.verified_key b.key,
    read_back codec.hex codec.parse p.public_key_fingerprint b.print,
    read_back codec.hex codec.parse p.gossip_key_fingerprint b.print,
    read_back codec.hex codec.parse p.verified_key_fingerprint b.print,
  )

  -- The row after the statement that `to_save` chooses is the row of the new state.
  select-save_update :
      (p q : Peerstate Key Fpr) (table : List (Row Blob)) (o : Option ToSave)
      → q.to_save ≡ o
      → Tracks p q
      → select p.addr table ≡ some (to_row codec p)
      → select q.addr (save_update codec q o table) ≡ some (to_row codec q)
  unfolding save_update to_row
  select-save_update p q table (some all) e t row =
      rw (select-update_where q.addr (set_all codec q) table (λ r. refl), t.addr, row) refl
  select-save_update p q table (some timestamps) e t row =
      let c = t.content (λ n. cc) in
      rw (select-update_where q.addr (set_timestamps codec q) table (λ r. refl), t.addr, row)
        (cc (
          c.prefer_encrypt, c.public_key, c.public_print, c.gossip_key, c.gossip_print,
          c.verified_key, c.verified_print,
        ))
  select-save_update p q table none e t row =
      let c = t.content (λ n. cc) in
      rw (t.addr, row)
        (cc (
          c.prefer_encrypt,
          c.public_key,
          c.public_print,
          c.gossip_key,
          c.gossip_print,
          c.verified_key,
          c.verified_print,
          t.last_seen e,
          t.last_seen_autocrypt e,
          t.gossip_timestamp e,
        ))

module _ {Key Fpr Blob : Type 0} ⦃ek : Eq Key⦄ ⦃ef : Eq Fpr⦄ (f : Key → Fpr) (lower : Text → Text)
    (codec : Codec Key Fpr Blob) where
  -- A stored state, changed by one header, gossip header, degradation or verification and saved, is
  -- what the next `from_addr` loads: `to_save` never leaves out a column that has changed. The
  -- stored row is the first one of its address, and the serialisations can be read back.
  pub from_addr-save_to_db :
      {p q : Peerstate Key Fpr} (table : List (Row Blob))
      → ReadsBack codec
      → p.to_save ≡ none
      → select p.addr table ≡ some (to_row codec p)
      → Step f lower p q
      → from_addr codec q.addr (save_to_db codec q false table) ≡ some (loaded q)
  unfolding from_addr save_to_db
  from_addr-save_to_db {p} {q} table b e row s =
      rw (select-save_update codec p q table q.to_save refl (Step-Tracks f lower s e) row)
        (ap some (from_row-to_row codec q b))

select_new :
    {Blob : Type 0} (a : Text) (r : Row Blob) (rs : List (Row Blob))
    → select a rs ≡ none
    → nocase_eq r.addr a ≡ true
    → select a (rs ++ r ∷ []) ≡ some r
unfolding select
select_new a r [] none_yet same = rw same
select_new a r (x ∷ rs) none_yet same = ground (arith, select_new a r rs)

-- A state saved as a new row, where the table has no row of its address, is what the next
-- `from_addr` loads. The serialisations can be read back.
pub from_addr-save_to_db_create :
    {Key Fpr Blob : Type 0} (codec : Codec Key Fpr Blob) (p : Peerstate Key Fpr)
    (table : List (Row Blob))
    → ReadsBack codec
    → select p.addr table ≡ none
    → from_addr codec p.addr (save_to_db codec p true table) ≡ some (loaded p)
unfolding from_addr save_to_db
from_addr-save_to_db_create codec p table b new =
    rw
      (select_new p.addr (to_row codec p) table new
        (unfold to_row in text_eq_self (map fold_case p.addr)))
      (ap some (from_row-to_row codec p b))
