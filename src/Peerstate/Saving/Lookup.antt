-- ===== src/Peerstate/Saving/Lookup.antt =====
-- peerstate.rs: a saved state is found under every spelling of its address.
use juttmy_core.Prelude.{
  Text, eq_of_text_eq, ◌≡◌, refl, true, false, some, some-injective, List, [], ◌∷◌, map,
  Option-cases, inl, inr, ap, sym, ◌∙◌, if_split, subst, if◌then◌else◌,
}
use juttmy_core.Peerstate.{Peerstate, all}
use juttmy_core.Peerstate.Saving.{
  Row, Codec, nocase_eq, fold_case, select, from_addr, from_row, to_row, save_to_db, save_update,
  update_where, set_all,
}
use juttmy_core.Peerstate.Saving.Persist.{ReadsBack, loaded, select-update_where, from_row-to_row}

select_addr :
    {Blob : Type 0} (a : Text) (t : List (Row Blob)) (r : Row Blob)
    → select a t ≡ some r
    → nocase_eq r.addr a ≡ true
unfolding select
select_addr a [] r e = absurd (cc)
select_addr a (q ∷ qs) r e =
    if_split (λ o. o ≡ some r → nocase_eq r.addr a ≡ true) (nocase_eq q.addr a)
      (λ here same. subst (λ x. nocase_eq x.addr a ≡ true) (some-injective same) here)
      (λ _. select_addr a qs r) e

update_where_same :
    {Blob : Type 0} (a b : Text) (change : Row Blob → Row Blob) (t : List (Row Blob))
    → nocase_eq a b ≡ true
    → update_where a change t ≡ update_where b change t
unfolding update_where
update_where_same a b change [] same = refl
update_where_same a b change (q ∷ qs) same =
    rw (eq_of_text_eq (map fold_case a) (map fold_case b) same) (
      ap (λ l. (if nocase_eq q.addr b then change q else q) ∷ l)
        (update_where_same a b change qs same))

module _ {Key Fpr Blob : Type 0} (codec : Codec Key Fpr Blob) where
  from_row_all :
      (r : Row Blob) (q : Peerstate Key Fpr)
      → r.addr ≡ q.addr
      → ReadsBack codec
      → from_row codec (set_all codec q r) ≡ loaded q
  unfolding from_row to_row
  from_row_all r q addrs b =
      ap (λ x. record (from_row codec (to_row codec q)) { addr = x }) addrs
      ∙ from_row-to_row codec q b

  addr_of : (r : Row Blob) (p : Peerstate Key Fpr) → from_row codec r ≡ p → r.addr ≡ p.addr
  unfolding from_row
  addr_of r p e = ap (λ x. x.addr) e

  -- A state that saves all columns of a stored one is what is loaded then.
  pub from_addr-save_all :
      (a : Text) (table : List (Row Blob)) (p q : Peerstate Key Fpr)
      → ReadsBack codec
      → from_addr codec a table ≡ some p
      → q.addr ≡ p.addr
      → q.to_save ≡ some all
      → from_addr codec a (save_to_db codec q false table) ≡ some (loaded q)
  unfolding from_addr save_to_db save_update
  from_addr-save_all a table p q b found same_addr every = elim (Option-cases (select a table)) [
    | inl e ↦ absurd (let e' = rw e at found in cc)
    | inr (r, e) ↦
        let loaded_p : from_row codec r ≡ p = some-injective (rw e at found) in
        let addrs : r.addr ≡ q.addr = addr_of r p loaded_p ∙ sym same_addr in
        let at : nocase_eq q.addr a ≡ true =
          subst (λ x. nocase_eq x a ≡ true) addrs (select_addr a table r e) in
        ap (λ o. from_addr codec a (save_update codec q o table)) every
        ∙ rw
            (
              update_where_same q.addr a (set_all codec q) table at,
              select-update_where a (set_all codec q) table (λ _. refl),
              e,
            )
            (ap some (from_row_all r q addrs b))
  ]

  -- A state that has just been loaded has no warning pending.
  pub from_addr-unchanged :
      (a : Text) (table : List (Row Blob)) (p : Peerstate Key Fpr)
      → from_addr codec a table ≡ some p
      → p.fingerprint_changed ≡ false
  unfolding from_addr from_row
  from_addr-unchanged a table p found = elim (Option-cases (select a table)) [
    | inl e ↦ absurd (let e' = rw e at found in cc)
    | inr (r, e) ↦
        let e' = rw e at found in sym (ap (λ x. x.fingerprint_changed) (some-injective e'))
  ]
