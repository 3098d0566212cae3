-- ===== src/Accounts/Reopening.antt =====
-- accounts.rs: sequences of operations, and a failed import.
use juttmy_core.Prelude.{
  ℕ, ◌+◌, ◌<◌, Text, ◌==◌, if◌then◌else◌, Bool, true, false, is_some, [], ◌∷◌, ◌++◌, ◌≡◌, some, inl,
  inr, refl, ap, sym, ◌∙◌, subst, arith, All,
}
use juttmy_core.Accounts.{
  AccountConfig, Accounts, ok, err, Did, Outcomes, and_then, find, has, first_id, synced,
  select_account, remove_account, import_account,
}
use juttmy_core.Accounts.Lists.{remove-last, find-last}
use juttmy_core.Accounts.Consistency.{
  IsConsistent, Works, next_account, added, without_account, IsConsistent-added, add_account_works,
  remove_account_works,
}

-- Only the next id differs.
abbrev pub counted : Accounts → Accounts
counted s = synced (record s { config = record s.config { next_id = s.config.next_id + 1 } })

-- The state with another selection.
abbrev chosen : ℕ → Accounts → Accounts
chosen n s =
    synced (record s {
      config = record s.config { next_id = s.config.next_id + 1; selected_account = n };
    })

-- The account that was added, removed again.
without-added :
    (cfg : AccountConfig) (s : Accounts)
    → IsConsistent s
    → cfg.id ≡ s.config.next_id
    → without_account cfg.id (added cfg s) ≡ chosen (first_id s.config.accounts) s
without-added cfg s c same =
    let below = subst (λ n. All (λ a. a.id < n) s.config.accounts) (sym same) c.below in
    let here : (cfg.id == cfg.id) ≡ true = ground arith in
    rw
      (
        here,
        remove-last cfg s.config.accounts below,
        remove-last cfg s.accounts (subst (All (λ a. a.id < cfg.id)) (sym c.opened) below),
      )
      refl

pub opened_new :
    (dir uuid : Text) (s : Accounts)
    → IsConsistent s
    → has s.config.next_id (s.accounts ++ next_account dir uuid s ∷ []) ≡ true
opened_new dir uuid s c = ap is_some (
    find-last (next_account dir uuid s) s.accounts
      (subst (All (λ a. a.id < s.config.next_id)) (sym c.opened) c.below))

pub if_else : {A : Type 0} (test : Bool) (a b : A) → test ≡ false → (if test then a else b) ≡ b
if_else test a b h = rw h refl

module _ (out : Outcomes) (works : Works out) where
  -- The selection is set back, or there was none.
  set_back :
      (s : Accounts) (n : ℕ)
      → IsConsistent s
      → (s.config.accounts ≡ [] → n ≡ 0)
      → ◌≡◌ {A = Did ℕ}
          (and_then (select_account out s.config.selected_account (chosen n s)) λ _ s'. (err, s'))
          (err, counted s)
  unfolding select_account find
  set_back s n c nothing = elim c.selected [
    | inl there ↦ rw (there, works.sync_select) refl
    | inr (empty, zero_selected) ↦
        let missing : has s.config.selected_account s.config.accounts ≡ false =
          ap (has s.config.selected_account) empty in
        rw missing (ap (λ m. (err, chosen m s)) (nothing empty ∙ sym zero_selected))
  ]

  undone :
      (dir uuid : Text) (s : Accounts)
      → IsConsistent s
      → ◌≡◌ {A = Did ℕ}
          (and_then
            (remove_account out s.config.next_id (added (next_account dir uuid s) s))
            λ _ s'. and_then (select_account out s.config.selected_account s') λ _ s''. (err, s''))
          (err, counted s)
  undone dir uuid s c =
      let cfg = next_account dir uuid s in
      ap
        (λ did.
          and_then did
            λ _ s'. and_then (select_account out s.config.selected_account s') λ _ s''. (err, s''))
        (remove_account_works out works cfg.id (added cfg s) (IsConsistent-added dir uuid s c)
            (opened_new dir uuid s c)
          ∙ ap (λ s'. (ok tt, s')) (without-added cfg s c refl))
      ∙ set_back s (first_id s.config.accounts) c (λ e. ap first_id e)

  -- A failed import leaves the accounts, the contexts and the selection as they were, and the file has
  -- the same configuration: only an id is used up. The files can be written, the context can be opened, and the accounts were consistent.
  pub import_account_failed :
      (dir uuid : Text) (s : Accounts)
      → IsConsistent s
      → out.imex ≡ false
      → import_account out dir uuid s ≡ (
        err,
        record s {
          config = record s.config { next_id = s.config.next_id + 1 };
          file = some (record s.config { next_id = s.config.next_id + 1 });
        },
      )
  unfolding import_account
  import_account_failed dir uuid s c failed =
      rw (add_account_works out works dir uuid s c, opened_new dir uuid s c)
        (if_else out.imex _ _ failed ∙ undone dir uuid s c)
