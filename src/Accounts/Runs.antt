-- ===== src/Accounts/Runs.antt =====
-- accounts.rs: sequences of operations, from the creation on.
use juttmy_core.Prelude.{
  ℕ, Text, true, Option, none, some, is_some, [], ◌≡◌, ◌≢◌, ◌↔◌, inl, inr, refl, sym, ◌∙◌, subst,
}
use juttmy_core.Accounts.{
  AccountConfig, Accounts, Result, ok, panic, Outcomes, find, has, open_config, select_account,
  add_account, remove_account, import_account, migrate_account, create, get_selected_account,
}
use juttmy_core.Accounts.Consistency.{IsConsistent, Works, IsConsistent-added, add_account_works}
use juttmy_core.Accounts.Steps.{
  reopened_same, empty_accounts, empty-IsConsistent, IsConsistent-select_account,
  IsConsistent-remove_account, IsConsistent-import_account, IsConsistent-migrate_account,
  create_works,
}

-- The states that the operations lead to, while the files can be read, written and moved; an import
-- may fail, and the files of a migrated account may be missing.
pub data Reach : Accounts → Type 0 where
  created : (out : Outcomes) (dir uuid : Text) → Works out → Reach (create out dir uuid).1
  account_added :
      {s : Accounts} (out : Outcomes) (dir uuid : Text)
      → Works out
      → Reach s
      → Reach (add_account out dir uuid s).1
  account_removed :
      {s : Accounts} (out : Outcomes) (id : ℕ)
      → Works out
      → Reach s
      → Reach (remove_account out id s).1
  account_selected :
      {s : Accounts} (out : Outcomes) (id : ℕ)
      → Works out
      → Reach s
      → Reach (select_account out id s).1
  account_imported :
      {s : Accounts} (out : Outcomes) (dir uuid : Text)
      → Works out
      → Reach s
      → Reach (import_account out dir uuid s).1
  account_migrated :
      {s : Accounts} (out : Outcomes) (dir uuid : Text)
      → Works out
      → Reach s
      → Reach (migrate_account out dir uuid s).1

Reach-IsConsistent : (s : Accounts) → Reach s → IsConsistent s
Reach-IsConsistent _ (created out dir uuid works) =
    let c = IsConsistent-added dir uuid empty_accounts empty-IsConsistent in
    subst (λ d. IsConsistent (d.1)) (sym (create_works out works dir uuid)) c
Reach-IsConsistent _ (account_added {s = s} out dir uuid works r) =
    let c = Reach-IsConsistent s r in
    subst (λ d. IsConsistent (d.1)) (sym (add_account_works out works dir uuid s c))
      (IsConsistent-added dir uuid s c)
Reach-IsConsistent _ (account_removed {s = s} out id works r) =
    IsConsistent-remove_account out works id s (Reach-IsConsistent s r)
Reach-IsConsistent _ (account_selected {s = s} out id works r) =
    IsConsistent-select_account out works id s (Reach-IsConsistent s r)
Reach-IsConsistent _ (account_imported {s = s} out dir uuid works r) =
    IsConsistent-import_account out works dir uuid s (Reach-IsConsistent s r)
Reach-IsConsistent _ (account_migrated {s = s} out dir uuid works r) =
    IsConsistent-migrate_account out works dir uuid s (Reach-IsConsistent s r)

-- Does the selected account have a context?
selected_or_none :
    (s : Accounts) → IsConsistent s → (get_selected_account s ≡ panic) → s.config.accounts ≡ []
unfolding get_selected_account
selected_or_none s c e = elim c.selected [
  | inr (empty, _) ↦ empty
  | inl there ↦
      let opened : has s.config.selected_account s.accounts ≡ true =
        subst (λ l. has s.config.selected_account l ≡ true) (sym c.opened) there in
      absurd (found (find s.config.selected_account s.accounts) opened e)
]
  where
    found :
        (o : Option AccountConfig)
        → is_some o ≡ true
        → ◌≢◌ {A = Result AccountConfig} (elim o [ none ↦ panic | some a ↦ ok a ]) panic
    found none h e = cc
    found (some a) h e = cc

none_selected :
    (s : Accounts) → IsConsistent s → s.config.accounts ≡ [] → get_selected_account s ≡ panic
unfolding get_selected_account find
none_selected s c empty = rw (get_selected_account, c.opened ∙ empty) refl

-- Where every write of the configuration, every removal and move of files and every opening of a
-- context succeeds (an import may fail, and the files of an account to migrate may be missing),
-- every state that operations lead to from the creation of the folder on is the one that is in the
-- file: reading the file and opening its accounts gives the same configuration and contexts. In
-- such a state, asking for the selected account panics exactly if there is no account.
pub Reach-reopened :
    (s : Accounts)
    → Reach s
    → (open_config s.file ≡ some s) × ((get_selected_account s ≡ panic) ↔ (s.config.accounts ≡ []))
Reach-reopened s r =
    let c = Reach-IsConsistent s r in (reopened_same s c, (selected_or_none s c, none_selected s c))
