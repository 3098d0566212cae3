-- ===== src/Accounts/Steps.antt =====
-- accounts.rs: each operation keeps the accounts consistent.
use juttmy_core.Prelude.{
  ℕ, ◌<◌, Text, if_both, if_split, if◌then◌else◌, Bool, Bool-cases, true, false, some, not, [], ◌≡◌,
  inl, inr, refl, ap, sym, ◌∙◌, subst, arith, All,
}
use juttmy_core.Accounts.{
  Accounts, ok, err, Did, Outcomes, and_then, ensure, synced, sync, has, insert, new_config,
  open_config, load_into, select_account, new_account, remove_account, import_account,
  migrate_account, create,
}
use juttmy_core.Accounts.Lists.{Below-more, insert-last, load_into-Ascending, remove-missing}
use juttmy_core.Accounts.Consistency.{
  IsConsistent, Works, next_account, added, IsConsistent-added, IsConsistent-without,
  new_account_works, add_account_works, remove_account_works,
}
use juttmy_core.Accounts.Reopening.{import_account_failed, counted, opened_new}

loaded : (s : Accounts) → IsConsistent s → load_into [] s.config.accounts ≡ s.accounts
loaded s c = load_into-Ascending [] s.config.accounts c.ascending ∙ sym c.opened

pub reopened_same : (s : Accounts) → IsConsistent s → open_config s.file ≡ some s
reopened_same s c =
    let file = sym c.written in
    ap open_config c.written
    ∙ ap (λ l. some (record { config = s.config; accounts = l; file = some s.config })) (loaded s c)
    ∙ ap (λ f. some (record { config = s.config; accounts = s.accounts; file = f })) file

abbrev pub empty_accounts : Accounts
empty_accounts = record { config = new_config; accounts = []; file = some new_config }

pub empty-IsConsistent : IsConsistent empty_accounts
empty-IsConsistent = record {
  opened = refl;
  written = refl;
  below = tt;
  ascending = tt;
  selected = inr (refl, refl);
}

IsConsistent-counted : (s : Accounts) → IsConsistent s → IsConsistent (counted s)
IsConsistent-counted s c = record {
  opened = c.opened;
  written = refl;
  below = Below-more s.config.next_id s.config.accounts c.below;
  ascending = c.ascending;
  selected = c.selected;
}

if_then : {A : Type 0} (test : Bool) (a b : A) → test ≡ true → (if test then a else b) ≡ a
if_then test a b h = rw h refl

module _ (out : Outcomes) (works : Works out) where
  pub IsConsistent-select_account :
      (id : ℕ) (s : Accounts) → IsConsistent s → IsConsistent (select_account out id s).1
  unfolding select_account
  IsConsistent-select_account id s c =
      if_split {A = Did Unit} (λ d. IsConsistent (d.1)) (not (has id s.config.accounts)) (λ _. c)
        λ there.
          subst
            (λ writes.
              IsConsistent
                (sync writes (record s { config = record s.config { selected_account = id } })).1)
            (sym works.sync_select) (selected there)
    where
      selected :
          not (has id s.config.accounts) ≡ false
          → IsConsistent (synced (record s { config = record s.config { selected_account = id } }))
      selected there = record {
        opened = c.opened;
        written = refl;
        below = c.below;
        ascending = c.ascending;
        selected = inl (ground (arith, there));
      }

  remove_unknown :
      (id : ℕ) (s : Accounts) → has id s.accounts ≡ false → remove_account out id s ≡ (err, s)
  unfolding remove_account
  remove_unknown id s missing =
      rw missing (ap (λ l. (err, record s { accounts = l })) (remove-missing id s.accounts missing))

  pub IsConsistent-remove_account :
      (id : ℕ) (s : Accounts) → IsConsistent s → IsConsistent (remove_account out id s).1
  unfolding remove_account
  IsConsistent-remove_account id s c = elim (Bool-cases (has id s.accounts)) [
    | inl there ↦
        subst (λ d. IsConsistent (d.1)) (sym (remove_account_works out works id s c there))
          (IsConsistent-without id s c)
    | inr missing ↦ subst (λ d. IsConsistent (d.1)) (sym (remove_unknown id s missing)) c
  ]

  import_works :
      (dir uuid : Text) (s : Accounts)
      → IsConsistent s
      → out.imex ≡ true
      → import_account out dir uuid s ≡ (ok s.config.next_id, added (next_account dir uuid s) s)
  unfolding import_account
  import_works dir uuid s c imported =
      rw (add_account_works out works dir uuid s c, opened_new dir uuid s c)
        (if_then out.imex _ _ imported)

  pub IsConsistent-import_account :
      (dir uuid : Text) (s : Accounts)
      → IsConsistent s
      → IsConsistent (import_account out dir uuid s).1
  IsConsistent-import_account dir uuid s c = elim (Bool-cases out.imex) [
    | inl imported ↦
        subst (λ d. IsConsistent (d.1)) (sym (import_works dir uuid s c imported))
          (IsConsistent-added dir uuid s c)
    | inr failed ↦
        subst (λ d. IsConsistent (d.1)) (sym (import_account_failed out works dir uuid s c failed))
          (IsConsistent-counted s c)
  ]

  migrate_works :
      (dir uuid : Text) (s : Accounts)
      → IsConsistent s
      → ◌≡◌ {A = Did ℕ}
          (and_then (new_account out dir uuid s) λ cfg s'.
            ensure out.moved s'
              (ensure out.context s' (ok cfg.id, record s' { accounts = insert cfg s'.accounts })))
          (ok s.config.next_id, added (next_account dir uuid s) s)
  migrate_works dir uuid s c =
      let cfg = next_account dir uuid s in
      let below = subst (λ l. All (λ a. a.id < cfg.id) l) (sym c.opened) c.below in
      rw
        (
          new_account_works out works dir uuid s c,
          works.moved,
          works.context,
          insert-last cfg s.accounts below,
        )
        refl

  pub IsConsistent-migrate_account :
      (dir uuid : Text) (s : Accounts)
      → IsConsistent s
      → IsConsistent (migrate_account out dir uuid s).1
  unfolding migrate_account
  IsConsistent-migrate_account dir uuid s c =
      if_both {A = Did ℕ} (λ d. IsConsistent (d.1)) (not out.dbfile_exists) c
        (if_both {A = Did ℕ} (λ d. IsConsistent (d.1)) (not out.blobdir_exists) c
          (subst (λ d. IsConsistent (d.1)) (sym (migrate_works dir uuid s c))
            (IsConsistent-added dir uuid s c)))

  pub create_works :
      (dir uuid : Text)
      → create out dir uuid ≡ (ok tt, added (next_account dir uuid empty_accounts) empty_accounts)
  unfolding create new_account load_into insert
  create_works dir uuid =
      rw
        (
          works.sync_created,
          new_account_works out works dir uuid empty_accounts empty-IsConsistent,
          works.context,
        )
        refl
