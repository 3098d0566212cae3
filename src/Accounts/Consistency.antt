-- ===== src/Accounts/Consistency.antt =====
-- accounts.rs: the contexts that are open are the accounts of the configuration.
use juttmy_core.Prelude.{
  ℕ, ◌+◌, ◌<◌, Text, ◌==◌, if_split, if◌then◌else◌, true, none, some, is_some, [], ◌∷◌, ◌++◌, ◌≡◌,
  ◌⊎◌, inl, inr, refl, ap, sym, subst, arith, All-append,
}
use juttmy_core.Accounts.{
  AccountConfig, Accounts, ok, panic, Did, Outcomes, find, has, remove, first_id, synced,
  new_account, add_account, remove_config, remove_account,
}
use juttmy_core.Accounts.Lists.{
  Below, Ascending, Below-remove, Ascending-remove, Below-more, Ascending-last, insert-last,
  find-last, has-remove, has-first_id,
}

-- The contexts are the accounts of the configuration, whose ids ascend and are below the next one;
-- one of them is selected, if there is any. The file has the configuration.
pub record IsConsistent (s : Accounts) : Type 0 where
  pub opened : s.accounts ≡ s.config.accounts
  pub written : s.file ≡ some s.config
  pub below : Below s.config.next_id s.config.accounts
  pub ascending : Ascending s.config.accounts
  pub selected :
      (has s.config.selected_account s.config.accounts ≡ true)
      ⊎ ((s.config.accounts ≡ []) × (s.config.selected_account ≡ 0))

-- The files can be written, and the context can be opened.
pub record Works (out : Outcomes) : Type 0 where
  pub sync_created : out.sync_created ≡ true
  pub sync : out.sync ≡ true
  pub sync_selected : out.sync_selected ≡ true
  pub context : out.context ≡ true
  pub remove_dir : out.remove_dir ≡ true
  pub sync_removed : out.sync_removed ≡ true
  pub sync_select : out.sync_select ≡ true
  pub moved : out.moved ≡ true

-- The new account, and the accounts with it, selected.
abbrev pub next_account : Text → Text → Accounts → AccountConfig
next_account dir uuid s = record { id = s.config.next_id; dir = dir; uuid = uuid }

abbrev pub added : AccountConfig → Accounts → Accounts
added cfg s = synced (record s {
  config = record {
    selected_account = cfg.id;
    next_id = s.config.next_id + 1;
    accounts = s.config.accounts ++ cfg ∷ [];
  };
  accounts = s.accounts ++ cfg ∷ [];
})

found_account :
    (cfg : AccountConfig) (s : Accounts)
    → find cfg.id s.config.accounts ≡ some cfg
    → ◌≡◌ {A = Did AccountConfig}
        (elim (find cfg.id s.config.accounts) [ none ↦ (panic, s) | some c ↦ (ok c, s) ])
        (ok cfg, s)
found_account cfg s e = rw e refl

-- Adding keeps what is consistent.
pub IsConsistent-added :
    (dir uuid : Text) (s : Accounts)
    → IsConsistent s
    → IsConsistent (added (next_account dir uuid s) s)
IsConsistent-added dir uuid s c =
    let cfg = next_account dir uuid s in
    record {
      opened = ap (λ l. l ++ cfg ∷ []) c.opened;
      written = refl;
      below =
          All-append (λ a. a.id < s.config.next_id + 1) s.config.accounts (cfg ∷ [])
            (Below-more s.config.next_id s.config.accounts c.below) (omega arith, tt);
      ascending = Ascending-last cfg s.config.accounts c.below c.ascending;
      selected = inl (ap is_some (find-last cfg s.config.accounts c.below));
    }

-- Without the account `id`.
abbrev pub without_account : ℕ → Accounts → Accounts
without_account id s =
    let rest = remove id s.config.accounts in
    synced (record s {
      config = record s.config {
        accounts = rest;
        selected_account =
            if s.config.selected_account == id then first_id rest else s.config.selected_account;
      };
      accounts = remove id s.accounts;
    })

pub IsConsistent-without :
    (id : ℕ) (s : Accounts) → IsConsistent s → IsConsistent (without_account id s)
unfolding remove
IsConsistent-without id s c =
    let cs = s.config.accounts in
    record {
      opened = ap (remove id) c.opened;
      written = refl;
      below = Below-remove s.config.next_id id cs c.below;
      ascending = Ascending-remove id cs c.ascending;
      selected =
          if_split (λ n. (has n (remove id cs) ≡ true) ⊎ ((remove id cs ≡ []) × (n ≡ 0)))
            (s.config.selected_account == id) (λ _. has-first_id (remove id cs))
            λ other. elim c.selected [
              | inl there ↦
                  inl (has-remove s.config.selected_account id cs (ground (arith, other)) there)
              | inr (empty, zero_selected) ↦ inr (ap (remove id) empty, zero_selected)
            ];
    }

module _ (out : Outcomes) (works : Works out) where
  pub new_account_works :
      (dir uuid : Text) (s : Accounts)
      → IsConsistent s
      → new_account out dir uuid s ≡ (
        ok (next_account dir uuid s),
        synced (record s { config = (added (next_account dir uuid s) s).config }),
      )
  unfolding new_account
  new_account_works dir uuid s c =
      let cfg = next_account dir uuid s in
      rw (works.sync, find-last cfg s.config.accounts c.below, works.sync_selected)
        (found_account cfg (synced (record s { config = (added cfg s).config }))
          (find-last cfg s.config.accounts c.below))

  pub add_account_works :
      (dir uuid : Text) (s : Accounts)
      → IsConsistent s
      → add_account out dir uuid s ≡ (ok s.config.next_id, added (next_account dir uuid s) s)
  unfolding add_account
  add_account_works dir uuid s c =
      let cfg = next_account dir uuid s in
      let below : Below cfg.id s.accounts = subst (Below cfg.id) (sym c.opened) c.below in
      rw (new_account_works dir uuid s c, works.context, insert-last cfg s.accounts below) refl

  pub remove_account_works :
      (id : ℕ) (s : Accounts)
      → IsConsistent s
      → has id s.accounts ≡ true
      → remove_account out id s ≡ (ok tt, without_account id s)
  unfolding remove_account remove_config
  remove_account_works id s c there =
      let known : has id s.config.accounts ≡ true = subst (λ l. has id l ≡ true) c.opened there in
      rw (there, known, works.remove_dir, works.sync_removed) refl
