-- ===== src/Accounts/Tests.antt =====
-- Runs of the account manager, and the theorems at concrete inputs.
use juttmy_core.Prelude.{codes, inl, ◌+◌, ◌≡◌, ◌↔◌, refl, true, false, some, arith, [], ◌∷◌}
use juttmy_core.Accounts.{
  InnerConfig, Accounts, Outcomes, err, panic, find, remove, insert, load_into, open_config,
  new_account, add_account, import_account, migrate_account, remove_config, remove_account, create,
  get_selected_account,
}
use juttmy_core.Accounts.Consistency.{IsConsistent, Works}
use juttmy_core.Accounts.Reopening.{import_account_failed}
use juttmy_core.Accounts.Runs.{created, account_added, Reach-reopened}

abbrev good : Outcomes
good = record {
  sync_created = true;
  sync = true;
  sync_selected = true;
  context = true;
  remove_dir = true;
  sync_removed = true;
  sync_select = true;
  imex = false;
  dbfile_exists = true;
  blobdir_exists = true;
  moved = true;
}

good-Works : Works good
good-Works = record {
  sync_created = refl;
  sync = refl;
  sync_selected = refl;
  context = refl;
  remove_dir = refl;
  sync_removed = refl;
  sync_select = refl;
  moved = refl;
}

abbrev stored_config : InnerConfig
stored_config = record {
  selected_account = 4;
  next_id = 6;
  accounts =
      record { id = 2; dir = codes "a"; uuid = codes "u" }
      ∷ record { id = 4; dir = codes "b"; uuid = codes "v" }
      ∷ [];
}

abbrev stored : Accounts
stored = record {
  config = stored_config;
  accounts = stored_config.accounts;
  file = some stored_config;
}

stored-IsConsistent : IsConsistent stored
unfolding find
stored-IsConsistent = record {
  opened = refl;
  written = refl;
  below = (omega arith, (omega arith, tt));
  ascending = ((omega arith, tt), (tt, tt));
  selected = inl refl;
}

import_account_failed_example : import_account good (codes "c") (codes "w") stored ≡ (
  err,
  record stored {
    config = record stored.config { next_id = 6 + 1 };
    file = some (record stored.config { next_id = 6 + 1 });
  },
)
import_account_failed_example =
    import_account_failed good good-Works (codes "c") (codes "w") stored stored-IsConsistent refl

-- The moves of a migrated account fail: the account stays in the configuration, is selected, and has
-- no context.
migrate_account-lost :
    get_selected_account
      (migrate_account (record good { moved = false }) (codes "c") (codes "w") stored).1
    ≡ panic
unfolding migrate_account new_account find get_selected_account
migrate_account-lost = refl

-- The last account is removed.
remove_account-last :
    get_selected_account (remove_account good 1 (create good (codes "a") (codes "u")).1).1 ≡ panic
unfolding create new_account find load_into insert remove_account remove_config remove
    get_selected_account
remove_account-last = refl

Reach-reopened_example :
    (open_config
        (add_account good (codes "b") (codes "v") (create good (codes "a") (codes "u")).1).1.file
      ≡ some (add_account good (codes "b") (codes "v") (create good (codes "a") (codes "u")).1).1)
    × ((get_selected_account
            (add_account good (codes "b") (codes "v") (create good (codes "a") (codes "u")).1).1
          ≡ panic)
        ↔ ((add_account good
              (codes "b")
              (codes "v")
              (create good (codes "a") (codes "u")).1).1.config.accounts
            ≡ []))
Reach-reopened_example =
    Reach-reopened
      (add_account good (codes "b") (codes "v") (create good (codes "a") (codes "u")).1).1
      (account_added good (codes "b") (codes "v") good-Works
        (created good (codes "a") (codes "u") good-Works))
