-- ===== src/Accounts.antt =====
-- accounts.rs: the accounts of one device, their configuration and the contexts that are open.
--
-- `Outcomes` has what the files, the contexts and the import answer. Each write of the configuration
-- is one answer. The text of an error is left out, and so are os_name and the directory of all.
pub mod Lists
pub mod Consistency
pub mod Reopening
pub mod Steps
pub mod Runs
pub mod Tests
use juttmy_core.Prelude.{
  ℕ, ◌+◌, Text, ltb, ◌==◌, not, if◌then◌else◌, Bool, true, false, ◌||◌, ◌&&◌, Option, none, some,
  is_some, List, [], ◌∷◌, ◌++◌,
}

pub record AccountConfig : Type 0 where
  pub id : ℕ
  pub dir : Text
  pub uuid : Text

pub record InnerConfig : Type 0 where
  pub selected_account : ℕ
  pub next_id : ℕ
  pub accounts : List AccountConfig

-- A context is the configuration that it was opened with; the map is in the order of the ids. The
-- file is what was last written to accounts.toml, none where it does not exist.
pub record Accounts : Type 0 where
  pub config : InnerConfig
  pub accounts : List AccountConfig
  pub file : Option InnerConfig

pub data Result (A : Type 0) : Type 0 where
  ok : A → Result A
  err panic : Result A

abbrev pub Did : Type 0 → Type 0
Did A = Result A × Accounts

-- `?`
abbrev pub and_then : {A B : Type 0} → Did A → (A → Accounts → Did B) → Did B
and_then (ok a, s) next = next a s
and_then (err, s) next = (err, s)
and_then (panic, s) next = (panic, s)

-- `expect`
abbrev pub expect : {A : Type 0} → Did A → Did A
expect (ok a, s) = (ok a, s)
expect (err, s) = (panic, s)
expect (panic, s) = (panic, s)

-- `ensure!`, and `?` on an answer.
abbrev pub ensure : {A : Type 0} → Bool → Accounts → Did A → Did A
ensure holds s rest = if not holds then (err, s) else rest

-- The file after `Config::sync`, where the write succeeds; a write that fails leaves the file.
abbrev pub synced : Accounts → Accounts
synced s = record s { file = some s.config }

-- `Config::sync`
abbrev pub sync : Bool → Accounts → Did Unit
sync writes s = ensure writes s (ok tt, synced s)

-- `iter().find(|e| e.id == id)`
unfoldable pub find : ℕ → List AccountConfig → Option AccountConfig
find id [] = none
find id (a ∷ cs) = let rest = find id cs in if a.id == id then some a else rest

-- `iter().any(|e| e.id == id)`
abbrev pub has : ℕ → List AccountConfig → Bool
has id cs = is_some (find id cs)

-- `position` and `remove`, and `remove` of the map.
unfoldable pub remove : ℕ → List AccountConfig → List AccountConfig
remove id [] = []
remove id (a ∷ cs) = let rest = a ∷ remove id cs in if a.id == id then cs else rest

-- `insert` of the map.
unfoldable pub insert : AccountConfig → List AccountConfig → List AccountConfig
insert c [] = c ∷ []
insert c (a ∷ cs) =
    let rest = a ∷ insert c cs in
    if c.id == a.id then c ∷ cs else if ltb c.id a.id then c ∷ a ∷ cs else rest

-- `accounts.get(0).map(|e| e.id).unwrap_or_default()`
abbrev pub first_id : List AccountConfig → ℕ
first_id [] = 0
first_id (a ∷ cs) = a.id

-- `Config::new`
abbrev pub new_config : InnerConfig
new_config = record { selected_account = 0; next_id = 1; accounts = [] }

-- `Config::load_accounts`
unfoldable pub load_into : List AccountConfig → List AccountConfig → List AccountConfig
load_into accounts [] = accounts
load_into accounts (c ∷ cs) = load_into (insert c accounts) cs

-- `Accounts::open` and `Config::from_file`: the configuration is the one in the file, and none where
-- there is no file. The contexts can be opened.
abbrev pub open_config : Option InnerConfig → Option Accounts
open_config none = none
open_config (some config) =
    some (record { config = config; accounts = load_into [] config.accounts; file = some config })

-- The answers to one operation.
pub record Outcomes : Type 0 where
  -- The write of the configuration by `Config::new`.
  pub sync_created : Bool
  -- The two writes of the configuration by `new_account`.
  pub sync : Bool
  pub sync_selected : Bool
  -- `Context::new`
  pub context : Bool
  -- `fs::remove_dir_all`
  pub remove_dir : Bool
  -- The write of the configuration by `remove_account` and by `select_account`.
  pub sync_removed : Bool
  pub sync_select : Bool
  -- `imex`
  pub imex : Bool
  -- The checks and moves of the files of a migrated account.
  pub dbfile_exists : Bool
  pub blobdir_exists : Bool
  pub moved : Bool

module _ (out : Outcomes) where
  -- `Config::select_account` and `Accounts::select_account`
  abbrev set_selected : ℕ → Bool → Accounts → Did Unit
  set_selected id writes s =
      let s' = record s { config = record s.config { selected_account = id } } in
      ensure (has id s.config.accounts) s (sync writes s')

  unfoldable pub select_account : ℕ → Accounts → Did Unit
  select_account id s = set_selected id out.sync_select s

  -- `Config::new_account`
  unfoldable pub new_account : Text → Text → Accounts → Did AccountConfig
  new_account dir uuid s =
      let cfg : AccountConfig = record { id = s.config.next_id; dir = dir; uuid = uuid } in
      let s' = record s {
        config = record s.config {
          accounts = s.config.accounts ++ cfg ∷ [];
          next_id = s.config.next_id + 1;
        };
      } in
      and_then (sync out.sync s') λ _ s''.
        and_then (expect (set_selected cfg.id out.sync_selected s'')) λ _ s'''.
          elim (find cfg.id s'''.config.accounts) [ none ↦ (panic, s''') | some c ↦ (ok c, s''') ]

  -- The insert of a context that was opened, and the id.
  abbrev open_context : AccountConfig → Accounts → Did ℕ
  open_context cfg s =
      ensure out.context s (ok cfg.id, record s { accounts = insert cfg s.accounts })

  unfoldable pub add_account : Text → Text → Accounts → Did ℕ
  add_account dir uuid s = and_then (new_account dir uuid s) open_context

  -- `Config::remove_account`
  unfoldable pub remove_config : ℕ → Accounts → Did Unit
  remove_config id s =
      let rest = remove id s.config.accounts in
      let s' = record s {
        config = record s.config {
          accounts = rest;
          selected_account =
              if s.config.selected_account == id then first_id rest else s.config.selected_account;
        };
      } in
      sync out.sync_removed s'

  -- `Accounts::remove_account`
  unfoldable pub remove_account : ℕ → Accounts → Did Unit
  remove_account id s =
      let s' = record s { accounts = remove id s.accounts } in
      ensure (has id s.accounts) s'
        (ensure (not (has id s'.config.accounts) || out.remove_dir) s' (remove_config id s'))

  -- After a failed import: the account goes, and the selection is set back.
  abbrev undo : ℕ → ℕ → Accounts → Did ℕ
  undo id old_id s =
      and_then (remove_account id s) λ _ s'. and_then (select_account old_id s') λ _ s''. (err, s'')

  unfoldable pub import_account : Text → Text → Accounts → Did ℕ
  import_account dir uuid s =
      let old_id = s.config.selected_account in
      and_then (add_account dir uuid s) λ id s'.
        if not (has id s'.accounts)
        then (panic, s')
        else if out.imex
        then (ok id, s')
        else undo id old_id s'

  -- The moves of the files stand in a plain block, so an error of one returns from the function.
  unfoldable pub migrate_account : Text → Text → Accounts → Did ℕ
  migrate_account dir uuid s = ensure out.dbfile_exists s (
      ensure out.blobdir_exists s
        (and_then (new_account dir uuid s) λ cfg s'. ensure out.moved s' (open_context cfg s')))

  -- `Accounts::new` where there is no directory: `create`, whose context is dropped, and `open`.
  unfoldable pub create : Text → Text → Did Unit
  create dir uuid =
      let s : Accounts = record { config = new_config; accounts = []; file = none } in
      and_then (sync out.sync_created s) λ _ s'. and_then (new_account dir uuid s') λ cfg s''.
        ensure out.context s''
          (elim (open_config s''.file) [ none ↦ (err, s'') | some opened ↦ (ok tt, opened) ])

-- `get_selected_account`, which panics where the context is missing.
unfoldable pub get_selected_account : Accounts → Result AccountConfig
get_selected_account s = elim (find s.config.selected_account s.accounts) [
  | none ↦ panic
  | some c ↦ ok c
]
