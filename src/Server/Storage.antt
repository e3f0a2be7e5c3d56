-- ===== src/Server/Storage.antt =====
-- `writeStoreDelta` of src/server/storage.ts, on one branch. A table of the database is the list of
-- its records by `order_no`, so that the rows which are added stand together before the others
-- (approvals, transactions, audit logs) or behind them. A breach of the primary key, which the
-- database refuses, is `duplicate_key`. The last revision of a record is not kept.
pub mod Done
pub mod Marks
use poker_management_system.Common.{
  ℕ, String, Bool, true, false, Option, none, some, List, [], ◌∷◌, ◌++◌, any, find, map, length,
  leb, if◌then◌else◌, or_else, ◌||◌,
}
use poker_management_system.Common.Text.{◌=ₜ◌, opt_eq, truthy}
use poker_management_system.Common.Result.{Result, ok, err, domain, plain, ◌>>=◌}
use poker_management_system.Model.{Store, Transaction, TxType, VenueSettings, Dict}
use poker_management_system.Model.Same.{
  is_yes, profile_discrete, session_discrete, table_discrete, transaction_discrete,
  approval_discrete, day_discrete, log_discrete,
}
use poker_management_system.Commands.Dependencies.{lookup}
use poker_management_system.Server.Rollups.{Rollup, update_ledger_rollups}

-- A row of `poker_operations`. `result_context` is what a reader shows again, and is left out.
pub record Operation : Type 0 where
  pub operation_id : String
  pub actor_id : String
  pub fingerprint : String
  pub revision : ℕ

-- The records of a branch: `poker_branch_state` with the tables beside it. The store has all rows and
-- no read model.
pub record Branch : Type 0 where
  pub id : String
  pub venue_name : String
  pub timezone : String
  pub revision : ℕ
  pub concurrency_floor : ℕ
  pub store : Store
  pub rollups : List Rollup
  pub versions : Dict ℕ
  pub operations : List Operation

abbrev pub duplicate_key : String
duplicate_key = "duplicate key value violates unique constraint"

-- A table while it is written: the rows that it had, those that are added, and what hangs on it.
pub record Rows (A R : Type 0) : Type 0 where
  pub updated : List A
  pub added : List A
  pub extra : R

module _ {A R : Type 0} (eq : Discrete A) (id_of : A → String) where
  -- `UPDATE`: of a row that is not there nothing is returned.
  unfoldable pub update_row : Bool → A → Rows A R → Result (Rows A R)
  update_row is_ledger row rows =
      if is_ledger
      then err (domain "Posted transactions are immutable. Request a reversal instead." 409)
      else if any (λ r. id_of r =ₜ id_of row) rows.updated
      then ok (record rows {
        updated = map (λ r. if id_of r =ₜ id_of row then row else r) rows.updated;
      })
      else err (domain "The record changed. Refresh records and try again." 409)

  unfoldable pub insert_row : (List A → A → R → Result R) → A → Rows A R → Result (Rows A R)
  insert_row on_insert row rows =
      if any (λ r. id_of r =ₜ id_of row) (rows.updated ++ rows.added)
      then err (plain duplicate_key)
      else on_insert (row ∷ rows.updated ++ rows.added) row rows.extra >>= λ extra.
          ok (record { updated = rows.updated; added = rows.added ++ (row ∷ []); extra = extra })

  -- The loop over `after[key]`
  unfoldable pub write_rows :
      Bool → (List A → A → R → Result R) → List A → List A → Rows A R → Result (Rows A R)
  unfolding update_row insert_row
  write_rows is_ledger on_insert before [] rows = ok rows
  write_rows is_ledger on_insert before (row ∷ after) rows = do
    next ← elim (lookup id_of before (id_of row)) [
      | none ↦ insert_row on_insert row rows
      | some previous ↦ if is_yes (eq previous row) then ok rows else update_row is_ledger row rows
    ]
    write_rows is_ledger on_insert before after next

abbrev pub prepended : {A R : Type 0} → Rows A R → List A
prepended rows = rows.added ++ rows.updated

abbrev pub appended : {A R : Type 0} → Rows A R → List A
appended rows = rows.updated ++ rows.added

abbrev pub no_hook : {A : Type 0} → List A → A → Unit {0} → Result (Unit {0})
no_hook all row extra = ok extra

-- The sums follow a new entry of the ledger.
unfoldable pub ledger_hook : List Transaction → Transaction → List Rollup → Result (List Rollup)
ledger_hook all tx rollups =
    if truthy tx.reverses_id
    then (elim (find (λ t. opt_eq (some t.id) tx.reverses_id) all) [
      | none ↦ err (plain "The original ledger entry was not found.")
      | some original ↦ update_ledger_rollups tx original.type rollups
    ])
    else update_ledger_rollups tx tx.type rollups

-- A table other than the ledger.
abbrev pub write_table :
    {A : Type 0} → Discrete A → (A → String) → List A → List A → List A → Result (Rows A (Unit {0}))
write_table eq id_of before after stored =
    write_rows eq id_of false no_hook before after
      (record { updated = stored; added = []; extra = tt })

-- The collections in the order of `recordTables`.
unfoldable pub write_store_delta : Branch → Store → Store → ℕ → Result Branch
unfolding write_rows ledger_hook
write_store_delta branch before after revision = do
  let stored = branch.store
  profiles ← write_table profile_discrete (λ p. p.id) before.profiles after.profiles stored.profiles
  tables ← write_table table_discrete (λ t. t.id) before.tables after.tables stored.tables
  sessions ← write_table session_discrete (λ s. s.id) before.sessions after.sessions stored.sessions
  days ← write_table day_discrete (λ d. d.id) before.days after.days stored.days
  approvals ←
      write_table approval_discrete (λ r. r.id) before.approvals after.approvals stored.approvals
  ledger ←
      write_rows transaction_discrete (λ t. t.id) true ledger_hook before.transactions
        after.transactions
        (record { updated = stored.transactions; added = []; extra = branch.rollups })
  logs ← write_table log_discrete (λ l. l.id) before.audit_logs after.audit_logs stored.audit_logs
  ok (record branch {
    revision = revision;
    rollups = ledger.extra;
    store = record {
      settings = after.settings;
      profiles = appended profiles;
      sessions = appended sessions;
      tables = appended tables;
      transactions = prepended ledger;
      approvals = prepended approvals;
      audit_logs = prepended logs;
      days = appended days;
      current_day_id = after.current_day_id;
      read_model = none;
    };
  })
