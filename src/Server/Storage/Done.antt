-- ===== src/Server/Storage/Done.antt =====
-- What a call of `writeStoreDelta` that returned has done.
use poker_management_system.Common.{◌≡◌, refl, ℕ, true, none, [], List}
use poker_management_system.Common.Result.{ok, Ensures, Ensures-ok, Ensures-bind}
use poker_management_system.Model.{
  Store, Transaction, Profile, TableRecord, Session, Day, ApprovalRequest, AuditLog,
}
use poker_management_system.Model.Same.{profile_discrete, transaction_discrete, approval_discrete}
use poker_management_system.Server.Rollups.{Rollup}
use poker_management_system.Server.Storage.{
  Branch, Rows, write_rows, write_table, ledger_hook, prepended, appended, write_store_delta,
}

pub record Delta (branch : Branch) (before after : Store) (revision : ℕ) (branch' : Branch)
    : Type 0 where
  pub profiles : Rows Profile (Unit {0})
  pub tables : Rows TableRecord (Unit {0})
  pub sessions : Rows Session (Unit {0})
  pub days : Rows Day (Unit {0})
  pub approvals : Rows ApprovalRequest (Unit {0})
  pub ledger : Rows Transaction (List Rollup)
  pub logs : Rows AuditLog (Unit {0})
  pub wrote_profiles :
      write_table profile_discrete (λ p. p.id) before.profiles after.profiles branch.store.profiles
      ≡ ok profiles
  pub wrote_approvals :
      write_table approval_discrete
        (λ r. r.id)
        before.approvals
        after.approvals
        branch.store.approvals
      ≡ ok approvals
  pub wrote_ledger :
      write_rows transaction_discrete
        (λ t. t.id)
        true
        ledger_hook
        before.transactions
        after.transactions
        (record { updated = branch.store.transactions; added = []; extra = branch.rollups })
      ≡ ok ledger
  pub result : branch' ≡ record branch {
    revision = revision;
    rollups = ledger.extra;
    store = record {
      settings = after.settings;
      profiles = appended profiles;
      sessions = appended sessions;
      tables = appended tables;
      transactions = prepended ledger;
      approvals = prepended approvals;
      audit_logs = prepended logs;
      days = appended days;
      current_day_id = after.current_day_id;
      read_model = none;
    };
  }

pub write_store_delta-done :
    (branch : Branch) (before after : Store) (revision : ℕ)
    → Ensures (Delta branch before after revision) (write_store_delta branch before after revision)
unfolding write_store_delta
write_store_delta-done branch before after revision = Ensures-bind λ profiles p.
    Ensures-bind λ tables t. Ensures-bind λ sessions s. Ensures-bind λ days d.
      Ensures-bind λ approvals a. Ensures-bind λ ledger l. Ensures-bind λ logs g.
        Ensures-ok (record {
          profiles = profiles;
          tables = tables;
          sessions = sessions;
          days = days;
          approvals = approvals;
          ledger = ledger;
          logs = logs;
          wrote_profiles = p;
          wrote_approvals = a;
          wrote_ledger = l;
          result = refl;
        })
