-- ===== src/Operations/Apply/History.antt =====
-- What a command may do to the two histories, the ledger and the audit log: both only grow.
use poker_management_system.Common.{
  ℕ, suc, ◌≤◌, ◌≡◌, refl, ap, ◌∙◌, String, Option, List, [], ◌∷◌, ◌++◌, length, All, arith,
}
use poker_management_system.Common.Result.{ok}
use poker_management_system.Model.{Store, Staff, AuditLog, AuditText, Transaction}
use poker_management_system.Commands.{Command}
use poker_management_system.Operations.Guards.{Host, audit, audit_entry}
use poker_management_system.Operations.Seating.{swap_audit}
use poker_management_system.Operations.Approvals.{put_request}
use poker_management_system.Operations.Approvals.Done as A
use poker_management_system.Operations.Approvals.Done.{refused, waiting, posted}
use poker_management_system.Operations.Entry.Done.{post_entry-done}
use poker_management_system.Operations.Apply.{apply_command}
use poker_management_system.Operations.Apply.Done.{
  Applied, settings_updated, setup_completed, table_saved, profile_updated, day_opened,
  day_reopened, checked_in, moved, swapped, requested, corrected, decided, day_closed,
  apply_command-done,
}

abbrev IsBy : Staff → String → AuditLog → Type 0
IsBy actor time e = (e.actor_id ≡ actor.id) × (e.actor ≡ actor.username) × (e.time ≡ time)

-- The new entries of both histories.
pub record Extends (actor : Staff) (time : String) (store store' : Store) : Type 0 where
  pub logs : List AuditLog
  pub entries : List Transaction
  pub logs_kept : store'.audit_logs ≡ logs ++ store.audit_logs
  pub logged : 1 ≤ length logs
  pub attributed : All (IsBy actor time) logs
  pub ledger_kept : store'.transactions ≡ entries ++ store.transactions
  pub at_most_one : length entries ≤ 1

one_le : (n : ℕ) → 1 ≤ suc n
one_le n = omega arith

-- One log entry, and the entries of the ledger that are in front in `next`.
module _ (host : Host) (actor : Staff) (time : String) where
  audit-Extends :
      {store store' : Store} (k : ℕ) (action entity : String) (reason : AuditText)
      (before after : Option AuditText) (next : Store)
      → store' ≡ audit host k actor time action entity reason before after next
      → (entries : List Transaction) → next.audit_logs ≡ store.audit_logs
      → next.transactions ≡ entries ++ store.transactions
      → length entries ≤ 1
      → Extends actor time store store'
  unfolding audit
  audit-Extends k action entity reason before after next e entries logs txs few = record {
    logs = audit_entry host k actor time action entity reason before after ∷ [];
    entries = entries;
    logs_kept =
        ap (λ (s : Store). s.audit_logs) e
        ∙ ap
            (λ (l : List AuditLog).
              audit_entry host k actor time action entity reason before after ∷ l)
            logs;
    logged = one_le _;
    attributed = ((refl, refl, refl), tt);
    ledger_kept = ap (λ (s : Store). s.transactions) e ∙ txs;
    at_most_one = few;
  }

  Applied-Extends :
      (store store' : Store) (command : Command)
      → Applied host store actor time store' command
      → Extends actor time store store'
  unfolding put_request swap_audit audit
  Applied-Extends store store' command (settings_updated s r d) =
      audit-Extends _ _ _ _ _ _ _ d.result [] refl refl (omega arith)
  Applied-Extends store store' command (setup_completed d) =
      audit-Extends _ _ _ _ _ _ _ d.result [] refl refl (omega arith)
  Applied-Extends store store' command (table_saved c d) =
      audit-Extends _ _ _ _ _ _ _ d.result [] refl refl (omega arith)
  Applied-Extends store store' command (profile_updated c d) =
      audit-Extends _ _ _ _ _ _ _ d.result [] refl refl (omega arith)
  Applied-Extends store store' command (day_opened date cash d) =
      audit-Extends _ _ _ _ _ _ _ d.result [] refl refl (omega arith)
  Applied-Extends store store' command (day_reopened day r p d) =
      audit-Extends _ _ _ _ _ _ _ d.result [] refl refl (omega arith)
  Applied-Extends store store' command (checked_in day c o d) =
      audit-Extends _ _ _ _ _ _ _ d.result [] refl refl (omega arith)
  Applied-Extends store store' command (moved day c o d) =
      audit-Extends _ _ _ _ _ _ _ d.result [] refl refl (omega arith)
  Applied-Extends store store' command (swapped day f s o d) = record {
    logs = _ ∷ _ ∷ [];
    entries = [];
    logs_kept = ap (λ (s : Store). s.audit_logs) d.result;
    logged = one_le _;
    attributed = ((refl, refl, refl), ((refl, refl, refl), tt));
    ledger_kept = ap (λ (s : Store). s.transactions) d.result;
    at_most_one = omega arith;
  }
  Applied-Extends store store' command (requested day c o d) =
      audit-Extends _ _ _ _ _ _ _ d.result [] refl refl (omega arith)
  Applied-Extends store store' command (corrected day id r o d) =
      audit-Extends _ _ _ _ _ _ _ d.result [] refl refl (omega arith)
  Applied-Extends store store' command (decided day c o d) = decision d.outcome
    where
      decision :
          A.Outcome host store actor time c d.request store' → Extends actor time store store'
      decision (refused p e) = audit-Extends _ _ _ _ _ _ _ e [] refl refl (omega arith)
      decision (waiting p q e) = audit-Extends _ _ _ _ _ _ _ e [] refl refl (omega arith)
      decision (posted ledger p q r e) =
          let post = (post_entry-done host 0 store _ time).at r in
          audit-Extends _ _ _ _ _ _ _ e (_ ∷ []) (ap (λ (s : Store). s.audit_logs) post.result)
            (ap (λ (s : Store). s.transactions) post.result) (omega arith)
  Applied-Extends store store' command (day_closed day c o d) =
      audit-Extends _ _ _ _ _ _ _ d.result [] refl refl (omega arith)

-- A command that succeeds keeps every entry of the ledger and of the audit log in its place and puts
-- new ones in front: at most one in the ledger, and at least one in the log, each new log entry with
-- the id and the name of the member of staff and the time of the command.
pub apply_command-Extends :
    (host : Host) (store : Store) (input : Command) (actor : Staff) (time : String) {store' : Store}
    → apply_command host store input actor time ≡ ok store'
    → Extends actor time store store'
apply_command-Extends host store input actor time h =
    Applied-Extends host actor time store _ _
      ((apply_command-done host store actor time input).at h).done
