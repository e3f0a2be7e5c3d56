-- ===== src/Operations/Apply/Solvency.antt =====
-- No command drives the balance of a player below zero.
pub mod Steps
use poker_management_system.Common.{
  ◌≡◌, refl, ap, ◌∙◌, ◌⊎◌, inl, inr, String, true, false, Option, none, some, List, [], ◌∷◌, find,
  All,
}
use poker_management_system.Common.Int.{int_laws}
use poker_management_system.Common.Lists.Laws.{All-find, All-update_first, find-holds}
use poker_management_system.Common.Text.Laws.{opt_eq-eq}
use poker_management_system.Common.Text.{◌=ₜ◌, opt_eq, truthy}
use poker_management_system.Common.Result.{Result, ok, ◌>>◌}
use poker_management_system.Model.{
  Store, Staff, Transaction, ApprovalRequest, is_reversal, Day, TxType, entry, reversal, EntryType,
  buy_in, cash_out, credit_repayment,
}
use poker_management_system.Ledger.Debt.{ledger_debt}
use poker_management_system.Ledger.Impact.{transaction_of}
use poker_management_system.Commands.{Command, RequestCommand, Decide}
use poker_management_system.Operations.Guards.{Host, audit, uid}
use poker_management_system.Operations.Seating.{swap_audit}
use poker_management_system.Operations.Entry.{
  validate_entry, post_entry, posted as posted_entry, validate_reversal, validate_type,
  validate_visit, validate_repayment, is_current_visit, check_credit, validate_table,
}
use poker_management_system.Operations.Entry.Done.{ledger_entry, post_entry-done}
use poker_management_system.Operations.Entry.Solvency.{NonNeg, post_entry-NonNeg}
use poker_management_system.Operations.Approvals.{
  put_request, new_request, requested as requested_by, correction, rejected_request,
  decided as settle, voted, active_session,
}
use poker_management_system.Operations.Approvals.Done as A
use poker_management_system.Operations.Approvals.Done.{requester, refused, waiting, posted}
use poker_management_system.Operations.Apply.{apply_command}
use poker_management_system.Operations.Apply.Done.{
  Applied, settings_updated, setup_completed, table_saved, profile_updated, day_opened,
  day_reopened, checked_in, moved, swapped, requested, corrected, decided, day_closed,
  apply_command-done,
}
use poker_management_system.Operations.Apply.Solvency.Steps.{
  original_in, IsLinked, HasAmount, IsSolvent, IsFresh, original_in-none, same, added, replaced,
  posting,
}

module _ (host : Host) (store : Store) (actor : Staff) (time p : String) where
  HasAmount-new :
      (day : Day) (c : RequestCommand) (r : ApprovalRequest)
      → r
        ≡ requested_by host day actor time c
            (requester store c)
            (active_session store (requester store c))
      → HasAmount r
  unfolding new_request requested_by
  HasAmount-new day c r e = rw e (inr (omega int_laws))

  IsLinked-new :
      (day : Day) (c : RequestCommand) (r : ApprovalRequest)
      → r
        ≡ requested_by host day actor time c
            (requester store c)
            (active_session store (requester store c))
      → IsLinked store.transactions r
  unfolding new_request requested_by
  IsLinked-new day c r e = rw (e, original_in-none store.transactions) tt

  correction-IsSolvent :
      (day : Day) (id reason : String) (store' : Store)
      → A.Corrected host store actor time day id reason store'
      → IsSolvent p store
      → IsSolvent p store'
  unfolding audit new_request correction transaction_of
  correction-IsSolvent day id reason store' d s =
      let same_id = opt_eq-eq (some d.tx.id) (some id) (
        find-holds (λ (x : Transaction). opt_eq (some x.id) (some id)) store.transactions
          d.known) in
      let known : original_in store.transactions (some d.tx.id) ≡ some d.tx =
        ap (original_in store.transactions) same_id ∙ d.known in
      let l : IsLinked store.transactions d.request = rw (d.is_request, known) refl in
      let a : HasAmount d.request = rw d.is_request (inl refl) in
      same p _ d.result refl refl refl (added p store d.request a l s)

  outcome-IsSolvent :
      (c : Decide) (r : ApprovalRequest) (store' : Store)
      → find (λ x. x.id =ₜ c.approval_id) store.approvals ≡ some r
      → IsFresh host store
      → truthy (some p) ≡ true
      → IsSolvent p store
      → A.Outcome host store actor time c r store'
      → IsSolvent p store'
  unfolding audit voted rejected_request settle
  outcome-IsSolvent c r store' known fresh named s (refused q e) =
      let a : HasAmount r = All-find HasAmount _ _ known s.amounts in
      let l = All-find (IsLinked store.transactions) _ _ known s.links in
      same p _ e refl refl refl (replaced p store c.approval_id r _ known a l s)
  outcome-IsSolvent c r store' known fresh named s (waiting v q e) =
      let a : HasAmount r = All-find HasAmount _ _ known s.amounts in
      let l = All-find (IsLinked store.transactions) _ _ known s.links in
      same p _ e refl refl refl (replaced p store c.approval_id r _ known a l s)
  outcome-IsSolvent c r store' known fresh named s (posted ledger v full q e) =
      let a : HasAmount r = All-find HasAmount _ _ known s.amounts in
      let l = All-find (IsLinked store.transactions) _ _ known s.links in
      let s' = posting host store actor time p r ledger fresh named a l v q s in
      let d = (post_entry-done host 0 store (voted actor time r) time).at q in
      let kept = ap (λ (x : Store). x.approvals) d.result in
      let there : find (λ x. x.id =ₜ c.approval_id) ledger.approvals ≡ some r = rw kept known in
      let l' = All-find (IsLinked ledger.transactions) _ _ there s'.links in
      same p _ e refl refl refl (replaced p ledger c.approval_id r _ there a l' s')

  Applied-IsSolvent :
      (store' : Store) (command : Command)
      → Applied host store actor time store' command
      → IsFresh host store
      → truthy (some p) ≡ true
      → IsSolvent p store
      → IsSolvent p store'
  unfolding audit swap_audit
  Applied-IsSolvent store' command (settings_updated c r d) fresh named s =
      same p store d.result refl refl refl s
  Applied-IsSolvent store' command (setup_completed d) fresh named s =
      same p store d.result refl refl refl s
  Applied-IsSolvent store' command (table_saved c d) fresh named s =
      same p store d.result refl refl refl s
  Applied-IsSolvent store' command (profile_updated c d) fresh named s =
      same p store d.result refl refl refl s
  Applied-IsSolvent store' command (day_opened date cash d) fresh named s =
      same p store d.result refl refl refl s
  Applied-IsSolvent store' command (day_reopened day r q d) fresh named s =
      same p store d.result refl refl refl s
  Applied-IsSolvent store' command (checked_in day c o d) fresh named s =
      same p store d.result refl refl refl s
  Applied-IsSolvent store' command (moved day c o d) fresh named s =
      same p store d.result refl refl refl s
  Applied-IsSolvent store' command (swapped day f g o d) fresh named s =
      same p store d.result refl refl refl s
  Applied-IsSolvent store' command (requested day c o d) fresh named s =
      same p _ d.result refl refl refl (
        added p store d.request (HasAmount-new day c d.request d.is_request)
          (IsLinked-new day c d.request d.is_request) s)
  Applied-IsSolvent store' command (corrected day id r o d) fresh named s =
      correction-IsSolvent day id r store' d s
  Applied-IsSolvent store' command (decided day c o d) fresh named s =
      outcome-IsSolvent c d.request store' d.known fresh named s d.outcome
  Applied-IsSolvent store' command (day_closed day c o d) fresh named s =
      same p store d.result refl refl refl s

-- No command drives the balance of a player below zero: if a player with an id that is not empty owes
-- zero or more, every request that is not a reversal has an amount of zero or more, and every request
-- reverses entries of its own player only, then all of this holds after every successful command. It
-- is for a ledger that is summed from the records, and a fresh transaction id that no request names.
pub apply_command-IsSolvent :
    (host : Host) (store : Store) (input : Command) (actor : Staff) (time p : String)
    {store' : Store}
    → IsFresh host store
    → truthy (some p) ≡ true
    → apply_command host store input actor time ≡ ok store'
    → IsSolvent p store
    → IsSolvent p store'
apply_command-IsSolvent host store input actor time p fresh named h s =
    Applied-IsSolvent host store actor time p _ _
      ((apply_command-done host store actor time input).at h).done fresh named s
