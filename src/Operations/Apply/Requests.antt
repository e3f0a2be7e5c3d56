-- ===== src/Operations/Apply/Requests.antt =====
-- What every command keeps of all requests, as far as their review keeps it.
use poker_management_system.Common.{
  ◌≡◌, refl, sym, ap, subst, ◌∙◌, String, true, Option, some, find, All,
}
use poker_management_system.Common.Lists.Laws.{All-find, All-update_first}
use poker_management_system.Common.Text.{◌=ₜ◌}
use poker_management_system.Common.Int.{ℤ}
use poker_management_system.Common.Result.{ok}
use poker_management_system.Model.{Store, Staff, Day, TxType, ApprovalRequest}
use poker_management_system.Commands.{Command, Decide}
use poker_management_system.Operations.Guards.{Host, can_approve, audit}
use poker_management_system.Operations.Approvals.{
  voted as voted_by, is_complete, rejected_request, put_request, new_request,
  requested as requested_by, correction,
}
use poker_management_system.Operations.Approvals.Done as A
use poker_management_system.Operations.Approvals.Done.{refused, waiting, posted, final as final_of}
use poker_management_system.Operations.Entry.Done.{post_entry-done}
use poker_management_system.Operations.Seating.{swap_audit}
use poker_management_system.Operations.Apply.{apply_command}
use poker_management_system.Operations.Apply.Done.{
  Applied, settings_updated, setup_completed, table_saved, profile_updated, day_opened,
  day_reopened, checked_in, moved, swapped, requested, corrected, decided as decision, day_closed,
  apply_command-done,
}

module _ (P : ApprovalRequest → Type 0) where
  put_request-All :
      (id : String) (next r : ApprovalRequest) (store : Store)
      → find (λ x. x.id =ₜ id) store.approvals ≡ some r
      → P next
      → All P store.approvals
      → All P (put_request id next store).approvals
  unfolding put_request
  put_request-All id next r store known h all =
      All-update_first P (λ x. x.id =ₜ id) (λ _. next) store.approvals known (λ _. h) all

  -- What a predicate has to survive: it holds of a new request, and stays when a request is refused,
  -- gets a vote, or is approved.
  pub record IsKeptByReview : Type 0 where
    pub created :
        (host : Host) (day : Day) (actor : Staff) (time : String) (type : TxType) (amount : ℤ)
        (player_id session_id table_id : Option String) (note : String)
        (reverses_id : Option String)
        → P (
            new_request host day actor time type amount player_id session_id table_id note
              reverses_id)
    pub refused :
        (actor : Staff) (time : String) (reason : Option String) (r : ApprovalRequest)
        → P r
        → P (rejected_request actor time reason r)
    pub voted :
        (actor : Staff) (time : String) (r : ApprovalRequest)
        → can_approve actor r ≡ true
        → P r
        → P (voted_by actor time r)
    pub final :
        (actor : Staff) (time : String) (r : ApprovalRequest)
        → can_approve actor r ≡ true
        → is_complete (voted_by actor time r) ≡ true
        → P r
        → P (final_of actor time r)

  module _ (kept : IsKeptByReview) (host : Host) (store : Store) (actor : Staff)
      (time : String) where
    same :
        {store' next : Store}
        → store' ≡ next
        → next.approvals ≡ store.approvals
        → All P store.approvals
        → All P store'.approvals
    same e p all = subst (All P) (sym (ap (λ (s : Store). s.approvals) e ∙ p)) all

    outcome-All :
        (c : Decide) (r : ApprovalRequest) (store' : Store)
        → find (λ x. x.id =ₜ c.approval_id) store.approvals ≡ some r
        → can_approve actor r ≡ true
        → All P store.approvals
        → A.Outcome host store actor time c r store'
        → All P store'.approvals
    unfolding audit
    outcome-All c r store' known m all (refused p e) =
        let h = kept.refused actor time c.reason r (All-find P _ _ known all) in
        rw e (put_request-All c.approval_id _ r store known h all)
    outcome-All c r store' known m all (waiting p q e) =
        let h = kept.voted actor time r m (All-find P _ _ known all) in
        rw e (put_request-All c.approval_id _ r store known h all)
    outcome-All c r store' known m all (posted ledger p full q e) =
        let post = (post_entry-done host 0 store _ time).at q in
        let rest = ap (λ (s : Store). s.approvals) post.result in
        let h = kept.final actor time r m full (All-find P _ _ known all) in
        rw e (put_request-All c.approval_id _ r ledger (rw rest known) h (rw rest all))

    Applied-All :
        (store' : Store) (command : Command)
        → Applied host store actor time store' command
        → All P store.approvals
        → All P store'.approvals
    unfolding audit swap_audit requested_by correction
    Applied-All store' command (settings_updated s r d) all = same d.result refl all
    Applied-All store' command (setup_completed d) all = same d.result refl all
    Applied-All store' command (table_saved c d) all = same d.result refl all
    Applied-All store' command (profile_updated c d) all = same d.result refl all
    Applied-All store' command (day_opened date cash d) all = same d.result refl all
    Applied-All store' command (day_reopened day r p d) all = same d.result refl all
    Applied-All store' command (checked_in day c o d) all = same d.result refl all
    Applied-All store' command (moved day c o d) all = same d.result refl all
    Applied-All store' command (swapped day f s o d) all = same d.result refl all
    Applied-All store' command (requested day c o d) all =
        rw d.result (rw d.is_request (kept.created _ _ _ _ _ _ _ _ _ _ _), all)
    Applied-All store' command (corrected day id r o d) all =
        rw d.result (rw d.is_request (kept.created _ _ _ _ _ _ _ _ _ _ _), all)
    Applied-All store' command (decision day c o d) all =
        outcome-All c d.request store' d.known d.reviewer all d.outcome
    Applied-All store' command (day_closed day c o d) all = same d.result refl all

  -- What survives the review of one request survives every command, for all requests.
  pub apply_command-All :
      IsKeptByReview
      → (host : Host) (store : Store) (input : Command) (actor : Staff) (time : String)
        {store' : Store}
      → apply_command host store input actor time ≡ ok store'
      → All P store.approvals
      → All P store'.approvals
  apply_command-All kept host store input actor time h all =
      Applied-All kept host store actor time _ _
        ((apply_command-done host store actor time input).at h).done all
