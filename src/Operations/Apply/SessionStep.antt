-- ===== src/Operations/Apply/SessionStep.antt =====
-- What a command may do to the sessions: nothing, or one of the four ways to change them.
use poker_management_system.Common.{◌≡◌, refl, ap, ◌∙◌, String, some, find}
use poker_management_system.Common.Text.{◌=ₜ◌}
use poker_management_system.Common.Result.{ok}
use poker_management_system.Model.{Store, Staff, Day, ApprovalRequest}
use poker_management_system.Commands.{Command, CheckIn, Move, SeatSwapParticipant, Decide}
use poker_management_system.Ledger.Impact.{transaction_of}
use poker_management_system.Operations.Guards.{Host, audit}
use poker_management_system.Operations.Entry.{validate_entry, posted_sessions}
use poker_management_system.Operations.Entry.Done.{post_entry-done}
use poker_management_system.Operations.Seating.{swap_audit}
use poker_management_system.Operations.Seating.Done as S
use poker_management_system.Operations.Approvals.{voted, put_request}
use poker_management_system.Operations.Approvals.Done as A
use poker_management_system.Operations.Approvals.Done.{refused, waiting, posted}
use poker_management_system.Operations.Apply.Done.{
  Applied, settings_updated, setup_completed, table_saved, profile_updated, day_opened,
  day_reopened, checked_in, moved, swapped, requested, corrected, decided, day_closed,
}

module _ (host : Host) (store : Store) (actor : Staff) (time : String) where
  pub data SessionStep (store' : Store) : Type 0 where
    kept : store'.sessions ≡ store.sessions → SessionStep store'
    arrival :
        (day : Day) (c : CheckIn)
        → S.CheckedIn host store actor time day c store'
        → SessionStep store'
    transfer : (c : Move) → S.Moved host store actor time c store' → SessionStep store'
    exchange :
        (day : Day) (first second : SeatSwapParticipant)
        → S.Swapped host store actor time day first second store'
        → SessionStep store'
    posting :
        (r : ApprovalRequest) (id : String)
        → find (λ x. x.id =ₜ id) store.approvals ≡ some r
        → validate_entry store r ≡ ok tt
        → store'.sessions
          ≡ posted_sessions r.type
              (transaction_of store r.reverses_id)
              r.session_id
              time
              store.sessions
        → SessionStep store'

  same : {store' next : Store} → store' ≡ next → next.sessions ≡ store.sessions → SessionStep store'
  same e m = kept (ap (λ (s : Store). s.sessions) e ∙ m)

  outcome-SessionStep :
      (c : Decide) (r : ApprovalRequest) (store' : Store)
      → find (λ x. x.id =ₜ c.approval_id) store.approvals ≡ some r
      → A.Outcome host store actor time c r store'
      → SessionStep store'
  unfolding audit put_request voted
  outcome-SessionStep c r store' known (refused q e) = same e refl
  outcome-SessionStep c r store' known (waiting v q e) = same e refl
  outcome-SessionStep c r store' known (posted ledger v full q e) =
      let d = (post_entry-done host 0 store (voted actor time r) time).at q in
      posting r c.approval_id known v
        (ap (λ (s : Store). s.sessions) e ∙ ap (λ (s : Store). s.sessions) d.result)

  pub Applied-SessionStep :
      (store' : Store) (command : Command)
      → Applied host store actor time store' command
      → SessionStep store'
  unfolding audit swap_audit
  Applied-SessionStep store' command (settings_updated s r d) = same d.result refl
  Applied-SessionStep store' command (setup_completed d) = same d.result refl
  Applied-SessionStep store' command (table_saved c d) = same d.result refl
  Applied-SessionStep store' command (profile_updated c d) = same d.result refl
  Applied-SessionStep store' command (day_opened date cash d) = same d.result refl
  Applied-SessionStep store' command (day_reopened day r p d) = same d.result refl
  Applied-SessionStep store' command (checked_in day c o d) = arrival day c d
  Applied-SessionStep store' command (moved day c o d) = transfer c d
  Applied-SessionStep store' command (swapped day f s o d) = exchange day f s d
  Applied-SessionStep store' command (requested day c o d) = same d.result refl
  Applied-SessionStep store' command (corrected day id r o d) = same d.result refl
  Applied-SessionStep store' command (decided day c o d) =
      outcome-SessionStep c d.request store' d.known d.outcome
  Applied-SessionStep store' command (day_closed day c o d) = same d.result refl
