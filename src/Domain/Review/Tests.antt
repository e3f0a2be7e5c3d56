-- ===== src/Domain/Review/Tests.antt =====
-- The manager sees a credit buy-in as ready, and rejects it.
use poker_management_system.Common.{◌≡◌, ◌↔◌, refl, some, none, true, [], ◌∷◌}
use poker_management_system.Common.Result.{ok}
use poker_management_system.Commands.{Command, Decide, decide, reject}
use poker_management_system.Operations.Approvals.{is_complete}
use poker_management_system.Domain.Review.Quorum.{progress_none_iff}
use poker_management_system.Model.{ApprovalRequest, dual, manager, admin, Store}
use poker_management_system.Domain.Review.{
  approval_review_progress, ready, your_request, approval_review_status,
}
use poker_management_system.Domain.Review.Ready.{apply_command-ready, ready_iff_rejects}
use poker_management_system.Operations.Apply.{apply_command}
use poker_management_system.Operations.Apply.Tests.{engine, host, ann, today, chips, playing, after}

abbrev choice : Decide
choice = record { approval_id = "A1"; decision = reject; reason = some "not agreed" }

abbrev refusal : Command
refusal = decide choice

run_refusal :
    apply_command host playing refusal ann "t3"
    ≡ ok (after (apply_command host playing refusal ann "t3"))
unfolding engine
run_refusal = refl

own_request : approval_review_status playing chips (some (record ann { id = "U3" })) ≡ your_request
unfolding approval_review_status
own_request = refl

apply_command-ready_example : approval_review_status playing chips (some ann) ≡ ready
unfolding engine
apply_command-ready_example =
    apply_command-ready host playing refusal ann "t3" choice chips refl refl run_refusal

ready_iff_rejects_example :
    (approval_review_status playing chips (some ann) ≡ ready)
    ↔ ((store' : Store) × (apply_command host playing refusal ann "t3" ≡ ok store'))
unfolding engine
ready_iff_rejects_example =
    ready_iff_rejects host playing refusal ann "t3" choice chips today refl refl refl refl refl

-- Two members of staff have voted, one of them an administrator.
abbrev large : ApprovalRequest
large = record chips {
  approval_level = dual;
  votes =
      record { staff_id = "U1"; username = "ann"; role = manager; time = "t3" }
      ∷ record { staff_id = "U2"; username = "root"; role = admin; time = "t4" }
      ∷ [];
}

progress_none_iff_example :
    ((approval_review_progress large).requirement ≡ none) ↔ (is_complete large ≡ true)
progress_none_iff_example = progress_none_iff large refl refl ((refl, tt), (tt, tt))
