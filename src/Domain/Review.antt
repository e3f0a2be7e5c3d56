-- ===== src/Domain/Review.antt =====
-- How a pending request is presented: `approvalReviewStatus` of src/domain/approval-notifications.ts
-- and `approvalReviewProgress` of src/domain/approval-review-progress.ts.
pub mod Ready
pub mod Quorum
mod Tests
use poker_management_system.Common.{
  ℕ, String, Bool, true, false, not, ◌&&◌, ◌||◌, Option, none, some, List, [], ◌∷◌, ◌++◌, any, find,
  filter, length, ltb, holds, then_some, if◌then◌else◌, map,
}
use poker_management_system.Common.Text.{◌=ₜ◌, opt_eq}
use poker_management_system.Model.{
  Store, Staff, ApprovalRequest, Vote, admin, role_eq, is_open, is_pending, is_by_admin, is_dual,
  ApprovalLevel, by_manager, by_admin, dual,
}
use poker_management_system.Ledger.Debt.{current_day}
use poker_management_system.Operations.Guards.{can_approve}

pub data ReviewStatus : Type 0 where
  ready your_request already_reviewed admin_required : ReviewStatus
  awaiting_reviewer different_day day_closed : ReviewStatus

abbrev user_id : Option Staff → Option String
user_id user = then_some user (λ u. some u.id)

unfoldable pub approval_review_status : Store → ApprovalRequest → Option Staff → ReviewStatus
approval_review_status store request user =
    if opt_eq (some request.requested_by_id) (user_id user)
    then your_request
    else if any (λ vote. opt_eq (some vote.staff_id) (user_id user)) request.votes
    then already_reviewed
    else if not (opt_eq (some request.day_id) store.current_day_id)
    then different_day
    else if not (holds (λ day. is_open day.status) (current_day store))
    then day_closed
    else if is_by_admin request.approval_level && not (holds (λ u. role_eq u.role admin) user)
    then admin_required
    else if holds (λ u. can_approve u request) user
    then ready
    else awaiting_reviewer

-- `Array.from(new Map(votes.map((vote) => [vote.staffId, vote])).values())`: one vote of each member
-- of staff, the last, in the order of the first votes.
unfoldable pub set_vote : Vote → List Vote → List Vote
set_vote vote [] = vote ∷ []
set_vote vote (v ∷ votes) =
    let rest = set_vote vote votes in if v.staff_id =ₜ vote.staff_id then vote ∷ votes else v ∷ rest

unfoldable pub reviewers_from : List Vote → List Vote → List Vote
reviewers_from seen [] = seen
reviewers_from seen (v ∷ votes) = reviewers_from (set_vote v seen) votes

pub data Requirement : Type 0 where
  needs_admin needs_reviewer : Requirement

abbrev is_by_manager : ApprovalLevel → Bool
is_by_manager by_manager = true
is_by_manager by_admin = false
is_by_manager dual = false

-- The label is text for the reader and is left out.
pub record Progress : Type 0 where
  pub reviewers : List Vote
  pub count : ℕ
  pub minimum : ℕ
  pub requirement : Option Requirement

unfoldable pub approval_review_progress : ApprovalRequest → Progress
unfolding reviewers_from set_vote
approval_review_progress request =
    let reviewers = reviewers_from [] request.votes in
    let minimum = if is_dual request.approval_level then 2 else 1 in
    let admin_missing =
      not (is_by_manager request.approval_level)
      && not (any (λ vote. role_eq vote.role admin) reviewers) in
    record {
      reviewers = reviewers;
      count = length reviewers;
      minimum = minimum;
      requirement =
          if not (is_pending request.status)
          then none
          else if admin_missing
          then some needs_admin
          else if ltb (length reviewers) minimum
          then some needs_reviewer
          else none;
    }
