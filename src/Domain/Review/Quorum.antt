-- ===== src/Domain/Review/Quorum.antt =====
-- The presented progress of a request for dual review, and the domain's test of its votes.
use poker_management_system.Common.{
  true, false, ◌≡◌, ◌↔◌, refl, sym, ◌∙◌, ap, none, List, [], ◌∷◌, ◌++◌, All, Pairwise, arith,
}
use poker_management_system.Common.Lists.Laws.{All-append}
use poker_management_system.Common.Text.{◌=ₜ◌}
use poker_management_system.Model.{Vote, ApprovalRequest, pending, dual}
use poker_management_system.Operations.Approvals.{is_complete}
use poker_management_system.Domain.Review.{set_vote, reviewers_from, approval_review_progress}

-- Votes of different members of staff.
abbrev pub IsApart : Vote → Vote → Type 0
IsApart a b = (a.staff_id =ₜ b.staff_id) ≡ false

set_vote-new :
    (v : Vote) (seen : List Vote) → All (λ s. IsApart s v) seen → set_vote v seen ≡ seen ++ (v ∷ [])
unfolding set_vote
set_vote-new v [] h = refl
set_vote-new v (s ∷ seen) (n, h) = ground (arith, set_vote-new v seen h)

append_one :
    (seen : List Vote) (v : Vote) (votes : List Vote)
    → (seen ++ (v ∷ [])) ++ votes ≡ seen ++ (v ∷ votes)
append_one [] v votes = refl
append_one (s ∷ seen) v votes = ap (λ l. s ∷ l) (append_one seen v votes)

append_none : (seen : List Vote) → seen ++ [] ≡ seen
append_none [] = refl
append_none (s ∷ seen) = ap (λ l. s ∷ l) (append_none seen)

spread :
    (v : Vote) (seen votes : List Vote)
    → All (λ w. All (λ s. IsApart s w) seen) votes
    → All (IsApart v) votes
    → All (λ w. All (λ s. IsApart s w) (seen ++ (v ∷ []))) votes
spread v seen [] h k = tt
spread v seen (w ∷ votes) (h, hs) (k, ks) =
    (All-append (λ s. IsApart s w) seen h k, spread v seen votes hs ks)

reviewers_from-apart :
    (seen votes : List Vote)
    → All (λ w. All (λ s. IsApart s w) seen) votes
    → Pairwise IsApart votes
    → reviewers_from seen votes ≡ seen ++ votes
unfolding reviewers_from
reviewers_from-apart seen [] h p = sym (append_none seen)
reviewers_from-apart seen (v ∷ votes) (h, hs) (a, p) =
    ap (λ s. reviewers_from s votes) (set_vote-new v seen h)
    ∙ (reviewers_from-apart (seen ++ (v ∷ [])) votes (spread v seen votes hs a) p
        ∙ append_one seen v votes)

none_seen : (votes : List Vote) → All (λ w. All (λ s. IsApart s w) []) votes
none_seen [] = tt
none_seen (w ∷ votes) = (tt, none_seen votes)

-- The progress and the domain agree on dual review: of a pending request for dual review, the votes
-- of which are by different members of staff, the progress names no requirement exactly when the
-- votes complete the review.
pub progress_none_iff :
    (request : ApprovalRequest)
    → request.status ≡ pending
    → request.approval_level ≡ dual
    → Pairwise IsApart request.votes
    → ((approval_review_progress request).requirement ≡ none) ↔ (is_complete request ≡ true)
unfolding approval_review_progress is_complete
progress_none_iff request s l p =
    let r = reviewers_from-apart [] request.votes (none_seen request.votes) p in
    rw (s, l, r) (ground arith)
