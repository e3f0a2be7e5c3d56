-- ===== src/Operations/Apply/Review.antt =====
-- Separation of duties: what holds of the votes of every request.
use poker_management_system.Common.{
  suc, ◌≤◌, ◌≡◌, ◌≢◌, refl, ap, ◌⊎◌, inl, inr, String, Bool, true, false, Option, List, [], ◌∷◌,
  ◌++◌, length, any, All, Pairwise, arith,
}
use poker_management_system.Common.Lists.Laws.{All-append, All-map, Pairwise-append, any-none}
use poker_management_system.Common.Text.Laws.{ne_of_test}
use poker_management_system.Common.Text.{◌=ₜ◌}
use poker_management_system.Common.Result.{ok}
use poker_management_system.Model.{
  Store, Staff, Vote, Role, manager, admin, role_code, role_eq, ApprovalRequest, is_by_admin,
  is_dual, RequestStatus, approved, pending, rejected, is_pending,
}
use poker_management_system.Commands.{Command}
use poker_management_system.Operations.Guards.{Host, can_approve}
use poker_management_system.Operations.Approvals.{
  voted, is_complete, rejected_request, decided, new_request,
}
use poker_management_system.Operations.Approvals.Done.{final}
use poker_management_system.Operations.Apply.Requests.{IsKeptByReview, apply_command-All}
use poker_management_system.Operations.Apply.{apply_command}

abbrev pub is_approved : RequestStatus → Bool
is_approved approved = true
is_approved pending = false
is_approved rejected = false

-- The votes that an approval needs: one, and for `DUAL` two with an administrator's among them.
abbrev pub HasQuorum : ApprovalRequest → Type 0
HasQuorum r =
    (1 ≤ length r.votes)
    × ((is_dual r.approval_level ≡ false)
        ⊎ ((2 ≤ length r.votes) × (any (λ v. role_eq v.role admin) r.votes ≡ true)))

pub record IsReviewed (r : ApprovalRequest) : Type 0 where
  pub independent : All (λ v. v.staff_id ≢ r.requested_by_id) r.votes
  pub distinct : Pairwise (λ v w. v.staff_id ≢ w.staff_id) r.votes
  pub authorized : All (λ v. role_code manager ≤ role_code v.role) r.votes
  pub by_level : All (λ v. (is_by_admin r.approval_level ≡ false) ⊎ (v.role ≡ admin)) r.votes
  pub quorum : (is_approved r.status ≡ false) ⊎ HasQuorum r

abbrev vote_of : Staff → String → Vote
vote_of actor time = record {
  staff_id = actor.id;
  username = actor.username;
  role = actor.role;
  time = time;
}

-- What `canApprove` says of the next vote.
record MayVote (actor : Staff) (r : ApprovalRequest) : Type 0 where
  other : actor.id ≢ r.requested_by_id
  fresh : All (λ v. v.staff_id ≢ actor.id) r.votes
  supervisor : role_code manager ≤ role_code actor.role
  level : (is_by_admin r.approval_level ≡ false) ⊎ (actor.role ≡ admin)
  waiting : is_pending r.status ≡ true

admin_of_code : (r : Role) → role_eq r admin ≡ true → r ≡ admin
admin_of_code r h = ground arith

can_approve-MayVote :
    (actor : Staff) (r : ApprovalRequest) → can_approve actor r ≡ true → MayVote actor r
unfolding can_approve
can_approve-MayVote actor r h = record {
  other = ne_of_test actor.id r.requested_by_id (ground arith);
  fresh =
      All-map (λ v. (v.staff_id =ₜ actor.id) ≡ false) (λ v. ne_of_test v.staff_id actor.id) r.votes
        (any-none (λ v. v.staff_id =ₜ actor.id) r.votes (ground arith));
  supervisor = ground arith;
  level = ground (arith, admin_of_code actor.role);
  waiting = ground arith;
}

length-append_one : (vs : List Vote) (v : Vote) → length (vs ++ (v ∷ [])) ≡ suc (length vs)
length-append_one [] v = refl
length-append_one (w ∷ vs) v = ap suc (length-append_one vs v)

-- A request with one more vote, and with any status that its votes allow.
voted-IsReviewed :
    (actor : Staff) (time : String) (r : ApprovalRequest)
    → IsReviewed r
    → MayVote actor r
    → IsReviewed (voted actor time r)
unfolding voted
voted-IsReviewed actor time r h m = record {
  independent = All-append (λ v. v.staff_id ≢ r.requested_by_id) r.votes h.independent m.other;
  distinct =
      Pairwise-append (λ v w. v.staff_id ≢ w.staff_id) r.votes (vote_of actor time) h.distinct
        m.fresh;
  authorized =
      All-append (λ v. role_code manager ≤ role_code v.role) r.votes h.authorized m.supervisor;
  by_level =
      All-append (λ v. (is_by_admin r.approval_level ≡ false) ⊎ (v.role ≡ admin)) r.votes h.by_level
        m.level;
  quorum = inl (ground (arith, m.waiting));
}

quorum_of_complete :
    (actor : Staff) (time : String) (r : ApprovalRequest)
    → is_complete (voted actor time r) ≡ true
    → HasQuorum (final actor time r)
unfolding is_complete voted decided
quorum_of_complete actor time r h =
    let e = length-append_one r.votes (vote_of actor time) in
    (rw e (omega arith), ground (arith, h))

final-IsReviewed :
    (actor : Staff) (time : String) (r : ApprovalRequest)
    → IsReviewed r
    → MayVote actor r
    → is_complete (voted actor time r) ≡ true
    → IsReviewed (final actor time r)
unfolding voted decided
final-IsReviewed actor time r h m full =
    let v = voted-IsReviewed actor time r h m in
    record {
      independent = v.independent;
      distinct = v.distinct;
      authorized = v.authorized;
      by_level = v.by_level;
      quorum = inr (quorum_of_complete actor time r full);
    }

rejected-IsReviewed :
    (actor : Staff) (time : String) (reason : Option String) (r : ApprovalRequest)
    → IsReviewed r
    → IsReviewed (rejected_request actor time reason r)
unfolding rejected_request decided
rejected-IsReviewed actor time reason r h = record {
  independent = h.independent;
  distinct = h.distinct;
  authorized = h.authorized;
  by_level = h.by_level;
  quorum = inl refl;
}

-- A request with no vote yet.
new-IsReviewed : (r : ApprovalRequest) → r.votes ≡ [] → r.status ≡ pending → IsReviewed r
new-IsReviewed r h p = record {
  independent = rw h tt;
  distinct = rw h tt;
  authorized = rw h tt;
  by_level = rw h tt;
  quorum = inl (rw p refl);
}

abbrev pub AllReviewed : Store → Type 0
AllReviewed store = All IsReviewed store.approvals

IsReviewed-IsKeptByReview : IsKeptByReview IsReviewed
unfolding new_request
IsReviewed-IsKeptByReview = record {
  created = λ host day actor time type amount player_id session_id table_id note reverses_id.
      new-IsReviewed _ refl refl;
  refused = rejected-IsReviewed;
  voted = λ actor time r m h. voted-IsReviewed actor time r h (can_approve-MayVote actor r m);
  final =
      λ actor time r m full h. final-IsReviewed actor time r h (can_approve-MayVote actor r m) full;
}

-- Every successful command keeps the review rules of all requests: no vote is by the requester, no
-- two votes of a request are by one member of staff, every voter is a manager or an administrator
-- (an administrator where the request asks for one), and an approved request has a vote, or two with
-- an administrator's among them where it asks for dual review.
pub apply_command-AllReviewed :
    (host : Host) (store : Store) (input : Command) (actor : Staff) (time : String) {store' : Store}
    → apply_command host store input actor time ≡ ok store'
    → AllReviewed store
    → AllReviewed store'
apply_command-AllReviewed = apply_command-All IsReviewed IsReviewed-IsKeptByReview
