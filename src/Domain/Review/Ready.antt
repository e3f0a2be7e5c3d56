-- ===== src/Domain/Review/Ready.antt =====
-- The presented status and the guards of a decision agree.
use poker_management_system.Common.{
  String, Bool, true, false, ◌&&◌, ◌≡◌, ◌↔◌, refl, sym, ◌∙◌, ap, subst, ℕ, leb, Option, none, some,
  find, holds, arith,
}
use poker_management_system.Common.Text.{◌=ₜ◌, opt_eq, truthy, js_length}
use poker_management_system.Common.Text.Laws.{eq_of_test, test_of_eq, opt_eq-eq}
use poker_management_system.Model.{Store, Staff, Day, ApprovalRequest, is_open}
use poker_management_system.Ledger.Debt.{current_day}
use poker_management_system.Operations.Guards.{can_approve}
use poker_management_system.Commands.{Command, Decide, decide, reject}
use poker_management_system.Operations.Guards.{Host, require_status, require_some}
use poker_management_system.Operations.Apply.{apply_command, apply_parsed, apply_in_day}
use poker_management_system.Operations.Approvals.{apply_decide, apply_rejection}
use poker_management_system.Operations.Approvals.Done.{rejection}
use poker_management_system.Commands.Schema.{parse_command}
use poker_management_system.Common.Result.{ok, bind-ok}
use poker_management_system.Operations.Apply.Done.{Applied, decided, apply_command-done}
use poker_management_system.Common.Lists.Laws.{find-holds}
use mathlib.Core.Option.{some-injective}
use poker_management_system.Domain.Review.{ready, approval_review_status}

same_sym : (s t : String) → (s =ₜ t) ≡ true → (t =ₜ s) ≡ true
same_sym s t h = test_of_eq t s (sym (eq_of_test s t h))

-- What `DECIDE` asks of the request and the actor before it looks at the decision.
pub record MayDecide (store : Store) (request : ApprovalRequest) (user : Staff) : Type 0 where
  pub today : opt_eq (some request.day_id) store.current_day_id ≡ true
  pub opened : holds (λ day. is_open day.status) (current_day store) ≡ true
  pub authorized : can_approve user request ≡ true

ready_allowed :
    (store : Store) (request : ApprovalRequest) (user : Staff)
    → approval_review_status store request (some user) ≡ ready
    → MayDecide store request user
unfolding approval_review_status
ready_allowed store request user h = record {
  today = ground arith;
  opened = ground arith;
  authorized = ground arith;
}

allowed_ready :
    (store : Store) (request : ApprovalRequest) (user : Staff)
    → MayDecide store request user
    → approval_review_status store request (some user) ≡ ready
unfolding approval_review_status can_approve
allowed_ready store request user m =
    let t = m.today in
    let o = m.opened in
    let a = m.authorized in ground (arith, same_sym request.requested_by_id user.id)

-- The current day, as the text of its id and as a record.
same_day :
    (store : Store) (request : ApprovalRequest) (d : Day)
    → current_day store ≡ some d
    → opt_eq (some request.day_id) store.current_day_id ≡ true
    → (request.day_id =ₜ d.id) ≡ true
unfolding current_day
same_day store request d c h =
    let p = find-holds (λ (x : Day). opt_eq (some x.id) store.current_day_id) store.days c in
    test_of_eq request.day_id d.id (
      some-injective _ _ (
        opt_eq-eq (some request.day_id) store.current_day_id h
        ∙ sym (opt_eq-eq (some d.id) store.current_day_id p)))

of_current_day :
    (store : Store) (request : ApprovalRequest) (d : Day)
    → current_day store ≡ some d
    → (request.day_id =ₜ d.id) ≡ true
    → opt_eq (some request.day_id) store.current_day_id ≡ true
unfolding current_day
of_current_day store request d c h =
    let p = find-holds (λ (x : Day). opt_eq (some x.id) store.current_day_id) store.days c in
    rw (eq_of_test request.day_id d.id h) p

pass : (n : ℕ) (b : Bool) (m : String) → b ≡ true → require_status n b m ≡ ok tt
unfolding require_status
pass n true m h = refl
pass n false m h = cc

take {ℓ} : {A : Type ℓ} (o : Option A) {a : A} (m : String) → o ≡ some a → require_some o m ≡ ok a
unfolding require_some
take none m h = cc
take (some a) m h = ap ok (some-injective _ _ h)

module _ (host : Host) (store : Store) (actor : Staff) (time : String) where
  -- A decision that succeeds was presented as ready.
  decided_ready :
      (c : Decide) (request : ApprovalRequest) {store' : Store}
      → find (λ r. r.id =ₜ c.approval_id) store.approvals ≡ some request
      → Applied host store actor time store' (decide c)
      → approval_review_status store request (some actor) ≡ ready
  decided_ready c request f (decided day t o d) =
      let same = some-injective _ _ (sym d.known ∙ f) in
      subst (λ r. approval_review_status store r (some actor) ≡ ready) same
        (allowed_ready store d.request actor (record {
          today = of_current_day store d.request day o.current d.of_day;
          opened = rw o.current o.in_progress;
          authorized = d.reviewer;
        }))

  -- What is presented as ready can be rejected with a reason.
  ready_rejects :
      (input : Command) (c : Decide) (request : ApprovalRequest) (day : Day)
      → parse_command host.is_timezone input ≡ some (decide c)
      → c.decision ≡ reject
      → (truthy c.reason && holds (λ r. leb 3 (js_length r)) c.reason) ≡ true
      → find (λ r. r.id =ₜ c.approval_id) store.approvals ≡ some request
      → current_day store ≡ some day
      → MayDecide store request actor
      → apply_command host store input actor time ≡ ok (rejection host actor time c request store)
  unfolding apply_command apply_parsed apply_in_day apply_decide apply_rejection
  ready_rejects input c request day p d r f t m =
      bind-ok _ (take (parse_command host.is_timezone input) _ p)
      ∙ (bind-ok _ (take (current_day store) _ t)
          ∙ (bind-ok _ (
                pass 400 (is_open day.status) _
                  (subst (λ x. holds (λ d. is_open d.status) x ≡ true) t m.opened))
              ∙ (bind-ok _ (take (find (λ r. r.id =ₜ c.approval_id) store.approvals) _ f)
                  ∙ (bind-ok _ (
                        pass 400 (request.day_id =ₜ day.id) _
                          (same_day store request day t m.today))
                      ∙ (bind-ok _ (pass 403 (can_approve actor request) _ m.authorized)
                          ∙ rw d (bind-ok _ (pass 400 _ _ r)))))))

-- A decision that succeeds falls on a request that was presented to the actor as ready for review:
-- for every command that the schema turns into a decision, be it an approval or a rejection.
pub apply_command-ready :
    (host : Host) (store : Store) (input : Command) (actor : Staff) (time : String) (c : Decide)
    (request : ApprovalRequest) {store' : Store}
    → parse_command host.is_timezone input ≡ some (decide c)
    → find (λ r. r.id =ₜ c.approval_id) store.approvals ≡ some request
    → apply_command host store input actor time ≡ ok store'
    → approval_review_status store request (some actor) ≡ ready
apply_command-ready host store input actor time c request {store'} p f h =
    let s = (apply_command-done host store actor time input).at h in
    decided_ready host store actor time c request f
      (subst (Applied host store actor time store') (some-injective _ _ (sym s.parsed ∙ p)) s.done)

-- The presentation and the rules of the domain agree: on the current day, a request is presented to a
-- member of staff as ready for review exactly when a rejection of it by them, with a reason of three
-- characters or more, succeeds.
pub ready_iff_rejects :
    (host : Host) (store : Store) (input : Command) (actor : Staff) (time : String) (c : Decide)
    (request : ApprovalRequest) (day : Day)
    → parse_command host.is_timezone input ≡ some (decide c)
    → c.decision ≡ reject
    → (truthy c.reason && holds (λ r. leb 3 (js_length r)) c.reason) ≡ true
    → find (λ r. r.id =ₜ c.approval_id) store.approvals ≡ some request
    → current_day store ≡ some day
    → (approval_review_status store request (some actor) ≡ ready)
      ↔ ((store' : Store) × (apply_command host store input actor time ≡ ok store'))
ready_iff_rejects host store input actor time c request day p d r f t = (
  λ h. (
    rejection host actor time c request store,
    ready_rejects host store actor time input c request day p d r f t
        (ready_allowed store request actor h),
  ),
  λ (store', h). apply_command-ready host store input actor time c request p f h,
)
