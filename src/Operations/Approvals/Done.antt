-- ===== src/Operations/Approvals/Done.antt =====
-- What a successful approval command has checked and done: `REQUEST`, `CORRECT` and `DECIDE`.
use poker_management_system.Common.{
  ◌≡◌, refl, String, true, false, not, ◌&&◌, ◌||◌, Option, none, some, ◌∷◌, any, find, holds, leb,
  ltb, if◌then◌else◌,
}
use poker_management_system.Common.Text.{◌=ₜ◌, opt_eq, truthy, js_length}
use poker_management_system.Common.Result.{ok, Ensures, Ensures-ok, Ensures-bind}
use poker_management_system.Model.{
  Store, Staff, Day, VenueSettings, Profile, Transaction, ApprovalRequest, dealer, has_role,
  cash_out, entry_eq, has_entry, is_pending, approved, text,
}
use poker_management_system.Ledger.Impact.{transaction_of}
use poker_management_system.Commands.{RequestCommand, Decide, Decision, approve, reject}
use poker_management_system.Operations.Guards.{Host, cashiers, dealer_entries, can_approve, audit}
use poker_management_system.Operations.Ensures.{passed, permitted, found, Ensures-if}
use poker_management_system.Operations.Entry.{is_reversed, validate_entry, post_entry}
use poker_management_system.Operations.Approvals.{
  check_type, requested, check_place, active_session, request_text, apply_request, correction,
  apply_correct, voted, is_complete, decided, put_request, or_risk, rejected_request, approve_audit,
  apply_rejection, apply_approval, apply_decide,
}

-- The profile of a request.
abbrev pub requester : Store → RequestCommand → Option Profile
requester store c = find (λ p. opt_eq (some p.id) c.player_id) store.profiles

-- What the rejection of a request leaves.
abbrev pub rejection : Host → Staff → String → Decide → ApprovalRequest → Store → Store
rejection host actor time c request store =
    audit host 0 actor time "Rejected request" request.id (text (or_risk c.reason request))
      (some (text "PENDING")) (some (text "REJECTED"))
      (put_request c.approval_id (rejected_request actor time c.reason request) store)

-- What a vote leaves that does not complete the review.
abbrev pub vote : Host → Staff → String → Decide → ApprovalRequest → Store → Store
vote host actor time c request store =
    approve_audit host 0 actor time c request "PENDING"
      (put_request c.approval_id (voted actor time request) store)

-- The request as the last vote leaves it.
abbrev pub final : Staff → String → ApprovalRequest → ApprovalRequest
final actor time request =
    decided actor time (record (voted actor time request) { status = approved })

module _ (host : Host) (store : Store) (actor : Staff) (time : String) where
  pub record Requested (day : Day) (settings : VenueSettings) (c : RequestCommand) (store' : Store)
      : Type 0 where
    pub request : ApprovalRequest
    pub is_request :
        request
        ≡ requested host day actor time c
            (requester store c)
            (active_session store (requester store c))
    pub allowed :
        has_role
          (if has_entry dealer_entries c.type then dealer ∷ cashiers else cashiers)
          actor.role
        ≡ true
    pub positive : (ltb 0 c.amount || entry_eq c.type cash_out) ≡ true
    pub checked :
        check_type store settings
          (requester store c)
          (active_session store (requester store c))
          c.type
          c.amount
        ≡ ok tt
    pub placed : check_place store request.table_id c ≡ ok tt
    pub valid : validate_entry store request ≡ ok tt
    pub result :
        store'
        ≡ audit host 1 actor time "Requested approval" request.id
            (request_text c.type c.amount)
            none
            none
            (record store { approvals = request ∷ store.approvals })

  pub request-done :
      (day : Day) (settings : VenueSettings) (c : RequestCommand)
      → Ensures (Requested day settings c) (apply_request host store day settings actor time c)
  unfolding apply_request
  request-done day settings c = Ensures-bind λ _ p. Ensures-bind λ _ q. Ensures-bind λ _ r.
      Ensures-bind λ _ s. Ensures-bind λ _ t. Ensures-bind λ _ u. Ensures-bind λ _ v.
        Ensures-bind λ _ w. Ensures-ok (record {
          request = _;
          is_request = refl;
          allowed = permitted _ _ p;
          positive = passed _ _ _ q;
          checked = u;
          placed = v;
          valid = w;
          result = refl;
        })

  pub record Corrected (day : Day) (transaction_id reason : String) (store' : Store) : Type 0 where
    pub tx : Transaction
    pub request : ApprovalRequest
    pub is_request : request ≡ correction host day actor time tx reason
    pub allowed : has_role cashiers actor.role ≡ true
    pub known : transaction_of store (some transaction_id) ≡ some tx
    pub original : ((tx.day_id =ₜ day.id) && not (truthy tx.reverses_id)) ≡ true
    pub unreversed :
        (not (is_reversed store.transactions tx.id)
          && not
              (any (λ r. opt_eq r.reverses_id (some tx.id) && is_pending r.status) store.approvals))
        ≡ true
    pub valid : validate_entry store request ≡ ok tt
    pub result :
        store'
        ≡ audit host 1 actor time "Requested reversal" request.id
            (text reason)
            (some (text tx.id))
            none
            (record store { approvals = request ∷ store.approvals })

  pub correct-done :
      (day : Day) (transaction_id reason : String)
      → Ensures
          (Corrected day transaction_id reason)
          (apply_correct host store day actor time transaction_id reason)
  unfolding apply_correct
  correct-done day transaction_id reason = Ensures-bind λ _ p. Ensures-bind λ tx q.
      Ensures-bind λ _ r. Ensures-bind λ _ s. Ensures-bind λ _ t. Ensures-ok (record {
        tx = tx;
        request = _;
        is_request = refl;
        allowed = permitted _ _ p;
        known = found _ _ q;
        original = passed _ _ _ r;
        unreversed = passed _ _ _ s;
        valid = t;
        result = refl;
      })

  -- The three outcomes of a decision.
  pub data Outcome (c : Decide) (request : ApprovalRequest) (store' : Store) : Type 0 where
    refused :
        (truthy c.reason && holds (λ r. leb 3 (js_length r)) c.reason) ≡ true
        → store' ≡ rejection host actor time c request store
        → Outcome c request store'
    waiting :
        validate_entry store request ≡ ok tt
        → is_complete (voted actor time request) ≡ false
        → store' ≡ vote host actor time c request store
        → Outcome c request store'
    posted :
        (ledger : Store)
        → validate_entry store request ≡ ok tt
        → is_complete (voted actor time request) ≡ true
        → post_entry host 0 store (voted actor time request) time ≡ ok ledger
        → store'
          ≡ approve_audit host 1 actor time c request "APPROVED"
              (put_request c.approval_id (final actor time request) ledger)
        → Outcome c request store'

  rejection-done :
      (c : Decide) (request : ApprovalRequest)
      → Ensures (Outcome c request) (apply_rejection host store actor time c request)
  unfolding apply_rejection
  rejection-done c request = Ensures-bind λ _ p. Ensures-ok (refused (passed _ _ _ p) refl)

  approval-done :
      (c : Decide) (request : ApprovalRequest)
      → Ensures (Outcome c request) (apply_approval host store actor time c request)
  unfolding apply_approval
  approval-done c request = Ensures-bind λ _ p.
      Ensures-if (is_complete (voted actor time request))
        (λ full. Ensures-bind λ ledger q. Ensures-ok (posted ledger p full q refl))
        (λ partial. Ensures-ok (waiting p partial refl))

  pub record Decided (day : Day) (c : Decide) (store' : Store) : Type 0 where
    pub request : ApprovalRequest
    pub known : find (λ r. r.id =ₜ c.approval_id) store.approvals ≡ some request
    pub of_day : (request.day_id =ₜ day.id) ≡ true
    pub reviewer : can_approve actor request ≡ true
    pub outcome : Outcome c request store'

  by_decision :
      (c : Decide) (request : ApprovalRequest) (d : Decision)
      → Ensures (Outcome c request) (elim d [
        | reject ↦ apply_rejection host store actor time c request
        | approve ↦ apply_approval host store actor time c request
      ])
  by_decision c request approve = approval-done c request
  by_decision c request reject = rejection-done c request

  pub decide-done :
      (day : Day) (c : Decide) → Ensures (Decided day c) (apply_decide host store day actor time c)
  unfolding apply_decide
  decide-done day c = Ensures-bind λ request p. Ensures-bind λ _ q. Ensures-bind λ _ r. record {
    at = λ e. record {
      request = request;
      known = found _ _ p;
      of_day = passed _ _ _ q;
      reviewer = passed _ _ _ r;
      outcome = (by_decision c request c.decision).at e;
    };
  }
