-- ===== src/Operations/Approvals.antt =====
-- `REQUEST`, `CORRECT` and `DECIDE` in `applyCommand` of src/domain/operations.ts, lines 557 to 792.
pub mod Done
use Prim.Native.String.{◌++◌ as text_append}
use poker_management_system.Common.{
  ℕ, ◌%◌, String, Bool, true, false, not, ◌&&◌, ◌||◌, Option, none, some, List, [], ◌∷◌, ◌++◌, any,
  find, holds, is_some, then_some, or_else, update_first, length, leb, ltb, ◌==◌, if◌then◌else◌,
}
use poker_management_system.Common.Int.{ℤ, pos, ◌+ℤ◌, leb_ℤ}
use poker_management_system.Common.Text.{◌=ₜ◌, opt_eq, truthy, js_length}
use poker_management_system.Common.Decimal.{decimal}
use poker_management_system.Common.Result.{Result, ok, err, ◌>>=◌, ◌>>◌}
use poker_management_system.Model.{
  Store, Staff, Day, VenueSettings, Profile, Session, Transaction, ApprovalRequest, Vote, Role,
  dealer, admin, role_eq, EntryType, buy_in, cash_out, rake, tips, insurance_premium,
  insurance_payout, jackpot_contribution, jackpot_payout, cash_received, cash_payout,
  credit_repayment, entry_eq, has_entry, is_entry, TxType, entry, reversal, is_pending, is_credit,
  is_active, is_dual, pending, approved, rejected, AuditText, text,
}
use poker_management_system.Settings.Rules.{TableRules, effective_table_rules}
use poker_management_system.Ledger.Debt.{debt, reserved_credit}
use poker_management_system.Ledger.Impact.{credit_player, transaction_of}
use poker_management_system.Commands.{RequestCommand, Decide, Decision, approve, reject}
use poker_management_system.Operations.Guards.{
  Host, require_that, require_status, require_some, permit, cashiers, dealer_entries, uid,
  has_open_table, can_approve, policy, audit,
}
use poker_management_system.Operations.Entry.{is_banned, is_reversed, validate_entry, post_entry}

-- The switches of the venue.
unfoldable pub check_enabled : VenueSettings → EntryType → Result (Unit {0})
check_enabled settings type = do
  require_that (not (entry_eq type tips) || settings.tips_enabled)
      "Tips are disabled in venue settings."
  require_that (not (entry_eq type rake) || settings.rake_enabled)
      "Rake is disabled in venue settings."
  require_that
      (not (has_entry (insurance_premium ∷ insurance_payout ∷ []) type)
        || settings.insurance_enabled)
      "Insurance entries are disabled in venue settings."
  require_that
      (not (has_entry (jackpot_contribution ∷ jackpot_payout ∷ []) type)
        || settings.jackpot_enabled)
      "Jackpot entries are disabled in venue settings."

-- `debt + reserved + amount <= creditLimit` of a credit player
unfoldable pub check_credit_line : Store → Option Profile → ℕ → Result (Unit {0})
check_credit_line store none amount = ok tt
check_credit_line store (some profile) amount =
    if is_credit profile.type
    then (do
      owed ← debt store profile.id
      require_that
          (leb_ℤ (owed +ℤ reserved_credit store profile.id +ℤ pos amount)
            (pos profile.credit_limit))
          "Credit limit would be exceeded.")
    else ok tt

-- The tests of a buy-in.
unfoldable pub check_buy_in :
    Store → VenueSettings → Option Profile → Option Session → ℕ → Result (Unit {0})
check_buy_in store settings profile session amount = do
  let table_id = then_some session (λ s. some s.table_id)
  let rules =
      effective_table_rules store.settings (find (λ t. opt_eq (some t.id) table_id) store.tables)
  require_that (leb rules.min_buy_in amount && leb amount rules.max_buy_in)
      "Buy-in amount is outside the configured minimum and maximum."
  require_that (rules.buy_in_step == 0 || amount % rules.buy_in_step == 0)
      "Buy-in amount must follow the configured increment."
  require_that (not (credit_player profile) || settings.credit_enabled)
      "New credit buy-ins are disabled in venue settings. Repayments and cash-out remain available."
  require_that (not (holds is_banned profile)) "This player is banned."
  let player_id = then_some profile (λ p. some p.id)
  require_that
      (not (
        any (λ r. opt_eq r.player_id player_id && is_entry cash_out r.type && is_pending r.status)
          store.approvals))
      "Resolve the pending cash-out first."
  check_credit_line store profile amount

-- The tests of a cash-out.
unfoldable pub check_cash_out : Store → Option Session → Result (Unit {0})
check_cash_out store session =
    let session_id = then_some session (λ s. some s.id) in
    require_that
      (not (any (λ r. opt_eq r.session_id session_id && is_pending r.status) store.approvals))
      "Resolve this session's pending transactions before cash-out."

unfoldable pub check_type :
    Store → VenueSettings → Option Profile → Option Session → EntryType → ℕ → Result (Unit {0})
unfolding check_buy_in check_cash_out
check_type store settings profile session buy_in amount =
    check_buy_in store settings profile session amount
check_type store settings profile session cash_out amount = check_cash_out store session
check_type store settings profile session credit_repayment amount =
    require_that (credit_player profile) "Select a credit player."
check_type store settings profile session _ amount = ok tt

-- The tests of the table and of the note.
unfoldable pub check_place : Store → Option String → RequestCommand → Result (Unit {0})
check_place store table_id c = do
  require_that (not (truthy table_id) || holds (has_open_table store.tables) table_id)
      "Select an open table."
  require_that (not (has_entry dealer_entries c.type) || truthy table_id) "Select a table."
  require_that
      (not (entry_eq c.type cash_received || entry_eq c.type cash_payout)
        || leb 3 (js_length c.note))
      "Explain this cash movement."

-- A new request: `policy` sets its level.
unfoldable pub new_request :
    Host
    → Day
    → Staff
    → String
    → TxType
    → ℤ
    → Option String
    → Option String
    → Option String
    → String
    → Option String
    → ApprovalRequest
new_request host day actor time type amount player_id session_id table_id note reverses_id =
    let p = policy type amount in
    record {
      id = uid host "APR" 0;
      day_id = day.id;
      type = type;
      amount = amount;
      player_id = player_id;
      session_id = session_id;
      table_id = table_id;
      staff = actor.username;
      note = note;
      status = pending;
      approval_level = p.approval_level;
      risk_reason = p.risk_reason;
      requested_by = actor.username;
      requested_by_id = actor.id;
      created_at = time;
      decided_by = none;
      decided_at = none;
      rejection_reason = none;
      reverses_id = reverses_id;
      votes = [];
    }

-- The name of an entry type, as the program spells it.
unfoldable pub entry_name : EntryType → String
entry_name buy_in = "Buy-in"
entry_name cash_out = "Cash-out"
entry_name rake = "Rake"
entry_name tips = "Tips"
entry_name insurance_premium = "Insurance Premium"
entry_name insurance_payout = "Insurance Payout"
entry_name jackpot_contribution = "Jackpot Contribution"
entry_name jackpot_payout = "Jackpot Payout"
entry_name cash_received = "Cash Received"
entry_name cash_payout = "Cash Payout"
entry_name credit_repayment = "Credit Repayment"

-- `${request.type}: ${request.amount} sen`
unfoldable pub request_text : EntryType → ℕ → AuditText
request_text type amount =
    text (text_append (entry_name type) (text_append ": " (text_append (decimal amount) " sen")))

unfoldable pub is_session_entry : EntryType → Bool
is_session_entry type = entry_eq type buy_in || entry_eq type cash_out

-- `store.profiles.find(...)`, `store.sessions.find(...)` and the fields of the request
unfoldable pub active_session : Store → Option Profile → Option Session
active_session store profile =
    find (λ s. opt_eq (some s.player_id) (then_some profile (λ p. some p.id)) && is_active s.status)
      store.sessions

unfoldable pub requested :
    Host → Day → Staff → String → RequestCommand → Option Profile → Option Session → ApprovalRequest
requested host day actor time c profile session =
    let isSession = is_session_entry c.type in
    new_request host day actor time (entry c.type) (pos c.amount)
      (then_some profile (λ p. some p.id))
      (if isSession then then_some session (λ s. some s.id) else none)
      (if isSession then then_some session (λ s. some s.table_id) else c.table_id) c.note none

unfoldable pub apply_request :
    Host → Store → Day → VenueSettings → Staff → String → RequestCommand → Result Store
apply_request host store day settings actor time c = do
  permit actor (if has_entry dealer_entries c.type then dealer ∷ cashiers else cashiers)
  require_that (ltb 0 c.amount || entry_eq c.type cash_out) "Amount must be positive."
  check_enabled settings c.type
  let profile = find (λ p. opt_eq (some p.id) c.player_id) store.profiles
  require_that (not (truthy c.player_id) || is_some profile) "Player not found."
  let session = active_session store profile
  require_that (not (is_session_entry c.type) || is_some session)
      "Select a player with an active session."
  check_type store settings profile session c.type c.amount
  let request = requested host day actor time c profile session
  check_place store request.table_id c
  validate_entry store request
  ok (
      audit host 1 actor time "Requested approval" request.id (request_text c.type c.amount) none
        none (record store { approvals = request ∷ store.approvals }))

abbrev not_original : String
not_original = "Only original transactions in the current open day can be reversed."

unfoldable pub correction : Host → Day → Staff → String → Transaction → String → ApprovalRequest
correction host day actor time tx reason =
    new_request host day actor time reversal tx.amount tx.player_id tx.session_id tx.table_id reason
      (some tx.id)

unfoldable pub apply_correct : Host → Store → Day → Staff → String → String → String → Result Store
apply_correct host store day actor time transaction_id reason = do
  permit actor cashiers
  tx ← require_some (transaction_of store (some transaction_id)) not_original
  require_that ((tx.day_id =ₜ day.id) && not (truthy tx.reverses_id)) not_original
  require_that
      (not (is_reversed store.transactions tx.id)
        && not
            (any (λ r. opt_eq r.reverses_id (some tx.id) && is_pending r.status) store.approvals))
      "A reversal already exists or is awaiting review."
  let request = correction host day actor time tx reason
  validate_entry store request
  ok (
      audit host 1 actor time "Requested reversal" request.id (text reason) (some (text tx.id)) none
        (record store { approvals = request ∷ store.approvals }))

-- `request` after a vote, and whether the votes complete it
unfoldable pub voted : Staff → String → ApprovalRequest → ApprovalRequest
voted actor time request = record request {
  votes =
      request.votes
      ++ (record { staff_id = actor.id; username = actor.username; role = actor.role; time = time }
          ∷ []);
}

unfoldable pub is_complete : ApprovalRequest → Bool
is_complete request =
    not (is_dual request.approval_level)
    || (leb 2 (length request.votes) && any (λ v. role_eq v.role admin) request.votes)

unfoldable pub decided : Staff → String → ApprovalRequest → ApprovalRequest
decided actor time request = record request {
  decided_at = some time;
  decided_by = some actor.username;
}

-- A write to the request that `find` returned.
unfoldable pub put_request : String → ApprovalRequest → Store → Store
put_request id request store = record store {
  approvals = update_first (λ r. r.id =ₜ id) (λ _. request) store.approvals;
}

-- `reason || riskReason`
abbrev or_risk : Option String → ApprovalRequest → String
or_risk reason request = if truthy reason then or_else reason "" else request.risk_reason

unfoldable pub rejected_request : Staff → String → Option String → ApprovalRequest → ApprovalRequest
unfolding decided
rejected_request actor time reason request =
    decided actor time (record request { status = rejected; rejection_reason = reason })

unfoldable pub apply_rejection :
    Host → Store → Staff → String → Decide → ApprovalRequest → Result Store
unfolding rejected_request put_request
apply_rejection host store actor time c request = do
  require_that (truthy c.reason && holds (λ r. leb 3 (js_length r)) c.reason)
      "Give a reason for rejection."
  let next = rejected_request actor time c.reason request
  ok (
      audit host 0 actor time "Rejected request" request.id (text (or_risk c.reason request))
        (some (text "PENDING")) (some (text "REJECTED")) (put_request c.approval_id next store))

abbrev approve_audit : Host → ℕ → Staff → String → Decide → ApprovalRequest → String → Store → Store
approve_audit host k actor time c request status store =
    audit host k actor time "Approved request" request.id (text (or_risk c.reason request))
      (some (text "PENDING")) (some (text status)) store

unfoldable pub apply_approval :
    Host → Store → Staff → String → Decide → ApprovalRequest → Result Store
unfolding voted is_complete decided put_request
apply_approval host store actor time c request = do
  validate_entry store request
  let next = voted actor time request
  if is_complete next
      then (do
        store' ← post_entry host 0 store next time
        ok (
            approve_audit host 1 actor time c request "APPROVED" (
              put_request c.approval_id (decided actor time (record next { status = approved }))
                store')))
      else ok (
          approve_audit host 0 actor time c request "PENDING"
            (put_request c.approval_id next store))

abbrev not_found : String
not_found = "Approval not found in this business day."

unfoldable pub apply_decide : Host → Store → Day → Staff → String → Decide → Result Store
unfolding apply_rejection apply_approval
apply_decide host store day actor time c = do
  request ← require_some (find (λ r. r.id =ₜ c.approval_id) store.approvals) not_found
  require_that (request.day_id =ₜ day.id) not_found
  require_status 403 (can_approve actor request)
      "Independent authorized review required; duplicate decisions are not allowed."
  elim c.decision [
    | reject ↦ apply_rejection host store actor time c request
    | approve ↦ apply_approval host store actor time c request
  ]
