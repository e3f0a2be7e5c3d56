-- ===== src/Operations/Guards.antt =====
-- `requireThat`, `permit`, `uid`, `canApprove`, `policy`, `ensureSeat` and `audit` of
-- src/domain/operations.ts, lines 27 to 141. `crypto.randomUUID()` is a parameter: the k-th call of
-- a command returns `uuid k`.
use Prim.Native.String.{◌++◌ as text_append}
use poker_management_system.Common.{
  ℕ, String, Bool, true, false, not, ◌&&◌, ◌||◌, Option, none, some, List, [], ◌∷◌, any, ◌==◌,
  if◌then◌else◌,
}
use poker_management_system.Common.Int.{ℤ, pos, leb_ℤ}
use poker_management_system.Common.Text.{◌=ₜ◌, opt_eq}
use poker_management_system.Common.Result.{Result, ok, err, domain, ◌>>◌}
use poker_management_system.Model.{
  Staff, Role, cashier, manager, admin, role_eq, has_role, EntryType, TxType, entry, reversal, rake,
  tips, insurance_premium, insurance_payout, jackpot_contribution, jackpot_payout, cash_out,
  cash_payout, has_entry, ApprovalRequest, ApprovalLevel, by_manager, by_admin, dual, is_by_admin,
  is_pending, is_active, is_open, Store, TableRecord, Session, AuditLog, AuditText,
}

-- What the host gives: the time zones that `Intl` knows, and random ids.
pub record Host : Type 0 where
  pub is_timezone : String → Bool
  pub uuid : ℕ → String

-- `requireThat`, with its default status 400 and with another
unfoldable pub require_status : ℕ → Bool → String → Result (Unit {0})
require_status status true message = ok tt
require_status status false message = err (domain message status)

abbrev pub require_that : Bool → String → Result (Unit {0})
require_that = require_status 400

-- `requireThat(value, message)` where the value is used afterwards
unfoldable pub require_some {ℓ} : {A : Type ℓ} → Option A → String → Result A
require_some none message = err (domain message 400)
require_some (some a) message = ok a

unfoldable pub permit : Staff → List Role → Result (Unit {0})
permit actor roles =
    require_status 403 (has_role roles actor.role) "You do not have permission for this action."

abbrev pub supervisors : List Role
supervisors = manager ∷ admin ∷ []

abbrev pub cashiers : List Role
cashiers = cashier ∷ supervisors

abbrev pub dealer_entries : List EntryType
dealer_entries =
    rake ∷ tips ∷ insurance_premium ∷ insurance_payout ∷ jackpot_contribution ∷ jackpot_payout ∷ []

abbrev pub payouts : List EntryType
payouts = cash_out ∷ insurance_payout ∷ jackpot_payout ∷ cash_payout ∷ []

unfoldable pub uid : Host → String → ℕ → String
uid host prefix k = text_append prefix (text_append "-" (host.uuid k))

unfoldable pub can_approve : Staff → ApprovalRequest → Bool
can_approve actor request =
    has_role supervisors actor.role
    && not (actor.id =ₜ request.requested_by_id)
    && not (any (λ vote. vote.staff_id =ₜ actor.id) request.votes)
    && is_pending request.status
    && (not (is_by_admin request.approval_level) || role_eq actor.role admin)

pub record Policy : Type 0 where
  pub approval_level : ApprovalLevel
  pub risk_reason : String

abbrev is_payout : TxType → Bool
is_payout (entry t) = has_entry payouts t
is_payout reversal = false

abbrev is_reversal_type : TxType → Bool
is_reversal_type (entry t) = false
is_reversal_type reversal = true

unfoldable pub policy : TxType → ℤ → Policy
policy type amount =
    if leb_ℤ (pos 2500000) amount
    then (record {
      approval_level = dual;
      risk_reason = "Two distinct reviewers, including one admin, required.";
    })
    else if leb_ℤ (pos 1000000) amount || is_payout type || is_reversal_type type
    then (record {
      approval_level = by_admin;
      risk_reason = "Admin review required for this amount or transaction type.";
    })
    else (record {
      approval_level = by_manager;
      risk_reason = "Independent manager or admin review required.";
    })

-- An active session at the seat, other than `session_id`.
unfoldable pub occupies : String → ℕ → Option String → Session → Bool
occupies table_id seat session_id session =
    is_active session.status
    && (session.table_id =ₜ table_id)
    && (session.seat == seat)
    && not (opt_eq (some session.id) session_id)

unfoldable pub has_open_table : List TableRecord → String → Bool
has_open_table tables table_id =
    any (λ table. (table.id =ₜ table_id) && is_open table.status) tables

unfoldable pub ensure_seat : Store → String → ℕ → Option String → Result (Unit {0})
ensure_seat store table_id seat session_id = do
  require_that (has_open_table store.tables table_id) "Select an open table."
  require_that (not (any (occupies table_id seat session_id) store.sessions))
      "That seat is occupied."

-- One entry of the log, by the k-th random id.
unfoldable pub audit_entry :
    Host
    → ℕ
    → Staff
    → String
    → String
    → String
    → AuditText
    → Option AuditText
    → Option AuditText
    → AuditLog
audit_entry host k actor time action entity reason before after = record {
  id = uid host "LOG" k;
  time = time;
  actor = actor.username;
  actor_id = actor.id;
  action = action;
  entity = entity;
  reason = reason;
  before = before;
  after = after;
}

-- `audit`: the newest entry comes first.
unfoldable pub audit :
    Host
    → ℕ
    → Staff
    → String
    → String
    → String
    → AuditText
    → Option AuditText
    → Option AuditText
    → Store
    → Store
unfolding audit_entry
audit host k actor time action entity reason before after store = record store {
  audit_logs = audit_entry host k actor time action entity reason before after ∷ store.audit_logs;
}
