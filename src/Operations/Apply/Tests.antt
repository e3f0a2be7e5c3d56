-- ===== src/Operations/Apply/Tests.antt =====
-- Runs of `applyCommand`, and the theorems of this part at concrete inputs.
use poker_management_system.Common.{
  All, ℕ, ◌*◌, ◌≤◌, ◌≡◌, refl, ◌↔◌, inl, inr, true, false, none, some, [], ◌∷◌, arith,
}
use poker_management_system.Common.Int.{pos, int_laws, ◌+ℤ◌, ◌-ℤ◌}
use poker_management_system.Common.Decimal.{decimal}
use poker_management_system.Common.Result.{Result, ok, err, domain, ◌>>=◌}
use poker_management_system.Model.{
  Store, Staff, Day, Profile, Session, TableRecord, ApprovalRequest, Totals, manager, admin,
  role_code, credit, active, opened, pending, by_manager, by_admin, entry, reversal, Transaction,
  buy_in,
}
use poker_management_system.Settings.Rules.{
  default_settings, table_rule_issue, effective_table_rules, venue_settings, step_misses_range,
}
use poker_management_system.Ledger.Debt.{empty_store, debt, ledger_debt, current_day}
use poker_management_system.Ledger.Impact.{reversed_impact, Impact, ledger_impact}
use poker_management_system.Ledger.Totals.{totals_for_day}
use poker_management_system.Ledger.Balance.{net, gain, ledger_impact_balanced}
use poker_management_system.Settings.Range.{step_misses_range-false_iff}
use poker_management_system.Commands.{Command, decide, approve, CloseDay, close_day}
use poker_management_system.Commands.Schema.{parse_command}
use poker_management_system.Operations.Guards.{
  Host, require_status, require_some, permit, can_approve, has_open_table, uid, audit,
}
use poker_management_system.Operations.Entry.{
  check_balance, check_limit, check_visit, is_reversed, validate_reversal, validate_entry,
  post_entry, is_current_visit, check_credit, session_of, validate_type, validate_table,
}
use poker_management_system.Operations.Approvals.{apply_decide}
use poker_management_system.Operations.Days.{apply_close_day, apply_reopen_day}
use poker_management_system.Operations.Apply.{apply_command, apply_parsed, apply_in_day}
use poker_management_system.Operations.Apply.Access.{least_role, apply_command-least_role}
use poker_management_system.Operations.Apply.History.{Extends, apply_command-Extends}
use poker_management_system.Operations.Apply.Floor.Seats.{AllAtOpenTables}
use poker_management_system.Operations.Apply.Floor.{apply_command-AllAtOpenTables}
use poker_management_system.Operations.Apply.Posting.{PostedOnce, apply_command-PostedOnce}
use poker_management_system.Operations.Apply.Review.{AllReviewed, apply_command-AllReviewed}
use poker_management_system.Operations.Apply.Levels.{
  AllLevelled, IsSupervised, apply_command-AllSupervised,
}
use poker_management_system.Operations.Apply.Solvency.Steps.{IsSolvent}
use poker_management_system.Operations.Apply.Solvency.{apply_command-IsSolvent}
use poker_management_system.Operations.Apply.TableRules.{TablesFit, apply_command-TablesFit}
use poker_management_system.Operations.Apply.Closing.{
  Reconciled, trimmed_close, close_day-Reconciled,
}

-- What a run unfolds.
unfoldable pub engine : Unit {0}
unfolding apply_command apply_parsed apply_in_day parse_command require_status require_some permit
    can_approve has_open_table ◌>>=◌ current_day uid audit decimal ◌+ℤ◌ ◌-ℤ◌ default_settings debt
    ledger_impact totals_for_day apply_decide validate_entry post_entry is_current_visit
    check_credit session_of apply_close_day apply_reopen_day empty_store validate_type
    validate_table ledger_debt
engine = tt

abbrev pub host : Host
host = record { is_timezone = λ zone. true; uuid = decimal }

abbrev pub ann : Staff
ann = record { id = "U1"; username = "ann"; role = manager; branch_id = "B" }

abbrev pub root : Staff
root = record { id = "U2"; username = "root"; role = admin; branch_id = "B" }

abbrev pub today : Day
today = record {
  id = "D1";
  date = "2026-01-02";
  opened_at = "t0";
  opening_cash = 500;
  status = opened;
  closes = [];
}

abbrev pub green : TableRecord
green = record {
  id = "T1";
  name = "Green";
  status = opened;
  dealer = "";
  small_blind = none;
  big_blind = none;
  min_buy_in = some 50;
  max_buy_in = none;
  buy_in_step = some 20;
}

abbrev pub bob : Profile
bob = record {
  id = "P1";
  name = "Bob";
  phone = "+60123456789";
  type = credit;
  credit_limit = 900;
  tags = [];
}

abbrev pub visit : Session
visit = record {
  id = "S1";
  player_id = "P1";
  day_id = "D1";
  status = active;
  table_id = "T1";
  seat = 4;
  session_start = "t1";
  session_end = none;
}

abbrev pub chips : ApprovalRequest
chips = record {
  id = "A1";
  day_id = "D1";
  type = entry buy_in;
  amount = pos 600;
  player_id = some "P1";
  session_id = some "S1";
  table_id = some "T1";
  staff = "cy";
  note = "";
  status = pending;
  approval_level = by_manager;
  risk_reason = "review";
  requested_by = "cy";
  requested_by_id = "U3";
  created_at = "t2";
  decided_by = none;
  decided_at = none;
  rejection_reason = none;
  reverses_id = none;
  votes = [];
}

abbrev pub playing : Store
playing = record {
  settings = none;
  profiles = bob ∷ [];
  sessions = visit ∷ [];
  tables = green ∷ [];
  transactions = [];
  approvals = chips ∷ [];
  audit_logs = [];
  days = today ∷ [];
  current_day_id = some "D1";
  read_model = none;
}

abbrev resting : Store
resting = record playing { sessions = []; approvals = [] }

abbrev approval : Command
approval = decide (record { approval_id = "A1"; decision = approve; reason = none })

abbrev count_up : CloseDay
count_up = record { day_id = none; counted_cash = 480; reason = " short " }

abbrev pub after : Result Store → Store
after (ok store) = store
after (err e) = playing

run_approval :
    apply_command host playing approval ann "t3"
    ≡ ok (after (apply_command host playing approval ann "t3"))
unfolding engine
run_approval = refl

run_close :
    apply_command host resting (close_day count_up) ann "t9"
    ≡ ok (after (apply_command host resting (close_day count_up) ann "t9"))
unfolding engine
run_close = refl

-- The approved buy-in on credit raises the balance.
debt_after_approval :
    debt (after (apply_command host playing approval ann "t3")) "P1" ≡ ok (pos 600)
unfolding engine
debt_after_approval = refl

-- The requester cannot approve.
own_request :
    apply_command host playing approval (record ann { id = "U3" }) "t3"
    ≡ err
        (domain "Independent authorized review required; duplicate decisions are not allowed." 403)
unfolding engine
own_request = refl

apply_command-least_role_example : role_code (least_role approval) ≤ role_code ann.role
apply_command-least_role_example =
    apply_command-least_role host playing approval ann "t3" run_approval

apply_command-Extends_example :
    Extends ann "t3" playing (after (apply_command host playing approval ann "t3"))
apply_command-Extends_example = apply_command-Extends host playing approval ann "t3" run_approval

apply_command-AllReviewed_example :
    AllReviewed (after (apply_command host playing approval ann "t3"))
apply_command-AllReviewed_example =
    apply_command-AllReviewed host playing approval ann "t3" run_approval (
      record { independent = tt; distinct = tt; authorized = tt; by_level = tt; quorum = inl refl },
      tt,
    )

apply_command-AllSupervised_example :
    AllLevelled (after (apply_command host playing approval ann "t3"))
    × All IsSupervised (after (apply_command host playing approval ann "t3")).approvals
apply_command-AllSupervised_example =
    apply_command-AllSupervised host playing approval ann "t3" run_approval
      (
        record {
          independent = tt;
          distinct = tt;
          authorized = tt;
          by_level = tt;
          quorum = inl refl;
        },
        tt,
      )
      (record { large = inl refl; guarded = inl (refl, refl) }, tt)

green_fits : TablesFit none (green ∷ [])
unfolding table_rule_issue default_settings effective_table_rules venue_settings step_misses_range
green_fits = (refl, tt)

apply_command-TablesFit_example :
    TablesFit
      (after (apply_command host playing approval ann "t3")).settings
      (after (apply_command host playing approval ann "t3")).tables
apply_command-TablesFit_example =
    apply_command-TablesFit host playing approval ann "t3" run_approval green_fits

close_day-Reconciled_example :
    (totals : Totals) × (totals_for_day resting (some "D1") ≡ ok totals)
    × Reconciled resting
        (trimmed_close count_up)
        totals
        (after (apply_command host resting (close_day count_up) ann "t9"))
close_day-Reconciled_example = close_day-Reconciled host resting count_up ann "t9" run_close

abbrev buy_in_impact : Impact
buy_in_impact = record {
  amount = pos 600;
  cash_received = pos 0;
  cash_payout = pos 0;
  credit_delta = pos 600;
}

has_buy_in_impact : ledger_impact playing chips ≡ ok buy_in_impact
unfolding ledger_impact
has_buy_in_impact = refl

ledger_impact_balanced_example :
    (buy_in_impact.amount ≡ pos 600) × (net buy_in_impact ≡ gain buy_in (pos 600))
ledger_impact_balanced_example = ledger_impact_balanced playing chips buy_in refl has_buy_in_impact

step_misses_range-false_iff_example :
    (step_misses_range 50 100 20 ≡ false)
    ↔ ((k : ℕ) × (1 ≤ k * 20) × (50 ≤ k * 20) × (k * 20 ≤ 100))
step_misses_range-false_iff_example = step_misses_range-false_iff 50 100 20 (omega arith)

-- A credit buy-in, and the request that takes it back.
abbrev pub bought : Transaction
bought = record {
  id = "E1";
  day_id = "D1";
  type = entry buy_in;
  player_id = some "P1";
  session_id = some "S1";
  table_id = some "T1";
  amount = pos 600;
  staff = "cy";
  staff_id = "U3";
  cash_received = pos 0;
  cash_payout = pos 0;
  credit_delta = pos 600;
  time = "t2";
  note = "";
  reverses_id = none;
  approval_id = "A0";
}

abbrev pub undo : ApprovalRequest
undo = record chips { type = reversal; approval_level = by_admin; reverses_id = some "E1" }

abbrev pub disputed : Store
disputed = record playing { transactions = bought ∷ []; approvals = undo ∷ [] }

run_undo :
    apply_command host disputed approval root "t3"
    ≡ ok (after (apply_command host disputed approval root "t3"))
unfolding engine check_balance check_limit check_visit is_reversed validate_reversal
run_undo = refl

debt_after_undo : debt (after (apply_command host disputed approval root "t3")) "P1" ≡ ok (pos 0)
unfolding engine check_balance check_limit check_visit is_reversed validate_reversal reversed_impact
debt_after_undo = refl

disputed-IsSolvent : IsSolvent "P1" disputed
unfolding engine
disputed-IsSolvent = record {
  local = refl;
  amounts = (inl refl, tt);
  links = (refl, tt);
  balance = omega int_laws;
}

apply_command-IsSolvent_example :
    IsSolvent "P1" (after (apply_command host disputed approval root "t3"))
unfolding engine
apply_command-IsSolvent_example =
    apply_command-IsSolvent host disputed approval root "t3" "P1" (refl, tt) refl run_undo
      disputed-IsSolvent

apply_command-PostedOnce_example :
    PostedOnce (after (apply_command host disputed approval root "t3"))
apply_command-PostedOnce_example =
    apply_command-PostedOnce host disputed approval root "t3" run_undo ((tt, tt))

apply_command-AllAtOpenTables_example :
    AllAtOpenTables (after (apply_command host disputed approval root "t3"))
unfolding engine
apply_command-AllAtOpenTables_example =
    apply_command-AllAtOpenTables host disputed approval root "t3" run_undo (inr refl, tt)
