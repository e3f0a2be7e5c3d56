-- ===== src/Operations/Days.antt =====
-- `OPEN_DAY`, `REOPEN_DAY` and `CLOSE_DAY` in `applyCommand` of src/domain/operations.ts, lines 215
-- to 256, 340 to 355 and 793 to 834.
pub mod Done
use poker_management_system.Common.{
  ℕ, String, Bool, true, false, not, ◌&&◌, ◌||◌, Option, none, some, List, [], ◌∷◌, ◌++◌, any,
  holds, last?, update_first, leb, if◌then◌else◌,
}
use poker_management_system.Common.Int.{ℤ, pos, ◌-ℤ◌, eq_ℤ}
use poker_management_system.Common.Text.{◌=ₜ◌, opt_eq, truthy, less, js_length}
use poker_management_system.Common.Decimal.{decimal}
use poker_management_system.Common.Result.{Result, ok, err, ◌>>=◌, ◌>>◌}
use poker_management_system.Model.{
  Store, Staff, Day, DayClose, VenueSettings, Totals, admin, opened, closed, is_open, is_active,
  is_pending, AuditText, text, json_close,
}
use poker_management_system.Ledger.Totals.{totals_for_day}
use poker_management_system.Commands.{CloseDay}
use poker_management_system.Operations.Guards.{
  Host, require_that, require_status, permit, supervisors, uid, audit,
}
use poker_management_system.Operations.Calendar.{is_business_date}

unfoldable pub new_day : Host → String → String → ℕ → Day
new_day host time date opening_cash = record {
  id = uid host "DAY" 0;
  date = date;
  opened_at = time;
  opening_cash = opening_cash;
  status = opened;
  closes = [];
}

unfoldable pub apply_open_day :
    Host → Store → Option Day → VenueSettings → Staff → String → String → ℕ → Result Store
unfolding new_day
apply_open_day host store day settings actor time date opening_cash = do
  permit actor supervisors
  require_that settings.setup_completed
      "An administrator must complete venue setup before opening a business day."
  require_that (not (holds (λ d. is_open d.status) day)) "Close the current business day first."
  require_that (is_business_date date) "Invalid business date."
  require_that (not (any (λ value. not (less value.date date)) store.days))
      "The new business date must follow previous days."
  let next = new_day host time date opening_cash
  ok (
      audit host 1 actor time "Opened day" next.id (text date) none
        (some (text (decimal opening_cash)))
        (record store { days = store.days ++ (next ∷ []); current_day_id = some next.id }))

-- A write to `day`, which is the first record with the current id.
unfoldable pub update_current_day : Store → (Day → Day) → List Day
update_current_day store f =
    update_first (λ d. opt_eq (some d.id) store.current_day_id) f store.days

unfoldable pub apply_reopen_day : Host → Store → Day → Staff → String → String → Result Store
unfolding update_current_day
apply_reopen_day host store day actor time reason = do
  permit actor (admin ∷ [])
  require_that (not (is_open day.status)) "This day is already open."
  ok (
      audit host 0 actor time "Reopened day" day.id (text reason) (some (text "CLOSED"))
        (some (text "OPEN"))
        (record store { days = update_current_day store (λ d. record d { status = opened }) }))

unfoldable pub new_close : Staff → String → CloseDay → Totals → DayClose
new_close actor time c totals = record {
  time = time;
  actor = actor.username;
  counted_cash = c.counted_cash;
  expected_cash = totals.expected_cash;
  variance = pos c.counted_cash -ℤ totals.expected_cash;
  reason = c.reason;
}

abbrev pub close_with : DayClose → Day → Day
close_with close d = record d { closes = d.closes ++ (close ∷ []); status = closed }

-- `command.reason || "Cash reconciled"`
abbrev or_text : String → String → String
or_text reason other = if truthy (some reason) then reason else other

unfoldable pub apply_close_day : Host → Store → Day → Staff → String → CloseDay → Result Store
unfolding update_current_day new_close
apply_close_day host store day actor time c = do
  permit actor supervisors
  require_status 409 (not (truthy c.day_id) || opt_eq c.day_id (some day.id))
      "The active business day changed. Reopen the closing form and review its totals."
  require_that (not (any (λ s. is_active s.status) store.sessions))
      "Check out all active players before closing."
  require_that (not (any (λ r. is_pending r.status) store.approvals))
      "Resolve all pending approvals before closing."
  totals ← totals_for_day store store.current_day_id
  let close = new_close actor time c totals
  require_that (eq_ℤ close.variance (pos 0) || leb 3 (js_length c.reason))
      "Explain the cash variance before closing."
  ok (
      audit host 0 actor time "Closed day" day.id (text (or_text c.reason "Cash reconciled"))
        (some (text "OPEN")) (some (json_close (some close)))
        (record store { days = update_current_day store (close_with close) }))
