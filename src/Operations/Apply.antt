-- ===== src/Operations/Apply.antt =====
-- `applyCommand` of src/domain/operations.ts, lines 156 to 167, 339, 356 and 357: the schema, the
-- current day, and one function for each kind. A store is a value, so `structuredClone` is implicit:
-- a command that throws leaves nothing behind.
pub mod Done
pub mod Access
pub mod History
pub mod Requests
pub mod Review
pub mod Levels
pub mod TableRules
pub mod Closing
pub mod Solvency
pub mod Posting
pub mod SessionStep
pub mod Seats
pub mod Floor
pub mod Tests
mod SeatTests
mod CashOutTests
use poker_management_system.Common.{
  ℕ, String, Bool, true, false, not, Option, none, some, List, ◌∷◌,
}
use poker_management_system.Common.Result.{Result, ok, err, ◌>>=◌, ◌>>◌}
use poker_management_system.Model.{Store, Staff, Day, VenueSettings, is_open}
use poker_management_system.Settings.Rules.{venue_settings}
use poker_management_system.Ledger.Debt.{current_day}
use poker_management_system.Commands.{
  Command, update_settings, complete_setup, check_in, update_profile, move, swap_seats, table,
  request, correct, decide, open_day, close_day, reopen_day,
}
use poker_management_system.Commands.Schema.{parse_command}
use poker_management_system.Operations.Guards.{Host, require_that, require_some}
use poker_management_system.Operations.Venue.{
  apply_update_settings, apply_complete_setup, apply_table, apply_update_profile,
}
use poker_management_system.Operations.Seating.{apply_check_in, apply_move, apply_swap_seats}
use poker_management_system.Operations.Approvals.{apply_request, apply_correct, apply_decide}
use poker_management_system.Operations.Days.{apply_open_day, apply_close_day, apply_reopen_day}

-- The commands that need an open day.
unfoldable pub apply_in_day :
    Host → Store → Day → VenueSettings → Staff → String → Command → Result Store
apply_in_day host store day settings actor time (check_in c) =
    apply_check_in host store day settings actor time c
apply_in_day host store day settings actor time (move c) = apply_move host store actor time c
apply_in_day host store day settings actor time (swap_seats first second) =
    apply_swap_seats host store day actor time first second
apply_in_day host store day settings actor time (request c) =
    apply_request host store day settings actor time c
apply_in_day host store day settings actor time (correct id reason) =
    apply_correct host store day actor time id reason
apply_in_day host store day settings actor time (decide c) =
    apply_decide host store day actor time c
apply_in_day host store day settings actor time (close_day c) =
    apply_close_day host store day actor time c
apply_in_day host store day settings actor time _ = ok store

abbrev day_required : String
day_required = "A manager must open a business day first."

unfoldable pub apply_parsed : Host → Store → Staff → String → Command → Result Store
apply_parsed host store actor time (update_settings settings reason) =
    apply_update_settings host store actor time settings reason
apply_parsed host store actor time complete_setup = apply_complete_setup host store actor time
apply_parsed host store actor time (open_day date cash) =
    apply_open_day host store (current_day store) (venue_settings store.settings) actor time date
      cash
apply_parsed host store actor time (table c) = apply_table host store actor time c
apply_parsed host store actor time (update_profile c) = apply_update_profile host store actor time c
apply_parsed host store actor time (reopen_day reason) = do
  day ← require_some (current_day store) day_required
  apply_reopen_day host store day actor time reason
apply_parsed host store actor time command = do
  day ← require_some (current_day store) day_required
  require_that (is_open day.status) "The business day is closed."
  apply_in_day host store day (venue_settings store.settings) actor time command

unfoldable pub apply_command : Host → Store → Command → Staff → String → Result Store
apply_command host store input actor time = do
  command ←
      require_some (parse_command host.is_timezone input)
        "Invalid operation. Check the supplied fields."
  apply_parsed host store actor time command
