-- ===== src/Server/CommandStore.antt =====
-- `loadCommandStore` of src/server/command-store.ts: the rows that a command validates or changes,
-- taken from the tables of a branch, with the sums of aggregates.ts. A query is a filter, as a
-- table is the list of its rows by `order_no`; the ids of a `Set` are a list.
mod Queries
mod Blockers
use poker_management_system.Common.{
  ℕ, String, Bool, true, false, not, ◌&&◌, ◌||◌, Option, none, some, List, [], ◌∷◌, ◌++◌, any, find,
  filter, map, then_some, if◌then◌else◌, ◌==◌, last?,
}
use poker_management_system.Common.Text.{◌=ₜ◌, opt_eq, truthy, less}
use poker_management_system.Common.Result.{Result, ok, err, ◌>>=◌}
use poker_management_system.Model.{
  Store, Day, Session, Transaction, ApprovalRequest, Profile, is_active, is_open, is_pending,
  is_entry, buy_in, cash_out, entry_eq, OpenStatus,
}
use poker_management_system.Commands.{
  Command, update_settings, complete_setup, check_in, update_profile, move, swap_seats, table,
  request, correct, decide, open_day, close_day, reopen_day,
}
use poker_management_system.Operations.Phone.{normalize_phone}
use poker_management_system.Server.Storage.{Branch}
use poker_management_system.Server.Aggregates.{populate_read_model, Options}
use poker_management_system.Server.CommandStore.Queries.{
  Scope, member, opt_member, given, first?, latest_day, latest_visit, no_scope, command_scope,
  request_scope, ledger_scope, loads_entry, is_empty, loads_visit, visit_seats,
}
use poker_management_system.Server.CommandStore.Blockers.{
  blocker, descending, take_one, of_players, active_of, of_session, names, decide_blocker,
  load_blockers,
}

abbrev is_reviewing : Command → Bool
is_reviewing (correct id reason) = true
is_reviewing (decide c) = true
is_reviewing _ = false

abbrev is_close : Command → Bool
is_close (close_day c) = true
is_close _ = false

abbrev flat : {A : Type 0} → List (List A) → List A
flat [] = []
flat (xs ∷ xss) = xs ++ flat xss

-- The profiles, with the scope that a check-in widens by them.
unfoldable load_profiles : List Profile → Scope → Command → Result (List Profile × Scope)
load_profiles stored scope (check_in c) = do
  phone ← normalize_phone c.phone
  let profiles = filter (λ p. member scope.player_ids p.id || (p.phone =ₜ phone)) stored
  ok (
    profiles,
    record scope {
      player_ids = scope.player_ids ++ flat (map (λ (p : Profile). given (some p.id)) profiles);
    },
  )
load_profiles stored scope _ = ok (filter (λ p. member scope.player_ids p.id) stored, scope)

unfoldable load_sessions : List Session → Scope → Command → List Session × Scope
unfolding loads_visit
load_sessions stored scope command =
    let named = filter (λ s. member scope.session_ids s.id) stored in
    let wide =
      if is_reviewing command
      then record scope { seats = scope.seats ++ visit_seats named }
      else scope in
    if is_empty wide.player_ids && is_empty wide.seats
    then (named, wide)
    else (filter (loads_visit stored wide) stored, wide)

unfoldable pub load_command_store : Branch → Command → Result Store
unfolding command_scope request_scope ledger_scope loads_entry load_profiles load_sessions
    latest_day load_blockers
load_command_store branch command = do
  let stored = branch.store
  let latest = then_some (latest_day stored.days) (λ d. some d.id)
  let named = command_scope command
  let approvals = filter (λ r. member named.approval_ids r.id) stored.approvals
  let reviewed = request_scope (first? approvals) named
  let transactions = descending (filter (loads_entry reviewed) stored.transactions)
  found ← load_profiles stored.profiles (ledger_scope transactions reviewed) command
  let visits = load_sessions stored.sessions found.1 command
  let store : Store = record {
    settings = stored.settings;
    profiles = found.0;
    sessions = visits.0;
    tables = stored.tables;
    transactions = transactions;
    approvals = approvals;
    audit_logs = [];
    days =
        filter (λ d. opt_eq (some d.id) stored.current_day_id || opt_eq (some d.id) latest)
          stored.days;
    current_day_id = stored.current_day_id;
    read_model = none;
  }
  populate_read_model branch (load_blockers stored visits.1 command store) (record {
    summary = false;
    day_totals = is_close command;
    player_totals = false;
    table_totals = false;
    user = none;
  })
