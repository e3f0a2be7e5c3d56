-- ===== src/Operations/Apply/Access.antt =====
-- Who may run which command.
use poker_management_system.Common.{
  ◌≤◌, ◌≡◌, sym, ap, subst, String, Bool, true, false, Option, none, some, ◌∷◌, arith,
  if◌then◌else◌,
}
use poker_management_system.Common.Result.{ok}
use poker_management_system.Model.{
  Store, Staff, VenueSettings, ApprovalRequest, EntryType, buy_in, cash_out, rake, tips,
  insurance_premium, insurance_payout, jackpot_contribution, jackpot_payout, cash_received,
  cash_payout, credit_repayment, Role, dealer, cashier, manager, admin, role_code, has_role,
  has_entry,
}
use poker_management_system.Common.Text.{trim}
use poker_management_system.Settings.Schema.{parse_settings}
use poker_management_system.Commands.{
  Command, update_settings, complete_setup, check_in, update_profile, move, swap_seats, table,
  request, correct, decide, open_day, close_day, reopen_day,
}
use poker_management_system.Commands.Schema.{parse_command, parse_update}
use poker_management_system.Operations.Guards.{Host, dealer_entries, cashiers, can_approve}
use poker_management_system.Operations.Apply.{apply_command}
use poker_management_system.Operations.Apply.Done.{
  Applied, settings_updated, setup_completed, table_saved, profile_updated, day_opened,
  day_reopened, checked_in, moved, swapped, requested, corrected, decided, day_closed,
  apply_command-done,
}

-- The least role of a request, by the type of its entry.
abbrev request_role : EntryType → Role
request_role buy_in = cashier
request_role cash_out = cashier
request_role cash_received = cashier
request_role cash_payout = cashier
request_role credit_repayment = cashier
request_role _ = dealer

-- The least role of a command, in the order dealer, cashier, manager, admin.
abbrev pub least_role : Command → Role
least_role (update_settings settings reason) = admin
least_role complete_setup = admin
least_role (check_in c) = cashier
least_role (update_profile c) = manager
least_role (move c) = cashier
least_role (swap_seats first second) = cashier
least_role (table c) = manager
least_role (request c) = request_role c.type
least_role (correct id reason) = cashier
least_role (decide c) = manager
least_role (open_day date cash) = manager
least_role (close_day c) = manager
least_role (reopen_day reason) = admin

abbrev Permits : Role → Command → Type 0
Permits role command = role_code (least_role command) ≤ role_code role

request_roles :
    (type : EntryType) (role : Role)
    → has_role (if has_entry dealer_entries type then dealer ∷ cashiers else cashiers) role ≡ true
    → role_code (request_role type) ≤ role_code role
request_roles buy_in role h = ground arith
request_roles cash_out role h = ground arith
request_roles rake role h = ground arith
request_roles tips role h = ground arith
request_roles insurance_premium role h = ground arith
request_roles insurance_payout role h = ground arith
request_roles jackpot_contribution role h = ground arith
request_roles jackpot_payout role h = ground arith
request_roles cash_received role h = ground arith
request_roles cash_payout role h = ground arith
request_roles credit_repayment role h = ground arith

reviewer_roles :
    (actor : Staff) (r : ApprovalRequest)
    → can_approve actor r ≡ true
    → role_code manager ≤ role_code actor.role
unfolding can_approve
reviewer_roles actor r h = ground arith

Applied-Permits :
    (host : Host) (store : Store) (actor : Staff) (time : String) (store' : Store)
    (command : Command)
    → Applied host store actor time store' command
    → Permits actor.role command
Applied-Permits host store actor time store' command (settings_updated s r d) =
    ground (arith, d.allowed)
Applied-Permits host store actor time store' command (setup_completed d) = ground (arith, d.allowed)
Applied-Permits host store actor time store' command (table_saved c d) = ground (arith, d.allowed)
Applied-Permits host store actor time store' command (profile_updated c d) =
    ground (arith, d.allowed)
Applied-Permits host store actor time store' command (day_opened date cash d) =
    ground (arith, d.allowed)
Applied-Permits host store actor time store' command (day_reopened day r p d) =
    ground (arith, d.allowed)
Applied-Permits host store actor time store' command (checked_in day c o d) =
    ground (arith, d.allowed)
Applied-Permits host store actor time store' command (moved day c o d) = ground (arith, d.allowed)
Applied-Permits host store actor time store' command (swapped day f s o d) =
    ground (arith, d.allowed)
Applied-Permits host store actor time store' command (requested day c o d) =
    request_roles c.type actor.role d.allowed
Applied-Permits host store actor time store' command (corrected day id r o d) =
    ground (arith, d.allowed)
Applied-Permits host store actor time store' command (decided day c o d) =
    reviewer_roles actor d.request d.reviewer
Applied-Permits host store actor time store' command (day_closed day c o d) =
    ground (arith, d.allowed)

when-some :
    {A : Type 0} (test : Bool) (a : A) {b : A} → (if test then some a else none) ≡ some b → a ≡ b
when-some true a h = cc
when-some false a h = cc

parse_update-role :
    (o : Option VenueSettings) (reason : String) (command : Command)
    → parse_update o reason ≡ some command
    → least_role command ≡ admin
parse_update-role none reason command h = cc
parse_update-role (some settings) reason command h = sym (ap least_role (when-some _ _ h))

-- The schema changes neither the kind of a command nor the type of a request.
least_role-parse_command :
    (f : String → Bool) (input command : Command)
    → parse_command f input ≡ some command
    → least_role command ≡ least_role input
unfolding parse_command
least_role-parse_command f (update_settings settings reason) command h =
    parse_update-role (parse_settings f settings) (trim reason) command h
least_role-parse_command f complete_setup command h =
    let e : complete_setup ≡ command = cc in sym (ap least_role e)
least_role-parse_command f (check_in c) command h = sym (ap least_role (when-some _ _ h))
least_role-parse_command f (update_profile c) command h = sym (ap least_role (when-some _ _ h))
least_role-parse_command f (move c) command h = sym (ap least_role (when-some _ _ h))
least_role-parse_command f (swap_seats x y) command h = sym (ap least_role (when-some _ _ h))
least_role-parse_command f (table c) command h = sym (ap least_role (when-some _ _ h))
least_role-parse_command f (request c) command h = sym (ap least_role (when-some _ _ h))
least_role-parse_command f (correct id r) command h = sym (ap least_role (when-some _ _ h))
least_role-parse_command f (decide c) command h = sym (ap least_role (when-some _ _ h))
least_role-parse_command f (open_day d n) command h = sym (ap least_role (when-some _ _ h))
least_role-parse_command f (close_day c) command h = sym (ap least_role (when-some _ _ h))
least_role-parse_command f (reopen_day r) command h = sym (ap least_role (when-some _ _ h))

-- A command that succeeds was run by a member of staff whose role is at least the command's least
-- role: admin for settings, setup and reopening a day; manager for tables, profiles, decisions and
-- opening and closing a day; cashier for seating, corrections and the requests of buy-ins, cash-outs,
-- cash received, cash payouts and credit repayments; and dealer for the requests of rake, tips,
-- insurance premiums and payouts, and jackpot contributions and payouts.
pub apply_command-least_role :
    (host : Host) (store : Store) (input : Command) (actor : Staff) (time : String) {store' : Store}
    → apply_command host store input actor time ≡ ok store'
    → role_code (least_role input) ≤ role_code actor.role
apply_command-least_role host store input actor time h =
    let s = (apply_command-done host store actor time input).at h in
    subst (λ (r : Role). role_code r ≤ role_code actor.role)
      (least_role-parse_command host.is_timezone input s.command s.parsed)
      (Applied-Permits host store actor time _ s.command s.done)
