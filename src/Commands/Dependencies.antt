-- ===== src/Commands/Dependencies.antt =====
-- `commandDependencies` and `changedDependencyKeys` of src/domain/command-concurrency.ts: the
-- records that a command reviews, and those that a change has touched, as keys. A `Set` is the list
-- of what was added to it.
use poker_management_system.Common.{
  String, Bool, true, false, not, ◌&&◌, Option, none, some, List, [], ◌∷◌, ◌++◌, find, then_some,
  last?, filter, ◌||◌, if◌then◌else◌,
}
use poker_management_system.Common.Text.{◌=ₜ◌, opt_eq}
use poker_management_system.Model.{
  Store, Session, Transaction, ApprovalRequest, is_active, buy_in, cash_out, entry_eq,
}
use poker_management_system.Model.Same.{
  same, settings_discrete, profile_discrete, session_discrete, table_discrete, transaction_discrete,
  approval_discrete, day_discrete,
}
use poker_management_system.Operations.Phone.{strip_separators}
use poker_management_system.Commands.Types.{
  SeatSwapParticipant, Command, update_settings, complete_setup, check_in, update_profile, move,
  swap_seats, table, request, correct, decide, open_day, close_day, reopen_day,
}
use poker_management_system.Commands.Keys.{
  player_key, table_key, seat_key, transaction_key, reversal_key, approval_key, phone_key, if_given,
  key_list,
}

abbrev add_player : Option String → List String
add_player = if_given (λ id. player_key id ∷ [])

abbrev add_table : Option String → List String
add_table = if_given (λ id. table_key id ∷ [])

-- `addSeat` of the visit, if there is one
abbrev add_visit : Option Session → List String
add_visit none = []
add_visit (some visit) = seat_key visit.table_id visit.seat ∷ []

unfoldable pub add_transaction : Store → Option String → List String
add_transaction store = if_given λ id.
    let tx = find (λ t. t.id =ₜ id) store.transactions in
    let visit_of : String → List String =
      λ session_id. add_visit (find (λ s. s.id =ₜ session_id) store.sessions) in
    transaction_key id ∷ reversal_key id ∷ add_player (then_some tx (λ t. t.player_id))
    ++ add_table (then_some tx (λ t. t.table_id))
    ++ if_given visit_of (then_some tx (λ t. t.session_id))

abbrev add_participant : SeatSwapParticipant → List String
add_participant p =
    add_player (some p.player_id)
    ++ add_table (some p.table_id)
    ++ (seat_key p.table_id p.seat ∷ [])

-- The keys that the `switch` adds.
unfoldable pub command_keys : Store → Command → List String
unfolding add_transaction
command_keys store (update_settings s reason) = "venue:settings" ∷ []
command_keys store complete_setup = "venue:all" ∷ []
command_keys store (open_day date cash) = "venue:settings" ∷ []
command_keys store (table c) = "venue:settings" ∷ add_table c.table_id
command_keys store (update_profile c) = add_player (some c.player_id)
command_keys store (check_in c) =
    "venue:settings" ∷ phone_key (strip_separators c.phone) ∷ add_player c.player_id
    ++ add_table (some c.table_id)
    ++ (seat_key c.table_id c.seat ∷ [])
command_keys store (move c) =
    add_player (some c.player_id)
    ++ add_table (some c.table_id)
    ++ (seat_key c.table_id c.seat ∷ [])
command_keys store (swap_seats first second) = add_participant first ++ add_participant second
command_keys store (request c) =
    let visit =
      find (λ s. opt_eq (some s.player_id) c.player_id && is_active s.status) store.sessions in
    let seated =
      if entry_eq c.type buy_in || entry_eq c.type cash_out
      then add_table (then_some visit (λ s. some s.table_id))
      else [] in
    "venue:settings" ∷ add_player c.player_id ++ add_table c.table_id ++ seated
command_keys store (correct id reason) = add_transaction store (some id)
command_keys store (decide c) =
    let request = find (λ r. r.id =ₜ c.approval_id) store.approvals in
    "venue:settings"
      ∷ approval_key c.approval_id
      ∷ add_player (then_some request (λ r. r.player_id))
    ++ add_table (then_some request (λ r. r.table_id))
    ++ add_transaction store (then_some request (λ r. r.reverses_id))
command_keys store (close_day c) = "venue:activity" ∷ []
command_keys store (reopen_day reason) = []

unfoldable pub command_dependencies : Store → Command → List String
unfolding command_keys
command_dependencies store command = key_list ("venue:day" ∷ command_keys store command)

-- `new Map(values.map((value) => [value.id, value])).get(id)`: of two with one id the last counts.
abbrev pub lookup {ℓ} : {A : Type ℓ} → (A → String) → List A → String → Option A
lookup id_of values id = last? (filter (λ v. id_of v =ₜ id) values)

-- `changed(first, second, mark)`
module _ {ℓ} {A : Type ℓ} (eq : Discrete A) (id_of : A → String) (mark : A → List String) where
  abbrev mark_previous : Option A → List String
  mark_previous none = []
  mark_previous (some previous) = mark previous

  unfoldable pub changed : List A → List A → List String
  changed first [] = []
  changed first (value ∷ second) =
      let previous = lookup id_of first (id_of value) in
      let rest = changed first second in
      if same eq previous (some value) then rest else mark value ++ mark_previous previous ++ rest

abbrev pub approval_marks : ApprovalRequest → List String
approval_marks r =
    approval_key r.id ∷ if_given (λ id. player_key id ∷ []) r.player_id
    ++ if_given (λ id. reversal_key id ∷ []) r.reverses_id
    ++ ("venue:activity" ∷ [])

abbrev transaction_marks : Transaction → List String
transaction_marks t =
    transaction_key t.id ∷ if_given (λ id. player_key id ∷ []) t.player_id
    ++ if_given (λ id. reversal_key id ∷ []) t.reverses_id
    ++ ("venue:activity" ∷ [])

abbrev session_marks : Session → List String
session_marks s = player_key s.player_id ∷ seat_key s.table_id s.seat ∷ "venue:activity" ∷ []

-- `UPDATE_SETTINGS` builds the settings anew, in the order of the command's schema, while those that
-- were read have the order of the database's column: their texts differ also where the values agree.
abbrev pub rebuilds_settings : Command → Bool
rebuilds_settings (update_settings settings reason) = true
rebuilds_settings _ = false

-- The settings, the days, the tables, the profiles and the sessions. `rebuilt`: the settings after
-- are built anew.
unfoldable pub floor_changes : Bool → Store → Store → List String
unfolding changed
floor_changes rebuilt before after =
    (if not rebuilt && same settings_discrete before.settings after.settings
      then []
      else "venue:settings" ∷ [])
    ++ (if opt_eq before.current_day_id after.current_day_id then [] else "venue:day" ∷ [])
    ++ changed day_discrete (λ d. d.id) (λ d. "venue:day" ∷ []) before.days after.days
    ++ changed table_discrete (λ t. t.id) (λ t. table_key t.id ∷ []) before.tables after.tables
    ++ changed profile_discrete (λ p. p.id) (λ p. player_key p.id ∷ phone_key p.phone ∷ [])
        before.profiles after.profiles
    ++ changed session_discrete (λ s. s.id) session_marks before.sessions after.sessions

abbrev pub approval_changes : Store → Store → List String
approval_changes before after =
    changed approval_discrete (λ r. r.id) approval_marks before.approvals after.approvals

unfoldable pub transaction_changes : Store → Store → List String
unfolding changed
transaction_changes before after =
    changed transaction_discrete (λ t. t.id) transaction_marks before.transactions
      after.transactions

unfoldable pub change_keys : Bool → Store → Store → List String
unfolding floor_changes transaction_changes changed
change_keys rebuilt before after =
    "venue:all" ∷ floor_changes rebuilt before after
    ++ approval_changes before after
    ++ transaction_changes before after

unfoldable pub changed_dependency_keys : Bool → Store → Store → List String
unfolding change_keys
changed_dependency_keys rebuilt before after = key_list (change_keys rebuilt before after)
