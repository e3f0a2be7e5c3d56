-- ===== src/Commands/Schema.antt =====
-- `commandSchema.safeParse` of src/domain/commands.ts: the command with its texts trimmed, or
-- nothing where a field is refused. Types and unknown keys are checked by the type `Command`.
use Prim.Native.Char.{code}
use poker_management_system.Common.{
  ℕ, String, Bool, true, false, ◌&&◌, Option, none, some, List, leb, ◌==◌, if◌then◌else◌, length,
}
use poker_management_system.Common.Text.{js_length, trim, is_digit}
use poker_management_system.Model.{VenueSettings}
use poker_management_system.Settings.Schema.{
  is_money, is_positive_money, has_length, parse_settings,
}
use poker_management_system.Commands.Types.{
  SeatSwapParticipant, CheckIn, UpdateProfile, TableCommand, RequestCommand, Decide, CloseDay,
  Command, update_settings, complete_setup, check_in, update_profile, move, swap_seats, table,
  request, correct, decide, open_day, close_day, reopen_day,
}

-- `id`
abbrev pub is_id : String → Bool
is_id s = has_length 1 100 s

-- `f.optional()`
abbrev pub optional {ℓ} : {A : Type ℓ} → (A → Bool) → Option A → Bool
optional p none = true
optional p (some a) = p a

-- `text`, `note` and `seat`
abbrev is_text : String → Bool
is_text s = has_length 1 200 s

abbrev is_note : String → Bool
is_note s = has_length 3 500 s

abbrev is_seat : ℕ → Bool
is_seat n = leb 1 n && leb n 9

-- `f.nullable().optional()`
abbrev patched : (ℕ → Bool) → Option (Option ℕ) → Bool
patched p rule = optional (optional p) rule

-- `/^\d{4}-\d{2}-\d{2}$/`: `true` asks for a digit, `false` for a dash.
unfoldable pub matches_date : List Bool → String → Bool
matches_date List.[] String.[] = true
matches_date List.[] (String.◌∷◌ c s) = false
matches_date (List.◌∷◌ digit shape) String.[] = false
matches_date (List.◌∷◌ digit shape) (String.◌∷◌ c s) =
    (if digit then is_digit c else code c == b'-') && matches_date shape s

abbrev pub date_shape : List Bool
date_shape =
    let d = true in
    let rest : List Bool =
      List.◌∷◌ false (List.◌∷◌ d (List.◌∷◌ d (List.◌∷◌ false (List.◌∷◌ d (List.◌∷◌ d List.[]))))) in
    List.◌∷◌ d (List.◌∷◌ d (List.◌∷◌ d (List.◌∷◌ d rest)))

abbrev swap_valid : SeatSwapParticipant → Bool
swap_valid p = is_id p.player_id && is_id p.session_id && is_id p.table_id && is_seat p.seat

abbrev pub when : {A : Type 0} → Bool → A → Option A
when test a = if test then some a else none

abbrev trim_check_in : CheckIn → CheckIn
trim_check_in c = record c { name = trim c.name; phone = trim c.phone }

abbrev check_in_valid : CheckIn → Bool
check_in_valid c =
    optional is_id c.player_id
    && is_text c.name
    && has_length 7 30 c.phone
    && is_money c.credit_limit
    && leb (length c.tags) 3
    && is_id c.table_id
    && is_seat c.seat

abbrev trim_profile : UpdateProfile → UpdateProfile
trim_profile c = record c { name = trim c.name; reason = trim c.reason }

abbrev profile_valid : UpdateProfile → Bool
profile_valid c =
    is_id c.player_id
    && is_text c.name
    && leb (length c.tags) 3
    && is_money c.credit_limit
    && is_note c.reason

abbrev trim_table : TableCommand → TableCommand
trim_table c = record c { name = trim c.name; dealer = trim c.dealer }

abbrev table_valid : TableCommand → Bool
table_valid c =
    optional is_id c.table_id
    && is_text c.name
    && has_length 0 100 c.dealer
    && patched is_positive_money c.small_blind
    && patched is_positive_money c.big_blind
    && patched is_money c.min_buy_in
    && patched is_positive_money c.max_buy_in
    && patched is_money c.buy_in_step

abbrev request_valid : RequestCommand → Bool
request_valid c =
    optional is_id c.player_id
    && optional is_id c.table_id
    && is_money c.amount
    && has_length 0 500 c.note

abbrev trim_optional : Option String → Option String
trim_optional none = none
trim_optional (some s) = some (trim s)

abbrev decide_valid : Decide → Bool
decide_valid c = is_id c.approval_id && optional (has_length 0 500) c.reason

abbrev close_valid : CloseDay → Bool
close_valid c = optional is_id c.day_id && is_money c.counted_cash && has_length 0 500 c.reason

abbrev pub parse_update : Option VenueSettings → String → Option Command
parse_update none reason = none
parse_update (some settings) reason = when (is_note reason) (update_settings settings reason)

unfoldable pub parse_command : (String → Bool) → Command → Option Command
unfolding trim js_length matches_date parse_settings is_digit
parse_command is_timezone (update_settings settings reason) =
    parse_update (parse_settings is_timezone settings) (trim reason)
parse_command is_timezone complete_setup = some complete_setup
parse_command is_timezone (check_in c) =
    let t = trim_check_in c in when (check_in_valid t) (check_in t)
parse_command is_timezone (update_profile c) =
    let t = trim_profile c in when (profile_valid t) (update_profile t)
parse_command is_timezone (move c) =
    when (is_id c.player_id && is_id c.table_id && is_seat c.seat) (move c)
parse_command is_timezone (swap_seats first second) =
    when (swap_valid first && swap_valid second) (swap_seats first second)
parse_command is_timezone (table c) = let t = trim_table c in when (table_valid t) (table t)
parse_command is_timezone (request c) =
    let t = record c { note = trim c.note } in when (request_valid t) (request t)
parse_command is_timezone (correct id reason) =
    when (is_id id && is_note (trim reason)) (correct id (trim reason))
parse_command is_timezone (decide c) =
    let t = record c { reason = trim_optional c.reason } in when (decide_valid t) (decide t)
parse_command is_timezone (open_day date cash) =
    when (matches_date date_shape date && is_money cash) (open_day date cash)
parse_command is_timezone (close_day c) =
    let t = record c { reason = trim c.reason } in when (close_valid t) (close_day t)
parse_command is_timezone (reopen_day reason) =
    when (is_note (trim reason)) (reopen_day (trim reason))
