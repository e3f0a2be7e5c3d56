-- ===== src/Operations/Seating.antt =====
-- `CHECK_IN`, `MOVE` and `SWAP_SEATS` in `applyCommand` of src/domain/operations.ts, lines 358 to
-- 556. The texts "table, seat n" of the log are kept as their parts by `seat_text`.
use Prim.Native.String.{◌++◌ as text_append}
pub mod Done
use poker_management_system.Common.{
  ℕ, ◌+◌, String, Bool, true, false, not, ◌&&◌, ◌||◌, Option, none, some, List, [], ◌∷◌, ◌++◌, any,
  all, find, is_some, or_else, then_some, update_first, ◌==◌, if◌then◌else◌,
}
use poker_management_system.Common.Text.{◌=ₜ◌, opt_eq, truthy}
use poker_management_system.Common.Decimal.{decimal}
use poker_management_system.Common.Result.{Result, ok, err, ◌>>=◌, ◌>>◌}
use poker_management_system.Model.{
  Store, Staff, Day, VenueSettings, Profile, Session, PlayerType, PlayerTag, banned, tag_eq, active,
  is_active, is_credit, is_pending, is_open, AuditText, text, json_swap, ApprovalRequest,
}
use poker_management_system.Commands.{CheckIn, Move, SeatSwapParticipant}
use poker_management_system.Operations.Guards.{
  Host, require_that, require_some, permit, supervisors, cashiers, uid, ensure_seat, has_open_table,
  audit,
}
use poker_management_system.Operations.Phone.{normalize_phone}
use poker_management_system.Operations.Entry.{is_banned}
use poker_management_system.Operations.Venue.{distinct_tags}

-- `${tableId}, seat ${seat}`
unfoldable pub seat_text : String → ℕ → AuditText
unfolding decimal
seat_text table_id seat = text (text_append table_id (text_append ", seat " (decimal seat)))

-- The player to check in: one that is known, or a new one. The number of random ids taken so far
-- is 1 after a new player.
unfoldable pub known_player : Store → CheckIn → String → Result (Option Profile)
known_player store c phone =
    if truthy c.player_id
    then (do
      profile ←
          require_some (find (λ p. opt_eq (some p.id) c.player_id) store.profiles)
            "The selected player no longer matches this phone number. Select the player again."
      require_that (profile.phone =ₜ phone)
          "The selected player no longer matches this phone number. Select the player again."
      ok (some profile))
    else (do
      require_that (not (any (λ p. p.phone =ₜ phone) store.profiles))
          "This phone number belongs to an existing player. Select that player to check in."
      ok none)

unfoldable pub new_player : Host → Staff → CheckIn → String → Result Profile
new_player host actor c phone = do
  (if is_credit c.type then permit actor supervisors else ok tt)
  require_that (not (is_credit c.type) || not (c.credit_limit == 0)) "Set a positive credit limit."
  require_that (not (any (tag_eq banned) c.tags)) "Banned players cannot check in."
  ok (record {
    id = uid host "P" 0;
    name = c.name;
    phone = phone;
    type = c.type;
    credit_limit = if is_credit c.type then c.credit_limit else 0;
    tags = distinct_tags c.tags;
  })

-- The player, and the profiles with a new one pushed.
unfoldable pub checked_player : Host → Staff → CheckIn → String → Option Profile → Result Profile
unfolding new_player
checked_player host actor c phone none = new_player host actor c phone
checked_player host actor c phone (some profile) = ok profile

abbrev pub with_player : Option Profile → Profile → List Profile → List Profile
with_player none profile profiles = profiles ++ (profile ∷ [])
with_player (some known) profile profiles = profiles

abbrev pub ids_taken : Option Profile → ℕ
ids_taken none = 1
ids_taken (some known) = 0

unfoldable pub new_session : Host → ℕ → CheckIn → String → Day → String → Session
new_session host k c player_id day time = record {
  id = uid host "S" k;
  player_id = player_id;
  day_id = day.id;
  status = active;
  table_id = c.table_id;
  seat = c.seat;
  session_start = time;
  session_end = none;
}

abbrev pub plays : String → Session → Bool
plays player_id s = (s.player_id =ₜ player_id) && is_active s.status

unfoldable pub apply_check_in :
    Host → Store → Day → VenueSettings → Staff → String → CheckIn → Result Store
apply_check_in host store day settings actor time c = do
  permit actor cashiers
  phone ← normalize_phone c.phone
  known ← known_player store c phone
  require_that
      (not (is_credit (or_else (then_some known (λ p. some p.type)) c.type))
        || settings.credit_enabled)
      "Credit accounts are disabled in venue settings."
  profile ← checked_player host actor c phone known
  require_that (not (is_banned profile)) "This player is banned."
  require_that (not (any (plays profile.id) store.sessions)) "This player is already checked in."
  ensure_seat store c.table_id c.seat none
  let k = ids_taken known
  ok (
      audit host (k + 1) actor time "Checked in player" profile.id (seat_text c.table_id c.seat)
        none none
        (record store {
          profiles = with_player known profile store.profiles;
          sessions = store.sessions ++ (new_session host k c profile.id day time ∷ []);
        }))

abbrev pub sit_at : String → ℕ → Session → Session
sit_at table_id seat s = record s { table_id = table_id; seat = seat }

unfoldable pub apply_move : Host → Store → Staff → String → Move → Result Store
apply_move host store actor time c = do
  permit actor cashiers
  session ← require_some (find (plays c.player_id) store.sessions) "Player has no active session."
  require_that
      (not
        (any (λ r. opt_eq r.session_id (some session.id) && is_pending r.status) store.approvals))
      "Resolve this player's pending transactions before moving them."
  ensure_seat store c.table_id c.seat (some session.id)
  ok (
      audit host 0 actor time "Moved player" session.player_id (text "Seat transfer")
        (some (seat_text session.table_id session.seat)) (some (seat_text c.table_id c.seat))
        (record store {
          sessions = update_first (plays c.player_id) (sit_at c.table_id c.seat) store.sessions;
        }))

-- The session that a participant of a swap names.
unfoldable pub is_seated : Day → SeatSwapParticipant → Session → Bool
is_seated day p s =
    (s.id =ₜ p.session_id)
    && (s.player_id =ₜ p.player_id)
    && (s.day_id =ₜ day.id)
    && is_active s.status
    && (s.table_id =ₜ p.table_id)
    && (s.seat == p.seat)

abbrev pub seating_changed : String
seating_changed = "The seating changed. Close this dialog and try the swap again."

unfoldable pub check_participant : Store → Day → SeatSwapParticipant → Result (Unit {0})
check_participant store day p =
    require_that
      (any (is_seated day p) store.sessions
        && any (λ profile. profile.id =ₜ p.player_id) store.profiles
        && not (
            any (λ value. plays p.player_id value && not (value.id =ₜ p.session_id))
              store.sessions))
      seating_changed

-- A pending request of the participant.
unfoldable pub has_request : SeatSwapParticipant → ApprovalRequest → Bool
has_request p r = opt_eq r.player_id (some p.player_id) || opt_eq r.session_id (some p.session_id)

-- Somebody else in the participant's seat.
unfoldable pub sits_at : SeatSwapParticipant → Session → Bool
sits_at p s = (s.table_id =ₜ p.table_id) && (s.seat == p.seat)

unfoldable pub swap_sessions :
    Day → SeatSwapParticipant → SeatSwapParticipant → List Session → List Session
swap_sessions day first second sessions =
    update_first (is_seated day second) (sit_at first.table_id first.seat)
      (update_first (is_seated day first) (sit_at second.table_id second.seat) sessions)

unfoldable pub swap_audit :
    Host
    → ℕ
    → Staff
    → String
    → AuditText
    → SeatSwapParticipant
    → SeatSwapParticipant
    → Store
    → Store
swap_audit host k actor time reason participant destination store =
    audit host k actor time "Swapped player seats" participant.player_id reason
      (some (seat_text participant.table_id participant.seat))
      (some (seat_text destination.table_id destination.seat)) store

unfoldable pub apply_swap_seats :
    Host → Store → Day → Staff → String → SeatSwapParticipant → SeatSwapParticipant → Result Store
apply_swap_seats host store day actor time first second = do
  permit actor cashiers
  require_that
      (not (first.player_id =ₜ second.player_id) && not (first.session_id =ₜ second.session_id))
      "Select two different players to swap."
  require_that (not (first.table_id =ₜ second.table_id) || not (first.seat == second.seat))
      "Choose two different seats."
  check_participant store day first
  check_participant store day second
  require_that
      (has_open_table store.tables first.table_id && has_open_table store.tables second.table_id)
      "Select an open table."
  require_that
      (not (
        any (λ r. is_pending r.status && (has_request first r || has_request second r))
          store.approvals))
      "Resolve pending request first"
  require_that
      (not (
        any
          (λ s.
            is_active s.status
            && not ((first.session_id =ₜ s.id) || (second.session_id =ₜ s.id))
            && (sits_at first s || sits_at second s))
          store.sessions))
      "That seat is occupied."
  let reason = json_swap (uid host "SWAP" 0) first.player_id second.player_id
  ok (
      swap_audit host 2 actor time reason second first (
        swap_audit host 1 actor time reason first second
          (record store { sessions = swap_sessions day first second store.sessions })))
