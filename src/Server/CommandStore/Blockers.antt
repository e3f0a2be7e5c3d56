-- ===== src/Server/CommandStore/Blockers.antt =====
-- The pending requests and visits that `loadCommandStore` adds because they would refuse the command.
use poker_management_system.Common.{
  String, Bool, true, false, not, ◌&&◌, ◌||◌, Option, none, some, List, [], ◌∷◌, ◌++◌, any, find,
  filter, map, if◌then◌else◌, last?,
}
use poker_management_system.Common.Text.{◌=ₜ◌, opt_eq, truthy}
use poker_management_system.Model.{
  Store, Session, ApprovalRequest, is_active, is_open, is_pending, is_entry, buy_in, cash_out,
  entry_eq,
}
use poker_management_system.Commands.{
  Command, move, swap_seats, table, request, correct, decide, close_day,
}
use poker_management_system.Server.CommandStore.Queries.{Scope, member, opt_member, first?}

-- `blocker(predicate)`: the last row of those that are pending and not of the scope, put behind the
-- loaded requests.
unfoldable pub blocker : List ApprovalRequest → Scope → (ApprovalRequest → Bool) → Store → Store
blocker stored scope predicate store =
    let rows =
      filter (λ r. is_pending r.status && predicate r && not (member scope.approval_ids r.id))
        stored in
    elim (last? rows) [
      | none ↦ store
      | some r ↦
          if any (λ existing. existing.id =ₜ r.id) store.approvals
          then store
          else record store { approvals = store.approvals ++ (r ∷ []) }
    ]

-- `ORDER BY order_no DESC`
abbrev pub descending : {A : Type 0} → List A → List A
descending [] = []
descending (x ∷ xs) = descending xs ++ (x ∷ [])

abbrev pub take_one : {A : Type 0} → List A → List A
take_one [] = []
take_one (x ∷ xs) = x ∷ []

abbrev pub of_players : List String → Session → Bool
of_players ids s = member ids s.player_id

abbrev pub active_of : List Session → Option String → Option Session
active_of sessions player_id =
    find (λ s. opt_eq (some s.player_id) player_id && is_active s.status) sessions

-- The pending cash-out's or the session's own requests; an absent id matches none.
abbrev pub of_session : Option Session → ApprovalRequest → Bool
of_session none r = false
of_session (some s) r = opt_eq r.session_id (some s.id)

-- `column=$2`, of which neither may be null
abbrev pub names : Option String → Option String → Bool
names none column = false
names (some id) column = opt_eq column (some id)

-- A cash-out under decision is blocked by what is pending for its session.
unfoldable pub decide_blocker : List ApprovalRequest → Scope → Store → Store
unfolding blocker
decide_blocker stored scope store = elim (first? store.approvals) [
  | none ↦ store
  | some r ↦
      if is_entry cash_out r.type
      then blocker stored scope (λ q. names r.session_id q.session_id) store
      else store
]

-- The visits and requests that would refuse the command.
unfoldable pub load_blockers : Store → Scope → Command → Store → Store
unfolding blocker decide_blocker
load_blockers stored scope (close_day c) store =
    blocker stored.approvals scope (λ r. true)
      (record store { sessions = take_one (filter (λ s. is_active s.status) stored.sessions) })
load_blockers stored scope (table c) store =
    if not (is_open c.status) && truthy c.table_id
    then blocker stored.approvals scope (λ r. opt_eq r.table_id c.table_id)
        (record store {
          sessions = take_one (
              filter (λ s. is_active s.status && opt_eq (some s.table_id) c.table_id)
                stored.sessions);
        })
    else store
load_blockers stored scope (move c) store =
    let visits = filter (λ s. of_players scope.player_ids s && is_active s.status) store.sessions in
    blocker stored.approvals scope (λ r. opt_member (map (λ s. s.id) visits) r.session_id) store
load_blockers stored scope (swap_seats a b) store =
    let visits = filter (of_players scope.player_ids) store.sessions in
    blocker stored.approvals scope
      (λ r.
        opt_member scope.player_ids r.player_id || opt_member (map (λ s. s.id) visits) r.session_id)
      store
load_blockers stored scope (request c) store =
    if entry_eq c.type buy_in
    then blocker stored.approvals scope
        (λ r. names c.player_id r.player_id && is_entry cash_out r.type) store
    else if entry_eq c.type cash_out
    then blocker stored.approvals scope (of_session (active_of store.sessions c.player_id)) store
    else store
load_blockers stored scope (correct id reason) store =
    blocker stored.approvals scope (λ r. opt_eq r.reverses_id (some id)) store
load_blockers stored scope (decide c) store = decide_blocker stored.approvals scope store
load_blockers stored scope _ store = store
