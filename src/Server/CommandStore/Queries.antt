-- ===== src/Server/CommandStore/Queries.antt =====
-- The ids that `loadCommandStore` collects, and the conditions of its queries.
use poker_management_system.Common.{
  ℕ, String, Bool, true, false, not, ◌&&◌, ◌||◌, Option, none, some, List, [], ◌∷◌, ◌++◌, any,
  filter, map, then_some, if◌then◌else◌, ◌==◌,
}
use poker_management_system.Common.Text.{◌=ₜ◌, opt_eq, truthy, less}
use poker_management_system.Model.{Day, Session, Transaction, ApprovalRequest, is_active}
use poker_management_system.Commands.{
  Command, check_in, update_profile, move, swap_seats, request, correct, decide,
}

abbrev pub member : List String → String → Bool
member ids id = any (λ i. i =ₜ id) ids

abbrev pub opt_member : List String → Option String → Bool
opt_member ids none = false
opt_member ids (some id) = member ids id

-- `if (id) ids.add(id)`
abbrev pub given : Option String → List String
given none = []
given (some id) = if truthy (some id) then id ∷ [] else []

-- `xs[0]`
abbrev pub first? {ℓ} : {A : Type ℓ} → List A → Option A
first? [] = none
first? (x ∷ xs) = some x

-- `ORDER BY date DESC,id DESC LIMIT 1`
unfoldable pub latest_day : List Day → Option Day
latest_day [] = none
latest_day (d ∷ days) =
    let rest = latest_day days in
    elim rest [
      | none ↦ some d
      | some e ↦
          if less e.date d.date || ((e.date =ₜ d.date) && less e.id d.id) then some d else some e
    ]

-- `SELECT DISTINCT ON (player_id) ... ORDER BY player_id,session_start DESC,order_no DESC`, for one
-- player: of two visits that start at one time, the later row.
unfoldable pub latest_visit : List Session → Option Session
latest_visit [] = none
latest_visit (s ∷ sessions) =
    let rest = latest_visit sessions in
    elim rest [
      | none ↦ some s
      | some t ↦ if less t.session_start s.session_start then some s else some t
    ]

-- The collected ids, and the store so far.
pub record Scope : Type 0 where
  pub player_ids : List String
  pub session_ids : List String
  pub original_ids : List String
  pub approval_ids : List String
  pub seats : List (String × ℕ)

abbrev pub no_scope : Scope
no_scope = record {
  player_ids = [];
  session_ids = [];
  original_ids = [];
  approval_ids = [];
  seats = [];
}

-- What the command itself names.
unfoldable pub command_scope : Command → Scope
command_scope (check_in c) = record no_scope {
  player_ids = given c.player_id;
  seats = (c.table_id, c.seat) ∷ [];
}
command_scope (update_profile c) = record no_scope { player_ids = given (some c.player_id) }
command_scope (move c) = record no_scope {
  player_ids = given (some c.player_id);
  seats = (c.table_id, c.seat) ∷ [];
}
command_scope (swap_seats a b) = record no_scope {
  player_ids = given (some a.player_id) ++ given (some b.player_id);
  session_ids = given (some a.session_id) ++ given (some b.session_id);
  seats = (a.table_id, a.seat) ∷ (b.table_id, b.seat) ∷ [];
}
command_scope (request c) = record no_scope { player_ids = given c.player_id }
command_scope (correct id reason) = record no_scope { original_ids = given (some id) }
command_scope (decide c) = record no_scope { approval_ids = c.approval_id ∷ [] }
command_scope _ = no_scope

-- What the request under decision names.
unfoldable pub request_scope : Option ApprovalRequest → Scope → Scope
request_scope none scope = scope
request_scope (some r) scope = record scope {
  player_ids = scope.player_ids ++ given r.player_id;
  session_ids = scope.session_ids ++ given r.session_id;
  original_ids = scope.original_ids ++ given r.reverses_id;
}

-- What a loaded entry of the ledger names.
unfoldable pub ledger_scope : List Transaction → Scope → Scope
ledger_scope [] scope = scope
ledger_scope (tx ∷ txs) scope = ledger_scope txs (record scope {
  player_ids = scope.player_ids ++ given tx.player_id;
  session_ids = scope.session_ids ++ given tx.session_id;
})

unfoldable pub loads_entry : Scope → Transaction → Bool
loads_entry scope tx =
    member scope.original_ids tx.id
    || opt_member scope.original_ids tx.reverses_id
    || member scope.approval_ids tx.approval_id

abbrev pub is_empty : {A : Type 0} → List A → Bool
is_empty [] = true
is_empty (x ∷ xs) = false

-- The last query on the visits.
unfoldable pub loads_visit : List Session → Scope → Session → Bool
unfolding latest_visit
loads_visit sessions scope s =
    let earlier =
      filter (λ t. (t.player_id =ₜ s.player_id) && not (member scope.session_ids t.id)) sessions in
    member scope.session_ids s.id
    || (is_active s.status
        && (member scope.player_ids s.player_id
            || any (λ (place : String × ℕ). (s.table_id =ₜ place.0) && (s.seat == place.1))
                scope.seats))
    || (member scope.player_ids s.player_id
        && opt_eq (then_some (latest_visit earlier) (λ t. some t.id)) (some s.id))

-- The seats of the loaded visits, for a reversal of a cash-out.
abbrev pub visit_seats : List Session → List (String × ℕ)
visit_seats sessions = map (λ s. (s.table_id, s.seat)) sessions
