-- ===== src/Operations/Entry.antt =====
-- `validateEntry` and `postEntry` of src/domain/operations.ts, lines 839 to 968.
pub mod Done
pub mod Solvency
use poker_management_system.Common.{
  ℕ, String, Bool, true, false, not, ◌&&◌, ◌||◌, Option, none, some, List, [], ◌∷◌, any, find,
  holds, update_first, if◌then◌else◌,
}
use poker_management_system.Common.Int.{ℤ, pos, ◌+ℤ◌, ◌-ℤ◌, leb_ℤ, ltb_ℤ}
use poker_management_system.Common.Text.{◌=ₜ◌, opt_eq, truthy, less}
use poker_management_system.Common.Result.{Result, ok, err, ◌>>=◌, ◌>>◌}
use poker_management_system.Model.{
  Store, Profile, Session, Transaction, ApprovalRequest, PlayerTag, banned, tag_eq, TxType, entry,
  reversal, EntryType, buy_in, cash_out, credit_repayment, is_entry, is_credit, is_active, active,
  out, is_pending, is_open,
}
use poker_management_system.Ledger.Debt.{debt, reserved_credit}
use poker_management_system.Ledger.Impact.{
  Impact, credit_player, profile_of, transaction_of, ledger_impact,
}
use poker_management_system.Operations.Guards.{
  Host, require_that, require_some, uid, ensure_seat, has_open_table,
}

unfoldable pub session_of : Store → Option String → Option Session
session_of store id = find (λ s. opt_eq (some s.id) id) store.sessions

abbrev pub is_banned : Profile → Bool
is_banned profile = any (tag_eq banned) profile.tags

-- `!store.transactions.some((value) => value.reversesId === tx.id)`
unfoldable pub is_reversed : List Transaction → String → Bool
is_reversed transactions id = any (λ value. opt_eq value.reverses_id (some id)) transactions

-- The balance may not fall below zero when the entry is taken back.
unfoldable pub check_balance : Store → Transaction → Result (Unit {0})
check_balance store tx = elim tx.player_id [
  | none ↦ ok tt
  | some player ↦
      if truthy (some player)
      then (do
        owed ← debt store player
        require_that (leb_ℤ (pos 0) (owed -ℤ tx.credit_delta))
            "Reverse later settlements before reversing this credit entry.")
      else ok tt
]

-- Nor may a settlement that is taken back lift it over the limit.
unfoldable pub check_limit : Store → Option Profile → Transaction → Result (Unit {0})
check_limit store none tx = ok tt
check_limit store (some profile) tx =
    if is_credit profile.type && ltb_ℤ tx.credit_delta (pos 0)
    then (do
      owed ← debt store profile.id
      require_that
          (leb_ℤ (owed -ℤ tx.credit_delta +ℤ reserved_credit store profile.id)
            (pos profile.credit_limit))
          "Reversal would exceed the credit limit, including pending buy-ins.")
    else ok tt

-- A later visit of the player than `session`.
unfoldable pub is_later_visit : Transaction → Session → Session → Bool
is_later_visit tx session value =
    opt_eq (some value.player_id) tx.player_id
    && not (value.id =ₜ session.id)
    && not (less value.session_start session.session_start)

unfoldable pub check_visit : Store → Option Session → Transaction → Result (Unit {0})
check_visit store session tx = elim tx.type [
  | entry buy_in ↦
      require_that (holds (λ s. is_active s.status) session)
        "Reverse the cash-out before reversing a buy-in."
  | entry cash_out ↦
      require_some session "A later session prevents reopening this session." >>= λ s.
      require_that (not (any (is_later_visit tx s) store.sessions))
        "A later session prevents reopening this session."
      >> ensure_seat store s.table_id s.seat (some s.id)
  | _ ↦ ok tt
]

unfoldable pub validate_reversal : Store → ApprovalRequest → Result (Unit {0})
validate_reversal store request = do
  tx ← require_some (transaction_of store request.reverses_id) "Transaction was already reversed."
  require_that (not (is_reversed store.transactions tx.id)) "Transaction was already reversed."
  check_balance store tx
  check_limit store (profile_of store request.player_id) tx
  check_visit store (session_of store request.session_id) tx

-- `session?.status === "ACTIVE" && session.dayId === request.dayId && …`
unfoldable pub is_current_visit : ApprovalRequest → Session → Bool
is_current_visit request s =
    is_active s.status && (s.day_id =ₜ request.day_id) && opt_eq (some s.table_id) request.table_id

abbrev pub session_changed : String
session_changed = "Player session changed; reject this request and create a new one."

unfoldable pub check_credit : Store → Profile → ApprovalRequest → Result (Unit {0})
check_credit store profile request =
    if is_credit profile.type
    then (do
      owed ← debt store profile.id
      require_that (leb_ℤ (owed +ℤ request.amount) (pos profile.credit_limit))
          "Credit limit would be exceeded.")
    else ok tt

unfoldable pub validate_visit : EntryType → Store → ApprovalRequest → Result (Unit {0})
validate_visit type store request = do
  profile ← require_some (profile_of store request.player_id) session_changed
  session ← require_some (session_of store request.session_id) session_changed
  require_that (is_current_visit request session) session_changed
  elim type [
    | buy_in ↦
        require_that (not (is_banned profile)) "This player is banned."
        >> check_credit store profile request
    | _ ↦
        require_that
          (not (
            any
              (λ value.
                opt_eq value.session_id (some session.id)
                && not (value.id =ₜ request.id)
                && is_pending value.status)
              store.approvals))
          "Resolve other session requests first."
  ]

abbrev repayment_exceeds : String
repayment_exceeds = "Repayment cannot exceed outstanding credit."

unfoldable pub validate_repayment : Store → ApprovalRequest → Result (Unit {0})
validate_repayment store request = do
  profile ← require_some (profile_of store request.player_id) repayment_exceeds
  require_that (is_credit profile.type) repayment_exceeds
  owed ← debt store profile.id
  require_that (leb_ℤ request.amount owed) repayment_exceeds

unfoldable pub validate_table : Store → ApprovalRequest → Result (Unit {0})
validate_table store request = elim request.table_id [
  | none ↦ ok tt
  | some table ↦
      if truthy (some table)
      then require_that (has_open_table store.tables table) "The table is closed."
      else ok tt
]

-- The tests of an entry by its type, before that of its table.
unfoldable pub validate_type : EntryType → Store → ApprovalRequest → Result (Unit {0})
unfolding validate_visit validate_repayment
validate_type buy_in store request = validate_visit buy_in store request
validate_type cash_out store request = validate_visit cash_out store request
validate_type credit_repayment store request = validate_repayment store request
validate_type _ store request = ok tt

unfoldable pub validate_entry : Store → ApprovalRequest → Result (Unit {0})
validate_entry store request = elim request.type [
  | reversal ↦ validate_reversal store request
  | entry type ↦ validate_type type store request >> validate_table store request
]

-- `tx` of `postEntry`, with the impact and the link to the reversed entry written in.
unfoldable pub posted : Host → ℕ → String → ApprovalRequest → Impact → Transaction
posted host k time request impact = record {
  id = uid host "TX" k;
  day_id = request.day_id;
  type = request.type;
  player_id = request.player_id;
  session_id = request.session_id;
  table_id = request.table_id;
  amount = impact.amount;
  staff = request.staff;
  staff_id = request.requested_by_id;
  cash_received = impact.cash_received;
  cash_payout = impact.cash_payout;
  credit_delta = impact.credit_delta;
  time = time;
  note = request.note;
  reverses_id = none;
  approval_id = request.id;
}

-- What posting does to the visit: a cash-out ends it, the reversal of a cash-out reopens it.
unfoldable pub end_visit : String → Session → Session
end_visit time s = record s { status = out; session_end = some time }

unfoldable pub reopen_visit : Session → Session
reopen_visit s = record s { status = active; session_end = none }

unfoldable pub posted_sessions :
    TxType → Option Transaction → Option String → String → List Session → List Session
posted_sessions type original session_id time sessions =
    let at = λ (s : Session). opt_eq (some s.id) session_id in
    elim type [
      | reversal ↦
          if holds (λ tx. is_entry cash_out tx.type) original
          then update_first at reopen_visit sessions
          else sessions
      | entry cash_out ↦ update_first at (end_visit time) sessions
      | _ ↦ sessions
    ]

-- `tx.reversesId = original.id`
unfoldable pub posted_link : TxType → Option Transaction → Option String
posted_link reversal none = none
posted_link reversal (some original) = some original.id
posted_link (entry type) original = none

unfoldable pub post_entry : Host → ℕ → Store → ApprovalRequest → String → Result Store
unfolding posted posted_sessions posted_link
post_entry host k store request time = do
  require_that (not (any (λ tx. tx.approval_id =ₜ request.id) store.transactions))
      "This request was already posted."
  impact ← ledger_impact store request
  let original = transaction_of store request.reverses_id
  let tx = posted host k time request impact
  ok (record store {
    sessions = posted_sessions request.type original request.session_id time store.sessions;
    transactions =
        (record tx { reverses_id = posted_link request.type original }) ∷ store.transactions;
  })
