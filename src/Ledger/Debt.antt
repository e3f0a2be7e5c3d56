-- ===== src/Ledger/Debt.antt =====
-- `currentDay`, `debt`, `entryType` and `emptyStore` of src/domain/selectors.ts, and
-- `reservedCredit` of src/domain/operations.ts. A store that carries server aggregates answers from
-- them; otherwise the sums run over the records.
use poker_management_system.Common.{
  String, Bool, ◌&&◌, Option, none, some, List, [], ◌∷◌, find, filter, or_else, if◌then◌else◌,
}
use poker_management_system.Common.Int.{ℤ, pos, ◌+ℤ◌}
use poker_management_system.Common.Text.{◌=ₜ◌, opt_eq, truthy}
use poker_management_system.Common.Result.{Result, ok, err, plain}
use poker_management_system.Model.{
  Store, Day, Transaction, ApprovalRequest, TxType, Dict, buy_in, is_entry, is_pending,
}

unfoldable pub empty_store : Store
empty_store = record {
  settings = none;
  profiles = [];
  sessions = [];
  tables = [];
  transactions = [];
  approvals = [];
  audit_logs = [];
  days = [];
  current_day_id = none;
  read_model = none;
}

-- `d[key]`
abbrev pub get : {V : Type 0} → String → Dict V → Option V
get key [] = none
get key ((k, v) ∷ d) = if k =ₜ key then some v else get key d

unfoldable pub current_day : Store → Option Day
current_day store = find (λ day. opt_eq (some day.id) store.current_day_id) store.days

-- The type that counts in the totals: a reversal counts as the entry that it reverses.
unfoldable pub entry_type : List Transaction → Transaction → Option TxType
entry_type transactions tx =
    if truthy tx.reverses_id
    then elim (find (λ original. opt_eq (some original.id) tx.reverses_id) transactions) [
      | none ↦ none
      | some original ↦ some original.type
    ]
    else some tx.type

-- `xs.reduce((sum, x) => sum + f(x), 0)`
abbrev pub sum_by : {A : Type 0} → (A → ℤ) → List A → ℤ
sum_by f [] = pos 0
sum_by f (x ∷ xs) = f x +ℤ sum_by f xs

-- The balance of a player in the ledger.
unfoldable pub ledger_debt : List Transaction → String → ℤ
ledger_debt transactions player_id =
    sum_by (λ tx. tx.credit_delta)
      (filter (λ tx. opt_eq tx.player_id (some player_id)) transactions)

abbrev balance_not_loaded : String
balance_not_loaded = "Player balance is not loaded. Refresh records before continuing."

unfoldable pub debt : Store → String → Result ℤ
debt store player_id = elim store.read_model [
  | none ↦ ok (ledger_debt store.transactions player_id)
  | some model ↦ elim (get player_id model.balances) [
    | none ↦ err (plain balance_not_loaded)
    | some value ↦ ok value
  ]
]

unfoldable pub reserves_credit : String → ApprovalRequest → Bool
reserves_credit player_id request =
    opt_eq request.player_id (some player_id)
    && is_entry buy_in request.type
    && is_pending request.status

unfoldable pub pending_credit : List ApprovalRequest → String → ℤ
pending_credit approvals player_id =
    sum_by (λ request. request.amount) (filter (reserves_credit player_id) approvals)

unfoldable pub reserved_credit : Store → String → ℤ
reserved_credit store player_id = elim store.read_model [
  | none ↦ pending_credit store.approvals player_id
  | some model ↦ or_else (get player_id model.reserved_credit) (pos 0)
]
