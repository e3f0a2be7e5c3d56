-- ===== src/Server/Aggregates.antt =====
-- src/server/aggregates.ts: the sums that the server reads from its tables and hands to the domain
-- in `readModel`. A sum is an integer here, so that `checkedTotal` keeps only its test of the range.
use poker_management_system.Common.{
  ℕ, String, Bool, true, false, not, ◌&&◌, ◌||◌, Option, none, some, List, [], ◌++◌, any, find,
  filter, map, length, last?, or_else, then_some, if◌then◌else◌, ◌==◌, ltb,
}
use poker_management_system.Common.Int.{ℤ, pos, ◌+ℤ◌, ◌-ℤ◌}
use poker_management_system.Common.Text.{◌=ₜ◌, opt_eq, truthy}
use poker_management_system.Common.Result.{Result, ok, err, domain, ◌>>=◌}
use poker_management_system.Model.{
  Store, Staff, Day, Totals, ApprovalRequest, StoreReadModel, PlayerDay, TableTotals, Dict, is_open,
  is_pending, is_entry, buy_in, has_role, admin, role_eq, is_by_admin, by_manager, ApprovalLevel,
  by_admin, dual,
}
use poker_management_system.Ledger.Debt.{sum_by}
use poker_management_system.Ledger.Totals.{day_key, map_result}
use poker_management_system.Operations.Guards.{supervisors}
use poker_management_system.Server.Rollups.{
  Rollup, Bucket, Columns, Scope, venue, day, player, player_day, table_day, bucket_of, bucket_eq,
  scope_code, is_safe,
}
use poker_management_system.Server.Storage.{Branch}

unfoldable pub checked_total : ℤ → Result ℤ
checked_total value =
    if is_safe value
    then ok value
    else err (domain "Financial total exceeds the supported amount." 503)

abbrev pub no_columns : Columns
no_columns = record {
  buy_in = pos 0;
  cash_out = pos 0;
  rake = pos 0;
  tips = pos 0;
  insurance = pos 0;
  jackpot = pos 0;
  cash_received = pos 0;
  cash_payout = pos 0;
  credit_delta = pos 0;
}

-- The row of a bucket; an absent one counts as zero.
unfoldable pub columns_at : List Rollup → Bucket → Columns
columns_at rows bucket =
    or_else
      (then_some (find (λ r. bucket_eq r.bucket bucket) rows) (λ (r : Rollup). some r.columns))
      no_columns

abbrev pub checked_option : Option ℤ → Result (Option ℤ)
checked_option none = ok none
checked_option (some value) = checked_total value >>= λ v. ok (some v)

unfoldable pub day_totals : Day → Columns → Result Totals
unfolding checked_total
day_totals d row = do
  cash_received ← checked_total row.cash_received
  cash_payout ← checked_total row.cash_payout
  buy_in_total ← checked_total row.buy_in
  cash_out_total ← checked_total row.cash_out
  rake ← checked_total row.rake
  tips ← checked_total row.tips
  insurance ← checked_total row.insurance
  jackpot ← checked_total row.jackpot
  let net = cash_received -ℤ cash_payout
  _ ← checked_total net
  expected ← checked_total (pos d.opening_cash +ℤ net)
  let counted =
      if is_open d.status then none else then_some (last? d.closes) (λ c. some c.counted_cash)
  variance ← checked_option (then_some counted (λ c. some (pos c -ℤ expected)))
  ok (record {
    buy_in_total = buy_in_total;
    cash_out_total = cash_out_total;
    rake = rake;
    insurance = insurance;
    jackpot = jackpot;
    tips = tips;
    cash_received = cash_received;
    cash_payout = cash_payout;
    opening_cash = pos d.opening_cash;
    expected_cash = expected;
    counted_cash = counted;
    variance = variance;
  })

pub record Options : Type 0 where
  pub summary : Bool
  pub day_totals : Bool
  pub player_totals : Bool
  pub table_totals : Bool
  pub user : Option Staff

abbrev has_scope : Scope → Rollup → Bool
has_scope scope row = scope_code row.bucket.scope == scope_code scope

abbrev member : List String → String → Bool
member ids id = any (λ i. i =ₜ id) ids

-- `PLAYER_DAY` rows
unfoldable pub player_days : List Rollup → List String → List String → Result (Dict PlayerDay)
player_days rows ids days =
    let chosen =
      filter
        (λ r.
          has_scope player_day r && member ids r.bucket.entity_id && member days r.bucket.day_id)
        rows in
    map_result
      (λ (r : Rollup). checked_total r.columns.buy_in >>= λ bought.
        checked_total r.columns.cash_out >>= λ paid. ok (
          day_key (some r.bucket.day_id) r.bucket.entity_id,
          record { buy_in = bought; cash_out = paid },
        ))
      chosen

-- `TABLE_DAY` rows of the current day
unfoldable pub table_rows : List Rollup → String → Result (Dict TableTotals)
table_rows rows day_id =
    map_result
      (λ (r : Rollup). checked_total r.columns.rake >>= λ rake.
        checked_total r.columns.insurance >>= λ insurance.
        checked_total r.columns.jackpot >>= λ jackpot.
        ok (r.bucket.entity_id, record { rake = rake; insurance = insurance; jackpot = jackpot }))
      (filter (λ r. has_scope table_day r && (r.bucket.day_id =ₜ day_id)) rows)

-- The pending requests that a condition picks
abbrev pub pending_where : (ApprovalRequest → Bool) → List ApprovalRequest → List ApprovalRequest
pending_where p approvals = filter (λ r. is_pending r.status && p r) approvals

unfoldable pub reserved : List ApprovalRequest → ℤ
reserved approvals =
    sum_by (λ r. r.amount) (filter (λ (r : ApprovalRequest). is_entry buy_in r.type) approvals)

abbrev at_table : ApprovalRequest → Bool
at_table r = truthy r.table_id

-- The condition of `reviewable`; `votes @> [{staffId}]` holds where a vote is by the user.
unfoldable pub is_reviewable : Store → Option String → Staff → ApprovalRequest → Bool
is_reviewable stored day_id user r =
    opt_eq (some r.day_id) day_id
    && has_role supervisors user.role
    && not (r.requested_by_id =ₜ user.id)
    && (not (is_by_admin r.approval_level) || role_eq user.role admin)
    && not (any (λ v. v.staff_id =ₜ user.id) r.votes)
    && any (λ d. opt_eq (some d.id) day_id && is_open d.status) stored.days

abbrev is_by_manager : ApprovalLevel → Bool
is_by_manager by_manager = true
is_by_manager by_admin = false
is_by_manager dual = false

-- `SELECT key,count(*) ... GROUP BY key`, for the given keys
abbrev counts_by : (ApprovalRequest → Option String) → List String → List ApprovalRequest → Dict ℕ
counts_by key keys approvals =
    filter (λ (group : String × ℕ). ltb 0 group.1)
      (map (λ k. (k, length (filter (λ r. opt_eq (key r) (some k)) approvals))) keys)

abbrev reviewable_count : Store → Option String → Option Staff → List ApprovalRequest → ℕ
reviewable_count stored day_id none approvals = 0
reviewable_count stored day_id (some user) approvals =
    length (filter (is_reviewable stored day_id user) approvals)

abbrev when_summary : {A : Type 0} → Bool → A → A → A
when_summary test a b = if test then a else b

-- `store.currentDayId && wantsTables`
unfoldable pub current_tables : List Rollup → Bool → Option String → Result (Dict TableTotals)
unfolding table_rows
current_tables rows wanted none = ok []
current_tables rows wanted (some day_id) =
    if wanted && truthy (some day_id) then table_rows rows day_id else ok []

unfoldable pub populate_read_model : Branch → Store → Options → Result Store
unfolding checked_total columns_at day_totals player_days reserved is_reviewable current_tables
populate_read_model branch store options = do
  let rows = branch.rollups
  let ids = map (λ p. p.id) store.profiles
  let pending = filter (λ r. is_pending r.status) branch.store.approvals
  let today = filter (λ r. opt_eq (some r.day_id) store.current_day_id) pending
  let of_player : String → List ApprovalRequest =
      λ id. filter (λ r. opt_eq r.player_id (some id)) pending
  balances ←
      map_result
        (λ id.
          checked_total (columns_at rows (bucket_of player id "")).credit_delta >>= λ b. ok (id, b))
        ids
  days ← if options.player_totals then player_days rows ids (map (λ d. d.id) store.days) else ok []
  totals ←
      map_result
        (λ (d : Day).
          day_totals d
            (if options.day_totals then columns_at rows (bucket_of day "" d.id) else no_columns)
          >>= λ t. ok (d.id, t))
        store.days
  tables ← current_tables rows options.table_totals store.current_day_id
  reserved_credit ←
      map_result (λ id. checked_total (reserved (of_player id)) >>= λ r. ok (id, r)) ids
  outstanding ←
      checked_total
        (if options.summary then (columns_at rows (bucket_of venue "" "")).credit_delta else pos 0)
  let model : StoreReadModel = record {
    balances = balances;
    player_day = days;
    totals = totals;
    table_totals =
        tables
        ++ map (λ t. (t.id, record { rake = pos 0; insurance = pos 0; jackpot = pos 0 }))
            store.tables;
    outstanding_credit = outstanding;
    pending_total = when_summary options.summary (length pending) 0;
    pending_current = when_summary options.summary (length today) 0;
    admin_review =
        when_summary options.summary
          (length (filter (λ r. not (is_by_manager r.approval_level)) today)) 0;
    reviewable =
        when_summary options.summary
          (reviewable_count branch.store store.current_day_id options.user pending) 0;
    pending_players = map (λ id. (id, length (of_player id))) ids;
    reserved_credit = reserved_credit;
    pending_days = some (
        when_summary options.summary
          (counts_by (λ r. some r.day_id) (map (λ d. d.id) store.days) pending) []);
    pending_tables = some (
        when_summary options.summary
          (counts_by (λ r. r.table_id) (map (λ t. t.id) branch.store.tables) pending) []);
  }
  ok (record store { read_model = some model })
