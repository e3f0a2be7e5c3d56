-- ===== src/Server/Rollups/Tests.antt =====
-- A credit buy-in and its reversal enter the ledger and the sums.
use poker_management_system.Common.{◌≡◌, refl, some, [], ◌∷◌, List}
use poker_management_system.Common.Int.{negsuc, ◌+ℤ◌, ◌-ℤ◌}
use poker_management_system.Common.Result.{Result, ok, err}
use poker_management_system.Model.{Transaction, reversal}
use poker_management_system.Ledger.Totals.{sum_of_type, record_totals}
use poker_management_system.Operations.Apply.Tests.{bought, today}
use poker_management_system.Server.Rollups.{
  Columns, day, bucket_of, Rollup, update_ledger_rollups, upsert_rollups, upsert_rollup, bucket_eq,
  add_columns,
}
use poker_management_system.Server.Rollups.Totals.{DaysAgree, ledger_columns, ledger_hook-DaysAgree}
use poker_management_system.Server.Rollups.Reading.{IsSafeDay, day_totals-record_totals}
use poker_management_system.Server.Storage.{ledger_hook}
use poker_management_system.Server.Aggregates.{columns_at, day_totals}

abbrev taken_back : Transaction
taken_back = record bought {
  id = "E2";
  type = reversal;
  amount = negsuc 599;
  credit_delta = negsuc 599;
  reverses_id = some "E1";
}

abbrev rows_of : Result (List Rollup) → List Rollup
rows_of (ok rows) = rows
rows_of (err e) = []

abbrev first_rows : List Rollup
first_rows = rows_of (ledger_hook (bought ∷ []) bought [])

abbrev second_rows : List Rollup
second_rows = rows_of (ledger_hook (taken_back ∷ bought ∷ []) taken_back first_rows)

first_run : ledger_hook (bought ∷ []) bought [] ≡ ok first_rows
unfolding ledger_hook update_ledger_rollups
first_run = refl

second_run : ledger_hook (taken_back ∷ bought ∷ []) taken_back first_rows ≡ ok second_rows
unfolding ledger_hook update_ledger_rollups
second_run = refl

empty-DaysAgree : DaysAgree [] []
unfolding DaysAgree columns_at ledger_columns sum_of_type ◌-ℤ◌
empty-DaysAgree d = refl

first-DaysAgree : DaysAgree (bought ∷ []) first_rows
first-DaysAgree = ledger_hook-DaysAgree [] bought [] tt first_run empty-DaysAgree

both-DaysAgree : DaysAgree (taken_back ∷ bought ∷ []) second_rows
both-DaysAgree =
    ledger_hook-DaysAgree (bought ∷ []) taken_back first_rows (refl, tt) second_run first-DaysAgree

ledger_hook-DaysAgree_example : DaysAgree (taken_back ∷ bought ∷ []) second_rows
ledger_hook-DaysAgree_example =
    ledger_hook-DaysAgree (bought ∷ []) taken_back first_rows (refl, tt) second_run first-DaysAgree

abbrev todays : Columns
todays = columns_at second_rows (bucket_of day "" "D1")

todays-IsSafeDay : IsSafeDay today todays
unfolding ledger_hook update_ledger_rollups columns_at ◌+ℤ◌ ◌-ℤ◌ upsert_rollups upsert_rollup
    bucket_eq add_columns
todays-IsSafeDay = record {
  received = refl;
  payout = refl;
  bought = refl;
  paid = refl;
  raked = refl;
  tipped = refl;
  insured = refl;
  jackpots = refl;
  net = refl;
  expected = refl;
  variance = λ n h. cc;
}

day_totals-record_totals_example :
    day_totals today todays ≡ ok (record_totals (taken_back ∷ bought ∷ []) (today ∷ []) (some "D1"))
day_totals-record_totals_example =
    day_totals-record_totals (taken_back ∷ bought ∷ []) second_rows (today ∷ []) today
      both-DaysAgree refl todays-IsSafeDay
