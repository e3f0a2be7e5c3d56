-- ===== src/Server/Rollups.antt =====
-- `updateLedgerRollups` of src/server/ledger-rollups.ts: the sums of the ledger that the server keeps
-- in `poker_financial_totals`, one row for each bucket. A branch has its own table here.
pub mod Rows
pub mod Totals
pub mod Reading
mod Tests
use poker_management_system.Common.{
  ℕ, String, Bool, ◌&&◌, Option, none, some, List, [], ◌∷◌, ◌++◌, leb, if◌then◌else◌, ◌==◌,
}
use poker_management_system.Common.Int.{ℤ, pos, pos_part, neg_part, neg, ◌+ℤ◌}
use poker_management_system.Common.Text.{◌=ₜ◌, truthy}
use poker_management_system.Common.Result.{Result, ok, err, plain}
use poker_management_system.Model.{
  Transaction, TxType, entry, reversal, EntryType, buy_in, cash_out, rake, tips, insurance_premium,
  insurance_payout, jackpot_contribution, jackpot_payout, entry_eq,
}

pub data Scope : Type 0 where
  venue day player player_day table_day : Scope

abbrev pub scope_code : Scope → ℕ
scope_code venue = 0
scope_code day = 1
scope_code player = 2
scope_code player_day = 3
scope_code table_day = 4

-- The primary key of a row.
pub record Bucket : Type 0 where
  pub scope : Scope
  pub entity_id : String
  pub day_id : String

unfoldable pub bucket_eq : Bucket → Bucket → Bool
bucket_eq a b =
    (scope_code a.scope == scope_code b.scope)
    && (a.entity_id =ₜ b.entity_id)
    && (a.day_id =ₜ b.day_id)

-- `financialColumns`
pub record Columns : Type 0 where
  pub buy_in : ℤ
  pub cash_out : ℤ
  pub rake : ℤ
  pub tips : ℤ
  pub insurance : ℤ
  pub jackpot : ℤ
  pub cash_received : ℤ
  pub cash_payout : ℤ
  pub credit_delta : ℤ

pub record Rollup : Type 0 where
  pub bucket : Bucket
  pub columns : Columns

-- `Number.isSafeInteger`
abbrev pub is_safe : ℤ → Bool
is_safe a = leb (pos_part a) 9_007_199_254_740_991 && leb (neg_part a) 9_007_199_254_740_991

abbrev pub when_type : EntryType → EntryType → ℤ → ℤ
when_type type wanted amount = if entry_eq type wanted then amount else pos 0

-- `values`
unfoldable pub rollup_values : Transaction → EntryType → Columns
rollup_values tx type = record {
  buy_in = when_type type buy_in tx.amount;
  cash_out = when_type type cash_out tx.amount;
  rake = when_type type rake tx.amount;
  tips = when_type type tips tx.amount;
  insurance =
      if entry_eq type insurance_premium
      then tx.amount
      else when_type type insurance_payout (neg tx.amount);
  jackpot =
      if entry_eq type jackpot_contribution
      then tx.amount
      else when_type type jackpot_payout (neg tx.amount);
  cash_received = tx.cash_received;
  cash_payout = tx.cash_payout;
  credit_delta = tx.credit_delta;
}

abbrev pub bucket_of : Scope → String → String → Bucket
bucket_of scope entity_id day_id = record { scope = scope; entity_id = entity_id; day_id = day_id }

abbrev pub player_scopes : Option String → String → List Bucket
player_scopes none day_id = []
player_scopes (some id) day_id =
    if truthy (some id) then bucket_of player id "" ∷ bucket_of player_day id day_id ∷ [] else []

abbrev pub table_scopes : Option String → String → List Bucket
table_scopes none day_id = []
table_scopes (some id) day_id = if truthy (some id) then bucket_of table_day id day_id ∷ [] else []

-- `scopes`
unfoldable pub rollup_scopes : Transaction → List Bucket
rollup_scopes tx =
    bucket_of venue "" "" ∷ bucket_of day "" tx.day_id ∷ player_scopes tx.player_id tx.day_id
    ++ table_scopes tx.table_id tx.day_id

unfoldable pub add_columns : Columns → Columns → Columns
add_columns a b = record {
  buy_in = a.buy_in +ℤ b.buy_in;
  cash_out = a.cash_out +ℤ b.cash_out;
  rake = a.rake +ℤ b.rake;
  tips = a.tips +ℤ b.tips;
  insurance = a.insurance +ℤ b.insurance;
  jackpot = a.jackpot +ℤ b.jackpot;
  cash_received = a.cash_received +ℤ b.cash_received;
  cash_payout = a.cash_payout +ℤ b.cash_payout;
  credit_delta = a.credit_delta +ℤ b.credit_delta;
}

-- `INSERT ... ON CONFLICT DO UPDATE` of one bucket
unfoldable pub upsert_rollup : Bucket → Columns → List Rollup → List Rollup
upsert_rollup bucket values [] = record { bucket = bucket; columns = values } ∷ []
upsert_rollup bucket values (row ∷ rows) =
    let rest = upsert_rollup bucket values rows in
    if bucket_eq row.bucket bucket
    then record row { columns = add_columns row.columns values } ∷ rows
    else row ∷ rest

unfoldable pub upsert_rollups : List Bucket → Columns → List Rollup → List Rollup
upsert_rollups [] values rows = rows
upsert_rollups (bucket ∷ buckets) values rows =
    upsert_rollups buckets values (upsert_rollup bucket values rows)

abbrev pub safe_amounts : Transaction → Bool
safe_amounts tx =
    is_safe tx.amount
    && is_safe tx.cash_received
    && is_safe tx.cash_payout
    && is_safe tx.credit_delta

unfoldable pub update_ledger_rollups : Transaction → TxType → List Rollup → Result (List Rollup)
unfolding rollup_values rollup_scopes
update_ledger_rollups tx original_type rows =
    if safe_amounts tx
    then (elim (if truthy tx.reverses_id then original_type else tx.type) [
      | reversal ↦ err (plain "A reversal requires its original ledger entry type.")
      | entry type ↦ ok (upsert_rollups (rollup_scopes tx) (rollup_values tx type) rows)
    ])
    else err (plain "A ledger amount cannot be aggregated safely.")
