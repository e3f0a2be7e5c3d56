-- ===== src/Ledger/Totals.antt =====
-- `totalsForDay`, `playersForDay` and `tablesForDay` of src/domain/selectors.ts.
use poker_management_system.Common.{
  String, ◌&&◌, Option, none, some, List, find, filter, last?, or_else, holds, then_some,
  if◌then◌else◌, [], ◌∷◌,
}
use poker_management_system.Common.Int.{ℤ, pos, ◌+ℤ◌, ◌-ℤ◌}
use poker_management_system.Common.Text.{◌=ₜ◌, opt_eq, truthy}
use poker_management_system.Common.Result.{Result, ok, err, plain, ◌>>=◌}
use poker_management_system.Model.{
  Store, Day, Transaction, EntryType, Totals, PokerTable, TableRecord, Player, Profile, Session,
  StoreReadModel, is_entry, is_active, is_open, out, buy_in, cash_out, rake, tips,
  insurance_premium, insurance_payout, jackpot_contribution, jackpot_payout,
}
use poker_management_system.Ledger.Debt.{get, sum_by, entry_type, debt}
use Prim.Native.String.{◌++◌ as text_append}

-- `transactions.filter(types.includes(entryType(store, tx) ?? "")).reduce(...)` for one type
unfoldable pub sum_of_type : List Transaction → List Transaction → EntryType → ℤ
sum_of_type all chosen type =
    sum_by (λ tx. tx.amount) (filter (λ tx. holds (is_entry type) (entry_type all tx)) chosen)

-- The sums of totalsForDay over the records; `all` is searched for the originals.
unfoldable pub sum_totals : List Transaction → List Transaction → Option Day → Totals
unfolding sum_of_type
sum_totals all chosen day =
    let opening = or_else (then_some day (λ d. some (pos d.opening_cash))) (pos 0) in
    let received = sum_by (λ tx. tx.cash_received) chosen in
    let payout = sum_by (λ tx. tx.cash_payout) chosen in
    let expected = opening +ℤ received -ℤ payout in
    let counted = then_some day (λ d.
      if is_open d.status then none else then_some (last? d.closes) (λ c. some c.counted_cash)) in
    record {
      buy_in_total = sum_of_type all chosen buy_in;
      cash_out_total = sum_of_type all chosen cash_out;
      rake = sum_of_type all chosen rake;
      insurance =
          sum_of_type all chosen insurance_premium -ℤ sum_of_type all chosen insurance_payout;
      jackpot =
          sum_of_type all chosen jackpot_contribution -ℤ sum_of_type all chosen jackpot_payout;
      tips = sum_of_type all chosen tips;
      cash_received = received;
      cash_payout = payout;
      opening_cash = opening;
      expected_cash = expected;
      counted_cash = counted;
      variance = then_some counted (λ c. some (pos c -ℤ expected));
    }

-- The day's transactions among `transactions`, and its totals.
unfoldable pub record_totals : List Transaction → List Day → Option String → Totals
unfolding sum_totals
record_totals transactions days day_id =
    sum_totals transactions (filter (λ tx. opt_eq (some tx.day_id) day_id) transactions)
      (find (λ day. opt_eq (some day.id) day_id) days)

abbrev totals_not_loaded : String
totals_not_loaded = "Business day totals are not loaded. Refresh records before continuing."

-- `store.readModel && dayId`: an absent or empty day id falls through to the records.
unfoldable pub model_totals : StoreReadModel → String → Totals → Result Totals
model_totals model day_id fallback =
    if truthy (some day_id)
    then (elim (get day_id model.totals) [
      | none ↦ err (plain totals_not_loaded)
      | some totals ↦ ok totals
    ])
    else ok fallback

unfoldable pub totals_for_day : Store → Option String → Result Totals
unfolding record_totals model_totals
totals_for_day store day_id =
    let local = record_totals store.transactions store.days day_id in
    elim store.read_model [
      | none ↦ ok local
      | some model ↦ elim day_id [ none ↦ ok local | some id ↦ model_totals model id local ]
    ]

abbrev pub day_key : Option String → String → String
day_key none player = text_append "null:" player
day_key (some day) player = text_append day (text_append ":" player)

-- `latest?.status === "ACTIVE" ? latest.f : undefined`
abbrev if_active : {A : Type 0} → Option Session → (Session → A) → Option A
if_active latest f = then_some latest (λ s. if is_active s.status then some (f s) else none)

abbrev player_sum : Store → List Transaction → EntryType → ℤ
player_sum store chosen type = sum_of_type store.transactions chosen type

unfoldable pub player_for_day : Store → Option String → Profile → Result Player
player_for_day store day_id profile =
    let visits =
      filter (λ s. (s.player_id =ₜ profile.id) && opt_eq (some s.day_id) day_id) store.sessions in
    let latest = last? visits in
    let chosen =
      filter (λ tx. opt_eq tx.player_id (some profile.id) && opt_eq (some tx.day_id) day_id)
        store.transactions in
    let saved =
      then_some store.read_model (λ m. some (get (day_key day_id profile.id) m.player_day)) in
    debt store profile.id >>= λ owed. ok (record {
      profile = profile;
      credit_used = owed;
      status = or_else (then_some latest (λ s. some s.status)) out;
      table_id = if_active latest (λ s. s.table_id);
      seat = if_active latest (λ s. s.seat);
      session_id = then_some latest (λ s. some s.id);
      session_start = then_some latest (λ s. some s.session_start);
      session_end = then_some latest (λ s. s.session_end);
      buy_in = elim saved [
        | none ↦ player_sum store chosen buy_in
        | some day ↦ or_else (then_some day (λ d. some d.buy_in)) (pos 0)
      ];
      cash_out = elim saved [
        | none ↦ player_sum store chosen cash_out
        | some day ↦ or_else (then_some day (λ d. some d.cash_out)) (pos 0)
      ];
    })

-- `xs.map(f)` where `f` may throw
unfoldable pub map_result : {A B : Type 0} → (A → Result B) → List A → Result (List B)
map_result f [] = ok []
map_result f (x ∷ xs) = let rest = map_result f xs in f x >>= λ y. rest >>= λ ys. ok (y ∷ ys)

unfoldable pub players_for_day : Store → Option String → Result (List Player)
unfolding player_for_day map_result
players_for_day store day_id = map_result (player_for_day store day_id) store.profiles

-- `{ ...store, transactions: store.transactions.filter(...) }`: the originals are searched among the
-- table's transactions too.
unfoldable pub table_for_day : Store → Option String → TableRecord → Result PokerTable
table_for_day store day_id table =
    let local = record store {
      transactions = filter (λ tx. opt_eq tx.table_id (some table.id)) store.transactions;
    } in
    let computed = totals_for_day local day_id >>= λ totals. ok (record {
      table = table;
      totals = record {
        rake = totals.rake;
        insurance = totals.insurance;
        jackpot = totals.jackpot;
      };
    }) in
    elim (then_some store.read_model (λ m. get table.id m.table_totals)) [
      | none ↦ computed
      | some saved ↦
          if opt_eq day_id store.current_day_id
          then ok (record { table = table; totals = saved })
          else computed
    ]

unfoldable pub tables_for_day : Store → Option String → Result (List PokerTable)
unfolding table_for_day map_result
tables_for_day store day_id = map_result (table_for_day store day_id) store.tables
