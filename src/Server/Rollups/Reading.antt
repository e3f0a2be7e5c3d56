-- ===== src/Server/Rollups/Reading.antt =====
-- What the server reads of a day's row is `totalsForDay` of the ledger.
use poker_management_system.Common.{
  ℕ, ◌≡◌, refl, ◌∙◌, true, Option, none, some, List, find, filter, last?, then_some, if◌then◌else◌,
}
use poker_management_system.Common.Int.{ℤ, pos, ◌+ℤ◌, ◌-ℤ◌, int_laws}
use poker_management_system.Common.Text.{opt_eq}
use poker_management_system.Common.Result.{ok, ◌>>=◌, bind-ok}
use poker_management_system.Model.{Day, Transaction, is_open}
use poker_management_system.Ledger.Debt.{sum_by}
use poker_management_system.Ledger.Totals.{record_totals, sum_totals}
use poker_management_system.Server.Rollups.{Rollup, Columns, day, bucket_of, is_safe}
use poker_management_system.Server.Rollups.Totals.{DaysAgree, ledger_columns}
use poker_management_system.Server.Aggregates.{
  columns_at, checked_total, checked_option, day_totals,
}

abbrev pub expected_of : Day → Columns → ℤ
expected_of d c = pos d.opening_cash +ℤ (c.cash_received -ℤ c.cash_payout)

abbrev pub counted_of : Day → Option ℕ
counted_of d =
    if is_open d.status then none else then_some (last? d.closes) (λ c. some c.counted_cash)

-- No sum of the day leaves the range in which JavaScript counts exactly.
pub record IsSafeDay (d : Day) (c : Columns) : Type 0 where
  pub received : is_safe c.cash_received ≡ true
  pub payout : is_safe c.cash_payout ≡ true
  pub bought : is_safe c.buy_in ≡ true
  pub paid : is_safe c.cash_out ≡ true
  pub raked : is_safe c.rake ≡ true
  pub tipped : is_safe c.tips ≡ true
  pub insured : is_safe c.insurance ≡ true
  pub jackpots : is_safe c.jackpot ≡ true
  pub net : is_safe (c.cash_received -ℤ c.cash_payout) ≡ true
  pub expected : is_safe (expected_of d c) ≡ true
  pub variance : (n : ℕ) → counted_of d ≡ some n → is_safe (pos n -ℤ expected_of d c) ≡ true

checked : (v : ℤ) → is_safe v ≡ true → checked_total v ≡ ok v
unfolding checked_total
checked v h = rw (h, checked_total) refl

checked-variance :
    (o : Option ℕ) (e : ℤ)
    → ((n : ℕ) → o ≡ some n → is_safe (pos n -ℤ e) ≡ true)
    → checked_option (then_some o (λ c. some (pos c -ℤ e)))
      ≡ ok (then_some o (λ c. some (pos c -ℤ e)))
unfolding ◌>>=◌
checked-variance none e h = refl
checked-variance (some n) e h = rw (checked (pos n -ℤ e) (h n refl)) refl

add_sub : (o a b : ℤ) → o +ℤ (a -ℤ b) ≡ (o +ℤ a) -ℤ b
add_sub o a b = omega int_laws

-- A row whose sums are safe is read as the totals of the same sums.
totals_of_columns :
    (d : Day) (c : Columns)
    → IsSafeDay d c
    → day_totals d c
      ≡ ok (record {
        buy_in_total = c.buy_in;
        cash_out_total = c.cash_out;
        rake = c.rake;
        insurance = c.insurance;
        jackpot = c.jackpot;
        tips = c.tips;
        cash_received = c.cash_received;
        cash_payout = c.cash_payout;
        opening_cash = pos d.opening_cash;
        expected_cash = expected_of d c;
        counted_cash = counted_of d;
        variance = then_some (counted_of d) (λ n. some (pos n -ℤ expected_of d c));
      })
unfolding day_totals
totals_of_columns d c s =
    bind-ok _ (checked c.cash_received s.received)
    ∙ (bind-ok _ (checked c.cash_payout s.payout)
        ∙ (bind-ok _ (checked c.buy_in s.bought)
            ∙ (bind-ok _ (checked c.cash_out s.paid)
                ∙ (bind-ok _ (checked c.rake s.raked)
                    ∙ (bind-ok _ (checked c.tips s.tipped)
                        ∙ (bind-ok _ (checked c.insurance s.insured)
                            ∙ (bind-ok _ (checked c.jackpot s.jackpots)
                                ∙ (bind-ok _ (checked (c.cash_received -ℤ c.cash_payout) s.net)
                                    ∙ (bind-ok _ (checked (expected_of d c) s.expected)
                                        ∙ bind-ok _ (
                                            checked-variance (counted_of d) (expected_of d c)
                                              s.variance))))))))))

-- The server's totals of a day are the domain's: if the rows of the days hold the sums of the ledger,
-- and no sum of the day leaves the range of JavaScript's safe integers, then `dayTotals` of the
-- day's row returns what `totalsForDay` sums over the records.
pub day_totals-record_totals :
    (ledger : List Transaction) (rows : List Rollup) (days : List Day) (d : Day)
    → DaysAgree ledger rows
    → find (λ x. opt_eq (some x.id) (some d.id)) days ≡ some d
    → IsSafeDay d (columns_at rows (bucket_of day "" d.id))
    → day_totals d (columns_at rows (bucket_of day "" d.id))
      ≡ ok (record_totals ledger days (some d.id))
unfolding DaysAgree record_totals sum_totals ledger_columns
day_totals-record_totals ledger rows days d agree h s =
    let chosen = filter (λ (tx : Transaction). opt_eq (some tx.day_id) (some d.id)) ledger in
    totals_of_columns d _ s
    ∙ rw
        (
          h,
          agree d.id,
          add_sub (pos d.opening_cash) (sum_by (λ tx. tx.cash_received) chosen)
              (sum_by (λ tx. tx.cash_payout) chosen),
        )
        refl
