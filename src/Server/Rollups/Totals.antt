-- ===== src/Server/Rollups/Totals.antt =====
-- The sums that the server keeps for each day are those of the domain's `totalsForDay`.
use poker_management_system.Common.{
  ◌+◌, String, Bool, true, false, ◌&&◌, ◌≡◌, refl, sym, ◌∙◌, ap, none, some, List, [], ◌∷◌, All,
  find, filter, holds, Option-cases, inl, inr, arith, if◌then◌else◌, ◌==◌,
}
use poker_management_system.Common.Int.{ℤ, pos, neg, pos_part, neg_part, ◌+ℤ◌, ◌-ℤ◌, int_laws}
use poker_management_system.Common.Text.{◌=ₜ◌, opt_eq, truthy}
use poker_management_system.Common.Result.{ok, err, plain, Ensures, Ensures-ok, Ensures-err}
use poker_management_system.Operations.Ensures.{Ensures-if}
use poker_management_system.Model.{
  Transaction, TxType, EntryType, entry, reversal, is_entry, entry_eq, entry_code, buy_in, cash_out,
  rake, tips, insurance_premium, insurance_payout, jackpot_contribution, jackpot_payout,
}
use poker_management_system.Ledger.Debt.{entry_type, sum_by}
use poker_management_system.Ledger.Totals.{sum_of_type}
use poker_management_system.Server.Rollups.{
  Rollup, Columns, day, bucket_of, rollup_values, rollup_scopes, add_columns, upsert_rollups,
  update_ledger_rollups, when_type, safe_amounts,
}
use poker_management_system.Server.Rollups.Rows.{columns_at-day}
use poker_management_system.Server.Storage.{ledger_hook}
use poker_management_system.Server.Aggregates.{columns_at}

-- The sums of `chosen` by the domain's functions; `all` is searched for the originals.
unfoldable pub ledger_columns : List Transaction → List Transaction → Columns
ledger_columns all chosen = record {
  buy_in = sum_of_type all chosen buy_in;
  cash_out = sum_of_type all chosen cash_out;
  rake = sum_of_type all chosen rake;
  tips = sum_of_type all chosen tips;
  insurance = sum_of_type all chosen insurance_premium -ℤ sum_of_type all chosen insurance_payout;
  jackpot = sum_of_type all chosen jackpot_contribution -ℤ sum_of_type all chosen jackpot_payout;
  cash_received = sum_by (λ tx. tx.cash_received) chosen;
  cash_payout = sum_by (λ tx. tx.cash_payout) chosen;
  credit_delta = sum_by (λ tx. tx.credit_delta) chosen;
}

-- No entry of the ledger reverses `tx`.
abbrev pub Unreversed : Transaction → List Transaction → Type 0
Unreversed tx = All (λ x. opt_eq (some tx.id) x.reverses_id ≡ false)

entry_type-older :
    (tx : Transaction) (all : List Transaction) (x : Transaction)
    → opt_eq (some tx.id) x.reverses_id ≡ false
    → entry_type (tx ∷ all) x ≡ entry_type all x
unfolding entry_type
entry_type-older tx all x n = rw n refl

sum_of_type-older :
    (tx : Transaction) (all chosen : List Transaction) (type : EntryType)
    → Unreversed tx chosen
    → sum_of_type (tx ∷ all) chosen type ≡ sum_of_type all chosen type
unfolding sum_of_type
sum_of_type-older tx all [] type h = refl
sum_of_type-older tx all (x ∷ chosen) type (n, h) =
    let rest = sum_of_type-older tx all chosen type h in
    rw (entry_type-older tx all x n) (by_test rest (holds (is_entry type) (entry_type all x)))
  where
    by_test :
        sum_of_type (tx ∷ all) chosen type ≡ sum_of_type all chosen type
        → (b : Bool)
        → sum_by
            (λ (t : Transaction). t.amount)
            (if b
              then x ∷ filter (λ y. holds (is_entry type) (entry_type (tx ∷ all) y)) chosen
              else filter (λ y. holds (is_entry type) (entry_type (tx ∷ all) y)) chosen)
          ≡ sum_by
              (λ (t : Transaction). t.amount)
              (if b
                then x ∷ filter (λ y. holds (is_entry type) (entry_type all y)) chosen
                else filter (λ y. holds (is_entry type) (entry_type all y)) chosen)
    by_test rest true = ap (λ s. x.amount +ℤ s) rest
    by_test rest false = rest

sum_of_type-new :
    (tx : Transaction) (all chosen : List Transaction) (wanted type : EntryType)
    → entry_type all tx ≡ some (entry type)
    → sum_of_type all (tx ∷ chosen) wanted
      ≡ sum_of_type all chosen wanted +ℤ when_type type wanted tx.amount
unfolding sum_of_type
sum_of_type-new tx all chosen wanted type e = rw e (by_test (entry_eq type wanted) _)
  where
    by_test :
        (b : Bool) (rest : List Transaction)
        → sum_by (λ (t : Transaction). t.amount) (if b then tx ∷ rest else rest)
          ≡ sum_by (λ (t : Transaction). t.amount) rest +ℤ (if b then tx.amount else pos 0)
    by_test true rest = omega int_laws
    by_test false rest = omega int_laws

not_both :
    (t p q : EntryType)
    → (entry_code p == entry_code q) ≡ false
    → (entry_eq t p && entry_eq t q) ≡ false
not_both t p q h = ground arith

neg_parts : (a : ℤ) → pos_part (neg a) + pos_part a ≡ neg_part (neg a) + neg_part a
neg_parts a = ground arith

-- A pair of types that count with opposite signs.
difference-new :
    (b c : Bool) (a s t : ℤ)
    → (b && c) ≡ false
    → (s +ℤ (if b then a else pos 0)) -ℤ (t +ℤ (if c then a else pos 0))
      ≡ (s -ℤ t) +ℤ (if b then a else (if c then neg a else pos 0))
difference-new true true a s t h = cc
difference-new true false a s t h = omega int_laws
difference-new false true a s t h = omega (int_laws, neg_parts a)
difference-new false false a s t h = omega int_laws

add_comm : (a b : ℤ) → a +ℤ b ≡ b +ℤ a
add_comm a b = omega int_laws

-- The sums with an entry in front are those without it, and the values of the entry.
ledger_columns-new :
    (tx : Transaction) (all chosen : List Transaction) (type : EntryType)
    → entry_type all tx ≡ some (entry type)
    → ledger_columns all (tx ∷ chosen)
      ≡ add_columns (ledger_columns all chosen) (rollup_values tx type)
unfolding ledger_columns add_columns rollup_values
ledger_columns-new tx all chosen type e =
    let sums = λ (wanted : EntryType). sum_of_type-new tx all chosen wanted type e in
    rw
      (
        sums buy_in,
        sums cash_out,
        sums rake,
        sums tips,
        sums insurance_premium,
        sums insurance_payout,
        sums jackpot_contribution,
        sums jackpot_payout,
        difference-new (entry_eq type insurance_premium) (entry_eq type insurance_payout) tx.amount
            (sum_of_type all chosen insurance_premium) (sum_of_type all chosen insurance_payout)
            (not_both type insurance_premium insurance_payout refl),
        difference-new (entry_eq type jackpot_contribution) (entry_eq type jackpot_payout) tx.amount
            (sum_of_type all chosen jackpot_contribution) (sum_of_type all chosen jackpot_payout)
            (not_both type jackpot_contribution jackpot_payout refl),
        add_comm tx.cash_received (sum_by (λ t. t.cash_received) chosen),
        add_comm tx.cash_payout (sum_by (λ t. t.cash_payout) chosen),
        add_comm tx.credit_delta (sum_by (λ t. t.credit_delta) chosen),
      )
      refl

ledger_columns-older :
    (tx : Transaction) (all chosen : List Transaction)
    → Unreversed tx chosen
    → ledger_columns (tx ∷ all) chosen ≡ ledger_columns all chosen
unfolding ledger_columns
ledger_columns-older tx all chosen h =
    simp (λ (type : EntryType). sum_of_type-older tx all chosen type h)

-- What a hook that returned has added.
record Posted (all : List Transaction) (tx : Transaction) (rows rows' : List Rollup) : Type 0 where
  type : EntryType
  counts_as : entry_type all tx ≡ some (entry type)
  result : rows' ≡ upsert_rollups (rollup_scopes tx) (rollup_values tx type) rows

update-done :
    (tx : Transaction) (original : TxType) (all : List Transaction) (rows : List Rollup)
    → entry_type all tx ≡ some (if truthy tx.reverses_id then original else tx.type)
    → Ensures (Posted all tx rows) (update_ledger_rollups tx original rows)
unfolding update_ledger_rollups
update-done tx original all rows e =
    Ensures-if (safe_amounts tx)
      (λ p. by_type (if truthy tx.reverses_id then original else tx.type) e) (λ p. Ensures-err)
  where
    by_type :
        (t : TxType)
        → entry_type all tx ≡ some t
        → Ensures (Posted all tx rows) (elim t [
          | reversal ↦ err (plain "A reversal requires its original ledger entry type.")
          | entry type ↦ ok (upsert_rollups (rollup_scopes tx) (rollup_values tx type) rows)
        ])
    by_type reversal q = Ensures-err
    by_type (entry type) q = Ensures-ok (record { type = type; counts_as = q; result = refl })

ledger_hook-done :
    (all : List Transaction) (tx : Transaction) (rows : List Rollup)
    → Ensures (Posted all tx rows) (ledger_hook all tx rows)
unfolding ledger_hook entry_type
ledger_hook-done all tx rows = by_link (truthy tx.reverses_id) refl
  where
    by_link :
        (b : Bool)
        → truthy tx.reverses_id ≡ b
        → Ensures (Posted all tx rows) (
            if b
            then (elim (find (λ t. opt_eq (some t.id) tx.reverses_id) all) [
              | none ↦ err (plain "The original ledger entry was not found.")
              | some original ↦ update_ledger_rollups tx original.type rows
            ])
            else update_ledger_rollups tx tx.type rows)
    by_link false t = update-done tx tx.type all rows (rw (t, entry_type) refl)
    by_link true t =
        elim (Option-cases (find (λ (x : Transaction). opt_eq (some x.id) tx.reverses_id) all)) [
          | inl e ↦ rw e Ensures-err
          | inr (original, e) ↦
              rw e (update-done tx original.type all rows (rw (t, entry_type, e) refl))
        ]

-- The day's rows hold the sums of the day's entries.
unfoldable pub DaysAgree : List Transaction → List Rollup → Type 0
DaysAgree ledger rows =
    (d : String)
    → columns_at rows (bucket_of day "" d)
      ≡ ledger_columns ledger (filter (λ tx. opt_eq (some tx.day_id) (some d)) ledger)

Unreversed-filter :
    (tx : Transaction) (p : Transaction → Bool) (ledger : List Transaction)
    → Unreversed tx ledger
    → Unreversed tx (filter p ledger)
Unreversed-filter tx p [] h = tt
Unreversed-filter tx p (x ∷ ledger) (n, h) =
    let rest = Unreversed-filter tx p ledger h in by_test rest (p x)
  where
    by_test :
        Unreversed tx (filter p ledger)
        → (b : Bool) → Unreversed tx (if b then x ∷ filter p ledger else filter p ledger)
    by_test rest true = (n, rest)
    by_test rest false = rest

-- The sums that the server keeps for the days stay those of the domain: if the row of every day holds
-- what `totalsForDay` sums over the entries of the day, and an entry that no entry reverses yet is
-- put in front of the ledger with its update of the rows, then so it is afterwards.
pub ledger_hook-DaysAgree :
    (ledger : List Transaction) (tx : Transaction) (rows : List Rollup) {rows' : List Rollup}
    → Unreversed tx ledger
    → ledger_hook (tx ∷ ledger) tx rows ≡ ok rows'
    → DaysAgree ledger rows
    → DaysAgree (tx ∷ ledger) rows'
unfolding DaysAgree
ledger_hook-DaysAgree ledger tx rows u h agree d =
    let p = (ledger_hook-done (tx ∷ ledger) tx rows).at h in
    let chosen = filter (λ (t : Transaction). opt_eq (some t.day_id) (some d)) ledger in
    rw p.result (
      columns_at-day tx d (rollup_values tx p.type) rows
      ∙ by_day p.type p.counts_as chosen
          (agree d
            ∙ sym (
                ledger_columns-older tx ledger chosen
                  (Unreversed-filter tx (λ t. opt_eq (some t.day_id) (some d)) ledger u)))
          (tx.day_id =ₜ d))
  where
    by_day :
        (type : EntryType)
        → entry_type (tx ∷ ledger) tx ≡ some (entry type)
        → (chosen : List Transaction)
        → columns_at rows (bucket_of day "" d) ≡ ledger_columns (tx ∷ ledger) chosen
        → (b : Bool)
        → (if b
            then add_columns (columns_at rows (bucket_of day "" d)) (rollup_values tx type)
            else columns_at rows (bucket_of day "" d))
          ≡ ledger_columns (tx ∷ ledger) (if b then tx ∷ chosen else chosen)
    by_day type e chosen same true =
        ap (λ c. add_columns c (rollup_values tx type)) same
        ∙ sym (ledger_columns-new tx (tx ∷ ledger) chosen type e)
    by_day type e chosen same false = same
