-- ===== src/Ledger/Impact.antt =====
-- `ledgerImpact` of src/domain/ledger-impact.ts: what an entry does to the cash and to the credit.
use poker_management_system.Common.{String, Bool, Option, none, some, find, holds, if◌then◌else◌}
use poker_management_system.Common.Int.{ℤ, pos, neg, ◌-ℤ◌, min_ℤ}
use poker_management_system.Common.Text.{opt_eq}
use poker_management_system.Common.Result.{Result, ok, err, plain, ◌>>=◌}
use poker_management_system.Model.{
  Store, Profile, Transaction, ApprovalRequest, entry, reversal, buy_in, cash_out, insurance_payout,
  jackpot_payout, cash_payout, credit_repayment, is_credit,
}
use poker_management_system.Ledger.Debt.{debt}

pub record Impact : Type 0 where
  pub amount : ℤ
  pub cash_received : ℤ
  pub cash_payout : ℤ
  pub credit_delta : ℤ

-- `profile?.type === "CREDIT"`
abbrev pub credit_player : Option Profile → Bool
credit_player profile = holds (λ p. is_credit p.type) profile

unfoldable pub profile_of : Store → Option String → Option Profile
profile_of store player_id = find (λ p. opt_eq (some p.id) player_id) store.profiles

unfoldable pub transaction_of : Store → Option String → Option Transaction
transaction_of store id = find (λ tx. opt_eq (some tx.id) id) store.transactions

-- The impact of a reversal: each amount of the original, negated. There is one zero here, so the
-- source's `x === 0 ? 0 : -x` is the negation.
unfoldable pub reversed_impact : Transaction → Impact
reversed_impact original = record {
  amount = neg original.amount;
  cash_received = neg original.cash_received;
  cash_payout = neg original.cash_payout;
  credit_delta = neg original.credit_delta;
}

abbrev received : ℤ → Impact
received amount = record {
  amount = amount;
  cash_received = amount;
  cash_payout = pos 0;
  credit_delta = pos 0;
}

abbrev paid : ℤ → Impact
paid amount = record {
  amount = amount;
  cash_received = pos 0;
  cash_payout = amount;
  credit_delta = pos 0;
}

-- `settled`: the part of a cash-out that pays off credit.
unfoldable pub settled_credit : Store → Option Profile → ℤ → Result ℤ
settled_credit store none amount = ok (pos 0)
settled_credit store (some profile) amount =
    if is_credit profile.type
    then (debt store profile.id >>= λ owed. ok (min_ℤ owed amount))
    else ok (pos 0)

unfoldable pub ledger_impact : Store → ApprovalRequest → Result Impact
unfolding settled_credit profile_of transaction_of
ledger_impact store request = elim request.type [
  | reversal ↦ elim (transaction_of store request.reverses_id) [
    | none ↦ err (plain "Original transaction not found.")
    | some original ↦ ok (reversed_impact original)
  ]
  | entry buy_in ↦ ok (
      if credit_player (profile_of store request.player_id)
      then (record {
        amount = request.amount;
        cash_received = pos 0;
        cash_payout = pos 0;
        credit_delta = request.amount;
      })
      else received request.amount)
  | entry cash_out ↦
      settled_credit store (profile_of store request.player_id) request.amount >>= λ settled.
      ok (record {
        amount = request.amount;
        cash_received = pos 0;
        cash_payout = request.amount -ℤ settled;
        credit_delta = neg settled;
      })
  | entry credit_repayment ↦ ok (record {
    amount = request.amount;
    cash_received = request.amount;
    cash_payout = pos 0;
    credit_delta = neg request.amount;
  })
  | entry insurance_payout ↦ ok (paid request.amount)
  | entry jackpot_payout ↦ ok (paid request.amount)
  | entry cash_payout ↦ ok (paid request.amount)
  | _ ↦ ok (received request.amount)
]
