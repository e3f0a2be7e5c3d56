-- ===== src/Operations/Apply/CashOutTests.antt =====
-- A cash-out by a player on credit, over the stores of the other tests.
use poker_management_system.Common.{◌≡◌, refl, some, arith}
use poker_management_system.Common.Int.{pos, negsuc, ◌+ℤ◌, ◌-ℤ◌}
use poker_management_system.Common.Result.{ok, ◌>>=◌}
use poker_management_system.Model.{ApprovalRequest, entry, cash_out}
use poker_management_system.Ledger.Debt.{debt, ledger_debt}
use poker_management_system.Ledger.Impact.{Impact, profile_of, settled_credit, ledger_impact}
use poker_management_system.Ledger.Settling.{SettlesFirst, cash_out-SettlesFirst}
use poker_management_system.Operations.Apply.Tests.{bob, chips, disputed}

-- A cash-out of 900 by a player who owes 600.
abbrev leaving : ApprovalRequest
leaving = record chips { type = entry cash_out; amount = pos 900 }

abbrev leaving_impact : Impact
leaving_impact = record {
  amount = pos 900;
  cash_received = pos 0;
  cash_payout = pos 300;
  credit_delta = negsuc 599;
}

has_leaving_impact : ledger_impact disputed leaving ≡ ok leaving_impact
unfolding ledger_impact settled_credit profile_of debt ledger_debt ◌+ℤ◌ ◌-ℤ◌ ◌>>=◌
has_leaving_impact = refl

owes_600 : debt disputed "P1" ≡ ok (pos 600)
unfolding ledger_impact settled_credit profile_of debt ledger_debt ◌+ℤ◌ ◌-ℤ◌ ◌>>=◌
owes_600 = refl

knows_bob : profile_of disputed (some "P1") ≡ some bob
unfolding profile_of
knows_bob = refl

cash_out-SettlesFirst_example : SettlesFirst (pos 600) leaving_impact
cash_out-SettlesFirst_example =
    cash_out-SettlesFirst disputed leaving bob refl knows_bob refl owes_600 (omega arith)
      (omega arith) has_leaving_impact
