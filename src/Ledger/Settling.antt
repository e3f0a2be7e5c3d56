-- ===== src/Ledger/Settling.antt =====
-- What a cash-out pays in cash, and what it takes off the player's credit, by `ledgerImpact` of
-- src/domain/ledger-impact.ts.
use poker_management_system.Common.{◌≡◌, refl, true, some, ◌⊎◌, arith, ◌∙◌, sym, subst}
use poker_management_system.Common.Int.{ℤ, pos, neg, ◌+ℤ◌, ◌-ℤ◌, ◌≤ℤ◌, min_ℤ}
use poker_management_system.Common.Result.{ok, ◌>>=◌, Ensures-ok}
use poker_management_system.Model.{Store, Profile, ApprovalRequest, entry, cash_out, is_credit}
use poker_management_system.Ledger.Debt.{debt}
use poker_management_system.Ledger.Impact.{Impact, profile_of, settled_credit, ledger_impact}

-- Neither the cash nor the credit that stays is negative, and one of them is zero.
abbrev pub SettlesFirst : ℤ → Impact → Type 0
SettlesFirst owed impact =
    (pos 0 ≤ℤ impact.cash_payout)
    × (pos 0 ≤ℤ owed +ℤ impact.credit_delta)
    × ((impact.cash_payout ≡ pos 0) ⊎ (owed +ℤ impact.credit_delta ≡ pos 0))

abbrev cash_out_impact : ℤ → ℤ → Impact
cash_out_impact owed amount = record {
  amount = amount;
  cash_received = pos 0;
  cash_payout = amount -ℤ min_ℤ owed amount;
  credit_delta = neg (min_ℤ owed amount);
}

min-SettlesFirst :
    (owed amount : ℤ)
    → pos 0 ≤ℤ owed
    → pos 0 ≤ℤ amount
    → SettlesFirst owed (cash_out_impact owed amount)
unfolding ◌+ℤ◌ ◌-ℤ◌
min-SettlesFirst owed amount h k = ground arith

settled_lem :
    (store : Store) (profile : Profile) (amount : ℤ) {owed : ℤ}
    → is_credit profile.type ≡ true
    → debt store profile.id ≡ ok owed
    → settled_credit store (some profile) amount ≡ ok (min_ℤ owed amount)
unfolding settled_credit ◌>>=◌
settled_lem store profile amount c d = rw (c, d) refl

-- A cash-out settles the player's credit first: where a credit player owes no negative amount and the
-- amount of the request is not negative, the impact of a cash-out pays no negative cash and leaves no
-- negative debt, and it pays cash only where it leaves no debt.
pub cash_out-SettlesFirst :
    (store : Store) (request : ApprovalRequest) (profile : Profile) {owed : ℤ} {impact : Impact}
    → request.type ≡ entry cash_out
    → profile_of store request.player_id ≡ some profile
    → is_credit profile.type ≡ true
    → debt store profile.id ≡ ok owed
    → pos 0 ≤ℤ owed
    → pos 0 ≤ℤ request.amount
    → ledger_impact store request ≡ ok impact
    → SettlesFirst owed impact
unfolding ◌>>=◌ ledger_impact ◌-ℤ◌
cash_out-SettlesFirst store request profile {owed} {impact} t p c d h k l =
    let e : ledger_impact store request ≡ ok (cash_out_impact owed request.amount) =
      rw (t, ledger_impact) (rw p (rw (settled_lem store profile request.amount c d) refl)) in
    let i : cash_out_impact owed request.amount ≡ impact =
      (Ensures-ok {P = λ x. cash_out_impact owed request.amount ≡ x} refl).at (sym e ∙ l) in
    subst (SettlesFirst owed) i (min-SettlesFirst owed request.amount h k)
