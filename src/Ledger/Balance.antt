-- ===== src/Ledger/Balance.antt =====
-- Conservation in the ledger: what an entry moves, and what a reversal takes back.
use poker_management_system.Common.{◌≡◌, refl, Bool, true, false, arith, if◌then◌else◌}
use poker_management_system.Common.Int.{ℤ, pos, neg, ◌+ℤ◌, ◌-ℤ◌, int_laws}
use poker_management_system.Common.Result.{ok, Ensures, Ensures-ok, Ensures-bind}
use poker_management_system.Model.{
  Store, ApprovalRequest, entry, EntryType, buy_in, cash_out, insurance_payout, jackpot_payout,
  cash_payout, credit_repayment,
}
use poker_management_system.Ledger.Impact.{Impact, ledger_impact}

-- What the house gains by an entry of the amount, in cash and in claims on players together: the
-- takings, less the payouts. A repayment turns a claim into cash.
abbrev pub gain : EntryType → ℤ → ℤ
gain cash_out amount = neg amount
gain insurance_payout amount = neg amount
gain jackpot_payout amount = neg amount
gain cash_payout amount = neg amount
gain credit_repayment amount = pos 0
gain _ amount = amount

-- Cash in, less cash out, with the change of the player's credit.
abbrev pub net : Impact → ℤ
net impact = impact.cash_received -ℤ impact.cash_payout +ℤ impact.credit_delta

neg_parts : (a : ℤ) → a +ℤ neg a ≡ pos 0
unfolding ◌+ℤ◌
neg_parts a = ground arith

plain_in : (amount : ℤ) → amount -ℤ pos 0 +ℤ pos 0 ≡ amount
plain_in amount = omega int_laws

by_credit : (amount : ℤ) → pos 0 -ℤ pos 0 +ℤ amount ≡ amount
by_credit amount = omega int_laws

plain_out : (amount : ℤ) → pos 0 -ℤ amount +ℤ pos 0 ≡ neg amount
unfolding ◌+ℤ◌ ◌-ℤ◌
plain_out amount = ground arith

settled_out : (amount settled : ℤ) → pos 0 -ℤ (amount -ℤ settled) +ℤ neg settled ≡ neg amount
unfolding ◌+ℤ◌ ◌-ℤ◌
settled_out amount settled = ground arith

repaid : (amount : ℤ) → amount -ℤ pos 0 +ℤ neg amount ≡ pos 0
unfolding ◌+ℤ◌ ◌-ℤ◌
repaid amount = ground arith

-- The impact of an entry keeps its amount and moves what the type says.
abbrev Balanced : EntryType → ℤ → Impact → Type 0
Balanced type amount impact = (impact.amount ≡ amount) × (net impact ≡ gain type amount)

module _ (store : Store) (request : ApprovalRequest) where
  buy_in-Balanced :
      (b : Bool)
      → Balanced buy_in request.amount (
          if b
          then (record {
            amount = request.amount;
            cash_received = pos 0;
            cash_payout = pos 0;
            credit_delta = request.amount;
          })
          else (record {
            amount = request.amount;
            cash_received = request.amount;
            cash_payout = pos 0;
            credit_delta = pos 0;
          }))
  buy_in-Balanced true = (refl, by_credit request.amount)
  buy_in-Balanced false = (refl, plain_in request.amount)

  impact_by_type :
      (type : EntryType)
      → request.type ≡ entry type
      → Ensures (Balanced type request.amount) (ledger_impact store request)
  unfolding ledger_impact
  impact_by_type buy_in e = rw (e, ledger_impact) (Ensures-ok (buy_in-Balanced _))
  impact_by_type cash_out e =
      rw (e, ledger_impact)
        (Ensures-bind λ settled p. Ensures-ok (refl, settled_out request.amount settled))
  impact_by_type credit_repayment e =
      rw (e, ledger_impact) (Ensures-ok (refl, repaid request.amount))
  impact_by_type insurance_payout e =
      rw (e, ledger_impact) (Ensures-ok (refl, plain_out request.amount))
  impact_by_type jackpot_payout e =
      rw (e, ledger_impact) (Ensures-ok (refl, plain_out request.amount))
  impact_by_type cash_payout e = rw (e, ledger_impact) (Ensures-ok (refl, plain_out request.amount))
  impact_by_type _ e = rw (e, ledger_impact) (Ensures-ok (refl, plain_in request.amount))

-- The impact of an entry that is no reversal keeps its amount, and its cash received, less its cash
-- paid out, with its change of the player's credit, is the amount for takings, the amount negated for
-- payouts, and nothing for a repayment.
pub ledger_impact_balanced :
    (store : Store) (request : ApprovalRequest) (type : EntryType) {impact : Impact}
    → request.type ≡ entry type
    → ledger_impact store request ≡ ok impact
    → (impact.amount ≡ request.amount) × (net impact ≡ gain type request.amount)
ledger_impact_balanced store request type e h = (impact_by_type store request type e).at h
