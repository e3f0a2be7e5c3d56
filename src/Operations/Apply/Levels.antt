-- ===== src/Operations/Apply/Levels.antt =====
-- What an approval has behind it by the amount and the type of its request.
use poker_management_system.Common.{
  ℕ, ◌||◌, ◌≤◌, ◌≡◌, refl, ◌⊎◌, inl, inr, String, Bool, true, false, List, [], ◌∷◌, length, any,
  All, arith,
}
use poker_management_system.Common.Int.{ℤ, pos, leb_ℤ}
use poker_management_system.Common.Result.{ok}
use poker_management_system.Model.{
  Store, Staff, TxType, entry, reversal, cash_out, insurance_payout, jackpot_payout, cash_payout,
  buy_in, rake, tips, insurance_premium, jackpot_contribution, cash_received, credit_repayment,
  Vote, admin, role_eq, ApprovalRequest, is_by_admin, is_dual,
}
use poker_management_system.Commands.{Command}
use poker_management_system.Operations.Guards.{Host, policy}
use poker_management_system.Operations.Approvals.{voted, rejected_request, decided, new_request}
use poker_management_system.Operations.Apply.Requests.{IsKeptByReview, apply_command-All}
use poker_management_system.Operations.Apply.Review.{
  is_approved, IsReviewed, AllReviewed, apply_command-AllReviewed,
}
use poker_management_system.Operations.Apply.{apply_command}

-- What takes cash out, or takes an entry back.
abbrev pub needs_admin : TxType → Bool
needs_admin (entry cash_out) = true
needs_admin (entry insurance_payout) = true
needs_admin (entry jackpot_payout) = true
needs_admin (entry cash_payout) = true
needs_admin (entry _) = false
needs_admin reversal = true

-- Amounts are in sen.
abbrev IsBelow : ℕ → ApprovalRequest → Type 0
IsBelow limit r = leb_ℤ (pos limit) r.amount ≡ false

-- A request asks for dual review from 25,000.00, and for an administrator from 10,000.00 or for what
-- takes cash out or takes an entry back.
pub record IsLevelled (r : ApprovalRequest) : Type 0 where
  pub large : IsBelow 2500000 r ⊎ (is_dual r.approval_level ≡ true)
  pub guarded :
      (IsBelow 1000000 r × (needs_admin r.type ≡ false))
      ⊎ ((is_dual r.approval_level || is_by_admin r.approval_level) ≡ true)

abbrev pub AllLevelled : Store → Type 0
AllLevelled store = All IsLevelled store.approvals

abbrev HasAdmin : ApprovalRequest → Type 0
HasAdmin r = any (λ v. role_eq v.role admin) r.votes ≡ true

-- An approved request has the reviewers that its amount and its type call for.
abbrev pub IsSupervised : ApprovalRequest → Type 0
IsSupervised r =
    (is_approved r.status ≡ false)
    ⊎ ((IsBelow 2500000 r ⊎ (2 ≤ length r.votes))
        × ((IsBelow 1000000 r × (needs_admin r.type ≡ false)) ⊎ HasAdmin r))

policy-level :
    (type : TxType) (amount : ℤ)
    → let level = (policy type amount).approval_level in
      ((leb_ℤ (pos 2500000) amount ≡ false) ⊎ (is_dual level ≡ true))
      × (((leb_ℤ (pos 1000000) amount ≡ false) × (needs_admin type ≡ false))
          ⊎ ((is_dual level || is_by_admin level) ≡ true))
unfolding policy
policy-level (entry cash_out) amount = ground arith
policy-level (entry insurance_payout) amount = ground arith
policy-level (entry jackpot_payout) amount = ground arith
policy-level (entry cash_payout) amount = ground arith
policy-level (entry buy_in) amount = ground arith
policy-level (entry rake) amount = ground arith
policy-level (entry tips) amount = ground arith
policy-level (entry insurance_premium) amount = ground arith
policy-level (entry jackpot_contribution) amount = ground arith
policy-level (entry cash_received) amount = ground arith
policy-level (entry credit_repayment) amount = ground arith
policy-level reversal amount = ground arith

-- The votes on a level that asks for an administrator.
admins-any :
    (b : Bool) (votes : List Vote)
    → All (λ v. (b ≡ false) ⊎ (v.role ≡ admin)) votes
    → (b ≡ false) ⊎ ((length votes ≡ 0) ⊎ (any (λ v. role_eq v.role admin) votes ≡ true))
admins-any false votes all = inl refl
admins-any true [] all = inr (inl refl)
admins-any true (v ∷ votes) all = inr (inr (ground (arith, all.0)))

IsReviewed-IsSupervised : (r : ApprovalRequest) → IsReviewed r → IsLevelled r → IsSupervised r
IsReviewed-IsSupervised r h l = ground (
  arith,
  h.quorum,
  l.large,
  l.guarded,
  admins-any (is_by_admin r.approval_level) r.votes h.by_level,
)

both-All : (rs : List ApprovalRequest) → All IsReviewed rs → All IsLevelled rs → All IsSupervised rs
both-All [] h l = tt
both-All (r ∷ rs) h l = (IsReviewed-IsSupervised r h.0 l.0, both-All rs h.1 l.1)

IsLevelled-IsKeptByReview : IsKeptByReview IsLevelled
unfolding new_request rejected_request voted decided
IsLevelled-IsKeptByReview = record {
  created = λ host day actor time type amount player_id session_id table_id note reverses_id.
      let (l, g) = policy-level type amount in record { large = l; guarded = g };
  refused = λ actor time reason r h. record { large = h.large; guarded = h.guarded };
  voted = λ actor time r m h. record { large = h.large; guarded = h.guarded };
  final = λ actor time r m full h. record { large = h.large; guarded = h.guarded };
}

-- Every successful command keeps that a request of 2,500,000 sen or more asks for dual review, and
-- one of 1,000,000 sen or more, of a cash-out, of a payout or of a reversal for an administrator; so,
-- where the review rules hold before, every approved request of 2,500,000 sen or more has two votes,
-- and every one of 1,000,000 sen or more, of a cash-out, of a payout or of a reversal has an
-- administrator's vote.
pub apply_command-AllSupervised :
    (host : Host) (store : Store) (input : Command) (actor : Staff) (time : String) {store' : Store}
    → apply_command host store input actor time ≡ ok store'
    → AllReviewed store
    → AllLevelled store
    → AllLevelled store' × All IsSupervised store'.approvals
apply_command-AllSupervised host store input actor time {store'} h reviewed levelled =
    let r = apply_command-AllReviewed host store input actor time h reviewed in
    let l =
      apply_command-All IsLevelled IsLevelled-IsKeptByReview host store input actor time h
        levelled in
    (l, both-All store'.approvals r l)
