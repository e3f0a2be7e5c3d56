-- ===== src/Model/Enums.antt =====
-- The enumerations of src/domain/model.ts, with the tests that `===` and `includes` make.
use poker_management_system.Common.{ℕ, ◌≡◌, Bool, true, false, List, any, ◌==◌, arith}

pub data Role : Type 0 where
  dealer cashier manager admin : Role

pub data GameType : Type 0 where
  texas_holdem pot_limit_omaha other : GameType

pub data PlayerType : Type 0 where
  cash credit : PlayerType

pub data PlayerTag : Type 0 where
  vip risk banned : PlayerTag

pub data ApprovalLevel : Type 0 where
  by_manager by_admin dual : ApprovalLevel

pub data EntryType : Type 0 where
  buy_in cash_out rake tips insurance_premium insurance_payout : EntryType
  jackpot_contribution jackpot_payout cash_received cash_payout credit_repayment : EntryType

-- `EntryType | "Reversal"`
pub data TxType : Type 0 where
  entry : EntryType → TxType
  reversal : TxType

pub data SessionStatus : Type 0 where
  active out : SessionStatus

pub data OpenStatus : Type 0 where
  opened closed : OpenStatus

pub data RequestStatus : Type 0 where
  pending approved rejected : RequestStatus

abbrev pub role_code : Role → ℕ
role_code dealer = 0
role_code cashier = 1
role_code manager = 2
role_code admin = 3

abbrev pub role_eq : Role → Role → Bool
role_eq a b = role_code a == role_code b

abbrev pub has_role : List Role → Role → Bool
has_role roles r = any (λ x. role_eq x r) roles

abbrev pub entry_code : EntryType → ℕ
entry_code buy_in = 0
entry_code cash_out = 1
entry_code rake = 2
entry_code tips = 3
entry_code insurance_premium = 4
entry_code insurance_payout = 5
entry_code jackpot_contribution = 6
entry_code jackpot_payout = 7
entry_code cash_received = 8
entry_code cash_payout = 9
entry_code credit_repayment = 10

abbrev pub entry_eq : EntryType → EntryType → Bool
entry_eq a b = entry_code a == entry_code b

abbrev pub has_entry : List EntryType → EntryType → Bool
has_entry types t = any (λ x. entry_eq x t) types

abbrev pub is_entry : EntryType → TxType → Bool
is_entry e (entry t) = entry_eq t e
is_entry e reversal = false

abbrev pub is_reversal : TxType → Bool
is_reversal (entry t) = false
is_reversal reversal = true

abbrev pub is_credit : PlayerType → Bool
is_credit cash = false
is_credit credit = true

abbrev pub tag_code : PlayerTag → ℕ
tag_code vip = 0
tag_code risk = 1
tag_code banned = 2

abbrev pub tag_eq : PlayerTag → PlayerTag → Bool
tag_eq a b = tag_code a == tag_code b

abbrev pub is_active : SessionStatus → Bool
is_active active = true
is_active out = false

abbrev pub is_open : OpenStatus → Bool
is_open opened = true
is_open closed = false

abbrev pub is_pending : RequestStatus → Bool
is_pending pending = true
is_pending approved = false
is_pending rejected = false

abbrev pub is_by_admin : ApprovalLevel → Bool
is_by_admin by_admin = true
is_by_admin by_manager = false
is_by_admin dual = false

abbrev pub is_dual : ApprovalLevel → Bool
is_dual dual = true
is_dual by_manager = false
is_dual by_admin = false

pub role_eq-eq : (a b : Role) → role_eq a b ≡ true → a ≡ b
role_eq-eq dealer b h = ground arith
role_eq-eq cashier b h = ground arith
role_eq-eq manager b h = ground arith
role_eq-eq admin b h = ground arith
