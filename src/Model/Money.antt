-- ===== src/Model/Money.antt =====
-- The bound of every stored amount: src/domain/money.ts.
use poker_management_system.Common.{ℕ}

-- `MAX_MONEY`, in sen
abbrev pub max_money : ℕ
max_money = 100_000_000_000
