-- ===== src/Common/Decimal.antt =====
-- A number in decimal digits, as a template literal prints it.

use Prim.Native.String.{String, ◌++◌}
use poker_management_system.Common.Tests.{ltb, if◌then◌else◌}
use Prim.Native.Nat.{ℕ, zero, suc, ◌/◌, ◌%◌}

-- The digit of a number below 10
abbrev pub digit : ℕ → String
digit zero = "0"
digit (suc zero) = "1"
digit (suc (suc zero)) = "2"
digit (suc (suc (suc zero))) = "3"
digit (suc (suc (suc (suc zero)))) = "4"
digit (suc (suc (suc (suc (suc zero))))) = "5"
digit (suc (suc (suc (suc (suc (suc zero)))))) = "6"
digit (suc (suc (suc (suc (suc (suc (suc zero))))))) = "7"
digit (suc (suc (suc (suc (suc (suc (suc (suc zero)))))))) = "8"
digit (suc (suc (suc (suc (suc (suc (suc (suc (suc n))))))))) = "9"

-- The digits of `n`, on fuel; a number below 10 ^ fuel is printed whole.
unfoldable pub digits_fuel : ℕ → ℕ → String
digits_fuel zero n = ""
digits_fuel (suc fuel) n =
    let rest = digits_fuel fuel (n / 10) in if ltb n 10 then digit n else rest ++ digit (n % 10)

-- 20 digits are enough for every number that the program prints.
unfoldable pub decimal : ℕ → String
unfolding digits_fuel
decimal n = digits_fuel 20 n
