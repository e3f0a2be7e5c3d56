-- ===== src/Operations/Calendar.antt =====
-- The test on a business date in `OPEN_DAY`: `new Date(date + "T00:00:00Z")` is finite and prints
-- the same date, which holds of the days of the (proleptic Gregorian) calendar and of no other text
-- of the form dddd-dd-dd.
use Prim.Native.Char.{code}
use poker_management_system.Common.{
  ℕ, ◌+◌, ◌*◌, ◌-◌, ◌%◌, String, Bool, not, ◌&&◌, ◌||◌, leb, ◌==◌, if◌then◌else◌,
}

unfoldable pub is_leap : ℕ → Bool
is_leap year = (year % 4 == 0) && (not (year % 100 == 0) || (year % 400 == 0))

unfoldable pub days_in_month : ℕ → ℕ → ℕ
unfolding is_leap
days_in_month year month =
    if month == 2
    then (if is_leap year then 29 else 28)
    else if month == 4 || month == 6 || month == 9 || month == 11
    then 30
    else 31

unfoldable pub is_calendar_day : ℕ → ℕ → ℕ → Bool
unfolding days_in_month
is_calendar_day year month day =
    leb 1 month && leb month 12 && leb 1 day && leb day (days_in_month year month)

-- The number that the digits spell, after `acc`; a dash ends it.
unfoldable pub number_from : ℕ → String → ℕ
number_from acc String.[] = acc
number_from acc (String.◌∷◌ c s) =
    let rest = number_from (acc * 10 + (code c - b'0')) s in if code c == b'-' then acc else rest

-- The text behind the first dash.
unfoldable pub after_dash : String → String
after_dash String.[] = String.[]
after_dash (String.◌∷◌ c s) = let rest = after_dash s in if code c == b'-' then s else rest

unfoldable pub is_business_date : String → Bool
unfolding is_calendar_day number_from after_dash
is_business_date date =
    is_calendar_day (number_from 0 date) (number_from 0 (after_dash date))
      (number_from 0 (after_dash (after_dash date)))
