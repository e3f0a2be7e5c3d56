-- ===== src/Server/LoginQuota/Tests.antt =====
-- Two claims by one name in one window, the first of which is cleared, and one in the next window.
use poker_management_system.Common.{◌≤◌, ◌≡◌, refl, arith, true, List, none, some, [], ◌∷◌}
use poker_management_system.Server.LoginQuota.{
  Attempts, Claim, admitted, count_attempt, claim_login_attempt, clear_successful_login_attempt,
}
use poker_management_system.Server.LoginQuota.Log.{LoggedClaim}
use poker_management_system.Server.LoginQuota.Window.{AllDecided, passed_in}
use poker_management_system.Server.LoginQuota.Bounds.{
  Reached, start, claims, clears, passes, Reached-IsLimited,
}

abbrev fresh : Attempts
fresh = record { budget = none; accounts = [] }

abbrev claimed : Attempts
claimed = (claim_login_attempt 5 (some "ann") "!unknown:1" fresh).1

abbrev ann_claim : Claim
ann_claim = record { username = "ann"; row = record { attempts = 1; window_start = 5 } }

outcome_lem : (claim_login_attempt 5 (some "ann") "!unknown:1" fresh).0 ≡ admitted (some ann_claim)
unfolding claim_login_attempt count_attempt
outcome_lem = refl

abbrev cleared : Attempts
cleared = clear_successful_login_attempt (some ann_claim) claimed

cleared_lem : cleared.accounts ≡ []
unfolding claim_login_attempt clear_successful_login_attempt count_attempt
cleared_lem = refl

abbrev again : Attempts
again = (claim_login_attempt 900 (some "ann") "!unknown:1" cleared).1

abbrev first_log : List LoggedClaim
first_log =
    record { time = 5; passed = passes (claim_login_attempt 5 (some "ann") "!unknown:1" fresh).0 }
    ∷ []

abbrev log : List LoggedClaim
log =
    record {
      time = 900;
      passed = passes (claim_login_attempt 900 (some "ann") "!unknown:1" cleared).0;
    }
    ∷ first_log

log_lem : log ≡ record { time = 900; passed = true } ∷ record { time = 5; passed = true } ∷ []
unfolding claim_login_attempt clear_successful_login_attempt count_attempt
log_lem = refl

-- A minute after the window's start a new one starts.
abbrev later : Attempts
later = (claim_login_attempt 60_000_005 none "!unknown:1" again).1

later_lem : later.budget ≡ some (record { attempts = 1; window_start = 60_000_005 })
unfolding claim_login_attempt clear_successful_login_attempt count_attempt
later_lem = refl

abbrev later_log : List LoggedClaim
later_log =
    record {
      time = 60_000_005;
      passed = passes (claim_login_attempt 60_000_005 none "!unknown:1" again).0;
    }
    ∷ log

later-Reached : Reached later later_log
later-Reached =
    claims 60_000_005 none "!unknown:1" (omega arith, (omega arith, tt))
      (claims 900 (some "ann") "!unknown:1" (omega arith, tt)
        (clears (some ann_claim) (claims 5 (some "ann") "!unknown:1" tt start)))

Reached-IsLimited_example : AllDecided later_log × (passed_in 0 later_log ≤ 240)
Reached-IsLimited_example = Reached-IsLimited 0 later-Reached
