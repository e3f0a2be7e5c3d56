-- ===== src/Server/LoginQuota.antt =====
-- The quotas on sign-ins of src/server/login-admission.ts: `claimLoginAttempt` and
-- `clearSuccessfulLoginAttempt` over the two tables of attempts. Times are in microseconds. The
-- deletion of old rows is left out: an expired row counts as no row.
pub mod Bounds
pub mod Log
pub mod Window
mod Tests
use poker_management_system.Common.{
  ℕ, suc, ◌+◌, ◌-◌, ◌*◌, ◌/◌, String, Bool, true, false, not, ◌&&◌, Option, none, some, List, [],
  ◌∷◌, leb, ltb, ◌==◌, if◌then◌else◌, filter, or_else,
}
use poker_management_system.Common.Text.{◌=ₜ◌}
use poker_management_system.Model.{Dict}
use poker_management_system.Ledger.Debt.{get}

pub record Attempt : Type 0 where
  pub attempts : ℕ
  pub window_start : ℕ

-- A row of `LOGIN_LIMITS`: the attempts that a window admits, and its length in seconds.
pub record Quota : Type 0 where
  pub limit : ℕ
  pub seconds : ℕ

abbrev pub global_quota : Quota
global_quota = record { limit = 120; seconds = 60 }

abbrev pub account_quota : Quota
account_quota = record { limit = 10; seconds = 900 }

abbrev pub micros : Quota → ℕ
micros quota = quota.seconds * 1_000_000

-- `window_start <= now() - interval`
abbrev pub has_expired : Quota → ℕ → Attempt → Bool
has_expired quota now row = leb (row.window_start + micros quota) now

-- `INSERT ... ON CONFLICT DO UPDATE`: a new window, or one attempt more, up to one above the limit.
unfoldable pub count_attempt : Quota → ℕ → Option Attempt → Attempt
count_attempt quota now none = record { attempts = 1; window_start = now }
count_attempt quota now (some row) =
    if has_expired quota now row then record { attempts = 1; window_start = now } else record {
      attempts = if leb (suc quota.limit) row.attempts then suc quota.limit else suc row.attempts;
      window_start = row.window_start;
    }

-- `retry_after` as the query rounds it up, then `retrySeconds`
unfoldable pub retry_seconds : Quota → ℕ → Attempt → ℕ
retry_seconds quota now row =
    let left = (row.window_start + micros quota - now + 999_999) / 1_000_000 in
    if ltb left 1 then 1 else if ltb quota.seconds left then quota.seconds else left

pub record Attempts : Type 0 where
  pub budget : Option Attempt
  pub accounts : Dict Attempt

-- `LoginAttemptClaim`
pub record Claim : Type 0 where
  pub username : String
  pub row : Attempt

pub data Outcome : Type 0 where
  too_many : ℕ → Outcome
  too_many_of_account : ℕ → Outcome
  admitted : Option Claim → Outcome

unfoldable pub set_account : String → Attempt → Dict Attempt → Dict Attempt
set_account key row [] = (key, row) ∷ []
set_account key row ((k, r) ∷ accounts) =
    let rest = set_account key row accounts in
    if k =ₜ key then (k, row) ∷ accounts else (k, r) ∷ rest

-- The second half: `known` is the active user of the name, `bucket` the key of an unknown one.
unfoldable pub claim_account : ℕ → Option String → String → Attempts → Outcome × Attempts
unfolding set_account
claim_account now known bucket state =
    let key = or_else known bucket in
    let row = count_attempt account_quota now (get key state.accounts) in
    let next = record state { accounts = set_account key row state.accounts } in
    if ltb account_quota.limit row.attempts
    then (too_many_of_account (retry_seconds account_quota now row), next)
    else (
      admitted (elim known [
        | none ↦ none
        | some username ↦ some (record { username = username; row = row })
      ]),
      next,
    )

unfoldable pub claim_login_attempt : ℕ → Option String → String → Attempts → Outcome × Attempts
unfolding claim_account
claim_login_attempt now known bucket state =
    let row = count_attempt global_quota now state.budget in
    let next = record state { budget = some row } in
    if ltb global_quota.limit row.attempts
    then (too_many (retry_seconds global_quota now row), next)
    else claim_account now known bucket next

-- The row is deleted only as the claim has left it.
unfoldable pub clear_successful_login_attempt : Option Claim → Attempts → Attempts
clear_successful_login_attempt none state = state
clear_successful_login_attempt (some claim) state = record state {
  accounts =
      filter
        (λ (entry : String × Attempt). not (
          (entry.0 =ₜ claim.username)
          && (entry.1.attempts == claim.row.attempts)
          && (entry.1.window_start == claim.row.window_start)))
        state.accounts;
}
