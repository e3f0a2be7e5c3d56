-- ===== src/Server/LoginQuota/Bounds.antt =====
-- What passes the quota of all sign-ins, by the times of the claims alone.
use poker_management_system.Common.{
  ℕ, suc, ◌+◌, ◌≤◌, ◌≡◌, refl, subst, String, Bool, true, false, not, Option, none, some, List, [],
  ◌∷◌, leb, ltb, if◌then◌else◌, arith,
}
use poker_management_system.Server.LoginQuota.{
  Attempt, Attempts, Outcome, Claim, too_many, too_many_of_account, admitted, global_quota,
  count_attempt, claim_account, claim_login_attempt, clear_successful_login_attempt,
}
use poker_management_system.Server.LoginQuota.Log.{
  LoggedClaim, minute, last_window, count_passed, AllUntil, BeganBy, last_window-AllUntil,
  AllBefore-later, count_passed_mono,
}
use poker_management_system.Server.LoginQuota.Window.{
  passed_in, IsDecided, AllDecided, IsWindow, opens-IsWindow, counts-IsWindow, IsWindow-bounded,
}

-- A claim passes the quota of all sign-ins, whatever the quota of the account then says.
abbrev pub passes : Outcome → Bool
passes (too_many seconds) = false
passes (too_many_of_account seconds) = true
passes (admitted claim) = true

-- The states that claims and cleared claims reach, with the log of the claims. The clock does not
-- go back.
pub data Reached : Attempts → List LoggedClaim → Type 0 where
  start : Reached (record { budget = none; accounts = [] }) []
  claims :
      {state : Attempts} {log : List LoggedClaim} (now : ℕ) (known : Option String)
      (bucket : String)
      → AllUntil now log
      → Reached state log
      → Reached (claim_login_attempt now known bucket state).1 (
          record { time = now; passed = passes (claim_login_attempt now known bucket state).0 }
          ∷ log)
  clears :
      {state : Attempts} {log : List LoggedClaim} (claim : Option Claim)
      → Reached state log
      → Reached (clear_successful_login_attempt claim state) log

abbrev Tracks : Option Attempt → List LoggedClaim → Type 0
Tracks none log = log ≡ []
Tracks (some row) log = IsWindow row log

passes-account :
    (now : ℕ) (known : Option String) (bucket : String) (state : Attempts)
    → (passes (claim_account now known bucket state).0 ≡ true)
      × ((claim_account now known bucket state).1.budget ≡ state.budget)
unfolding claim_account
passes-account now known bucket state = ground arith

-- Refused, with a count of its own, or passed on.
refused_or_passed :
    (t : Bool) (seconds : ℕ) (row : Attempt) (next : Attempts) (rest : Outcome × Attempts)
    → next.budget ≡ some row
    → passes rest.0 ≡ true
    → rest.1.budget ≡ some row
    → ((if t then (too_many seconds, next) else rest).1.budget ≡ some row)
      × (passes (if t then (too_many seconds, next) else rest).0 ≡ not t)
refused_or_passed true seconds row next rest n p b = (n, refl)
refused_or_passed false seconds row next rest n p b = (b, p)

claim-budget :
    (now : ℕ) (known : Option String) (bucket : String) (state : Attempts)
    → ((claim_login_attempt now known bucket state).1.budget
        ≡ some (count_attempt global_quota now state.budget))
      × (passes (claim_login_attempt now known bucket state).0
          ≡ not (ltb 120 (count_attempt global_quota now state.budget).attempts))
unfolding claim_login_attempt
claim-budget now known bucket state =
    let row = count_attempt global_quota now state.budget in
    let next : Attempts = record state { budget = some row } in
    let (p, b) = passes-account now known bucket next in
    refused_or_passed (ltb 120 row.attempts) _ row next (claim_account now known bucket next) refl p
      b

-- Whether a new window starts or the last one goes on.
count_attempt_row :
    (now : ℕ) (row : Attempt) (log : List LoggedClaim) (expired : Bool)
    → leb (row.window_start + minute) now ≡ expired
    → AllUntil now log
    → IsWindow row log
    → let next : Attempt = if expired then record { attempts = 1; window_start = now } else record {
      attempts = if leb 121 row.attempts then 121 else suc row.attempts;
      window_start = row.window_start;
    } in
      let e : LoggedClaim = record { time = now; passed = not (ltb 120 next.attempts) } in
      IsDecided e log × IsWindow next (e ∷ log)
count_attempt_row now row log true t until h =
    opens-IsWindow now log (rw h.opens (ground arith))
      (AllBefore-later log (row.window_start + minute) now (ground arith) h.before)
      (λ s l. omega (
        arith,
        h.bounded,
        count_passed_mono log s now row.window_start (row.window_start + minute) (ground arith)
            h.before,
      ))
count_attempt_row now row log false t until h =
    let w : row.window_start ≤ now =
      subst (BeganBy now) h.opens (last_window-AllUntil log now until) in
    counts-IsWindow now row log (ground arith) w until h

count_attempt-Tracks :
    (now : ℕ) (budget : Option Attempt) (log : List LoggedClaim)
    → AllUntil now log
    → Tracks budget log
    → let row = count_attempt global_quota now budget in
      let e : LoggedClaim = record { time = now; passed = not (ltb 120 row.attempts) } in
      IsDecided e log × IsWindow row (e ∷ log)
unfolding count_attempt last_window count_passed
count_attempt-Tracks now none log until h =
    rw h (opens-IsWindow now [] refl tt (λ t l. omega arith))
count_attempt-Tracks now (some row) log until h = count_attempt_row now row log _ refl until h

clear-budget :
    (claim : Option Claim) (state : Attempts)
    → (clear_successful_login_attempt claim state).budget ≡ state.budget
unfolding clear_successful_login_attempt
clear-budget none state = refl
clear-budget (some claim) state = refl

claims-Tracks :
    (now : ℕ) (known : Option String) (bucket : String) (state : Attempts) (log : List LoggedClaim)
    → AllUntil now log
    → Tracks state.budget log
    → let (outcome, next) = claim_login_attempt now known bucket state in
      let e : LoggedClaim = record { time = now; passed = passes outcome } in
      IsDecided e log
      × (next.budget ≡ some (count_attempt global_quota now state.budget))
      × IsWindow (count_attempt global_quota now state.budget) (e ∷ log)
claims-Tracks now known bucket state log until h =
    let (b, p) = claim-budget now known bucket state in
    let (d, w) = count_attempt-Tracks now state.budget log until h in rw p (d, b, w)

Reached-Tracks :
    {state : Attempts} {log : List LoggedClaim} → Reached state log → Tracks state.budget log
Reached-Tracks start = refl
Reached-Tracks (claims {state} {log} now known bucket until r) =
    let (d, b, w) = claims-Tracks now known bucket state log until (Reached-Tracks r) in rw b w
Reached-Tracks (clears {state} claim r) = rw (clear-budget claim state) (Reached-Tracks r)

-- The quota of all sign-ins, in every state that claims and cleared claims reach while the clock does
-- not go back; a claim passes it also where the quota of its account then refuses it. A window starts
-- with the first claim, and with the first claim a minute or more after the start of the last one; a
-- claim passes exactly where fewer than 120 before it passed in its window. So a claim is refused
-- only where 120 passed in the last minute, and at most 240 pass in any minute, from any time.
pub Reached-IsLimited :
    {state : Attempts} {log : List LoggedClaim} (t : ℕ)
    → Reached state log
    → AllDecided log × (passed_in t log ≤ 240)
unfolding count_passed
Reached-IsLimited t start = (tt, omega arith)
Reached-IsLimited t (claims {state} {log} now known bucket until r) =
    let (decided, bounded) = Reached-IsLimited t r in
    let row = count_attempt global_quota now state.budget in
    let (d, b, h) = claims-Tracks now known bucket state log until (Reached-Tracks r) in
    (
      (d, decided),
      IsWindow-bounded t row _ log _ refl
          (subst (BeganBy now) h.opens (last_window-AllUntil (_ ∷ log) now (omega arith, until))) h
          bounded,
    )
Reached-IsLimited t (clears claim r) = Reached-IsLimited t r
