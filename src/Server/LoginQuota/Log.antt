-- ===== src/Server/LoginQuota/Log.antt =====
-- A log of claims on the quota of all sign-ins, newest first, and how many of them passed between
-- two times. Nothing here reads the code: the windows of the log follow from its times alone.
use poker_management_system.Common.{
  ℕ, suc, ◌+◌, ◌≤◌, ◌<◌, ◌≡◌, Bool, Option, none, some, List, [], ◌∷◌, All, leb, ltb, ◌&&◌,
  if◌then◌else◌, arith,
}

-- A minute, in microseconds.
abbrev pub minute : ℕ
minute = 60_000_000

pub record LoggedClaim : Type 0 where
  pub time : ℕ
  pub passed : Bool

-- The start of the window that a claim at `now` falls into, where the last window began at `last`.
abbrev pub window_of : ℕ → Option ℕ → ℕ
window_of now none = now
window_of now (some last) = if leb (last + minute) now then now else last

-- Where the last window of a log began.
unfoldable pub last_window : List LoggedClaim → Option ℕ
last_window [] = none
last_window (e ∷ log) = some (window_of e.time (last_window log))

-- The claims that passed at `from` or later, and before `to`.
unfoldable pub count_passed : ℕ → ℕ → List LoggedClaim → ℕ
count_passed from to [] = 0
count_passed from to (e ∷ log) =
    let rest = count_passed from to log in
    if e.passed && (leb from e.time && ltb e.time to) then suc rest else rest

abbrev pub AllUntil : ℕ → List LoggedClaim → Type 0
AllUntil now log = All (λ e. e.time ≤ now) log

abbrev pub AllBefore : ℕ → List LoggedClaim → Type 0
AllBefore to log = All (λ e. e.time < to) log

-- A window that began by `now`, where there is one.
abbrev pub BeganBy : ℕ → Option ℕ → Type 0
BeganBy now none = Unit
BeganBy now (some w) = w ≤ now

window_of-BeganBy :
    (now time : ℕ) (last : Option ℕ) → time ≤ now → BeganBy now last → window_of time last ≤ now
window_of-BeganBy now time none l h = l
window_of-BeganBy now time (some w) l h = ground arith

pub last_window-AllUntil :
    (log : List LoggedClaim) (now : ℕ) → AllUntil now log → BeganBy now (last_window log)
unfolding last_window
last_window-AllUntil [] now h = tt
last_window-AllUntil (e ∷ log) now h =
    window_of-BeganBy now e.time (last_window log) h.0 (last_window-AllUntil log now h.1)

pub AllUntil-AllBefore :
    (log : List LoggedClaim) (now to : ℕ) → now < to → AllUntil now log → AllBefore to log
AllUntil-AllBefore [] now to l h = tt
AllUntil-AllBefore (e ∷ log) now to l h = (omega arith, AllUntil-AllBefore log now to l h.1)

pub AllBefore-later :
    (log : List LoggedClaim) (from to : ℕ) → from ≤ to → AllBefore from log → AllBefore to log
AllBefore-later [] from to l h = tt
AllBefore-later (e ∷ log) from to l h = (omega arith, AllBefore-later log from to l h.1)

-- Nothing passes after the last claim.
pub count_passed_after :
    (log : List LoggedClaim) (from to : ℕ) → AllBefore from log → count_passed from to log ≡ 0
unfolding count_passed
count_passed_after [] from to h = ground arith
count_passed_after (e ∷ log) from to h = ground (arith, count_passed_after log from to h.1)

pub count_passed_mono :
    (log : List LoggedClaim) (from to from' to' : ℕ)
    → from' ≤ from
    → AllBefore to' log
    → count_passed from to log ≤ count_passed from' to' log
unfolding count_passed
count_passed_mono [] from to from' to' l h = ground arith
count_passed_mono (e ∷ log) from to from' to' l h =
    ground (arith, count_passed_mono log from to from' to' l h.1)

pub count_passed_split :
    (log : List LoggedClaim) (from mid to to' : ℕ)
    → AllBefore to' log
    → count_passed from to log ≤ count_passed from mid log + count_passed mid to' log
unfolding count_passed
count_passed_split [] from mid to to' h = ground arith
count_passed_split (e ∷ log) from mid to to' h =
    ground (arith, count_passed_split log from mid to to' h.1)
