-- ===== src/Server/LoginQuota/Window.antt =====
-- What a claim does to the last window of a log.
use poker_management_system.Common.{
  ℕ, suc, ◌+◌, ◌-◌, ◌≤◌, ◌<◌, ◌≡◌, refl, Bool, true, false, not, some, List, [], ◌∷◌, leb, ltb,
  leb→le, if◌then◌else◌, arith, ◌⊎◌, inl,
}
use poker_management_system.Server.LoginQuota.{Attempt}
use poker_management_system.Server.LoginQuota.Log.{
  LoggedClaim, minute, window_of, last_window, count_passed, AllUntil, AllBefore,
  AllUntil-AllBefore, AllBefore-later, count_passed_after, count_passed_mono, count_passed_split,
}

-- The claims that passed in the minute from `w`.
abbrev pub passed_in : ℕ → List LoggedClaim → ℕ
passed_in w log = count_passed w (w + minute) log

-- The claims that passed in the minute that ends with `now`.
abbrev pub passed_lately : ℕ → List LoggedClaim → ℕ
passed_lately now log = count_passed (suc now - minute) (suc now) log

-- A claim passed exactly where fewer than 120 before it did in its window, and one that was refused
-- had 120 before it in the last minute.
abbrev pub IsDecided : LoggedClaim → List LoggedClaim → Type 0
IsDecided e log =
    (e.passed ≡ ltb (passed_in (window_of e.time (last_window log)) log) 120)
    × ((e.passed ≡ true) ⊎ (120 ≤ passed_lately e.time log))

abbrev pub AllDecided : List LoggedClaim → Type 0
AllDecided [] = Unit
AllDecided (e ∷ log) = IsDecided e log × AllDecided log

-- The row of the last window: it counts what passed, and stands at 121 once 120 have passed and one
-- has not.
pub record IsWindow (row : Attempt) (log : List LoggedClaim) : Type 0 where
  pub opens : last_window log ≡ some row.window_start
  pub before : AllBefore (row.window_start + minute) log
  pub bounded : passed_in row.window_start log ≤ 120
  pub counts :
      (row.attempts ≡ passed_in row.window_start log)
      ⊎ ((row.attempts ≡ 121) × (passed_in row.window_start log ≡ 120))
  pub recent : (t : ℕ) → row.window_start ≤ t + minute → count_passed t row.window_start log ≤ 120

-- A claim that opens a window passes.
pub opens-IsWindow :
    (now : ℕ) (log : List LoggedClaim)
    → window_of now (last_window log) ≡ now
    → AllBefore now log
    → ((t : ℕ) → now ≤ t + minute → count_passed t now log ≤ 120)
    → let e : LoggedClaim = record { time = now; passed = true } in
      IsDecided e log × IsWindow (record { attempts = 1; window_start = now }) (e ∷ log)
unfolding last_window count_passed
opens-IsWindow now log o h recent =
    let none_passed : passed_in now log ≡ 0 = count_passed_after log now (now + minute) h in
    (
      (rw o (ground (arith, none_passed)), inl refl),
      record {
        opens = rw o refl;
        before = (omega arith, AllBefore-later log now (now + minute) (omega arith) h);
        bounded = ground (arith, none_passed);
        counts = ground (arith, none_passed);
        recent = λ t l. ground (arith, recent t l);
      },
    )

-- A claim in the window of the last row.
pub counts-IsWindow :
    (now : ℕ) (row : Attempt) (log : List LoggedClaim)
    → now < row.window_start + minute
    → row.window_start ≤ now
    → AllUntil now log
    → IsWindow row log
    → let attempts = if leb 121 row.attempts then 121 else suc row.attempts in
      let e : LoggedClaim = record { time = now; passed = not (ltb 120 attempts) } in
      IsDecided e log
      × IsWindow (record { attempts = attempts; window_start = row.window_start }) (e ∷ log)
unfolding last_window count_passed
counts-IsWindow now row log l w until h =
    let lately : passed_in row.window_start log ≤ passed_lately now log =
      count_passed_mono log row.window_start (row.window_start + minute) (suc now - minute)
        (suc now) (omega arith) (AllUntil-AllBefore log now (suc now) (omega arith) until) in
    let same : window_of now (last_window log) ≡ row.window_start = rw h.opens (ground arith) in
    (
      (rw same (ground (arith, h.bounded, h.counts)), ground (arith, lately, h.bounded, h.counts)),
      record {
        opens = rw same refl;
        before = (l, h.before);
        bounded = ground (arith, h.bounded, h.counts);
        counts = ground (arith, h.bounded, h.counts);
        recent = λ t k. ground (arith, h.recent t k);
      },
    )

-- Before the last window's start at most 120 passed lately, and at most 120 since.
pub IsWindow-bounded :
    (t : ℕ) (row : Attempt) (e : LoggedClaim) (log : List LoggedClaim) (recent : Bool)
    → leb row.window_start (t + minute) ≡ recent
    → row.window_start ≤ e.time
    → IsWindow row (e ∷ log)
    → passed_in t log ≤ 240
    → passed_in t (e ∷ log) ≤ 240
unfolding count_passed
IsWindow-bounded t row e log true r w h before = omega (
  arith,
  h.bounded,
  h.recent t (leb→le row.window_start (t + minute) r),
  count_passed_split (e ∷ log) t row.window_start (t + minute) (row.window_start + minute) h.before,
)
IsWindow-bounded t row e log false r w h before = ground arith
