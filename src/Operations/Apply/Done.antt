-- ===== src/Operations/Apply/Done.antt =====
-- What a successful command has checked and done, for the thirteen kinds.
use poker_management_system.Common.{ℕ, ◌≡◌, String, true, some}
use poker_management_system.Common.Result.{Result, Ensures, Ensures-bind}
use poker_management_system.Model.{Store, Staff, Day, VenueSettings, is_open}
use poker_management_system.Settings.Rules.{venue_settings}
use poker_management_system.Ledger.Debt.{current_day}
use poker_management_system.Commands.{
  Command, update_settings, complete_setup, check_in, update_profile, move, swap_seats, table,
  request, correct, decide, open_day, close_day, reopen_day, CheckIn, Move, SeatSwapParticipant,
  TableCommand, UpdateProfile, RequestCommand, Decide, CloseDay,
}
use poker_management_system.Commands.Schema.{parse_command}
use poker_management_system.Operations.Guards.{Host}
use poker_management_system.Operations.Ensures.{passed, found}
use poker_management_system.Operations.Venue.Done as V
use poker_management_system.Operations.Seating.Done as S
use poker_management_system.Operations.Approvals.Done as A
use poker_management_system.Operations.Days.Done as D
use poker_management_system.Operations.Apply.{apply_in_day, apply_parsed, apply_command}

-- The current day exists and is open.
pub record InDay (store : Store) (day : Day) : Type 0 where
  pub current : current_day store ≡ some day
  pub in_progress : is_open day.status ≡ true

module _ (host : Host) (store : Store) (actor : Staff) (time : String) where
  pub data Applied (store' : Store) : Command → Type 0 where
    settings_updated :
        (settings : VenueSettings) (reason : String)
        → V.SettingsUpdated host store actor time settings reason store'
        → Applied store' (update_settings settings reason)
    setup_completed : V.SetupCompleted host store actor time store' → Applied store' complete_setup
    table_saved :
        (c : TableCommand) → V.TableSaved host store actor time c store' → Applied store' (table c)
    profile_updated :
        (c : UpdateProfile)
        → V.ProfileUpdated host store actor time c store'
        → Applied store' (update_profile c)
    day_opened :
        (date : String) (cash : ℕ)
        → D.DayOpened host store actor time
            (current_day store)
            (venue_settings store.settings)
            date
            cash
            store'
        → Applied store' (open_day date cash)
    day_reopened :
        (day : Day) (reason : String)
        → current_day store ≡ some day
        → D.DayReopened host store actor time day reason store'
        → Applied store' (reopen_day reason)
    checked_in :
        (day : Day) (c : CheckIn)
        → InDay store day
        → S.CheckedIn host store actor time day c store'
        → Applied store' (check_in c)
    moved :
        (day : Day) (c : Move)
        → InDay store day
        → S.Moved host store actor time c store'
        → Applied store' (move c)
    swapped :
        (day : Day) (first second : SeatSwapParticipant)
        → InDay store day
        → S.Swapped host store actor time day first second store'
        → Applied store' (swap_seats first second)
    requested :
        (day : Day) (c : RequestCommand)
        → InDay store day
        → A.Requested host store actor time day (venue_settings store.settings) c store'
        → Applied store' (request c)
    corrected :
        (day : Day) (id reason : String)
        → InDay store day
        → A.Corrected host store actor time day id reason store'
        → Applied store' (correct id reason)
    decided :
        (day : Day) (c : Decide)
        → InDay store day
        → A.Decided host store actor time day c store'
        → Applied store' (decide c)
    day_closed :
        (day : Day) (c : CloseDay)
        → InDay store day
        → D.DayClosed host store actor time day c store'
        → Applied store' (close_day c)

  abbrev Does : Command → Result Store → Type 0
  Does command r = Ensures (λ store'. Applied store' command) r

  abbrev DoesIn : Day → Command → Type 0
  DoesIn day command =
      InDay store day
      → Does command
          (apply_in_day host store day (venue_settings store.settings) actor time command)

  check_in-done : (c : CheckIn) (day : Day) → DoesIn day (check_in c)
  unfolding apply_in_day
  check_in-done c day o = record {
    at = λ h. checked_in day c o ((S.check_in-done host store actor time day _ c).at h);
  }

  move-done : (c : Move) (day : Day) → DoesIn day (move c)
  unfolding apply_in_day
  move-done c day o = record {
    at = λ h. moved day c o ((S.move-done host store actor time c).at h);
  }

  swap_seats-done :
      (first second : SeatSwapParticipant) (day : Day) → DoesIn day (swap_seats first second)
  unfolding apply_in_day
  swap_seats-done first second day o = record {
    at = λ h.
        swapped day first second o
          ((S.swap_seats-done host store actor time day first second).at h);
  }

  request-done : (c : RequestCommand) (day : Day) → DoesIn day (request c)
  unfolding apply_in_day
  request-done c day o = record {
    at = λ h. requested day c o ((A.request-done host store actor time day _ c).at h);
  }

  correct-done : (id reason : String) (day : Day) → DoesIn day (correct id reason)
  unfolding apply_in_day
  correct-done id reason day o = record {
    at = λ h. corrected day id reason o ((A.correct-done host store actor time day id reason).at h);
  }

  decide-done : (c : Decide) (day : Day) → DoesIn day (decide c)
  unfolding apply_in_day
  decide-done c day o = record {
    at = λ h. decided day c o ((A.decide-done host store actor time day c).at h);
  }

  close_day-done : (c : CloseDay) (day : Day) → DoesIn day (close_day c)
  unfolding apply_in_day
  close_day-done c day o = record {
    at = λ h. day_closed day c o ((D.close_day-done host store actor time day c).at h);
  }

  parsed-done : (command : Command) → Does command (apply_parsed host store actor time command)
  unfolding apply_parsed
  parsed-done (update_settings s r) = record {
    at = λ h. settings_updated s r ((V.update_settings-done host store actor time s r).at h);
  }
  parsed-done complete_setup = record {
    at = λ h. setup_completed ((V.complete_setup-done host store actor time).at h);
  }
  parsed-done (table c) = record {
    at = λ h. table_saved c ((V.table-done host store actor time c).at h);
  }
  parsed-done (update_profile c) = record {
    at = λ h. profile_updated c ((V.update_profile-done host store actor time c).at h);
  }
  parsed-done (open_day date cash) = record {
    at = λ h. day_opened date cash ((D.open_day-done host store actor time _ _ date cash).at h);
  }
  parsed-done (reopen_day r) = Ensures-bind λ day p. record {
    at = λ h.
        day_reopened day r (found _ _ p) ((D.reopen_day-done host store actor time day r).at h);
  }
  parsed-done (check_in c) = Ensures-bind λ day p.
      Ensures-bind
        λ _ q. check_in-done c day (record { current = found _ _ p; in_progress = passed _ _ _ q })
  parsed-done (move c) = Ensures-bind λ day p.
      Ensures-bind
        λ _ q. move-done c day (record { current = found _ _ p; in_progress = passed _ _ _ q })
  parsed-done (swap_seats f s) = Ensures-bind λ day p. Ensures-bind λ _ q.
      swap_seats-done f s day (record { current = found _ _ p; in_progress = passed _ _ _ q })
  parsed-done (request c) = Ensures-bind λ day p.
      Ensures-bind
        λ _ q. request-done c day (record { current = found _ _ p; in_progress = passed _ _ _ q })
  parsed-done (correct id r) = Ensures-bind λ day p.
      Ensures-bind λ _ q.
        correct-done id r day (record { current = found _ _ p; in_progress = passed _ _ _ q })
  parsed-done (decide c) = Ensures-bind λ day p.
      Ensures-bind
        λ _ q. decide-done c day (record { current = found _ _ p; in_progress = passed _ _ _ q })
  parsed-done (close_day c) = Ensures-bind λ day p.
      Ensures-bind
        λ _ q. close_day-done c day (record { current = found _ _ p; in_progress = passed _ _ _ q })

  -- The command as the schema leaves it, and what it has done.
  pub record Success (input : Command) (store' : Store) : Type 0 where
    pub command : Command
    pub parsed : parse_command host.is_timezone input ≡ some command
    pub done : Applied store' command

  pub apply_command-done :
      (input : Command) → Ensures (Success input) (apply_command host store input actor time)
  unfolding apply_command
  apply_command-done input = Ensures-bind λ command p. record {
    at = λ h. record { command = command; parsed = found _ _ p; done = (parsed-done command).at h };
  }
