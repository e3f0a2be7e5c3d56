-- ===== src/Operations/Apply/Closing.antt =====
-- What the closing of a day establishes.
use poker_management_system.Common.{
  ◌≤◌, ◌≡◌, refl, sym, ap, subst, ◌⊎◌, String, Bool, true, false, some, List, [], ◌∷◌, ◌++◌, find,
  update_first, All, arith, last?,
}
use poker_management_system.Common.Lists.Laws.{any-none, find-holds}
use poker_management_system.Common.Int.{pos, ◌+ℤ◌, eq_of_parts, int_laws}
use poker_management_system.Common.Text.{opt_eq, js_length, trim}
use poker_management_system.Common.Result.{ok}
use poker_management_system.Model.{
  Store, Staff, Day, DayClose, Totals, closed, is_active, is_pending,
}
use poker_management_system.Ledger.Debt.{current_day}
use poker_management_system.Ledger.Totals.{totals_for_day}
use poker_management_system.Commands.{Command, close_day, CloseDay}
use poker_management_system.Commands.Schema.{parse_command, when}
use poker_management_system.Operations.Guards.{Host, audit}
use poker_management_system.Operations.Days.{new_close, close_with, update_current_day}
use poker_management_system.Operations.Days.Done.{DayClosed}
use poker_management_system.Operations.Apply.{apply_command}
use poker_management_system.Operations.Apply.Done.{Applied, day_closed, apply_command-done}

-- The write through `find` is found again, if it keeps the test.
find-update_first :
    (p : Day → Bool) (f : Day → Day) (xs : List Day) (d : Day)
    → find p xs ≡ some d
    → p (f d) ≡ true
    → find p (update_first p f xs) ≡ some (f d)
find-update_first p f [] d h k = cc
find-update_first p f (x ∷ xs) d h k = ground (arith, find-update_first p f xs d)

last?-append : (xs : List DayClose) (c : DayClose) → last? (xs ++ (c ∷ [])) ≡ some c
last?-append [] c = refl
last?-append (x ∷ []) c = refl
last?-append (x ∷ y ∷ xs) c = last?-append (y ∷ xs) c

-- A reconciled day: it is closed, and its last close states what was counted and expected, and the
-- difference, with a reason of three characters or more where there is one.
pub record Reconciled (store : Store) (c : CloseDay) (totals : Totals) (store' : Store)
    : Type 0 where
  pub day : Day
  pub close : DayClose
  pub current : current_day store' ≡ some day
  pub is_closed : day.status ≡ closed
  pub last : last? day.closes ≡ some close
  pub counted : close.counted_cash ≡ c.counted_cash
  pub expected : close.expected_cash ≡ totals.expected_cash
  pub balanced : close.expected_cash +ℤ close.variance ≡ pos c.counted_cash
  pub explained : (close.variance ≡ pos 0) ⊎ (3 ≤ js_length c.reason)
  pub nobody_playing : All (λ s. is_active s.status ≡ false) store'.sessions
  pub nothing_pending : All (λ r. is_pending r.status ≡ false) store'.approvals
  pub ledger_kept : store'.transactions ≡ store.transactions

module _ (host : Host) (store : Store) (actor : Staff) (time : String) (day : Day) (c : CloseDay)
    (store' : Store) where
  DayClosed-Reconciled :
      current_day store ≡ some day
      → (d : DayClosed host store actor time day c store') → Reconciled store c d.totals store'
  unfolding audit current_day update_current_day new_close
  DayClosed-Reconciled known d =
      let close = new_close actor time c d.totals in
      let p = λ (x : Day). opt_eq (some x.id) store.current_day_id in
      record {
        day = close_with close day;
        close = close;
        current = rw d.result (
            find-update_first p (close_with close) store.days day known
              (find-holds p store.days known));
        is_closed = refl;
        last = last?-append day.closes close;
        counted = refl;
        expected = refl;
        balanced = omega int_laws;
        explained = ground (arith, eq_of_parts close.variance (pos 0), d.explained);
        nobody_playing =
            rw d.result (any-none (λ s. is_active s.status) store.sessions d.no_players);
        nothing_pending =
            rw d.result (any-none (λ r. is_pending r.status) store.approvals d.no_requests);
        ledger_kept = ap (λ (s : Store). s.transactions) d.result;
      }

-- The close as the schema leaves it.
abbrev pub trimmed_close : CloseDay → CloseDay
trimmed_close c = record c { reason = trim c.reason }

when-some : (test : Bool) (a : Command) {b : Command} → when test a ≡ some b → a ≡ b
when-some true a h = cc
when-some false a h = cc

close_day-parse :
    (f : String → Bool) (c : CloseDay) (command : Command)
    → parse_command f (close_day c) ≡ some command
    → close_day (trimmed_close c) ≡ command
unfolding parse_command
close_day-parse f c command h = when-some _ _ h

module _ (host : Host) (store : Store) (actor : Staff) (time : String) (store' : Store) where
  abbrev Closes : CloseDay → Type 0
  Closes c =
      (totals : Totals) × (totals_for_day store store.current_day_id ≡ ok totals)
      × Reconciled store c totals store'

  applied-Closes : (c : CloseDay) → Applied host store actor time store' (close_day c) → Closes c
  applied-Closes c (day_closed day c' o d) =
      (d.totals, d.totalled, DayClosed-Reconciled host store actor time day c store' o.current d)

-- A day that is closed is reconciled against the totals of the day before the command: see
-- `Reconciled`. Nobody is playing, nothing is pending, and the ledger is as it was.
pub close_day-Reconciled :
    (host : Host) (store : Store) (c : CloseDay) (actor : Staff) (time : String) {store' : Store}
    → apply_command host store (close_day c) actor time ≡ ok store'
    → (totals : Totals) × (totals_for_day store store.current_day_id ≡ ok totals)
      × Reconciled store (trimmed_close c) totals store'
close_day-Reconciled host store c actor time {store'} h =
    let s = (apply_command-done host store actor time (close_day c)).at h in
    applied-Closes host store actor time store' (trimmed_close c) (
      subst (Applied host store actor time store')
        (sym (close_day-parse host.is_timezone c s.command s.parsed)) s.done)
