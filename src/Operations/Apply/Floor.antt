-- ===== src/Operations/Apply/Floor.antt =====
-- Whoever is playing sits at an open table.
pub mod Seats
use poker_management_system.Common.{
  ℕ, ◌≡◌, refl, sym, ap, subst, ◌∙◌, ◌⊎◌, inl, inr, String, Bool, true, false, not, ◌&&◌, ◌||◌,
  Option, none, some, List, [], ◌∷◌, ◌++◌, any, find, update_first, All, arith, if◌then◌else◌,
  Bool-cases,
}
use poker_management_system.Common.Lists.Laws.{
  All-append, All-find, All-map, All-update_first, update_first-none, find-holds, any-none,
}
use poker_management_system.Common.Text.Laws.{opt_eq-eq}
use poker_management_system.Common.Text.{◌=ₜ◌, opt_eq}
use text.Mathlib.TextEquality.{eq_iff}
use poker_management_system.Common.Result.{
  Result, ok, ◌>>=◌, ◌>>◌, Ensures, Ensures-ok, Ensures-bind,
}
use poker_management_system.Model.{
  Store, Staff, Day, Session, TableRecord, Transaction, TxType, entry, reversal, EntryType, buy_in,
  cash_out, ApprovalRequest, is_active, is_open, is_entry, active, out,
}
use poker_management_system.Commands.{Command, Decide, TableCommand, SeatSwapParticipant}
use poker_management_system.Ledger.Impact.{transaction_of}
use poker_management_system.Operations.Guards.{Host, audit, has_open_table}
use poker_management_system.Operations.Ensures.{passed, found}
use poker_management_system.Operations.Entry.{
  session_of, validate_entry, check_visit, posted_sessions, end_visit, reopen_visit, post_entry,
}
use poker_management_system.Operations.Entry.Done.{validate_reversal-done, post_entry-done}
use poker_management_system.Operations.Venue.{next_table, put_table}
use poker_management_system.Operations.Venue.Done as V
use poker_management_system.Operations.Seating.{
  new_session, sit_at, is_seated, swap_sessions, swap_audit,
}
use poker_management_system.Operations.Seating.Done.{SeatFree, ensure_seat-SeatFree}
use poker_management_system.Operations.Approvals.{voted, put_request}
use poker_management_system.Operations.Approvals.Done as A
use poker_management_system.Operations.Approvals.Done.{refused, waiting, posted}
use poker_management_system.Operations.Apply.{apply_command}
use poker_management_system.Operations.Apply.Done.{
  Applied, settings_updated, setup_completed, table_saved, profile_updated, day_opened,
  day_reopened, checked_in, moved, swapped, requested, corrected, decided, day_closed,
  apply_command-done,
}
use poker_management_system.Operations.Apply.Floor.Seats.{
  AtOpenTable, AllAtOpenTables, update-AtOpenTable, posted_sessions-AtOpenTable, saved-AtOpenTable,
}

module _ (host : Host) (store : Store) (actor : Staff) (time : String) where
  same :
      {store' next : Store}
      → store' ≡ next
      → next.sessions ≡ store.sessions
      → next.tables ≡ store.tables
      → AllAtOpenTables store
      → AllAtOpenTables store'
  same e m t all = rw e (rw (m, t) all)

  outcome-AllAtOpenTables :
      (c : Decide) (r : ApprovalRequest) (store' : Store)
      → AllAtOpenTables store
      → A.Outcome host store actor time c r store'
      → AllAtOpenTables store'
  unfolding audit put_request voted
  outcome-AllAtOpenTables c r store' all (refused q e) = same e refl refl all
  outcome-AllAtOpenTables c r store' all (waiting v q e) = same e refl refl all
  outcome-AllAtOpenTables c r store' all (posted ledger v full q e) =
      let d = (post_entry-done host 0 store (voted actor time r) time).at q in
      let seats = ap (λ (s : Store). s.sessions) d.result in
      let tables = ap (λ (s : Store). s.tables) d.result in
      rw e (rw (seats, tables) (posted_sessions-AtOpenTable store r time all r.type refl v))

  Applied-AllAtOpenTables :
      (store' : Store) (command : Command)
      → Applied host store actor time store' command
      → AllAtOpenTables store
      → AllAtOpenTables store'
  unfolding audit swap_audit new_session swap_sessions
  Applied-AllAtOpenTables store' command (settings_updated c r d) all = same d.result refl refl all
  Applied-AllAtOpenTables store' command (setup_completed d) all = same d.result refl refl all
  Applied-AllAtOpenTables store' command (table_saved c d) all =
      rw d.result (saved-AtOpenTable host store actor time c store.sessions d.no_players all)
  Applied-AllAtOpenTables store' command (profile_updated c d) all = same d.result refl refl all
  Applied-AllAtOpenTables store' command (day_opened date cash d) all = same d.result refl refl all
  Applied-AllAtOpenTables store' command (day_reopened day r q d) all = same d.result refl refl all
  Applied-AllAtOpenTables store' command (checked_in day c o d) all =
      rw d.result (All-append (AtOpenTable store.tables) store.sessions all (inr d.free.table_open))
  Applied-AllAtOpenTables store' command (moved day c o d) all = rw d.result (
      update-AtOpenTable store.tables _ (sit_at c.table_id c.seat) store.sessions
        (λ s. inr d.free.table_open) all)
  Applied-AllAtOpenTables store' command (swapped day f g o d) all =
      let both = d.tables_open in
      let first_open : has_open_table store.tables f.table_id ≡ true = ground arith in
      let second_open : has_open_table store.tables g.table_id ≡ true = ground arith in
      rw d.result (
        update-AtOpenTable store.tables (is_seated day g) (sit_at f.table_id f.seat) _
          (λ s. inr first_open)
          (update-AtOpenTable store.tables (is_seated day f) (sit_at g.table_id g.seat)
            store.sessions (λ s. inr second_open) all))
  Applied-AllAtOpenTables store' command (requested day c o d) all = same d.result refl refl all
  Applied-AllAtOpenTables store' command (corrected day id r o d) all = same d.result refl refl all
  Applied-AllAtOpenTables store' command (decided day c o d) all =
      outcome-AllAtOpenTables c d.request store' all d.outcome
  Applied-AllAtOpenTables store' command (day_closed day c o d) all = same d.result refl refl all

-- Whoever is playing sits at an open table: if it is so for every session, then also after every
-- successful command, be it a check-in, a move, a swap, a change of a table, a cash-out or the
-- reversal of one.
pub apply_command-AllAtOpenTables :
    (host : Host) (store : Store) (input : Command) (actor : Staff) (time : String) {store' : Store}
    → apply_command host store input actor time ≡ ok store'
    → AllAtOpenTables store
    → AllAtOpenTables store'
apply_command-AllAtOpenTables host store input actor time h all =
    Applied-AllAtOpenTables host store actor time _ _
      ((apply_command-done host store actor time input).at h).done all
