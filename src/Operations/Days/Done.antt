-- ===== src/Operations/Days/Done.antt =====
-- What a successful day command has checked and done: `OPEN_DAY`, `REOPEN_DAY` and `CLOSE_DAY`.
use poker_management_system.Common.{
  ℕ, ◌≡◌, refl, String, true, false, not, ◌||◌, Option, none, some, [], ◌∷◌, ◌++◌, any, holds, leb,
}
use poker_management_system.Common.Int.{pos, eq_ℤ}
use poker_management_system.Common.Text.{opt_eq, truthy, less, js_length}
use poker_management_system.Common.Decimal.{decimal}
use poker_management_system.Common.Result.{ok, Ensures, Ensures-ok, Ensures-bind}
use poker_management_system.Model.{
  Store, Staff, Day, VenueSettings, Totals, admin, has_role, opened, is_open, is_active, is_pending,
  text, json_close,
}
use poker_management_system.Ledger.Totals.{totals_for_day}
use poker_management_system.Commands.{CloseDay}
use poker_management_system.Operations.Guards.{Host, supervisors, audit}
use poker_management_system.Operations.Calendar.{is_business_date}
use poker_management_system.Operations.Ensures.{passed, refuted, permitted}
use poker_management_system.Operations.Days.{
  new_day, apply_open_day, update_current_day, apply_reopen_day, new_close, close_with, or_text,
  apply_close_day,
}

module _ (host : Host) (store : Store) (actor : Staff) (time : String) where
  pub record DayOpened (day : Option Day) (settings : VenueSettings) (date : String) (cash : ℕ)
      (store' : Store) : Type 0 where
    pub allowed : has_role supervisors actor.role ≡ true
    pub ready : settings.setup_completed ≡ true
    pub none_open : holds (λ d. is_open d.status) day ≡ false
    pub is_date : is_business_date date ≡ true
    pub follows : any (λ value. not (less value.date date)) store.days ≡ false
    pub result :
        store'
        ≡ audit host 1 actor time "Opened day"
            (new_day host time date cash).id
            (text date)
            none
            (some (text (decimal cash)))
            (record store {
              days = store.days ++ (new_day host time date cash ∷ []);
              current_day_id = some (new_day host time date cash).id;
            })

  pub open_day-done :
      (day : Option Day) (settings : VenueSettings) (date : String) (cash : ℕ)
      → Ensures
          (DayOpened day settings date cash)
          (apply_open_day host store day settings actor time date cash)
  unfolding apply_open_day
  open_day-done day settings date cash = Ensures-bind λ _ p. Ensures-bind λ _ q. Ensures-bind λ _ r.
      Ensures-bind λ _ s. Ensures-bind λ _ t. Ensures-ok (record {
        allowed = permitted _ _ p;
        ready = passed _ _ _ q;
        none_open = refuted _ _ _ r;
        is_date = passed _ _ _ s;
        follows = refuted _ _ _ t;
        result = refl;
      })

  pub record DayReopened (day : Day) (reason : String) (store' : Store) : Type 0 where
    pub allowed : has_role (admin ∷ []) actor.role ≡ true
    pub was_closed : is_open day.status ≡ false
    pub result :
        store'
        ≡ audit host 0 actor time "Reopened day" day.id
            (text reason)
            (some (text "CLOSED"))
            (some (text "OPEN"))
            (record store { days = update_current_day store (λ d. record d { status = opened }) })

  pub reopen_day-done :
      (day : Day) (reason : String)
      → Ensures (DayReopened day reason) (apply_reopen_day host store day actor time reason)
  unfolding apply_reopen_day
  reopen_day-done day reason = Ensures-bind λ _ p. Ensures-bind λ _ q.
      Ensures-ok (record { allowed = permitted _ _ p; was_closed = refuted _ _ _ q; result = refl })

  pub record DayClosed (day : Day) (c : CloseDay) (store' : Store) : Type 0 where
    pub totals : Totals
    pub allowed : has_role supervisors actor.role ≡ true
    pub same_day : (not (truthy c.day_id) || opt_eq c.day_id (some day.id)) ≡ true
    pub no_players : any (λ s. is_active s.status) store.sessions ≡ false
    pub no_requests : any (λ r. is_pending r.status) store.approvals ≡ false
    pub totalled : totals_for_day store store.current_day_id ≡ ok totals
    pub explained :
        (eq_ℤ (new_close actor time c totals).variance (pos 0) || leb 3 (js_length c.reason)) ≡ true
    pub result :
        store'
        ≡ audit host 0 actor time "Closed day" day.id
            (text (or_text c.reason "Cash reconciled"))
            (some (text "OPEN"))
            (some (json_close (some (new_close actor time c totals))))
            (record store {
              days = update_current_day store (close_with (new_close actor time c totals));
            })

  pub close_day-done :
      (day : Day) (c : CloseDay)
      → Ensures (DayClosed day c) (apply_close_day host store day actor time c)
  unfolding apply_close_day
  close_day-done day c = Ensures-bind λ _ p. Ensures-bind λ _ q. Ensures-bind λ _ r.
      Ensures-bind λ _ s. Ensures-bind λ totals t. Ensures-bind λ _ u. Ensures-ok (record {
        totals = totals;
        allowed = permitted _ _ p;
        same_day = passed _ _ _ q;
        no_players = refuted _ _ _ r;
        no_requests = refuted _ _ _ s;
        totalled = t;
        explained = passed _ _ _ u;
        result = refl;
      })
