-- ===== src/Operations/Venue/Done.antt =====
-- What a successful venue command has checked and done: `UPDATE_SETTINGS`, `COMPLETE_SETUP`,
-- `TABLE` and `UPDATE_PROFILE`.
use poker_management_system.Common.{
  ◌≡◌, refl, String, true, false, not, ◌&&◌, ◌||◌, Option, some, [], ◌∷◌, any, find, is_some,
  then_some, update_first,
}
use poker_management_system.Common.Text.{◌=ₜ◌, opt_eq, truthy}
use poker_management_system.Common.Result.{ok, Ensures, Ensures-ok, Ensures-bind}
use poker_management_system.Model.{
  Store, Staff, VenueSettings, TableRecord, Profile, admin, has_role, is_open, is_active,
  is_pending, text, json_settings, json_table, json_profile,
}
use poker_management_system.Settings.Rules.{venue_settings, table_rule_issue}
use poker_management_system.Commands.{TableCommand, UpdateProfile}
use poker_management_system.Operations.Guards.{Host, supervisors, audit}
use poker_management_system.Operations.Ensures.{passed, refuted, permitted, found}
use poker_management_system.Operations.Venue.{
  check_tables, apply_update_settings, settings_saved, apply_complete_setup, next_table, put_table,
  log_index, check_issue, apply_table, next_profile, check_new_limit, apply_update_profile,
}

module _ (host : Host) (store : Store) (actor : Staff) (time : String) where
  pub record SettingsUpdated (settings : VenueSettings) (reason : String) (store' : Store)
      : Type 0 where
    pub next : VenueSettings
    pub is_next :
        next ≡ record settings { setup_completed = (venue_settings store.settings).setup_completed }
    pub allowed : has_role (admin ∷ []) actor.role ≡ true
    pub checked : check_tables (some next) store.tables ≡ ok tt
    pub result :
        store'
        ≡ audit host 0 actor time "Updated venue settings" actor.branch_id
            (text reason)
            (some (json_settings (venue_settings store.settings)))
            (some (json_settings next))
            (record store { settings = some next })

  pub update_settings-done :
      (settings : VenueSettings) (reason : String)
      → Ensures
          (SettingsUpdated settings reason)
          (apply_update_settings host store actor time settings reason)
  unfolding apply_update_settings
  update_settings-done settings reason = Ensures-bind λ _ p. Ensures-bind λ _ q.
      Ensures-ok
        (record { next = _; is_next = refl; allowed = permitted _ _ p; checked = q; result = refl })

  pub record SetupCompleted (store' : Store) : Type 0 where
    pub allowed : has_role (admin ∷ []) actor.role ≡ true
    pub incomplete : (venue_settings store.settings).setup_completed ≡ false
    pub saved : settings_saved host store.settings ≡ true
    pub has_table : any (λ table. is_open table.status) store.tables ≡ true
    pub result :
        store'
        ≡ audit host 0 actor time "Completed venue setup" actor.branch_id
            (text "Venue, game rules, tables and staff reviewed")
            (some (text "INCOMPLETE"))
            (some (text "COMPLETE"))
            (record store {
              settings = some (record (venue_settings store.settings) { setup_completed = true });
            })

  pub complete_setup-done : Ensures SetupCompleted (apply_complete_setup host store actor time)
  unfolding apply_complete_setup
  complete_setup-done = Ensures-bind λ _ p. Ensures-bind λ _ q. Ensures-bind λ _ r.
      Ensures-bind λ _ s. Ensures-ok (record {
        allowed = permitted _ _ p;
        incomplete = refuted _ _ _ q;
        saved = passed _ _ _ r;
        has_table = passed _ _ _ s;
        result = refl;
      })

  abbrev pub old_table : TableCommand → Option TableRecord
  old_table c = find (λ value. opt_eq (some value.id) c.table_id) store.tables

  pub record TableSaved (c : TableCommand) (store' : Store) : Type 0 where
    pub allowed : has_role supervisors actor.role ≡ true
    pub known : (not (truthy c.table_id) || is_some (old_table c)) ≡ true
    pub no_players :
        (is_open c.status
          || not
              (any (λ s. opt_eq (some s.table_id) c.table_id && is_active s.status) store.sessions))
        ≡ true
    pub no_requests :
        (is_open c.status
          || not (any (λ r. opt_eq r.table_id c.table_id && is_pending r.status) store.approvals))
        ≡ true
    pub checked :
        check_issue (table_rule_issue store.settings (next_table host (old_table c) c)) ≡ ok tt
    pub result :
        store'
        ≡ audit host
            (log_index (old_table c))
            actor
            time
            "Updated table"
            (next_table host (old_table c) c).id
            (text "Table configuration")
            (then_some (old_table c) (λ t. some (json_table t)))
            (some (json_table (next_table host (old_table c) c)))
            (record store {
              tables =
                  put_table (old_table c) c.table_id (next_table host (old_table c) c) store.tables;
            })

  pub table-done : (c : TableCommand) → Ensures (TableSaved c) (apply_table host store actor time c)
  unfolding apply_table
  table-done c = Ensures-bind λ _ p. Ensures-bind λ _ q. Ensures-bind λ _ r. Ensures-bind λ _ s.
      Ensures-bind λ _ t. Ensures-ok (record {
        allowed = permitted _ _ p;
        known = passed _ _ _ q;
        no_players = passed _ _ _ r;
        no_requests = passed _ _ _ s;
        checked = t;
        result = refl;
      })

  pub record ProfileUpdated (c : UpdateProfile) (store' : Store) : Type 0 where
    pub profile : Profile
    pub allowed : has_role supervisors actor.role ≡ true
    pub known : find (λ p. p.id =ₜ c.player_id) store.profiles ≡ some profile
    pub checked : check_new_limit store profile c.credit_limit ≡ ok tt
    pub result :
        store'
        ≡ audit host 0 actor time "Updated profile" profile.id
            (text c.reason)
            (some (json_profile profile))
            (some (json_profile (next_profile profile c)))
            (record store {
              profiles =
                  update_first
                    (λ p. p.id =ₜ c.player_id)
                    (λ _. next_profile profile c)
                    store.profiles;
            })

  pub update_profile-done :
      (c : UpdateProfile)
      → Ensures (ProfileUpdated c) (apply_update_profile host store actor time c)
  unfolding apply_update_profile
  update_profile-done c = Ensures-bind λ _ p. Ensures-bind λ profile q. Ensures-bind λ _ r.
      Ensures-ok (record {
        profile = profile;
        allowed = permitted _ _ p;
        known = found _ _ q;
        checked = r;
        result = refl;
      })
