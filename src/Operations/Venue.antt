-- ===== src/Operations/Venue.antt =====
-- `UPDATE_SETTINGS`, `COMPLETE_SETUP`, `TABLE` and `UPDATE_PROFILE` in `applyCommand` of
-- src/domain/operations.ts, lines 168 to 214 and 257 to 338.
pub mod Done
use Prim.Native.String.{◌++◌ as text_append}
use poker_management_system.Common.{
  ℕ, String, Bool, true, false, not, ◌&&◌, ◌||◌, Option, none, some, List, [], ◌∷◌, ◌++◌, any, find,
  holds, is_some, or_else, then_some, update_first, if◌then◌else◌,
}
use poker_management_system.Common.Int.{ℤ, pos, ◌+ℤ◌, leb_ℤ}
use poker_management_system.Common.Text.{◌=ₜ◌, opt_eq, truthy}
use poker_management_system.Common.Result.{Result, ok, err, ◌>>=◌, ◌>>◌}
use poker_management_system.Model.{
  Store, Staff, VenueSettings, TableRecord, Profile, PlayerTag, tag_eq, admin, is_open, is_active,
  is_pending, is_credit, AuditText, text, json_settings, json_table, json_profile,
}
use poker_management_system.Settings.Rules.{venue_settings, table_rule_issue}
use poker_management_system.Settings.Schema.{parse_settings}
use poker_management_system.Ledger.Debt.{debt, reserved_credit}
use poker_management_system.Commands.{TableCommand, UpdateProfile}
use poker_management_system.Operations.Guards.{
  Host, require_that, require_some, permit, supervisors, uid, audit,
}

-- `for (const table of store.tables) requireThat(!issue, ...)`
unfoldable pub check_tables : Option VenueSettings → List TableRecord → Result (Unit {0})
check_tables settings [] = ok tt
check_tables settings (table ∷ tables) =
    let rest = check_tables settings tables in
    elim (table_rule_issue settings table) [
      | none ↦ rest
      | some issue ↦
          require_that false
            (text_append "Table " (text_append table.name (text_append ": " issue)))
    ]

unfoldable pub apply_update_settings :
    Host → Store → Staff → String → VenueSettings → String → Result Store
apply_update_settings host store actor time settings reason = do
  let before = venue_settings store.settings
  permit actor (admin ∷ [])
  let next = record settings { setup_completed = before.setup_completed }
  check_tables (some next) store.tables
  ok (
      audit host 0 actor time "Updated venue settings" actor.branch_id (text reason)
        (some (json_settings before)) (some (json_settings next))
        (record store { settings = some next }))

-- `store.settings && settingsSchema.safeParse(store.settings).success`
unfoldable pub settings_saved : Host → Option VenueSettings → Bool
settings_saved host settings = holds (λ s. is_some (parse_settings host.is_timezone s)) settings

unfoldable pub apply_complete_setup : Host → Store → Staff → String → Result Store
unfolding settings_saved
apply_complete_setup host store actor time = do
  let settings = venue_settings store.settings
  permit actor (admin ∷ [])
  require_that (not settings.setup_completed) "Venue setup is already complete."
  require_that (settings_saved host store.settings)
      "Save valid venue and game settings before completing setup."
  require_that (any (λ table. is_open table.status) store.tables)
      "Create at least one open table before completing setup."
  ok (
      audit host 0 actor time "Completed venue setup" actor.branch_id
        (text "Venue, game rules, tables and staff reviewed") (some (text "INCOMPLETE"))
        (some (text "COMPLETE"))
        (record store { settings = some (record settings { setup_completed = true }) }))

-- A rule of the table: undefined keeps it, null deletes it.
abbrev patch : {A : Type 0} → Option (Option A) → Option A → Option A
patch none old = old
patch (some new) old = new

abbrev table_rule : {A : Type 0} → Option TableRecord → (TableRecord → Option A) → Option A
table_rule table f = then_some table f

-- `next`
unfoldable pub next_table : Host → Option TableRecord → TableCommand → TableRecord
next_table host table c = record {
  id = or_else (then_some table (λ t. some t.id)) (uid host "T" 0);
  name = c.name;
  status = c.status;
  dealer = c.dealer;
  small_blind = patch c.small_blind (table_rule table (λ t. t.small_blind));
  big_blind = patch c.big_blind (table_rule table (λ t. t.big_blind));
  min_buy_in = patch c.min_buy_in (table_rule table (λ t. t.min_buy_in));
  max_buy_in = patch c.max_buy_in (table_rule table (λ t. t.max_buy_in));
  buy_in_step = patch c.buy_in_step (table_rule table (λ t. t.buy_in_step));
}

-- `store.tables[store.tables.indexOf(table)] = next`, or `store.tables.push(next)`
unfoldable pub put_table :
    Option TableRecord → Option String → TableRecord → List TableRecord → List TableRecord
put_table none id next tables = tables ++ (next ∷ [])
put_table (some table) id next tables = update_first (λ t. opt_eq (some t.id) id) (λ _. next) tables

-- The k-th random id is the log's: a new table has taken the first.
abbrev log_index : {A : Type 0} → Option A → ℕ
log_index none = 1
log_index (some a) = 0

unfoldable pub check_issue : Option String → Result (Unit {0})
check_issue none = ok tt
check_issue (some issue) = require_that false issue

unfoldable pub apply_table : Host → Store → Staff → String → TableCommand → Result Store
unfolding next_table put_table
apply_table host store actor time c = do
  permit actor supervisors
  let table = find (λ value. opt_eq (some value.id) c.table_id) store.tables
  require_that (not (truthy c.table_id) || is_some table) "Table not found."
  require_that
      (is_open c.status
        || not
            (any (λ s. opt_eq (some s.table_id) c.table_id && is_active s.status) store.sessions))
      "Move or check out all players before closing this table."
  require_that
      (is_open c.status
        || not (any (λ r. opt_eq r.table_id c.table_id && is_pending r.status) store.approvals))
      "Resolve this table's pending approvals first."
  let next = next_table host table c
  check_issue (table_rule_issue store.settings next)
  ok (
      audit host (log_index table) actor time "Updated table" next.id (text "Table configuration")
        (then_some table (λ t. some (json_table t))) (some (json_table next))
        (record store { tables = put_table table c.table_id next store.tables }))

-- `[...new Set(tags)]`: the first of each tag, in order
unfoldable pub distinct_tags_after : List PlayerTag → List PlayerTag → List PlayerTag
distinct_tags_after seen [] = []
distinct_tags_after seen (t ∷ ts) =
    let skipped = distinct_tags_after seen ts in
    let kept = distinct_tags_after (t ∷ seen) ts in
    if any (tag_eq t) seen then skipped else t ∷ kept

unfoldable pub distinct_tags : List PlayerTag → List PlayerTag
unfolding distinct_tags_after
distinct_tags tags = distinct_tags_after [] tags

unfoldable pub next_profile : Profile → UpdateProfile → Profile
next_profile profile c = record profile {
  name = c.name;
  tags = distinct_tags c.tags;
  credit_limit = if is_credit profile.type then c.credit_limit else 0;
}

-- `profile.type !== "CREDIT" || command.creditLimit >= debt + pendingCredit`
unfoldable pub check_new_limit : Store → Profile → ℕ → Result (Unit {0})
check_new_limit store profile limit =
    if is_credit profile.type
    then (do
      owed ← debt store profile.id
      require_that (leb_ℤ (owed +ℤ reserved_credit store profile.id) (pos limit))
          "Credit limit cannot be below outstanding and reserved credit.")
    else ok tt

unfoldable pub apply_update_profile : Host → Store → Staff → String → UpdateProfile → Result Store
unfolding next_profile
apply_update_profile host store actor time c = do
  permit actor supervisors
  profile ← require_some (find (λ p. p.id =ₜ c.player_id) store.profiles) "Player not found."
  check_new_limit store profile c.credit_limit
  let next = next_profile profile c
  ok (
      audit host 0 actor time "Updated profile" profile.id (text c.reason)
        (some (json_profile profile)) (some (json_profile next))
        (record store {
          profiles = update_first (λ p. p.id =ₜ c.player_id) (λ _. next) store.profiles;
        }))
