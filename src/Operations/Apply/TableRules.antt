-- ===== src/Operations/Apply/TableRules.antt =====
-- The rules of every table stay consistent with the venue's, whichever of the two is changed.
use poker_management_system.Common.{
  ◌≡◌, refl, ap, ◌∙◌, String, true, false, Option, none, some, List, [], ◌∷◌, All, arith,
}
use poker_management_system.Common.Lists.Laws.{All-append, All-update_first, All-map}
use poker_management_system.Common.Result.{ok}
use poker_management_system.Model.{Store, Staff, VenueSettings, TableRecord, ApprovalRequest}
use poker_management_system.Settings.Rules.{venue_settings, effective_table_rules, table_rule_issue}
use poker_management_system.Commands.{Command, TableCommand, Decide}
use poker_management_system.Operations.Guards.{Host, audit, require_status}
use poker_management_system.Operations.Ensures.{passed}
use poker_management_system.Operations.Venue.{check_tables, check_issue, next_table, put_table}
use poker_management_system.Operations.Venue.Done.{old_table}
use poker_management_system.Operations.Approvals.{put_request}
use poker_management_system.Operations.Approvals.Done as A
use poker_management_system.Operations.Approvals.Done.{refused, waiting, posted}
use poker_management_system.Operations.Entry.Done.{post_entry-done}
use poker_management_system.Operations.Seating.{swap_audit}
use poker_management_system.Operations.Apply.{apply_command}
use poker_management_system.Operations.Apply.Done.{
  Applied, settings_updated, setup_completed, table_saved, profile_updated, day_opened,
  day_reopened, checked_in, moved, swapped, requested, corrected, decided, day_closed,
  apply_command-done,
}

abbrev pub TablesFit : Option VenueSettings → List TableRecord → Type 0
TablesFit settings tables = All (λ t. table_rule_issue settings t ≡ none) tables

check_tables-TablesFit :
    (settings : Option VenueSettings) (tables : List TableRecord)
    → check_tables settings tables ≡ ok tt
    → TablesFit settings tables
unfolding check_tables require_status
check_tables-TablesFit settings [] h = tt
check_tables-TablesFit settings (t ∷ tables) h =
    ground (arith, check_tables-TablesFit settings tables)

check_issue-none : (o : Option String) → check_issue o ≡ ok tt → o ≡ none
unfolding check_issue
check_issue-none none h = refl
check_issue-none (some issue) h = let q : false ≡ true = passed _ _ _ h in cc

-- Completing the setup changes no rule.
setup_completed-issue :
    (settings : Option VenueSettings) (t : TableRecord)
    → table_rule_issue (some (record (venue_settings settings) { setup_completed = true })) t
      ≡ table_rule_issue settings t
unfolding table_rule_issue effective_table_rules venue_settings
setup_completed-issue none t = refl
setup_completed-issue (some s) t = refl

module _ (host : Host) (store : Store) (actor : Staff) (time : String) where
  abbrev Fits : Store → Type 0
  Fits s = TablesFit s.settings s.tables

  same :
      {store' next : Store}
      → store' ≡ next
      → next.settings ≡ store.settings
      → next.tables ≡ store.tables
      → Fits store
      → Fits store'
  same e p q all = rw (e, p, q) all

  put_table-TablesFit :
      (c : TableCommand)
      → table_rule_issue store.settings (next_table host (old_table host store actor time c) c)
        ≡ none
      → Fits store
      → TablesFit store.settings (
          put_table
            (old_table host store actor time c)
            c.table_id
            (next_table host (old_table host store actor time c) c)
            store.tables)
  unfolding put_table
  put_table-TablesFit c checked all = put (old_table host store actor time c) refl checked
    where
      put :
          (old : Option TableRecord)
          → old_table host store actor time c ≡ old
          → table_rule_issue store.settings (next_table host old c) ≡ none
          → TablesFit store.settings (put_table old c.table_id (next_table host old c) store.tables)
      put none e h = All-append (λ t. table_rule_issue store.settings t ≡ none) store.tables all h
      put (some t) e h =
          All-update_first (λ t. table_rule_issue store.settings t ≡ none) _ _ store.tables e
            (λ _. h) all

  outcome-Fits :
      (c : Decide) (r : ApprovalRequest) (store' : Store)
      → Fits store
      → A.Outcome host store actor time c r store'
      → Fits store'
  unfolding audit put_request
  outcome-Fits c r store' all (refused p e) = same e refl refl all
  outcome-Fits c r store' all (waiting p q e) = same e refl refl all
  outcome-Fits c r store' all (posted ledger p full q e) =
      let post = (post_entry-done host 0 store _ time).at q in
      same e (ap (λ (s : Store). s.settings) post.result) (ap (λ (s : Store). s.tables) post.result)
        all

  Applied-Fits :
      (store' : Store) (command : Command)
      → Applied host store actor time store' command
      → Fits store
      → Fits store'
  unfolding audit swap_audit
  Applied-Fits store' command (settings_updated s r d) all =
      rw d.result (check_tables-TablesFit (some d.next) store.tables d.checked)
  Applied-Fits store' command (setup_completed d) all = rw d.result (
      All-map (λ t. table_rule_issue store.settings t ≡ none)
        (λ t h. setup_completed-issue store.settings t ∙ h) store.tables all)
  Applied-Fits store' command (table_saved c d) all =
      rw d.result (put_table-TablesFit c (check_issue-none _ d.checked) all)
  Applied-Fits store' command (profile_updated c d) all = same d.result refl refl all
  Applied-Fits store' command (day_opened date cash d) all = same d.result refl refl all
  Applied-Fits store' command (day_reopened day r p d) all = same d.result refl refl all
  Applied-Fits store' command (checked_in day c o d) all = same d.result refl refl all
  Applied-Fits store' command (moved day c o d) all = same d.result refl refl all
  Applied-Fits store' command (swapped day f s o d) all = same d.result refl refl all
  Applied-Fits store' command (requested day c o d) all = same d.result refl refl all
  Applied-Fits store' command (corrected day id r o d) all = same d.result refl refl all
  Applied-Fits store' command (decided day c o d) all =
      outcome-Fits c d.request store' all d.outcome
  Applied-Fits store' command (day_closed day c o d) all = same d.result refl refl all

-- Every successful command keeps the rules of all tables free of issues under the settings in force,
-- whether it changes the settings, a table or neither.
pub apply_command-TablesFit :
    (host : Host) (store : Store) (input : Command) (actor : Staff) (time : String) {store' : Store}
    → apply_command host store input actor time ≡ ok store'
    → TablesFit store.settings store.tables
    → TablesFit store'.settings store'.tables
apply_command-TablesFit host store input actor time h all =
    Applied-Fits host store actor time _ _
      ((apply_command-done host store actor time input).at h).done all
