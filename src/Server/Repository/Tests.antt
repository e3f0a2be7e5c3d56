-- ===== src/Server/Repository/Tests.antt =====
-- A branch where a credit buy-in is approved: the call, its repetition, a recovery that comes first,
-- and a decision that comes too late.
use poker_management_system.Common.{◌≡◌, refl, true, none, some, [], ◌∷◌, find}
use poker_management_system.Common.Result.{Result, ok, err, domain}
use native.Mathlib.Decide.{ℕ_discrete}
use poker_management_system.Common.Text.{less, ◌=ₜ◌}
use poker_management_system.Commands.{decide, approve, Decide}
use poker_management_system.Commands.Dependencies.{
  command_dependencies, changed_dependency_keys, changed, floor_changes, transaction_changes,
  change_keys,
}
use poker_management_system.Commands.Keys.{
  key_list, sort_keys, distinct_keys, approval_key, player_key, table_key, seat_key,
  transaction_key, reversal_key, phone_key, insert_key,
}
use poker_management_system.Ledger.Totals.{map_result}
use poker_management_system.Model.Same.{
  by_test, string_discrete, settings_discrete, profile_discrete, session_discrete, table_discrete,
  transaction_discrete, approval_discrete, day_discrete, log_discrete,
}
use poker_management_system.Server.Rollups.{
  bucket_eq, update_ledger_rollups, rollup_values, rollup_scopes, upsert_rollup, upsert_rollups,
  add_columns,
}
use poker_management_system.Server.Aggregates.{
  populate_read_model, checked_total, columns_at, current_tables, day_totals,
}
use poker_management_system.Operations.Phone.{strip_separators}
use poker_management_system.Operations.Apply.Tests.{engine, host, ann, root, playing}
use poker_management_system.Server.Storage.{
  Branch, write_store_delta, ledger_hook, write_rows, update_row, insert_row,
}
use poker_management_system.Server.CommandStore.{load_command_store}
use poker_management_system.Server.Repository.{
  Context, Mutation, parse_mutation, apply_mutation, mutate_locked, mutate, is_newer,
  touch_change_versions, set_version, was_updated,
}
use poker_management_system.Server.Repository.Recovery.{
  Recovery, saved, cancelled, recover_operation, recover_locked,
}
use poker_management_system.Server.Repository.Once.{now, recovered, mutate_once, recovery_final}
use poker_management_system.Server.Repository.Current.{decision_is_current}

abbrev venue : Branch
venue = record {
  id = "B";
  venue_name = "Club";
  timezone = "UTC";
  revision = 7;
  concurrency_floor = 0;
  store = playing;
  rollups = [];
  versions = [];
  operations = [];
}

abbrev by_ann : Context
by_ann = record {
  host = host;
  is_uuid = λ id. true;
  fingerprint = λ command. "abc";
  user = ok ann;
  authorized = ok ann;
  members = [];
  time = "t3";
}

abbrev choice : Decide
choice = record { approval_id = "A1"; decision = approve; reason = none }

abbrev vote : Mutation
vote = record {
  branch_id = "B";
  actor_id = none;
  operation_id = "OP1";
  revision = 7;
  command = decide choice;
}

abbrev result : Result Branch → Branch
result (ok branch) = branch
result (err e) = venue

-- What a call unfolds.
unfoldable calls : Unit {0}
unfolding engine mutate mutate_locked apply_mutation parse_mutation load_command_store
    write_store_delta command_dependencies changed_dependency_keys recover_operation recover_locked
    strip_separators populate_read_model map_result key_list sort_keys distinct_keys approval_key
    player_key table_key seat_key transaction_key reversal_key phone_key insert_key less is_newer
    touch_change_versions set_version profile_discrete string_discrete ℕ_discrete table_discrete
    session_discrete day_discrete approval_discrete transaction_discrete log_discrete
    settings_discrete by_test checked_total columns_at current_tables day_totals bucket_eq
    update_ledger_rollups rollup_values rollup_scopes upsert_rollup upsert_rollups add_columns
    ledger_hook write_rows update_row insert_row changed floor_changes transaction_changes
    change_keys
calls = tt

abbrev voted : Branch
voted = result (mutate by_ann vote (some venue))

run_vote : mutate by_ann vote (some venue) ≡ ok voted
unfolding calls
run_vote = refl

abbrev lost : Recovery
lost = record { branch_id = "B"; actor_id = "U1"; operation_id = "OP1" }

abbrev other : Recovery
other = record { branch_id = "B"; actor_id = "U1"; operation_id = "OP9" }

-- The repetition answers, and so does the recovery, which finds the row.
run_again : mutate by_ann vote (some voted) ≡ ok voted
unfolding calls
run_again = refl

run_lost : recover_operation by_ann lost (some voted) ≡ ok (saved, voted)
unfolding calls
run_lost = refl

-- A recovery that comes first cancels the call.
abbrev buried : Branch
buried = record venue {
  operations =
      record { operation_id = "OP1"; actor_id = "U1"; fingerprint = "cancelled:v1"; revision = 7 }
      ∷ [];
}

run_early : recover_operation by_ann lost (some venue) ≡ ok (cancelled, buried)
unfolding calls
run_early = refl

too_late :
    mutate by_ann vote (some buried)
    ≡ err (
        domain
          "This request was cancelled during recovery and cannot be submitted again. Review the records before starting a new request."
          409)
unfolding calls
too_late = refl

-- A second decision with the old revision is refused.
stale_vote :
    mutate
      (record by_ann { user = ok root; authorized = ok root })
      (record vote { operation_id = "OP2" })
      (some voted)
    ≡ err (domain was_updated 409)
unfolding calls
stale_vote = refl

abbrev marked : Branch
marked = record venue {
  operations =
      record { operation_id = "OP9"; actor_id = "U1"; fingerprint = "cancelled:v1"; revision = 7 }
      ∷ [];
}

run_other : recover_operation by_ann other (some venue) ≡ ok (cancelled, marked)
unfolding calls
run_other = refl

abbrev marked_vote : Branch
marked_vote = result (mutate by_ann vote (some marked))

run_marked : mutate by_ann vote (some marked) ≡ ok marked_vote
unfolding calls
run_marked = refl

vote_parsed : parse_mutation by_ann vote ≡ some (decide choice)
unfolding calls
vote_parsed = refl

mutate_once_example : voted ≡ voted
mutate_once_example = mutate_once by_ann by_ann vote vote venue run_vote now refl run_again

recovery_final_example : (saved ≡ saved) × (voted ≡ voted)
recovery_final_example = recovery_final by_ann by_ann lost vote voted run_lost now refl run_again

decision_is_current_example :
    find (λ q. q.id =ₜ "A1") marked.store.approvals ≡ find (λ q. q.id =ₜ "A1") venue.store.approvals
decision_is_current_example =
    decision_is_current by_ann vote choice venue marked (recovered by_ann other now run_other) refl
      vote_parsed refl run_marked
