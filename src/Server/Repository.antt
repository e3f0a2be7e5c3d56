-- ===== src/Server/Repository.antt =====
-- `mutate` and `touchChangeVersions` of src/server/repository.ts,
-- on the branch whose row is locked. The lock makes the calls on a branch a sequence. A thrown error
-- rolls the transaction back. The snapshots that a call sends back are left out.
pub mod Recovery
pub mod Versions
pub mod Done
mod Tests
pub mod Once
pub mod Current
use poker_management_system.Common.{
  ℕ, suc, String, Bool, true, false, not, ◌&&◌, ◌||◌, Option, none, some, List, [], ◌∷◌, ◌++◌, any,
  find, filter, map, leb, ltb, if◌then◌else◌,
}
use poker_management_system.Common.Text.{◌=ₜ◌}
use poker_management_system.Common.Result.{Result, ok, err, domain, ◌>>=◌, ◌>>◌}
use poker_management_system.Model.{
  Store, Staff, Role, cashier, manager, admin, role_eq, has_role, VenueSettings, Dict,
}
use poker_management_system.Ledger.Debt.{get}
use poker_management_system.Commands.{Command, update_settings, complete_setup}
use poker_management_system.Commands.Schema.{parse_command, is_id, optional}
use poker_management_system.Commands.Dependencies.{
  command_dependencies, rebuilds_settings, changed_dependency_keys,
}
use poker_management_system.Operations.Guards.{Host, require_status}
use poker_management_system.Operations.Apply.{apply_command}
use poker_management_system.Server.Storage.{Branch, Operation, write_store_delta}
use poker_management_system.Server.CommandStore.{load_command_store}

-- `mutationSchema`
pub record Mutation : Type 0 where
  pub branch_id : String
  pub actor_id : Option String
  pub operation_id : String
  pub revision : ℕ
  pub command : Command

-- An active membership of the branch.
pub record Member : Type 0 where
  pub user_id : String
  pub role : Role

-- What a call finds outside the branch: `requireUser` before and after the lock, the memberships, the
-- time; and of the platform the ids, zod's test of a UUID and the SHA-256 of a command's JSON.
pub record Context : Type 0 where
  pub host : Host
  pub is_uuid : String → Bool
  pub fingerprint : Command → String
  pub user : Result Staff
  pub authorized : Result Staff
  pub members : List Member
  pub time : String

unfoldable pub parse_mutation : Context → Mutation → Option Command
parse_mutation context input =
    if is_id input.branch_id && optional is_id input.actor_id && context.is_uuid input.operation_id
    then parse_command context.host.is_timezone input.command
    else none

abbrev pub some_or : {A : Type 0} → Option A → String → ℕ → Result A
some_or none message status = err (domain message status)
some_or (some a) message status = ok a

abbrev pub same_staff : Staff → Staff → Bool
same_staff a b = (a.id =ₜ b.id) && (a.branch_id =ₜ b.branch_id) && role_eq a.role b.role

abbrev operators : List Role
operators = cashier ∷ manager ∷ []

abbrev reviewers : List Role
reviewers = manager ∷ admin ∷ []

-- The tests on the staff before `COMPLETE_SETUP`.
unfoldable check_setup_staff : Staff → List Member → Result (Unit {0})
check_setup_staff user members = do
  require_status 403 (role_eq user.role admin) "Only an administrator can complete venue setup."
  require_status 400 (any (λ m. has_role operators m.role) members)
      "Add an active cashier or manager before completing setup."
  require_status 400
      (any
        (λ operator.
          any (λ m. not (m.user_id =ₜ operator.user_id) && has_role reviewers m.role) members)
        (filter (λ m. has_role operators m.role) members))
      "Add an independent manager or administrator to review transactions before completing setup."

unfoldable check_staff : Command → Staff → List Member → Result (Unit {0})
unfolding check_setup_staff
check_staff complete_setup user members = check_setup_staff user members
check_staff _ user members = ok tt

-- `UPDATE poker_branches`
unfoldable name_of : Command → String → String
name_of (update_settings settings reason) name = settings.venue_name
name_of _ name = name

unfoldable timezone_of : Command → String → String
timezone_of (update_settings settings reason) timezone = settings.timezone
timezone_of _ timezone = timezone

abbrev rename_branch : Command → Branch → Branch
rename_branch command branch = record branch {
  venue_name = name_of command branch.venue_name;
  timezone = timezone_of command branch.timezone;
}

-- `INSERT ... ON CONFLICT(branch_id,key) DO UPDATE`
unfoldable pub set_version : String → ℕ → Dict ℕ → Dict ℕ
set_version key revision [] = (key, revision) ∷ []
set_version key revision ((k, v) ∷ versions) =
    let rest = set_version key revision versions in
    if k =ₜ key then (k, revision) ∷ versions else (k, v) ∷ rest

unfoldable pub touch_change_versions : List String → ℕ → Dict ℕ → Dict ℕ
touch_change_versions [] revision versions = versions
touch_change_versions (key ∷ keys) revision versions =
    touch_change_versions keys revision (set_version key revision versions)

-- A version of the key that is newer than the revision.
unfoldable pub is_newer : Dict ℕ → ℕ → String → Bool
is_newer versions revision key = elim (get key versions) [ none ↦ false | some v ↦ ltb revision v ]

abbrev pub was_updated : String
was_updated =
    "Another staff member updated this branch. Records have been refreshed; review them and try again."

abbrev pub access_changed : String
access_changed = "Your access changed. Reload this page before continuing."

abbrev pub operation_of : String → List Operation → Option Operation
operation_of id operations = find (λ o. o.operation_id =ₜ id) operations

-- A new operation, under the lock.
unfoldable pub apply_mutation : Context → Mutation → Command → Staff → Branch → Result Branch
unfolding check_staff name_of timezone_of
apply_mutation context input command user branch = do
  require_status 409
      (leb input.revision branch.revision && leb branch.concurrency_floor input.revision)
      was_updated
  original ← load_command_store branch command
  require_status 409
      (not (any (is_newer branch.versions input.revision) (command_dependencies original command)))
      was_updated
  check_staff command user context.members
  next ← apply_command context.host original command user context.time
  written ← write_store_delta (rename_branch command branch) original next (suc branch.revision)
  ok (record written {
    versions =
        touch_change_versions (changed_dependency_keys (rebuilds_settings command) original next)
          (suc branch.revision) written.versions;
    operations =
        written.operations
        ++ (record {
          operation_id = input.operation_id;
          actor_id = user.id;
          fingerprint = context.fingerprint command;
          revision = suc branch.revision;
        }
            ∷ []);
  })

abbrev pub cancelled_fingerprint : String
cancelled_fingerprint = "cancelled:v1"

unfoldable pub assert_not_cancelled : String → Result (Unit {0})
assert_not_cancelled fingerprint =
    require_status 409 (not (fingerprint =ₜ cancelled_fingerprint))
      "This request was cancelled during recovery and cannot be submitted again. Review the records before starting a new request."

-- The branch is known and the caller is authorized.
unfoldable pub mutate_locked : Context → Mutation → Command → Staff → Branch → Result Branch
unfolding apply_mutation assert_not_cancelled
mutate_locked context input command user branch =
    elim (operation_of input.operation_id branch.operations) [
      | none ↦ apply_mutation context input command user branch
      | some previous ↦ (do
        assert_not_cancelled previous.fingerprint
        require_status 409
            ((previous.actor_id =ₜ user.id)
              && (previous.fingerprint =ₜ context.fingerprint command))
            "Operation identifier was already used."
        ok branch)
    ]

-- `row` is the branch that `SELECT ... FOR UPDATE` returns.
unfoldable pub mutate : Context → Mutation → Option Branch → Result Branch
unfolding parse_mutation mutate_locked
mutate context input row = do
  command ← some_or (parse_mutation context input) "Invalid operation payload." 400
  user ← context.user
  require_status 409 (optional (λ id. id =ₜ user.id) input.actor_id)
      "Your signed-in account changed. Reload this page before continuing."
  require_status 409 (input.branch_id =ₜ user.branch_id)
      "Your active branch changed. Reload this page before continuing."
  branch ← some_or row "Branch has not been initialized." 503
  authorized ← context.authorized
  require_status 409 (same_staff authorized user) access_changed
  mutate_locked context input command user branch
