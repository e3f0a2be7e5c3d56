-- ===== src/Server/Repository/Recovery.antt =====
-- `recoverOperation` of src/server/operation-recovery.ts, on the branch whose row is locked.
use poker_management_system.Common.{String, ◌&&◌, Option, none, some, [], ◌∷◌, ◌++◌, if◌then◌else◌}
use poker_management_system.Common.Text.{◌=ₜ◌}
use poker_management_system.Common.Result.{Result, ok, ◌>>=◌, ◌>>◌}
use poker_management_system.Model.{Staff}
use poker_management_system.Commands.Schema.{is_id}
use poker_management_system.Operations.Guards.{require_status}
use poker_management_system.Server.Storage.{Branch, Operation}
use poker_management_system.Server.Repository.{
  Context, some_or, same_staff, access_changed, operation_of, cancelled_fingerprint,
}

-- The reference of an unconfirmed request.
pub record Recovery : Type 0 where
  pub branch_id : String
  pub actor_id : String
  pub operation_id : String

pub data RecoveryStatus : Type 0 where
  saved cancelled : RecoveryStatus

abbrev pub tombstone : Recovery → Branch → Operation
tombstone input branch = record {
  operation_id = input.operation_id;
  actor_id = input.actor_id;
  fingerprint = cancelled_fingerprint;
  revision = branch.revision;
}

unfoldable pub recover_locked : Recovery → Staff → Branch → Result (RecoveryStatus × Branch)
recover_locked input user branch = elim (operation_of input.operation_id branch.operations) [
  | none ↦
      ok (
        cancelled,
        record branch { operations = branch.operations ++ (tombstone input branch ∷ []) },
      )
  | some previous ↦
      require_status 403 (previous.actor_id =ₜ user.id)
        "This request belongs to another staff account."
      >> ok (if previous.fingerprint =ₜ cancelled_fingerprint then cancelled else saved, branch)
]

unfoldable pub recover_operation :
    Context → Recovery → Option Branch → Result (RecoveryStatus × Branch)
unfolding recover_locked
recover_operation context input row = do
  require_status 400
      (is_id input.branch_id && is_id input.actor_id && context.is_uuid input.operation_id)
      "Provide a valid unconfirmed request reference."
  user ← context.user
  require_status 409 (user.id =ₜ input.actor_id)
      "Sign in with the account that submitted this request before recovering it."
  require_status 409 (user.branch_id =ₜ input.branch_id)
      "Open the venue that submitted this request before recovering it."
  branch ← some_or row "Branch has not been initialized." 503
  authorized ← context.authorized
  require_status 409 (same_staff authorized user) access_changed
  recover_locked input user branch
