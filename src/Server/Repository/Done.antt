-- ===== src/Server/Repository/Done.antt =====
-- What a call of `mutate` or `recoverOperation` that returned has checked and done.
use poker_management_system.Common.{
  suc, ◌≡◌, refl, String, Bool, true, false, ◌&&◌, Option, none, some, [], ◌∷◌, ◌++◌, any, leb,
  if◌then◌else◌, Option-cases, inl, inr, ℕ, arith,
}
use poker_management_system.Common.Text.{◌=ₜ◌}
use poker_management_system.Common.Result.{ok, Ensures, Ensures-ok, Ensures-bind}
use poker_management_system.Model.{Store, Staff}
use poker_management_system.Commands.{Command}
use poker_management_system.Commands.Dependencies.{
  command_dependencies, rebuilds_settings, changed_dependency_keys,
}
use poker_management_system.Operations.Ensures.{passed, refuted}
use poker_management_system.Operations.Apply.{apply_command}
use poker_management_system.Server.Storage.{Branch, Operation, write_store_delta}
use poker_management_system.Server.CommandStore.{load_command_store}
use poker_management_system.Server.Repository.{
  Context, Mutation, parse_mutation, some_or, rename_branch, touch_change_versions, is_newer,
  operation_of, apply_mutation, cancelled_fingerprint, assert_not_cancelled, mutate_locked, mutate,
}
use poker_management_system.Server.Repository.Recovery.{
  Recovery, RecoveryStatus, saved, cancelled, tombstone, recover_locked, recover_operation,
}

some_or-some :
    {A : Type 0} (o : Option A) (m : String) (n : ℕ) {a : A} → some_or o m n ≡ ok a → o ≡ some a
some_or-some (some a) m n h = ground arith
some_or-some none m n h = cc

-- The row that a new operation leaves.
abbrev pub operation_row : Context → Mutation → Command → Staff → Branch → Operation
operation_row context input command user branch = record {
  operation_id = input.operation_id;
  actor_id = user.id;
  fingerprint = context.fingerprint command;
  revision = suc branch.revision;
}

module _ (context : Context) (input : Mutation) where
  pub record Written (command : Command) (user : Staff) (branch branch' : Branch) : Type 0 where
    pub original : Store
    pub next : Store
    pub written : Branch
    pub in_range :
        (leb input.revision branch.revision && leb branch.concurrency_floor input.revision) ≡ true
    pub loaded : load_command_store branch command ≡ ok original
    pub current :
        any (is_newer branch.versions input.revision) (command_dependencies original command)
        ≡ false
    pub applied : apply_command context.host original command user context.time ≡ ok next
    pub wrote :
        write_store_delta (rename_branch command branch) original next (suc branch.revision)
        ≡ ok written
    pub result : branch' ≡ record written {
      versions =
          touch_change_versions
            (changed_dependency_keys (rebuilds_settings command) original next)
            (suc branch.revision)
            written.versions;
      operations = written.operations ++ (operation_row context input command user branch ∷ []);
    }

  -- The operation is new, or has been recorded for this actor and command.
  pub data Outcome (command : Command) (user : Staff) (branch branch' : Branch) : Type 0 where
    first_time :
        operation_of input.operation_id branch.operations ≡ none
        → Written command user branch branch'
        → Outcome command user branch branch'
    again :
        (previous : Operation)
        → operation_of input.operation_id branch.operations ≡ some previous
        → (previous.fingerprint =ₜ cancelled_fingerprint) ≡ false
        → ((previous.actor_id =ₜ user.id) && (previous.fingerprint =ₜ context.fingerprint command))
          ≡ true
        → branch' ≡ branch
        → Outcome command user branch branch'

  apply_mutation-done :
      (command : Command) (user : Staff) (branch : Branch)
      → Ensures (Written command user branch) (apply_mutation context input command user branch)
  unfolding apply_mutation
  apply_mutation-done command user branch = Ensures-bind λ _ p. Ensures-bind λ original l.
      Ensures-bind λ _ q. Ensures-bind λ _ s. Ensures-bind λ next a. Ensures-bind λ written w.
        Ensures-ok (record {
          original = original;
          next = next;
          written = written;
          in_range = passed _ _ _ p;
          loaded = l;
          current = refuted _ _ _ q;
          applied = a;
          wrote = w;
          result = refl;
        })

  locked-done :
      (command : Command) (user : Staff) (branch : Branch)
      → Ensures (Outcome command user branch) (mutate_locked context input command user branch)
  unfolding mutate_locked assert_not_cancelled
  locked-done command user branch =
      elim (Option-cases (operation_of input.operation_id branch.operations)) [
        | inl e ↦
            rw (e, mutate_locked)
              (record { at = λ h. first_time e ((apply_mutation-done command user branch).at h) })
        | inr (o, e) ↦
            rw (e, mutate_locked)
              (Ensures-bind λ _ p.
                Ensures-bind λ _ q. Ensures-ok (again o e (refuted _ _ _ p) (passed _ _ _ q) refl))
      ]

  pub record Mutated (row : Option Branch) (branch' : Branch) : Type 0 where
    pub command : Command
    pub user : Staff
    pub branch : Branch
    pub parsed : parse_mutation context input ≡ some command
    pub signed_in : context.user ≡ ok user
    pub found : row ≡ some branch
    pub outcome : Outcome command user branch branch'

  pub mutate-done : (row : Option Branch) → Ensures (Mutated row) (mutate context input row)
  unfolding mutate
  mutate-done row = Ensures-bind λ command c. Ensures-bind λ user u. Ensures-bind λ _ p.
      Ensures-bind λ _ q. Ensures-bind λ branch b. Ensures-bind λ authorized a. Ensures-bind λ _ r.
        record {
          at = λ h. record {
            command = command;
            user = user;
            branch = branch;
            parsed = some_or-some _ _ _ c;
            signed_in = u;
            found = some_or-some _ _ _ b;
            outcome = (locked-done command user branch).at h;
          };
        }

-- A recovery leaves a tombstone, or finds the row of the operation.
pub data Recovered (input : Recovery) (user : Staff) (branch : Branch)
    : RecoveryStatus × Branch → Type 0 where
  buried :
      operation_of input.operation_id branch.operations ≡ none
      → Recovered input user branch (
        cancelled,
        record branch { operations = branch.operations ++ (tombstone input branch ∷ []) },
      )
  known_cancelled :
      (previous : Operation)
      → operation_of input.operation_id branch.operations ≡ some previous
      → (previous.fingerprint =ₜ cancelled_fingerprint) ≡ true
      → Recovered input user branch (cancelled, branch)
  known_saved :
      (previous : Operation)
      → operation_of input.operation_id branch.operations ≡ some previous
      → (previous.fingerprint =ₜ cancelled_fingerprint) ≡ false
      → Recovered input user branch (saved, branch)

by_fingerprint :
    (input : Recovery) (user : Staff) (branch : Branch) (previous : Operation)
    → operation_of input.operation_id branch.operations ≡ some previous
    → (b : Bool) → (previous.fingerprint =ₜ cancelled_fingerprint) ≡ b
    → Recovered input user branch (if b then cancelled else saved, branch)
by_fingerprint input user branch previous e true t = known_cancelled previous e t
by_fingerprint input user branch previous e false t = known_saved previous e t

recover_locked-done :
    (input : Recovery) (user : Staff) (branch : Branch)
    → Ensures (Recovered input user branch) (recover_locked input user branch)
unfolding recover_locked
recover_locked-done input user branch =
    elim (Option-cases (operation_of input.operation_id branch.operations)) [
      | inl e ↦ rw (e, recover_locked) (Ensures-ok (buried e))
      | inr (o, e) ↦
          rw (e, recover_locked)
            (Ensures-bind λ _ p. Ensures-ok (by_fingerprint input user branch o e _ refl))
    ]

pub record RecoverySteps (input : Recovery) (row : Option Branch) (answer : RecoveryStatus × Branch)
    : Type 0 where
  pub user : Staff
  pub branch : Branch
  pub found : row ≡ some branch
  pub recovered : Recovered input user branch answer

pub recover-done :
    (context : Context) (input : Recovery) (row : Option Branch)
    → Ensures (RecoverySteps input row) (recover_operation context input row)
unfolding recover_operation
recover-done context input row = Ensures-bind λ _ o. Ensures-bind λ user u. Ensures-bind λ _ p.
    Ensures-bind λ _ q. Ensures-bind λ branch b. Ensures-bind λ authorized a. Ensures-bind λ _ r.
      record {
        at = λ h. record {
          user = user;
          branch = branch;
          found = some_or-some _ _ _ b;
          recovered = (recover_locked-done input user branch).at h;
        };
      }
