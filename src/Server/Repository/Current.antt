-- ===== src/Server/Repository/Current.antt =====
-- No decision on a stale request: the versions of the keys see every change of a request.
use mathlib.Core.Bool.{true≢false}
use mathlib.Core.Option.{some-injective, some-ne-none}
use poker_management_system.Common.{
  ℕ, suc, ◌≤◌, ◌<◌, ◌≡◌, refl, sym, ◌∙◌, ap, subst, String, Bool, true, Option, none, some, ◌∷◌,
  ◌++◌, ◌⊎◌, inl, inr, find, arith,
}
use poker_management_system.Common.Text.{◌=ₜ◌}
use poker_management_system.Common.Text.Laws.{eq_of_test, test_of_eq}
use poker_management_system.Common.Result.{ok}
use poker_management_system.Model.{Store, Staff, ApprovalRequest}
use poker_management_system.Model.Same.{approval_discrete}
use poker_management_system.Commands.{Command, Decide, decide}
use poker_management_system.Commands.Keys.{has_key, approval_key}
use poker_management_system.Commands.Keys.Laws.{
  has_key-append_left, has_key-append_right, has_key-key_list, any-has_key,
}
use poker_management_system.Commands.Dependencies.{
  changed, approval_marks, floor_changes, approval_changes, transaction_changes, change_keys,
  rebuilds_settings, changed_dependency_keys, command_keys, command_dependencies,
}
use poker_management_system.Server.Storage.{Branch, prepended}
use poker_management_system.Server.Storage.Done.{write_store_delta-done}
use poker_management_system.Server.Storage.Marks.{IsKept-prepended, by_id, write_rows-IsKept}
use poker_management_system.Server.Repository.{
  Context, Mutation, parse_mutation, operation_of, touch_change_versions, is_newer, mutate,
}
use poker_management_system.Server.Repository.Recovery.{Recovery, RecoveryStatus}
use poker_management_system.Server.Repository.Versions.{or_left, or_right, is_newer-touch}
use poker_management_system.Server.Repository.Done.{
  Written, Outcome, first_time, again, mutate-done, Recovered, buried, known_cancelled, known_saved,
  recover-done,
}
use poker_management_system.Server.Repository.Once.{Later, now, mutated, recovered, some-inj}

-- The approval marks of a request with the id.
marks_approval :
    (id : String) (v : ApprovalRequest)
    → (v.id =ₜ id) ≡ true
    → has_key (approval_marks v) (approval_key id) ≡ true
marks_approval id v h =
    let e =
      test_of_eq (approval_key v.id) (approval_key id) (ap approval_key (eq_of_test v.id id h)) in
    or_left _ _ e

changed_keys-approval :
    (rebuilt : Bool) (before after : Store) (key : String)
    → has_key
        (changed approval_discrete (λ r. r.id) approval_marks before.approvals after.approvals)
        key
      ≡ true
    → has_key (changed_dependency_keys rebuilt before after) key ≡ true
unfolding changed_dependency_keys change_keys
changed_keys-approval rebuilt before after key h =
    has_key-key_list (change_keys rebuilt before after) key (
      or_right ("venue:all" =ₜ key) _ (
        has_key-append_left (floor_changes rebuilt before after ++ approval_changes before after)
          (transaction_changes before after) key
          (has_key-append_right (floor_changes rebuilt before after) (approval_changes before after)
            key h)))

reviews_approval :
    (store : Store) (c : Decide)
    → has_key (command_dependencies store (decide c)) (approval_key c.approval_id) ≡ true
unfolding command_dependencies command_keys
reviews_approval store c =
    let key = approval_key c.approval_id in
    has_key-key_list ("venue:day" ∷ command_keys store (decide c)) key (
      or_right ("venue:day" =ₜ key) _
        (or_right ("venue:settings" =ₜ key) _ (or_left (key =ₜ key) _ (test_of_eq key key refl))))

module _ (id : String) (r : ℕ) where
  unfoldable request_of : Branch → Option ApprovalRequest
  request_of b = find (λ q. q.id =ₜ id) b.store.approvals

  -- The request is what it was, or its key has a version after `r`.
  record IsTracked (b c : Branch) : Type 0 where
    reached : r ≤ c.revision
    seen : (is_newer c.versions r (approval_key id) ≡ true) ⊎ (request_of c ≡ request_of b)

  Written-IsTracked :
      (context : Context) (input : Mutation) (command : Command) (user : Staff) (b c d : Branch)
      → Written context input command user c d
      → IsTracked b c
      → IsTracked b d
  unfolding by_id request_of
  Written-IsTracked context input command user b c d w t =
      let delta = (write_store_delta-done _ w.original w.next _).at w.wrote in
      let key = approval_key id in
      let keys = changed_dependency_keys (rebuilds_settings command) w.original w.next in
      let versions : d.versions ≡ touch_change_versions keys (suc c.revision) c.versions =
        ap (λ (x : Branch). x.versions) w.result
        ∙ ap (λ (x : Branch). touch_change_versions keys (suc c.revision) x.versions)
            delta.result in
      let revision : d.revision ≡ suc c.revision =
        ap (λ (x : Branch). x.revision) w.result ∙ ap (λ (x : Branch). x.revision) delta.result in
      let requests : d.store.approvals ≡ prepended delta.approvals =
        ap (λ (x : Branch). x.store.approvals) w.result
        ∙ ap (λ (x : Branch). x.store.approvals) delta.result in
      let newer = is_newer-touch keys key (suc c.revision) r c.versions (after t.reached) in
      let changes =
        (write_rows-IsKept approval_discrete (λ q. q.id) id approval_marks key (marks_approval id)
            w.original.approvals w.next.approvals _).at
          delta.wrote_approvals in
      record {
        reached = rw revision (weaken t.reached);
        seen = elim changes [
          | inl m ↦ inl (
              rw versions (
                newer
                  (or_left (has_key keys key) _ (changed_keys-approval _ w.original w.next key m))))
          | inr k ↦ elim t.seen [
            | inl n ↦ inl (rw versions (newer (or_right (has_key keys key) _ n)))
            | inr same ↦ inr (
                ap (find (λ (q : ApprovalRequest). q.id =ₜ id)) requests
                ∙ IsKept-prepended approval_discrete (λ q. q.id) id c.store.approvals
                    delta.approvals k
                ∙ same)
          ]
        ];
      }
    where
      after : r ≤ c.revision → r < suc c.revision
      after h = omega arith

      weaken : r ≤ c.revision → r ≤ suc c.revision
      weaken h = omega arith

  outcome-IsTracked :
      (context : Context) (input : Mutation) (command : Command) (user : Staff) (b c d : Branch)
      → Outcome context input command user c d
      → IsTracked b c
      → IsTracked b d
  outcome-IsTracked context input command user b c d (first_time n w) t =
      Written-IsTracked context input command user b c d w t
  outcome-IsTracked context input command user b c d (again previous n f q same) t =
      subst (IsTracked b) (sym same) t

  recovered-IsTracked :
      (input : Recovery) (user : Staff) (b c : Branch) {answer : RecoveryStatus × Branch}
      → Recovered input user c answer
      → IsTracked b c
      → IsTracked b answer.1
  unfolding request_of
  recovered-IsTracked input user b c (buried n) t = record { reached = t.reached; seen = t.seen }
  recovered-IsTracked input user b c (known_cancelled o n f) t = t
  recovered-IsTracked input user b c (known_saved o n f) t = t

  Later-IsTracked : {b c : Branch} → r ≤ b.revision → Later b c → IsTracked b c
  Later-IsTracked l now = record { reached = l; seen = inr refl }
  Later-IsTracked l (mutated {c} {d} context input before h) =
      let m = (mutate-done context input (some c)).at h in
      outcome-IsTracked context input m.command m.user _ m.branch d m.outcome
        (subst (IsTracked _) (some-inj m.found) (Later-IsTracked l before))
  Later-IsTracked l (recovered {c} context input before h) =
      let m = (recover-done context input (some c)).at h in
      recovered-IsTracked input m.user _ m.branch m.recovered
        (subst (IsTracked _) (some-inj m.found) (Later-IsTracked l before))

-- No decision falls on a request that its reviewer has not seen: if a call that decides on a request
-- returns, for an operation that has no row yet and with the revision of an earlier state of the
-- branch, then the request is in the branch as it was in that state, whatever calls of `mutate` and
-- `recoverOperation` have come between.
pub decision_is_current :
    (context : Context) (input : Mutation) (decision : Decide) (b c : Branch) {d : Branch}
    → Later b c
    → input.revision ≡ b.revision
    → parse_mutation context input ≡ some (decide decision)
    → operation_of input.operation_id c.operations ≡ none
    → mutate context input (some c) ≡ ok d
    → find (λ q. q.id =ₜ decision.approval_id) c.store.approvals
      ≡ find (λ q. q.id =ₜ decision.approval_id) b.store.approvals
unfolding request_of
decision_is_current context input decision b c {d} l r p n h =
    let m = (mutate-done context input (some c)).at h in
    let t = Later-IsTracked decision.approval_id input.revision (le_of_eq r) l in
    elim t.seen [
      | inr same ↦ same
      | inl newer ↦ absurd (
          stale m.command m.user m.branch (some-inj m.found) (some-injective _ _ (sym p ∙ m.parsed))
            m.outcome newer)
    ]
  where
    le_of_eq : input.revision ≡ b.revision → input.revision ≤ b.revision
    le_of_eq e = omega arith

    stale :
        (command : Command) (user : Staff) (x : Branch)
        → c ≡ x
        → decide decision ≡ command
        → Outcome context input command user x d
        → is_newer c.versions input.revision (approval_key decision.approval_id) ≡ true
        → ⊥
    stale command user x e f (again previous k q s same) newer =
        some-ne-none previous (sym k ∙ rw (sym e) n)
    stale command user x e f (first_time k w) newer =
        let reviewed = reviews_approval w.original decision in
        let tested =
          any-has_key (is_newer x.versions input.revision)
            (command_dependencies w.original (decide decision)) (approval_key decision.approval_id)
            reviewed (rw (sym e) newer) in
        true≢false (sym tested ∙ rw f w.current)
