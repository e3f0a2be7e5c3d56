-- ===== src/Server/Repository/Once.antt =====
-- An operation takes effect once: what the rows of `poker_operations` promise to a later call.
use mathlib.Core.Option.{some-injective, some-ne-none}
use poker_management_system.Common.{
  ◌≡◌, refl, sym, ◌∙◌, ap, String, true, false, none, some, List, [], ◌∷◌, ◌++◌, arith,
}
use poker_management_system.Common.Text.{◌=ₜ◌}
use poker_management_system.Common.Text.Laws.{test_of_eq}
use poker_management_system.Common.Result.{ok}
use poker_management_system.Model.{Staff}
use poker_management_system.Commands.{Command}
use poker_management_system.Server.Storage.{Branch, Operation}
use poker_management_system.Server.Storage.Done.{write_store_delta-done}
use poker_management_system.Server.Repository.{
  Context, Mutation, operation_of, cancelled_fingerprint, mutate,
}
use poker_management_system.Server.Repository.Recovery.{
  tombstone, Recovery, RecoveryStatus, saved, cancelled, recover_operation,
}
use poker_management_system.Server.Repository.Done.{
  Written, Outcome, first_time, again, mutate-done, operation_row, Recovered, buried,
  known_cancelled, known_saved, recover-done,
}

-- What becomes of a branch: calls of `mutate` and `recoverOperation` that return, by anyone.
pub data Later (b : Branch) : Branch → Type 0 where
  now : Later b b
  mutated :
      {c d : Branch} (context : Context) (input : Mutation)
      → Later b c
      → mutate context input (some c) ≡ ok d
      → Later b d
  recovered :
      {c d : Branch} {status : RecoveryStatus} (context : Context) (input : Recovery)
      → Later b c
      → recover_operation context input (some c) ≡ ok (status, d)
      → Later b d

operation_of-append :
    (id : String) (xs ys : List Operation) {o : Operation}
    → operation_of id xs ≡ some o
    → operation_of id (xs ++ ys) ≡ some o
operation_of-append id [] ys h = cc
operation_of-append id (x ∷ xs) ys {o} h = ground (arith, operation_of-append id xs ys {o = o})

pub some-inj : {b c : Branch} → some b ≡ some c → b ≡ c
some-inj {b} {c} h = some-injective b c h

operation_of-append_new :
    (id : String) (xs : List Operation) (o : Operation)
    → operation_of id xs ≡ none
    → (o.operation_id =ₜ id) ≡ true
    → operation_of id (xs ++ (o ∷ [])) ≡ some o
operation_of-append_new id [] o h t = ground arith
operation_of-append_new id (x ∷ xs) o h t = ground (arith, operation_of-append_new id xs o)

-- The rows after a new operation.
pub Written-operations :
    (context : Context) (input : Mutation) (command : Command) (user : Staff) (b d : Branch)
    → Written context input command user b d
    → d.operations ≡ b.operations ++ (operation_row context input command user b ∷ [])
Written-operations context input command user b d w =
    let delta = (write_store_delta-done _ w.original w.next _).at w.wrote in
    ap (λ (x : Branch). x.operations) w.result
    ∙ ap (λ (x : Branch). x.operations ++ (operation_row context input command user b ∷ []))
        delta.result

module _ (id : String) (o : Operation) where
  -- A row stays as it is.
  mutate_keeps :
      (context : Context) (input : Mutation) (b : Branch) {d : Branch}
      → mutate context input (some b) ≡ ok d
      → operation_of id b.operations ≡ some o
      → operation_of id d.operations ≡ some o
  mutate_keeps context input b {d} h r =
      let m = (mutate-done context input (some b)).at h in
      keeps m.command m.user m.branch (some-inj m.found) m.outcome
    where
      keeps :
          (command : Command) (user : Staff) (c : Branch)
          → b ≡ c
          → Outcome context input command user c d
          → operation_of id d.operations ≡ some o
      keeps command user c e (first_time n w) =
          rw (Written-operations context input command user c d w)
            (operation_of-append id c.operations _ (rw (sym e) r))
      keeps command user c e (again previous n f q same) = rw (same ∙ sym e) r

  recover_keeps :
      (context : Context) (input : Recovery) (b : Branch) {status : RecoveryStatus} {d : Branch}
      → recover_operation context input (some b) ≡ ok (status, d)
      → operation_of id b.operations ≡ some o
      → operation_of id d.operations ≡ some o
  recover_keeps context input b {status} {d} h r =
      let m = (recover-done context input (some b)).at h in
      keeps m.user m.branch (some-inj m.found) m.recovered
    where
      keeps :
          (user : Staff) (c : Branch) {answer : RecoveryStatus × Branch}
          → b ≡ c
          → Recovered input user c answer
          → operation_of id answer.1.operations ≡ some o
      keeps user c e (buried n) = operation_of-append id c.operations _ (rw (sym e) r)
      keeps user c e (known_cancelled p n f) = rw (sym e) r
      keeps user c e (known_saved p n f) = rw (sym e) r

  Later-keeps :
      {b c : Branch}
      → Later b c
      → operation_of id b.operations ≡ some o
      → operation_of id c.operations ≡ some o
  Later-keeps now r = r
  Later-keeps (mutated context input l h) r = mutate_keeps context input _ h (Later-keeps l r)
  Later-keeps (recovered context input l h) r = recover_keeps context input _ h (Later-keeps l r)

module _ (context : Context) (input : Mutation) where
  -- After a call that returned, the operation has a row.
  mutate_records :
      (b : Branch) {d : Branch}
      → mutate context input (some b) ≡ ok d
      → (o : Operation) × (operation_of input.operation_id d.operations ≡ some o)
  mutate_records b {d} h =
      let m = (mutate-done context input (some b)).at h in
      records m.command m.user m.branch m.outcome
    where
      records :
          (command : Command) (user : Staff) (c : Branch)
          → Outcome context input command user c d
          → (o : Operation) × (operation_of input.operation_id d.operations ≡ some o)
      records command user c (first_time n w) = (
        operation_row context input command user c,
        rw (Written-operations context input command user c d w) (
            operation_of-append_new input.operation_id c.operations _ n
              (test_of_eq input.operation_id input.operation_id refl)),
      )
      records command user c (again previous n f q same) = (previous, rw same n)

  -- A call for an operation that has a row changes nothing, and the row is no tombstone.
  mutate_repeats :
      (b : Branch) {d : Branch} (o : Operation)
      → mutate context input (some b) ≡ ok d
      → operation_of input.operation_id b.operations ≡ some o
      → (d ≡ b) × ((o.fingerprint =ₜ cancelled_fingerprint) ≡ false)
  mutate_repeats b {d} o h r =
      let m = (mutate-done context input (some b)).at h in
      repeats m.command m.user m.branch (some-inj m.found) m.outcome
    where
      repeats :
          (command : Command) (user : Staff) (c : Branch)
          → b ≡ c
          → Outcome context input command user c d
          → (d ≡ b) × ((o.fingerprint =ₜ cancelled_fingerprint) ≡ false)
      repeats command user c e (first_time n w) = absurd (some-ne-none o (sym r ∙ rw e n))
      repeats command user c e (again previous n f q same) =
          (same ∙ sym e, rw (some-injective o previous (sym r ∙ rw e n)) f)

-- An operation takes effect at most once: after a call of `mutate` has returned, and whatever calls of
-- `mutate` and `recoverOperation` follow, a call with the same operation id that returns leaves the
-- branch as it is, whatever its command, its actor and its revision.
pub mutate_once :
    (context context' : Context) (input input' : Mutation) (b : Branch) {b' c d : Branch}
    → mutate context input (some b) ≡ ok b'
    → Later b' c
    → input'.operation_id ≡ input.operation_id
    → mutate context' input' (some c) ≡ ok d
    → d ≡ c
mutate_once context context' input input' b {c = c} h l e h' =
    let (o, r) = mutate_records context input b h in
    (mutate_repeats context' input' c o h' (rw e (Later-keeps input.operation_id o l r))).0

-- What a recovery answers, the rows bear out.
unfoldable IsAnswer : RecoveryStatus → Operation → Type 0
IsAnswer saved o = (o.fingerprint =ₜ cancelled_fingerprint) ≡ false
IsAnswer cancelled o = (o.fingerprint =ₜ cancelled_fingerprint) ≡ true

is_saved :
    (status : RecoveryStatus) (o : Operation)
    → IsAnswer status o
    → (o.fingerprint =ₜ cancelled_fingerprint) ≡ false
    → status ≡ saved
unfolding IsAnswer
is_saved saved o a live = refl
is_saved cancelled o a live = cc

recover_records :
    (context : Context) (input : Recovery) (b : Branch) {status : RecoveryStatus} {d : Branch}
    → recover_operation context input (some b) ≡ ok (status, d)
    → (o : Operation) × (operation_of input.operation_id d.operations ≡ some o) × IsAnswer status o
unfolding IsAnswer
recover_records context input b h =
    let m = (recover-done context input (some b)).at h in records m.branch m.recovered
  where
    records :
        (c : Branch) {user : Staff} {answer : RecoveryStatus × Branch}
        → Recovered input user c answer
        → (o : Operation) × (operation_of input.operation_id answer.1.operations ≡ some o)
          × IsAnswer answer.0 o
    records c (buried n) = (
      tombstone input c,
      operation_of-append_new input.operation_id c.operations _ n
          (test_of_eq input.operation_id input.operation_id refl),
      refl,
    )
    records c (known_cancelled o n f) = (o, n, f)
    records c (known_saved o n f) = (o, n, f)

-- A recovery is final: once `recoverOperation` has answered, and whatever calls follow, a call of
-- `mutate` with the operation id that returns leaves the branch as it is, and it returns only if the
-- answer was `saved`: after the answer `cancelled` every such call throws.
pub recovery_final :
    (context context' : Context) (input : Recovery) (input' : Mutation) (b : Branch)
    {status : RecoveryStatus} {b' c d : Branch}
    → recover_operation context input (some b) ≡ ok (status, b')
    → Later b' c
    → input'.operation_id ≡ input.operation_id
    → mutate context' input' (some c) ≡ ok d
    → (status ≡ saved) × (d ≡ c)
recovery_final context context' input input' b {status} {c = c} h l e h' =
    let (o, r, a) = recover_records context input b h in
    let (same, live) =
      mutate_repeats context' input' c o h' (rw e (Later-keeps input.operation_id o l r)) in
    (is_saved status o a live, same)
