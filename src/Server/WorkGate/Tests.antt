-- ===== src/Server/WorkGate/Tests.antt =====
-- A gate for one running and one waiting job: the second call waits, the third is refused, and the
-- end of the first job lets the second in.
use poker_management_system.Common.{◌+◌, ◌≡◌, refl, List, [], ◌∷◌, ◌++◌, arith, if◌then◌else◌, ltb}
use poker_management_system.Server.WorkGate.{
  WorkLimits, Gate, Effect, started, refused, Event, calls_run, settles, create_work_gate, run,
  settle, handle, serve, Reached, created, happens,
}
use poker_management_system.Server.WorkGate.Bounds.{IsReached, Reached-IsReached}
use poker_management_system.Server.WorkGate.Order.{IsFifo, Reached-IsFifo}
use poker_management_system.Server.WorkGate.Fates.{settled_fates, waiting_fates, Reached-one_fate}
use poker_management_system.Server.WorkGate.Service.{settle_serves_next}

abbrev narrow : WorkLimits
narrow = record { active_limit = 1; queued_limit = 1; wait_ms = 5 }

abbrev fresh : Gate
fresh = record { limits = narrow; active = 0; queue = []; calls = 0 }

fresh-Reached : Reached narrow fresh [] 0
unfolding create_work_gate
fresh-Reached = created fresh refl

-- The next state, and the log, computed.
abbrev after : Event → Gate → Gate
after e g = (handle e g).0

abbrev log_after : Event → Gate → List Effect
log_after e g = (handle e g).1

abbrev one : Gate
one = after (calls_run 0) fresh

abbrev two : Gate
two = after (calls_run 1) one

abbrev three : Gate
three = after (calls_run 2) two

abbrev four : Gate
four = after (settles (λ k. 3)) three

abbrev whole_log : List Effect
whole_log =
    ((([] ++ log_after (calls_run 0) fresh) ++ log_after (calls_run 1) one)
      ++ log_after (calls_run 2) two)
    ++ log_after (settles (λ k. 3)) three

three-Reached :
    Reached narrow three
      ((([] ++ log_after (calls_run 0) fresh) ++ log_after (calls_run 1) one)
        ++ log_after (calls_run 2) two)
      (((0 + 0) + 0) + 0)
three-Reached =
    happens two _ _ (calls_run 2)
      (happens one _ _ (calls_run 1) (happens fresh [] 0 (calls_run 0) fresh-Reached tt) tt) tt

four-Reached : Reached narrow four whole_log ((((0 + 0) + 0) + 0) + 1)
unfolding handle run
four-Reached = happens three _ _ (settles (λ k. 3)) three-Reached (omega arith)

whole_log_lem : whole_log ≡ started 0 ∷ refused 2 ∷ started 1 ∷ []
unfolding handle run settle serve
whole_log_lem = refl

Reached-IsReached_example : IsReached narrow four whole_log ((((0 + 0) + 0) + 0) + 1)
Reached-IsReached_example = Reached-IsReached four-Reached

Reached-IsFifo_example : IsFifo four whole_log
Reached-IsFifo_example = Reached-IsFifo four-Reached

Reached-one_fate_example :
    settled_fates 1 whole_log + waiting_fates 1 four.queue ≡ (if ltb 1 four.calls then 1 else 0)
Reached-one_fate_example = Reached-one_fate 1 four-Reached

settle_serves_next_example :
    settle (λ k. 3) three ≡ (record three { queue = [] }, [] ++ (started 1 ∷ []))
unfolding handle run
settle_serves_next_example =
    settle_serves_next (λ k. 3) three [] (record { job = 1; deadline = 6 }) [] refl tt (omega arith)
      (omega arith)
