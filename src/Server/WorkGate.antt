-- ===== src/Server/WorkGate.antt =====
-- `createWorkGate` of src/server/password-work.ts, lines 53 to 123: a bounded queue for slow work.
-- A call of `run` is numbered; the number stands for the closures `start` and `expire` and for the
-- timer. The promise of a call settles through an effect. `performance.now()` is an argument.
pub mod Bounds
pub mod Order
pub mod Fates
pub mod Service
mod Tests
use poker_management_system.Common.{
  ℕ, suc, ◌+◌, ◌-◌, ◌<◌, ◌≡◌, String, Bool, true, false, ◌&&◌, ◌||◌, Option, none, some, List, [],
  ◌∷◌, ◌++◌, length, any, filter, ltb, leb, ◌==◌, not, if◌then◌else◌,
}
use poker_management_system.Common.Result.{Result, ok, err, plain}

pub record WorkLimits : Type 0 where
  pub active_limit : ℕ
  pub queued_limit : ℕ
  pub wait_ms : ℕ

-- An entry of the queue.
pub record Pending : Type 0 where
  pub job : ℕ
  pub deadline : ℕ

-- The variables of the closure, and the number of the next call.
pub record Gate : Type 0 where
  pub limits : WorkLimits
  pub open limits use *
  pub active : ℕ
  pub queue : List Pending
  pub calls : ℕ

-- What happens to a call: its work starts, or its promise is rejected with `busy()`.
pub data Effect : Type 0 where
  started : ℕ → Effect
  refused : ℕ → Effect

unfoldable pub create_work_gate : WorkLimits → Result Gate
create_work_gate limits =
    if ltb limits.active_limit 1 || ltb limits.wait_ms 1
    then err (plain "Use positive work limits and a nonnegative queue size.")
    else ok (record { limits = limits; active = 0; queue = []; calls = 0 })

-- `run(work)` at the time `now`
unfoldable pub run : ℕ → Gate → Gate × List Effect
run now g =
    let next = record g { calls = suc g.calls } in
    if leb g.active_limit g.active && leb g.queued_limit (length g.queue)
    then (next, refused g.calls ∷ [])
    else if ltb g.active g.active_limit
    then (record next { active = suc g.active }, started g.calls ∷ [])
    else (
      record next {
        queue = g.queue ++ (record { job = g.calls; deadline = now + g.wait_ms } ∷ []);
      },
      [],
    )

-- The loop over `queue.shift()`; `clock k` is the k-th reading of the time. It leaves the rest of the
-- queue, what happened, and whether a job was started.
pub record Served : Type 0 where
  pub rest : List Pending
  pub effects : List Effect
  pub starts : Bool

unfoldable pub serve : (ℕ → ℕ) → List Pending → Served
serve clock [] = record { rest = []; effects = []; starts = false }
serve clock (p ∷ queue) =
    let later = serve (λ k. clock (suc k)) queue in
    if leb p.deadline (clock 0)
    then record later { effects = refused p.job ∷ later.effects }
    else record { rest = queue; effects = started p.job ∷ []; starts = true }

-- The `finally` of a job that has run.
unfoldable pub settle : (ℕ → ℕ) → Gate → Gate × List Effect
settle clock g =
    let s = serve clock g.queue in
    (
      record g { active = if s.starts then suc (g.active - 1) else g.active - 1; queue = s.rest },
      s.effects,
    )

-- `queue.splice(queue.indexOf(pending), 1)`
unfoldable pub splice : ℕ → List Pending → List Pending
splice job [] = []
splice job (p ∷ queue) = if p.job == job then queue else p ∷ splice job queue

-- The timer of a queued call.
unfoldable pub time_out : ℕ → Gate → Gate × List Effect
unfolding splice
time_out job g =
    if any (λ p. p.job == job) g.queue
    then (record g { queue = splice job g.queue }, refused job ∷ [])
    else (g, [])

-- The events of the program: a call, the end of a running job, a timer.
pub data Event : Type 0 where
  calls_run : ℕ → Event
  settles : (ℕ → ℕ) → Event
  times_out : ℕ → Event

unfoldable pub handle : Event → Gate → Gate × List Effect
unfolding run settle time_out
handle (calls_run now) g = run now g
handle (settles clock) g = settle clock g
handle (times_out job) g = time_out job g

-- A job can end only while one is running.
abbrev pub CanHappen : Event → Gate → Type 0
CanHappen (settles clock) g = 0 < g.active
CanHappen (calls_run now) g = Unit
CanHappen (times_out job) g = Unit

abbrev pub ends : Event → ℕ
ends (settles clock) = 1
ends (calls_run now) = 0
ends (times_out job) = 0

-- What can be reached from a new gate, with all that has happened, in order, and the number of jobs
-- that have ended.
pub data Reached (limits : WorkLimits) : Gate → List Effect → ℕ → Type 0 where
  created : (g : Gate) → create_work_gate limits ≡ ok g → Reached limits g [] 0
  happens :
      (g : Gate) (log : List Effect) (ended : ℕ) (e : Event)
      → Reached limits g log ended
      → CanHappen e g
      → Reached limits (handle e g).0 (log ++ (handle e g).1) (ended + ends e)
