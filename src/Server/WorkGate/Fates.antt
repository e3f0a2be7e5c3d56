-- ===== src/Server/WorkGate/Fates.antt =====
-- Every call has one fate: it waits, has started, or has been refused.
use poker_management_system.Common.{
  ℕ, suc, ◌+◌, ◌≡◌, refl, inl, inr, true, List, [], ◌∷◌, ◌++◌, any, arith, Bool-cases,
  if◌then◌else◌, ◌==◌, ltb, leb,
}
use poker_management_system.Common.Result.{ok}
use poker_management_system.Server.WorkGate.{
  WorkLimits, Pending, Gate, Effect, started, refused, Event, calls_run, settles, times_out,
  create_work_gate, run, serve, settle, splice, time_out, handle, Reached, created, happens,
}

-- How often a call is named by the effects, and in the queue.
abbrev pub settled_fates : ℕ → List Effect → ℕ
settled_fates job [] = 0
settled_fates job (started j ∷ log) = (if j == job then 1 else 0) + settled_fates job log
settled_fates job (refused j ∷ log) = (if j == job then 1 else 0) + settled_fates job log

abbrev pub waiting_fates : ℕ → List Pending → ℕ
waiting_fates job [] = 0
waiting_fates job (p ∷ queue) = (if p.job == job then 1 else 0) + waiting_fates job queue

settled_fates-append :
    (job : ℕ) (xs ys : List Effect)
    → settled_fates job (xs ++ ys) ≡ settled_fates job xs + settled_fates job ys
settled_fates-append job [] ys = omega arith
settled_fates-append job (started j ∷ xs) ys = omega (arith, settled_fates-append job xs ys)
settled_fates-append job (refused j ∷ xs) ys = omega (arith, settled_fates-append job xs ys)

waiting_fates-append :
    (job : ℕ) (xs : List Pending) (p : Pending)
    → waiting_fates job (xs ++ (p ∷ [])) ≡ waiting_fates job xs + (if p.job == job then 1 else 0)
waiting_fates-append job [] p = omega arith
waiting_fates-append job (x ∷ xs) p = omega (arith, waiting_fates-append job xs p)

serve-fates :
    (job : ℕ) (clock : ℕ → ℕ) (xs : List Pending)
    → settled_fates job (serve clock xs).effects + waiting_fates job (serve clock xs).rest
      ≡ waiting_fates job xs
unfolding serve
serve-fates job clock [] = refl
serve-fates job clock (x ∷ xs) = elim (Bool-cases (leb x.deadline (clock 0))) [
  | inl late ↦ rw late (omega (arith, serve-fates job (λ k. clock (suc k)) xs))
  | inr soon ↦ rw soon (omega arith)
]

splice-fates :
    (job other : ℕ) (xs : List Pending)
    → any (λ p. p.job == other) xs ≡ true
    → (if other == job then 1 else 0) + waiting_fates job (splice other xs) ≡ waiting_fates job xs
unfolding splice
splice-fates job other [] h = cc
splice-fates job other (x ∷ xs) h = ground (arith, splice-fates job other xs)

abbrev fates : ℕ → Gate → List Effect → ℕ
fates job g log = settled_fates job log + waiting_fates job g.queue

-- A call adds its own number, and nothing else adds or drops one.
handle-fates :
    (job : ℕ) (g : Gate) (e : Event)
    → fates job (handle e g).0 (handle e g).1 + (if ltb job g.calls then 1 else 0)
      ≡ waiting_fates job g.queue + (if ltb job (handle e g).0.calls then 1 else 0)
unfolding handle run settle time_out
handle-fates job g (calls_run now) =
    let p : Pending = record { job = g.calls; deadline = now + g.wait_ms } in
    ground (arith, waiting_fates-append job g.queue p)
handle-fates job g (settles clock) = omega (arith, serve-fates job clock g.queue)
handle-fates job g (times_out other) = ground (arith, splice-fates job other g.queue)

created-fates :
    (job : ℕ) (limits : WorkLimits) (g : Gate)
    → create_work_gate limits ≡ ok g
    → (g.queue ≡ []) × (g.calls ≡ 0)
unfolding create_work_gate
created-fates job limits g h = ground arith

-- No call is lost and none is settled twice: in every state that a new gate reaches, a call that has
-- been made stands exactly once among those that wait, have started or have been refused, and any
-- other number does not stand there.
pub Reached-one_fate :
    (job : ℕ) {limits : WorkLimits} {g : Gate} {log : List Effect} {ended : ℕ}
    → Reached limits g log ended
    → settled_fates job log + waiting_fates job g.queue ≡ (if ltb job g.calls then 1 else 0)
Reached-one_fate job {limits} (created g h) =
    let (q, n) = created-fates job limits g h in rw (q, n) (ground arith)
Reached-one_fate job (happens g log n e r h) = omega (
  arith,
  Reached-one_fate job r,
  settled_fates-append job log (handle e g).1,
  handle-fates job g e,
)
