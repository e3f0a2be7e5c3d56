-- ===== src/Server/WorkGate/Bounds.antt =====
-- The gate keeps its limits, and nobody waits while there is room.
use poker_management_system.Common.{
  ℕ, suc, ◌+◌, ◌≤◌, ◌≡◌, refl, ap, ◌⊎◌, inr, true, List, [], ◌∷◌, ◌++◌, length, arith,
  if◌then◌else◌,
}
use poker_management_system.Common.Result.{ok}
use poker_management_system.Server.WorkGate.{
  WorkLimits, Pending, Gate, Effect, started, refused, Event, ends, calls_run, settles, times_out,
  create_work_gate, run, serve, settle, splice, time_out, handle, CanHappen, Reached, created,
  happens,
}

pub record IsBounded (limits : WorkLimits) (g : Gate) : Type 0 where
  pub same_limits : g.limits ≡ limits
  pub positive : 1 ≤ limits.active_limit
  pub running : g.active ≤ limits.active_limit
  pub waiting : length g.queue ≤ limits.queued_limit
  pub busy : (g.queue ≡ []) ⊎ (g.active ≡ limits.active_limit)

-- The jobs that have started.
abbrev pub starts_in : List Effect → ℕ
starts_in [] = 0
starts_in (started job ∷ log) = suc (starts_in log)
starts_in (refused job ∷ log) = starts_in log

starts_in-append : (xs ys : List Effect) → starts_in (xs ++ ys) ≡ starts_in xs + starts_in ys
starts_in-append [] ys = omega arith
starts_in-append (started j ∷ xs) ys = omega (arith, starts_in-append xs ys)
starts_in-append (refused j ∷ xs) ys = omega (arith, starts_in-append xs ys)

length-append_one : (xs : List Pending) (x : Pending) → length (xs ++ (x ∷ [])) ≡ suc (length xs)
length-append_one [] x = refl
length-append_one (y ∷ xs) x = omega (arith, length-append_one xs x)

length-splice : (job : ℕ) (xs : List Pending) → length (splice job xs) ≤ length xs
unfolding splice
length-splice job [] = omega arith
length-splice job (x ∷ xs) = ground (arith, length-splice job xs)

-- If the loop starts nothing, it has emptied the queue.
serve_rest :
    (clock : ℕ → ℕ) (xs : List Pending)
    → (length (serve clock xs).rest ≤ length xs)
      × (((serve clock xs).starts ≡ true) ⊎ ((serve clock xs).rest ≡ []))
unfolding serve
serve_rest clock [] = (omega arith, inr refl)
serve_rest clock (x ∷ xs) = ground (arith, serve_rest (λ k. clock (suc k)) xs)

splice-empty : (job : ℕ) (xs : List Pending) → xs ≡ [] → splice job xs ≡ []
unfolding splice
splice-empty job [] h = refl
splice-empty job (x ∷ xs) h = cc

handle-IsBounded :
    (limits : WorkLimits) (g : Gate) (e : Event)
    → CanHappen e g
    → IsBounded limits g
    → IsBounded limits (handle e g).0
unfolding handle run settle time_out
handle-IsBounded limits g (calls_run now) h b =
    let a = ap (λ (l : WorkLimits). l.active_limit) b.same_limits in
    let q = ap (λ (l : WorkLimits). l.queued_limit) b.same_limits in
    let p : Pending = record { job = g.calls; deadline = now + g.wait_ms } in
    ground (arith, length-append_one g.queue p)
handle-IsBounded limits g (settles clock) h b = ground (arith, serve_rest clock g.queue)
handle-IsBounded limits g (times_out job) h b =
    ground (arith, length-splice job g.queue, splice-empty job g.queue)

created-IsBounded :
    (limits : WorkLimits) (g : Gate) → create_work_gate limits ≡ ok g → IsBounded limits g
unfolding create_work_gate
created-IsBounded limits g h = ground arith

serve_starts :
    (clock : ℕ → ℕ) (xs : List Pending)
    → starts_in (serve clock xs).effects ≡ (if (serve clock xs).starts then 1 else 0)
unfolding serve
serve_starts clock [] = refl
serve_starts clock (x ∷ xs) = ground (arith, serve_starts (λ k. clock (suc k)) xs)

-- A step adds as many running jobs as start, less the one that ends.
handle_starts :
    (g : Gate) (e : Event)
    → CanHappen e g
    → starts_in (handle e g).1 + g.active ≡ (handle e g).0.active + ends e
unfolding handle run settle time_out
handle_starts g (calls_run now) h = ground arith
handle_starts g (settles clock) h = ground (arith, serve_starts clock g.queue)
handle_starts g (times_out job) h = ground arith

pub record IsReached (limits : WorkLimits) (g : Gate) (log : List Effect) (ended : ℕ) : Type 0 where
  pub bounds : IsBounded limits g
  pub counted : starts_in log ≡ g.active + ended

-- In every state that a new gate reaches, the jobs that have started are those that have ended and
-- `active` more; at most the limit of jobs is running, at most the limit of calls is waiting, and a
-- call waits only while the limit of jobs is running.
pub Reached-IsReached :
    {limits : WorkLimits} {g : Gate} {log : List Effect} {ended : ℕ}
    → Reached limits g log ended
    → IsReached limits g log ended
unfolding create_work_gate
Reached-IsReached {limits} (created g h) = record {
  bounds = created-IsBounded limits g h;
  counted = ground arith;
}
Reached-IsReached {limits} (happens g log n e r h) =
    let before = Reached-IsReached r in
    record {
      bounds = handle-IsBounded limits g e h before.bounds;
      counted =
          omega (arith, before.counted, starts_in-append log (handle e g).1, handle_starts g e h);
    }
