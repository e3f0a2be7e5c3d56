-- ===== src/Server/WorkGate/Order.antt =====
-- Calls start in the order in which they came, and each has exactly one fate.
use mathlib.Core.List.{append_assoc, append-nil}
use poker_management_system.Common.{
  ℕ, suc, ◌+◌, ◌<◌, ◌≡◌, refl, sym, ap, ap₂, ◌∙◌, ◌&&◌, length, ◌⊎◌, inl, inr, List, [], ◌∷◌, ◌++◌,
  any, All, Pairwise, arith, Bool-cases, ◌==◌, map, ltb, leb, subst,
}
use poker_management_system.Common.Result.{ok}
use poker_management_system.Common.Lists.Laws.{All-map}
use poker_management_system.Server.WorkGate.{
  WorkLimits, Pending, Gate, Effect, started, refused, Event, calls_run, settles, times_out,
  create_work_gate, run, serve, settle, splice, time_out, handle, Reached, created, happens,
}
use poker_management_system.Server.WorkGate.Bounds.{IsBounded, Reached-IsReached}

-- `xs` is left of `ys` when some elements are dropped.
data Left : List ℕ → List ℕ → Type 0 where
  none_left : Left [] []
  keeps : (x : ℕ) {xs ys : List ℕ} → Left xs ys → Left (x ∷ xs) (x ∷ ys)
  drops : (y : ℕ) {xs ys : List ℕ} → Left xs ys → Left xs (y ∷ ys)

Left-refl : (xs : List ℕ) → Left xs xs
Left-refl [] = none_left
Left-refl (x ∷ xs) = keeps x (Left-refl xs)

Left-append : (zs : List ℕ) {xs ys : List ℕ} → Left xs ys → Left (zs ++ xs) (zs ++ ys)
Left-append [] l = l
Left-append (z ∷ zs) l = keeps z (Left-append zs l)

All-Left : (P : ℕ → Type 0) {xs ys : List ℕ} → Left xs ys → All P ys → All P xs
All-Left P none_left a = tt
All-Left P (keeps x l) a = (a.0, All-Left P l a.1)
All-Left P (drops y l) a = All-Left P l a.1

Pairwise-Left : {xs ys : List ℕ} → Left xs ys → Pairwise ◌<◌ ys → Pairwise ◌<◌ xs
Pairwise-Left none_left a = tt
Pairwise-Left (keeps x l) a = (All-Left (◌<◌ x) l a.0, Pairwise-Left l a.1)
Pairwise-Left (drops y l) a = Pairwise-Left l a.1

abbrev pub starts_of : List Effect → List ℕ
starts_of [] = []
starts_of (started job ∷ log) = job ∷ starts_of log
starts_of (refused job ∷ log) = starts_of log

abbrev pub jobs_of : List Pending → List ℕ
jobs_of queue = map (λ p. p.job) queue

-- Whoever has started, and then whoever waits, stands in the order of the calls.
pub record IsFifo (g : Gate) (log : List Effect) : Type 0 where
  pub ordered : Pairwise ◌<◌ (starts_of log ++ jobs_of g.queue)
  pub numbered : All (λ job. job < g.calls) (starts_of log ++ jobs_of g.queue)

starts_of-append : (xs ys : List Effect) → starts_of (xs ++ ys) ≡ starts_of xs ++ starts_of ys
starts_of-append [] ys = refl
starts_of-append (started j ∷ xs) ys = ap (◌∷◌ j) (starts_of-append xs ys)
starts_of-append (refused j ∷ xs) ys = starts_of-append xs ys

serve-Left :
    (clock : ℕ → ℕ) (xs : List Pending)
    → Left (starts_of (serve clock xs).effects ++ jobs_of (serve clock xs).rest) (jobs_of xs)
unfolding serve
serve-Left clock [] = none_left
serve-Left clock (x ∷ xs) = elim (Bool-cases (leb x.deadline (clock 0))) [
  | inl late ↦ rw late (drops x.job (serve-Left (λ k. clock (suc k)) xs))
  | inr soon ↦ rw soon (Left-refl (x.job ∷ jobs_of xs))
]

splice-Left : (job : ℕ) (xs : List Pending) → Left (jobs_of (splice job xs)) (jobs_of xs)
unfolding splice
splice-Left job [] = none_left
splice-Left job (x ∷ xs) = elim (Bool-cases (x.job == job)) [
  | inl e ↦ rw e (drops x.job (Left-refl (jobs_of xs)))
  | inr e ↦ rw e (keeps x.job (splice-Left job xs))
]

-- A new number is above all of them.
append-new :
    (n : ℕ) (xs : List ℕ)
    → All (λ job. job < n) xs
    → Pairwise ◌<◌ xs
    → Pairwise ◌<◌ (xs ++ (n ∷ [])) × All (λ job. job < suc n) (xs ++ (n ∷ []))
append-new n [] a p = ((tt, tt), (omega arith, tt))
append-new n (x ∷ xs) (a, as') (p, ps) =
    let (q, b) = append-new n xs as' ps in ((above x xs a p, q), (omega arith, b))
  where
    above : (x : ℕ) (ys : List ℕ) → x < n → All (◌<◌ x) ys → All (◌<◌ x) (ys ++ (n ∷ []))
    above x [] l c = (l, tt)
    above x (y ∷ ys) l (c, cs) = (c, above x ys l cs)

jobs_of-append :
    (xs : List Pending) (p : Pending) → jobs_of (xs ++ (p ∷ [])) ≡ jobs_of xs ++ (p.job ∷ [])
jobs_of-append [] p = refl
jobs_of-append (x ∷ xs) p = ap (◌∷◌ x.job) (jobs_of-append xs p)

weaken : (n : ℕ) (xs : List ℕ) → All (λ job. job < n) xs → All (λ job. job < suc n) xs
weaken n xs = All-map _ (λ x h. omega arith) xs

module _ (g : Gate) (log : List Effect) (f : IsFifo g log) where
  abbrev line : List ℕ
  line = starts_of log ++ jobs_of g.queue

  -- The line after some of its members have left.
  fewer :
      (g' : Gate) (effects : List Effect)
      → g.calls ≡ g'.calls
      → Left (starts_of effects ++ jobs_of g'.queue) (jobs_of g.queue)
      → IsFifo g' (log ++ effects)
  fewer g' effects n l =
      let e = starts_of-append log effects in
      let left = Left-append (starts_of log) l in
      let whole =
        ap (λ (js : List ℕ). js ++ jobs_of g'.queue) e
        ∙ append_assoc (starts_of log) (starts_of effects) (jobs_of g'.queue) in
      record {
        ordered = subst (Pairwise ◌<◌) (sym whole) (Pairwise-Left left f.ordered);
        numbered = subst (All (λ job. job < g'.calls)) (sym whole) (
            All-Left (λ job. job < g'.calls) left
              (subst (λ m. All (λ job. job < m) line) n f.numbered));
      }

  -- The line when the next call has been refused, or has joined it at the end.
  grown :
      (g' : Gate) (effects : List Effect)
      → g'.calls ≡ suc g.calls
      → (starts_of (log ++ effects) ++ jobs_of g'.queue ≡ line)
        ⊎ (starts_of (log ++ effects) ++ jobs_of g'.queue ≡ line ++ (g.calls ∷ []))
      → IsFifo g' (log ++ effects)
  grown g' effects n (inl e) = record {
    ordered = subst (Pairwise ◌<◌) (sym e) f.ordered;
    numbered = rw (e, n) (weaken g.calls line f.numbered);
  }
  grown g' effects n (inr e) =
      let (o, b) = append-new g.calls line f.numbered f.ordered in
      record { ordered = subst (Pairwise ◌<◌) (sym e) o; numbered = rw (e, n) b }

  run-IsFifo :
      (limits : WorkLimits) (now : ℕ)
      → IsBounded limits g
      → IsFifo (run now g).0 (log ++ (run now g).1)
  unfolding run
  run-IsFifo limits now b =
      elim (Bool-cases (leb g.active_limit g.active && leb g.queued_limit (length g.queue))) [
        | inl full ↦ rw full (
            grown _ _ refl (
              inl (
                ap (λ (js : List ℕ). js ++ jobs_of g.queue)
                  (starts_of-append log (refused g.calls ∷ []) ∙ append-nil (starts_of log)))))
        | inr room ↦ elim (Bool-cases (ltb g.active g.active_limit)) [
          | inl free ↦
              let limit = ap (λ (l : WorkLimits). l.active_limit) b.same_limits in
              let empty : g.queue ≡ [] = ground (arith, b.busy) in
              rw (room, free)
                (grown _ _ refl (
                  inr (
                    rw empty (
                      append-nil (starts_of (log ++ (started g.calls ∷ [])))
                      ∙ starts_of-append log (started g.calls ∷ [])
                      ∙ ap (λ (js : List ℕ). js ++ (g.calls ∷ []))
                          (sym (append-nil (starts_of log)))))))
          | inr busy ↦
              let p : Pending = record { job = g.calls; deadline = now + g.wait_ms } in
              rw (room, busy)
                (grown _ _ refl (
                  inr (
                    ap₂ ◌++◌ (starts_of-append log [] ∙ append-nil (starts_of log))
                      (jobs_of-append g.queue p)
                    ∙ sym (append_assoc (starts_of log) (jobs_of g.queue) (g.calls ∷ [])))))
        ]
      ]

  handle-IsFifo :
      (limits : WorkLimits) (e : Event)
      → IsBounded limits g
      → IsFifo (handle e g).0 (log ++ (handle e g).1)
  unfolding handle settle time_out
  handle-IsFifo limits (calls_run now) b = run-IsFifo limits now b
  handle-IsFifo limits (settles clock) b = fewer _ _ refl (serve-Left clock g.queue)
  handle-IsFifo limits (times_out job) b = elim (Bool-cases (any (λ p. p.job == job) g.queue)) [
    | inl y ↦ rw y (fewer _ _ refl (splice-Left job g.queue))
    | inr n ↦ rw n (fewer _ _ refl (Left-refl (jobs_of g.queue)))
  ]

created-IsFifo : (limits : WorkLimits) (g : Gate) → create_work_gate limits ≡ ok g → IsFifo g []
unfolding create_work_gate
created-IsFifo limits g h =
    let q : g.queue ≡ [] = ground arith in record { ordered = rw q tt; numbered = rw q tt }

-- The gate is first come, first served: in every state that a new gate reaches, the calls whose work
-- has started, in the order of their starts, and then those that wait, in the order of the queue,
-- are in the order in which they were made, and each is there once.
pub Reached-IsFifo :
    {limits : WorkLimits} {g : Gate} {log : List Effect} {ended : ℕ}
    → Reached limits g log ended
    → IsFifo g log
Reached-IsFifo {limits} (created g h) = created-IsFifo limits g h
Reached-IsFifo {limits} (happens g log n e r h) =
    handle-IsFifo g log (Reached-IsFifo r) limits e (Reached-IsReached r).bounds
