-- ===== src/Server/WorkGate/Service.antt =====
-- Whom the end of a job lets in.
use poker_management_system.Common.{
  ℕ, suc, ◌-◌, ◌≤◌, ◌<◌, ◌≡◌, ap, List, [], ◌∷◌, ◌++◌, length, map, arith, leb, true, false, ◌∙◌,
}
use poker_management_system.Server.WorkGate.{
  Pending, Gate, Effect, started, refused, Served, serve, settle,
}

-- The deadlines of these have passed when they are looked at.
abbrev pub AreLate : (ℕ → ℕ) → List Pending → Type 0
AreLate clock [] = Unit
AreLate clock (p ∷ ps) = (p.deadline ≤ clock 0) × AreLate (λ k. clock (suc k)) ps

abbrev pub refusals : List Pending → List Effect
refusals late = map (λ p. refused p.job) late

serve_lem :
    (clock : ℕ → ℕ) (late : List Pending) (p : Pending) (rest : List Pending)
    → AreLate clock late
    → clock (length late) < p.deadline
    → serve clock (late ++ (p ∷ rest))
      ≡ record { rest = rest; effects = refusals late ++ (started p.job ∷ []); starts = true }
unfolding serve
serve_lem clock [] p rest l h =
    let soon : leb p.deadline (clock 0) ≡ false = ground arith in rw soon
serve_lem clock (x ∷ late) p rest (l, ls) h =
    let past : leb x.deadline (clock 0) ≡ true = ground arith in
    rw past (
      ap (λ (s : Served). record s { effects = refused x.job ∷ s.effects })
        (serve_lem (λ k. clock (suc k)) late p rest ls h))

-- The end of a job starts the first of those that wait whose deadline has not passed, refuses all
-- before it, whose deadlines have, leaves those behind it waiting, and keeps the number of the
-- running jobs.
pub settle_serves_next :
    (clock : ℕ → ℕ) (g : Gate) (late : List Pending) (p : Pending) (rest : List Pending)
    → g.queue ≡ late ++ (p ∷ rest)
    → AreLate clock late
    → clock (length late) < p.deadline
    → 0 < g.active
    → settle clock g ≡ (record g { queue = rest }, refusals late ++ (started p.job ∷ []))
unfolding settle
settle_serves_next clock g late p rest q l h running =
    let served = ap (serve clock) q ∙ serve_lem clock late p rest l h in
    let same : suc (g.active - 1) ≡ g.active = omega arith in rw (served, same)
