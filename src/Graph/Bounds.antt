-- ===== src/Graph/Bounds.antt =====
-- The runner always returns, within its step limit.
use souz_go.Prelude.{
  ℕ, zero, suc, ◌+◌, ◌≤◌, ◌<◌, ◌≡◌, ◌≢◌, refl, Option, none, some, List, [], ◌∷◌, Error, ℤ, arith,
}
use souz_go.Graph.Defs.{Node, Definition}
use souz_go.Graph.Runner.{
  RetryPolicy, StepInfo, Frame, Outcome, Progress, Round, return_, continue_, resume, run_round,
  drain, run, step_limit_or_default,
}

resume-ne-none :
    {W V : Type 0} (rest : Progress W V → Option (W × Outcome V)) (r : Round W V)
    → ((p : Progress W V) → r ≡ continue_ p → rest p ≢ none)
    → resume rest r ≢ none
resume-ne-none rest (return_ w o) h = λ e. cc
resume-ne-none rest (continue_ p) h = h p refl

some_of-ne-none {ℓ} : {A : Type ℓ} (o : Option A) → o ≢ none → (a : A) × (o ≡ some a)
some_of-ne-none none h = absurd (h refl)
some_of-ne-none (some a) h = (a, refl)

module _ {W V : Type 0} (ctx_err : W → Option Error) (def : Definition W V) (limit : ℕ)
    (policy : RetryPolicy W V) (on_step : Option (W → StepInfo → Node W V → V → V → W)) where
  -- A run_round that goes on was below the limit, and counts one step.
  run_round-continue_ :
      (step : ℕ) (last : Option V) (f : Frame W V) (queue : List (Frame W V)) (w : W)
      (p : Progress W V)
      → run_round ctx_err def limit policy on_step step last f queue w ≡ continue_ p
      → (p.step ≡ suc step) × (step < limit)
  unfolding run_round
  run_round-continue_ step last f queue w p h = ground arith

  -- Enough fuel for the steps that are left gives a result.
  pub drain-ne-none :
      (fuel step : ℕ) (last : Option V) (queue : List (Frame W V)) (w : W)
      → step ≤ limit
      → limit < fuel + step
      → drain ctx_err def limit policy on_step fuel step last queue w ≢ none
  unfolding drain
  drain-ne-none zero step last queue w k h = absurd (omega arith)
  drain-ne-none (suc fuel) step last [] w k h = λ e. cc
  drain-ne-none (suc fuel) step last (f ∷ queue) w k h = resume-ne-none _ _ λ p e.
      let (counted, below) = run_round-continue_ step last f queue w p e in
      drain-ne-none fuel p.step p.last p.queue p.world (omega arith) (omega arith)

-- Run returns, for every graph, node, policy and callback: the step limit ends every run.
pub run_total :
    {W V : Type 0} (ctx_err : W → Option Error) (start : Node W V) (seed : V) (def : Definition W V)
    (step_limit : ℤ) (policy : RetryPolicy W V)
    (on_step : Option (W → StepInfo → Node W V → V → V → W)) (w : W)
    → (r : W × Outcome V) × (run ctx_err start seed def step_limit policy on_step w ≡ some r)
unfolding run
run_total ctx_err start seed def step_limit policy on_step w = some_of-ne-none _ (
    drain-ne-none ctx_err def (step_limit_or_default step_limit) policy on_step
      (suc (step_limit_or_default step_limit)) 0 none
      (record { node = start; input = seed; depth = 0 } ∷ []) w (omega arith) (omega arith))
