-- ===== src/Graph/Cost.antt =====
-- What a run may cost: an upper bound on the work that the step limit and the retry policy allow.
use souz_go.Prelude.{
  ℕ, zero, suc, ◌+◌, ◌-◌, ◌*◌, ◌≤◌, ◌<◌, ◌≡◌, ◌⊎◌, refl, inl, inr, ap, Option, none, some, List, [],
  ◌∷◌, Error, Result, ℤ, arith, All, All-append, Bool-cases, Bool, true, false, leb,
}
use native.Mathlib.Nat.{le_refl}
use souz_go.Graph.Defs.{Node, Definition, ConditionalEdge, followed, enabled, next_nodes}
use souz_go.Graph.Runner.{
  RetryPolicy, StepInfo, Frame, Outcome, Progress, Round, return_, continue_, resume, frames,
  notify, attempts_or_default, attempt_loop, execute_with_retry, settle, run_round, drain, run,
  step_limit_or_default,
}
use souz_go.Graph.Retry.{attempts_positive}

-- One step takes one allowance off what is left.
room_step : (a l s : ℕ) → s < l → a + (l - suc s) * a ≡ (l - s) * a
room_step a l s h = let e : l - s ≡ suc (l - suc s) = omega arith in rw e (omega arith)

sub_zero : (n : ℕ) → n - 0 ≡ n
sub_zero n = omega arith

module _ {W V : Type 0} (cost : W → ℕ) where
  -- An execution of the node raises the cost by one at most.
  abbrev pub IsCheap : Node W V → Type 0
  IsCheap n = (w : W) (v : V) → cost (n.exec w v).0 ≤ cost w + 1

  -- Every node that an edge leads to is such a node.
  abbrev pub HasCheapEdges : Definition W V → Type 0
  HasCheapEdges d = (p : ℕ) → All (λ (e : ConditionalEdge W V). IsCheap e.to) (d.edges p)

  abbrev CheapFrames : List (Frame W V) → Type 0
  CheapFrames = All (λ (f : Frame W V). IsCheap f.node)

  module _ (ctx_err : W → Option Error) (policy : RetryPolicy W V) where
    attempt_loop_cost :
        (left attempt : ℕ) (n : Node W V) (w : W) (v : V)
        → IsCheap n
        → cost (attempt_loop ctx_err left attempt policy n w v).0 ≤ cost w + suc left
    unfolding attempt_loop
    attempt_loop_cost zero attempt n w v h = ground (arith, h w v)
    attempt_loop_cost (suc left) attempt n w v h =
        ground (arith, h w v, attempt_loop_cost left (suc attempt) n (n.exec w v).0 v h)

    execute_with_retry_cost :
        (n : Node W V) (w : W) (v : V)
        → IsCheap n
        → cost (execute_with_retry ctx_err policy n w v).0
          ≤ cost w + attempts_or_default policy.max_attempts
    unfolding execute_with_retry
    execute_with_retry_cost n w v h = omega (
      arith,
      attempt_loop_cost (attempts_or_default policy.max_attempts - 1) 1 n w v h,
      attempts_positive policy.max_attempts,
    )

  frames-CheapFrames :
      (es : List (ConditionalEdge W V)) (out : V) (depth : ℕ)
      → All (λ (e : ConditionalEdge W V). IsCheap e.to) es
      → CheapFrames (frames (enabled es out) out depth)
  unfolding enabled frames
  frames-CheapFrames [] out depth h = tt
  frames-CheapFrames (e ∷ es) out depth (he, hes) = elim (Bool-cases (followed e.cond out)) [
    | inl yes_ ↦ rw yes_ (he, frames-CheapFrames es out depth hes)
    | inr no_ ↦ rw no_ (frames-CheapFrames es out depth hes)
  ]

  module _ (ctx_err : W → Option Error) (def : Definition W V) (limit : ℕ)
      (policy : RetryPolicy W V) (on_step : Option (W → StepInfo → Node W V → V → V → W))
      (quiet : (w : W) (info : StepInfo) (n : Node W V) (x y : V)
        → cost (notify on_step w info n x y) ≤ cost w)
      (cheap : HasCheapEdges def) where
    abbrev allowance : ℕ
    allowance = attempts_or_default policy.max_attempts

    abbrev Within : ℕ → W → Round W V → Type 0
    Within step w (return_ w' o) =
        (cost w' ≤ cost w) ⊎ ((step < limit) × (cost w' ≤ cost w + allowance))
    Within step w (continue_ p) =
        (p.step ≡ suc step)
        × (step < limit)
        × (cost p.world ≤ cost w + allowance)
        × CheapFrames p.queue

    settle-Within :
        (step : ℕ) (last : Option V) (f : Frame W V) (queue : List (Frame W V)) (w w' : W)
        (r : Result Error V)
        → CheapFrames queue
        → step < limit
        → cost w' ≤ cost w + allowance
        → Within step w (settle ctx_err def limit policy on_step step last f queue w' r)
    unfolding settle next_nodes
    settle-Within step last f queue w w' (Result.err e) q below c = inr (below, c)
    settle-Within step last f queue w w' (Result.ok out) q below c = (
      refl,
      below,
      omega (arith, quiet w' (record { index = suc step; depth = f.depth }) f.node f.input out),
      All-append _ queue _ q
          (frames-CheapFrames (def.edges f.node.ptr) out (suc f.depth) (cheap f.node.ptr)),
    )

    run_round-Within :
        (step : ℕ) (last : Option V) (f : Frame W V) (queue : List (Frame W V)) (w : W)
        → IsCheap f.node
        → CheapFrames queue
        → Within step w (run_round ctx_err def limit policy on_step step last f queue w)
    unfolding run_round
    run_round-Within step last f queue w n q = go (ctx_err w) refl (leb limit step) refl
      where
        go :
            (c : Option Error)
            → ctx_err w ≡ c
            → (b : Bool) → leb limit step ≡ b
            → Within step w (run_round ctx_err def limit policy on_step step last f queue w)
        go (some e) h b k = rw (h, run_round) (inl (le_refl (cost w)))
        go none h true k = rw (h, run_round, k) (inl (le_refl (cost w)))
        go none h false k =
            rw (h, run_round, k)
              (settle-Within step last f queue w _ _ q (ground arith)
                (execute_with_retry_cost ctx_err policy f.node w f.input n))

    -- What the rest of the loop costs, given what this run_round costs.
    resume_cost :
        (step : ℕ) (w w' : W) (o : Outcome V) (rest : Progress W V → Option (W × Outcome V))
        (r : Round W V)
        → Within step w r
        → ((p : Progress W V)
            → CheapFrames p.queue
            → p.step ≤ limit
            → rest p ≡ some (w', o)
            → cost w' ≤ cost p.world + (limit - p.step) * allowance)
        → resume rest r ≡ some (w', o)
        → cost w' ≤ cost w + (limit - step) * allowance
    resume_cost step w w' o rest (return_ u x) (inl b) ih e = ground arith
    resume_cost step w w' o rest (return_ u x) (inr (below, b)) ih e =
        ground (arith, room_step allowance limit step below)
    resume_cost step w w' o rest (continue_ p) (counted, below, b, cq) ih e = omega (
      arith,
      ih p cq (omega arith) e,
      room_step allowance limit step below,
      ap (λ (t : ℕ). (limit - t) * allowance) counted,
    )

    drain_cost :
        (fuel step : ℕ) (last : Option V) (queue : List (Frame W V)) (w w' : W) (o : Outcome V)
        → CheapFrames queue
        → step ≤ limit
        → drain ctx_err def limit policy on_step fuel step last queue w ≡ some (w', o)
        → cost w' ≤ cost w + (limit - step) * allowance
    unfolding drain
    drain_cost zero step last queue w w' o q k h = cc
    drain_cost (suc fuel) step last [] w w' o q k h = ground arith
    drain_cost (suc fuel) step last (f ∷ queue) w w' o (n, q) k h =
        resume_cost step w w' o _ _ (run_round-Within step last f queue w n q)
          (λ p cq below e. drain_cost fuel p.step p.last p.queue p.world w' o cq below e) h

  -- A run costs at most one node execution for each attempt of each step, whatever the graph: where
  -- every node of it costs at most one unit an execution, and the callback costs nothing, Run
  -- costs at most `stepLimit * MaxAttempts` units, with the defaults of both in place.
  pub run_cost :
      (ctx_err : W → Option Error) (start : Node W V) (seed : V) (def : Definition W V)
      (step_limit : ℤ) (policy : RetryPolicy W V)
      (on_step : Option (W → StepInfo → Node W V → V → V → W)) (w w' : W) (o : Outcome V)
      → ((u : W) (info : StepInfo) (n : Node W V) (x y : V)
          → cost (notify on_step u info n x y) ≤ cost u)
      → HasCheapEdges def
      → IsCheap start
      → run ctx_err start seed def step_limit policy on_step w ≡ some (w', o)
      → cost w'
        ≤ cost w + step_limit_or_default step_limit * attempts_or_default policy.max_attempts
  unfolding run
  run_cost ctx_err start seed def step_limit policy on_step w w' o quiet cheap n h =
      rw sub_zero at (
        drain_cost ctx_err def (step_limit_or_default step_limit) policy on_step quiet cheap
          (suc (step_limit_or_default step_limit)) 0 none
          (record { node = start; input = seed; depth = 0 } ∷ []) w w' o (n, tt) (omega arith) h)
