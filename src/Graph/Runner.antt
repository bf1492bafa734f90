-- ===== src/Graph/Runner.antt =====
-- pkg/graph/runner.go. `ctx_err` reads `ctx.Err()` from the state, so that a context may be cancelled
-- by anything that a node does, or by the environment that a node's effect stands for.
use souz_go.Prelude.{
  ℕ, zero, suc, ◌-◌, Bool, true, false, Option, none, some, List, [], ◌∷◌, ◌++◌, Error, Label,
  Result, ℤ, is_positive, to_ℕ, leb,
}
use souz_go.Graph.Defs.{Node, Definition, next_nodes}

pub record RetryPolicy (W V : Type 0) : Type 0 where
  pub max_attempts : ℤ
  pub should_retry : Option (Error → Node W V → ℕ → Bool)

pub record StepInfo : Type 0 where
  pub index : ℕ
  pub depth : ℕ

pub record Frame (W V : Type 0) : Type 0 where
  pub node : Node W V
  pub input : V
  pub depth : ℕ

-- The pair `(lastOut, error)` that Run returns; nil is `none`.
pub record Outcome (V : Type 0) : Type 0 where
  pub out : Option V
  pub error : Option Error

-- The defaults of Run: 64 steps, one attempt.
unfoldable pub step_limit_or_default : ℤ → ℕ
step_limit_or_default n = elim (is_positive n) [ true ↦ to_ℕ n | false ↦ 64 ]

unfoldable pub attempts_or_default : ℤ → ℕ
attempts_or_default n = elim (is_positive n) [ true ↦ to_ℕ n | false ↦ 1 ]

module _ {W V : Type 0} (ctx_err : W → Option Error) where
  -- policy.ShouldRetry != nil && policy.ShouldRetry(err, node, attempt)
  unfoldable pub retries : RetryPolicy W V → Error → Node W V → ℕ → Bool
  retries policy e node attempt = elim policy.should_retry [
    | none ↦ false
    | some f ↦ f e node attempt
  ]

  -- The loop over `attempt`, with `left` attempts after this one. After the last attempt the error
  -- is returned whatever ShouldRetry says.
  unfoldable pub attempt_loop : ℕ → ℕ → RetryPolicy W V → Node W V → W → V → W × Result Error V
  unfolding retries
  attempt_loop zero attempt policy node w v = elim (ctx_err w) [
    | some e ↦ (w, Result.err e)
    | none ↦ node.exec w v
  ]
  attempt_loop (suc left) attempt policy node w v = elim (ctx_err w) [
    | some e ↦ (w, Result.err e)
    | none ↦
        let (w', r) = node.exec w v in
        elim r [
          | Result.ok out ↦ (w', Result.ok out)
          | Result.err e ↦ elim (retries policy e node attempt) [
            | true ↦ attempt_loop left (suc attempt) policy node w' v
            | false ↦ (w', Result.err e)
          ]
        ]
  ]

  unfoldable pub execute_with_retry : RetryPolicy W V → Node W V → W → V → W × Result Error V
  execute_with_retry policy = attempt_loop (attempts_or_default policy.max_attempts - 1) 1 policy

module _ {W V : Type 0} where
  -- One frame for each successor.
  unfoldable pub frames : List (Node W V) → V → ℕ → List (Frame W V)
  frames [] out depth = []
  frames (n ∷ ns) out depth = record { node = n; input = out; depth = depth } ∷ frames ns out depth

  -- The optional callback onStep.
  unfoldable pub notify :
      Option (W → StepInfo → Node W V → V → V → W) → W → StepInfo → Node W V → V → V → W
  notify none w info node x out = w
  notify (some f) w info node x out = f w info node x out

-- The variables of the loop: `step`, `lastOut`, `queue`, and the state that the nodes act on.
pub record Progress (W V : Type 0) : Type 0 where
  pub step : ℕ
  pub last : Option V
  pub queue : List (Frame W V)
  pub world : W

-- One round of the loop returns from Run, or goes on.
pub data Round (W V : Type 0) : Type 0 where
  return_ : W → Outcome V → Round W V
  continue_ : Progress W V → Round W V

-- The loop's next round is made only if this one goes on.
abbrev pub resume :
    {W V : Type 0} → (Progress W V → Option (W × Outcome V)) → Round W V → Option (W × Outcome V)
resume rest (return_ w r) = some (w, r)
resume rest (continue_ p) = rest p

module _ {W V : Type 0} (ctx_err : W → Option Error) (def : Definition W V) (limit : ℕ)
    (policy : RetryPolicy W V) (on_step : Option (W → StepInfo → Node W V → V → V → W)) where
  -- What follows executeWithRetry in the loop's body.
  unfoldable pub settle :
      ℕ → Option V → Frame W V → List (Frame W V) → W → Result Error V → Round W V
  unfolding frames notify
  settle step last f queue w (Result.err e) =
      return_ w (record { out = last; error = some (Error.wrap (Label.graph_node f.node.name) e) })
  settle step last f queue w (Result.ok out) =
      let info : StepInfo = record { index = suc step; depth = f.depth } in
      continue_ (record {
        step = suc step;
        last = some out;
        queue = queue ++ frames (next_nodes def f.node out) out (suc f.depth);
        world = notify on_step w info f.node f.input out;
      })

  -- The loop's body on the frame that it takes off the queue.
  unfoldable pub run_round : ℕ → Option V → Frame W V → List (Frame W V) → W → Round W V
  unfolding settle
  run_round step last f queue w = elim (ctx_err w) [
    | some e ↦ return_ w (record { out = last; error = some e })
    | none ↦ elim (leb limit step) [
      | true ↦
          return_ w
            (record { out = last; error = some (Error.wrap (Label.limit limit) Error.max_steps) })
      | false ↦
          let (w', r) = execute_with_retry ctx_err policy f.node w f.input in
          settle step last f queue w' r
    ]
  ]

  -- The loop over the work queue; `none` means that the fuel ran out.
  unfoldable pub drain : ℕ → ℕ → Option V → List (Frame W V) → W → Option (W × Outcome V)
  unfolding run_round
  drain zero step last queue w = none
  drain (suc fuel) step last [] w = some (w, record { out = last; error = none })
  drain (suc fuel) step last (f ∷ queue) w =
      resume (λ p. drain fuel p.step p.last p.queue p.world) (run_round step last f queue w)

-- Runner.Run. A run of `limit` steps takes one more round of the loop, which stops it.
unfoldable pub run :
    {W V : Type 0}
    → (W → Option Error)
    → Node W V
    → V
    → Definition W V
    → ℤ
    → RetryPolicy W V
    → Option (W → StepInfo → Node W V → V → V → W)
    → W
    → Option (W × Outcome V)
unfolding drain step_limit_or_default
run ctx_err start seed def step_limit policy on_step w =
    let limit = step_limit_or_default step_limit in
    drain ctx_err def limit policy on_step (suc limit) 0 none
      (record { node = start; input = seed; depth = 0 } ∷ []) w
