-- ===== src/Nodes/Pipeline/Limit.antt =====
-- What the step limit of the runner means for a turn of the agent.
use souz_go.Prelude.{ℕ, ◌+◌, ◌*◌, ◌≤◌, ◌<◌, ◌≡◌, ◌⊎◌, inl, inr, ◌∙◌, ap, Dict, ℤ, none, some, arith}
use native.Mathlib.Decide.{dec_le}
use souz_go.Graph.Runner.{RetryPolicy, Outcome, run, step_limit_or_default}
use souz_go.Tools.{Tool}
use souz_go.Agent.Executor.{Value}
use souz_go.Agent.Platform.{Platform}
use souz_go.Nodes.Common.{NodeFn}
use souz_go.Nodes.Pipeline.{
  classify_node, mcp_node, skills_node, enrich_node, llm_node, tool_loop_node, summarize_node,
  build_graph, has_pending_tool_calls, TurnNode,
}
use souz_go.Nodes.Pipeline.Refinement.{run-build_graph}
use souz_go.Nodes.Pipeline.Steps.{Succeeds, Talk, Stops, turn_steps}

module _ (P : Platform) (registry : Dict (Tool P.World)) (clients : Dict P.Client)
    (skills : NodeFn P) (step_limit : ℤ) (policy : RetryPolicy P.World (Value P.Sink)) where
  abbrev limit : ℕ
  limit = step_limit_or_default step_limit

  abbrev pub Runs :
      (n : TurnNode P registry clients skills)
      → Value P.Sink
      → P.World
      → Value P.Sink
      → P.World
      → Type 0
  Runs = Succeeds P.ctx_err limit policy

  abbrev pub Conversation : ℕ → Value P.Sink → P.World → Value P.Sink → P.World → Type 0
  Conversation =
      Talk P.ctx_err limit policy has_pending_tool_calls (llm_node P registry clients skills)
        (tool_loop_node P registry clients skills) (summarize_node P registry clients skills)

  -- A turn whose nodes all succeed and whose model asks for tools in `k` rounds takes 2k + 6 steps.
  -- If the step limit is at least that, Run returns the output of summarize and no error. If
  -- it is less, Run returns ErrMaxSteps with the limit.
  pub run_within_limit :
      (k : ℕ) (v v1 v2 v3 v4 r : Value P.Sink) (w w1 w2 w3 w4 w' : P.World)
      → Runs (classify_node P registry clients skills) v w v1 w1
      → Runs (mcp_node P registry clients skills) v1 w1 v2 w2
      → Runs (skills_node P registry clients skills) v2 w2 v3 w3
      → Runs (enrich_node P registry clients skills) v3 w3 v4 w4
      → Conversation k v4 w4 r w'
      → ((2 * k + 6 ≤ limit)
          × (run P.ctx_err
                (classify_node P registry clients skills)
                v
                (build_graph P registry clients skills)
                step_limit
                policy
                none
                w
              ≡ some (w', record { out = some r; error = none })))
        ⊎ ((limit < 2 * k + 6)
            × ((o : P.World × Outcome (Value P.Sink)) × (run P.ctx_err
                    (classify_node P registry clients skills)
                    v
                    (build_graph P registry clients skills)
                    step_limit
                    policy
                    none
                    w
                  ≡ some o)
                × Stops P.ctx_err limit policy o))
  run_within_limit k v v1 v2 v3 v4 r w w1 w2 w3 w4 w' s1 s2 s3 s4 t =
      let takes =
        turn_steps P.ctx_err limit policy has_pending_tool_calls
          (llm_node P registry clients skills) (tool_loop_node P registry clients skills)
          (summarize_node P registry clients skills) (classify_node P registry clients skills)
          (mcp_node P registry clients skills) (skills_node P registry clients skills)
          (enrich_node P registry clients skills) k v v1 v2 v3 v4 r w w1 w2 w3 w4 w' s1 s2 s3 s4
          t in
      let refined = run-build_graph P registry clients skills step_limit policy v w in
      elim (dec_le (2 * k + 6) limit) [
        | yes enough ↦ inl (enough, refined ∙ ap some (takes.0 enough))
        | no short ↦ inr (omega arith, (_, refined, takes.1 (omega arith)))
      ]
