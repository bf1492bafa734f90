-- ===== src/Nodes/Pipeline/Turn.antt =====
-- A turn as a straight line of phases with one loop, written without a graph and a queue: what the
-- graph of pkg/agent/nodes/graph.go is meant to do.
use souz_go.Prelude.{ℕ, zero, suc, Bool, true, false, Option, none, some, Error, Label, Result}
use souz_go.Graph.Defs.{Node}
use souz_go.Graph.Runner.{RetryPolicy, Outcome, execute_with_retry}

module _ {W V : Type 0} (ctx_err : W → Option Error) (limit : ℕ) (policy : RetryPolicy W V) where
  abbrev pub Phase : Type 0
  Phase = ℕ → Option V → V → W → W × Outcome V

  -- One node, and what comes after it. `budget` is the number of steps that are left; `last` is the
  -- output of the node before.
  unfoldable pub phase : Node W V → Phase → Phase
  phase node next zero last v w = elim (ctx_err w) [
    | some e ↦ (w, record { out = last; error = some e })
    | none ↦
        (w, record { out = last; error = some (Error.wrap (Label.limit limit) Error.max_steps) })
  ]
  phase node next (suc budget) last v w = elim (ctx_err w) [
    | some e ↦ (w, record { out = last; error = some e })
    | none ↦
        let (w', r) = execute_with_retry ctx_err policy node w v in
        elim r [
          | Result.err e ↦
              (w', record { out = last; error = some (Error.wrap (Label.graph_node node.name) e) })
          | Result.ok out ↦ next budget (some out) out w'
        ]
  ]

  -- The turn is over, with the last output.
  unfoldable pub finish : Phase
  finish budget last v w = (w, record { out = last; error = none })

  module _ (pending : V → Bool) (llm tool_loop summarize : Node W V) where
    -- After the model: its tools and what follows them, or the summary.
    unfoldable pub after_llm : Phase → Phase
    unfolding phase finish
    after_llm again budget last v w = elim (pending v) [
      | true ↦ phase tool_loop again budget last v w
      | false ↦ phase summarize finish budget last v w
    ]

    -- The model, then its tools as long as it asks for some, then the summary. A round takes two
    -- steps, so with as many rounds as steps the last round has no step to spare.
    unfoldable pub converse : ℕ → Phase
    unfolding after_llm
    converse zero = phase llm finish
    converse (suc rounds) = phase llm (after_llm (converse rounds))

    unfoldable pub turn : Node W V → Node W V → Node W V → Node W V → Phase
    unfolding converse
    turn classify mcp skills enrich budget =
        phase classify (phase mcp (phase skills (phase enrich (converse budget)))) budget
