-- ===== src/Tests/Turn.antt =====
-- A turn of the agent on the test bench: one round of tools, then the answer.
use souz_go.Prelude.{
  ◌+◌, ◌*◌, ◌≤◌, ◌<◌, ◌≡◌, ◌⊎◌, refl, [], ◌∷◌, Option, none, some, Result, ℤ, pos, codes,
  sort_texts, insert_text, text_leb, keys, lookup,
}
use souz_go.Graph.Runner.{
  RetryPolicy, Outcome, run, execute_with_retry, attempt_loop, attempts_or_default,
  step_limit_or_default,
}
use souz_go.Nodes.Mcp.{mcp, classify}
use souz_go.Nodes.Llm.{llm}
use souz_go.Nodes.Enrich.{enrich}
use souz_go.Nodes.ToolLoop.{tool_loop}
use souz_go.Nodes.Summarize.{summarize}
use souz_go.Agent.Executor.{Value, agent_context}
use souz_go.Nodes.Pipeline.{
  classify_node, mcp_node, skills_node, enrich_node, llm_node, tool_loop_node, summarize_node,
  build_graph, TurnNode, has_pending_tool_calls,
}
use souz_go.Nodes.Pipeline.Steps.{answer, round, Stops}
use souz_go.Nodes.Pipeline.Turn.{turn}
use souz_go.Nodes.Pipeline.Refinement.{run-build_graph}
use souz_go.Nodes.Pipeline.Limit.{run_within_limit, Conversation}
use souz_go.Tests.Bench.{World, bench, clients, greeting, echo_call}
use souz_go.Tests.Bench
use souz_go.Nodes.Common.{NodeFn}

abbrev no_skills : NodeFn bench
no_skills w c = (w, Result.ok c)

abbrev once : RetryPolicy World (Value (Unit {0}))
once = record { max_attempts = pos 1; should_retry = none }

abbrev start : World
start = record {
  answers = Bench.answer (codes "wait") (echo_call ∷ []) ∷ Bench.answer (codes "done") [] ∷ [];
  events = [];
}

abbrev Node8 : Type 0
Node8 = TurnNode bench [] clients no_skills

abbrev After : Type 0
After = World × Value (Unit {0})

-- The state and the output after a node on the bench; the input again where the node fails.
after : Node8 → After → After
unfolding execute_with_retry attempt_loop attempts_or_default classify_node mcp_node enrich_node
    llm_node tool_loop_node summarize_node skills_node classify mcp enrich llm tool_loop summarize
    sort_texts insert_text text_leb keys lookup has_pending_tool_calls
after n (w, v) =
    let (w', r) = execute_with_retry bench.ctx_err once n w v in
    (w', elim r [ Result.ok out ↦ out | Result.err e ↦ v ])

abbrev a1 : After
a1 = after (classify_node bench [] clients no_skills) (start, agent_context greeting)

abbrev a2 : After
a2 = after (mcp_node bench [] clients no_skills) a1

abbrev a3 : After
a3 = after (skills_node bench [] clients no_skills) a2

abbrev a4 : After
a4 = after (enrich_node bench [] clients no_skills) a3

abbrev a5 : After
a5 = after (llm_node bench [] clients no_skills) a4

abbrev a6 : After
a6 = after (tool_loop_node bench [] clients no_skills) a5

abbrev a7 : After
a7 = after (llm_node bench [] clients no_skills) a6

abbrev a8 : After
a8 = after (summarize_node bench [] clients no_skills) a7

one_round : Conversation bench [] clients no_skills (pos 8) once 1 a4.1 a4.0 a8.1 a8.0
unfolding after
one_round = round (refl, refl) refl (refl, refl) (answer (refl, refl) refl (refl, refl))

-- The turn on the bench, with a limit of `n`.
abbrev bench_run : ℤ → Option (World × Outcome (Value (Unit {0})))
bench_run n =
    run bench.ctx_err (classify_node bench [] clients no_skills) (agent_context greeting)
      (build_graph bench [] clients no_skills) n once none start

run_within_limit_example :
    ((2 * 1 + 6 ≤ step_limit_or_default (pos 8))
      × (bench_run (pos 8) ≡ some (a8.0, record { out = some a8.1; error = none })))
    ⊎ ((step_limit_or_default (pos 8) < 2 * 1 + 6)
        × ((o : World × Outcome (Value (Unit {0}))) × (bench_run (pos 8) ≡ some o)
            × Stops bench.ctx_err (step_limit_or_default (pos 8)) once o))
unfolding after
run_within_limit_example =
    run_within_limit bench [] clients no_skills (pos 8) once 1 (agent_context greeting) a1.1 a2.1
      a3.1 a4.1 a8.1 start a1.0 a2.0 a3.0 a4.0 a8.0 (refl, refl) (refl, refl) (refl, refl)
      (refl, refl) one_round

run-build_graph_example :
    bench_run (pos 8)
    ≡ some (
        turn bench.ctx_err
          (step_limit_or_default (pos 8))
          once
          has_pending_tool_calls
          (llm_node bench [] clients no_skills)
          (tool_loop_node bench [] clients no_skills)
          (summarize_node bench [] clients no_skills)
          (classify_node bench [] clients no_skills)
          (mcp_node bench [] clients no_skills)
          (skills_node bench [] clients no_skills)
          (enrich_node bench [] clients no_skills)
          (step_limit_or_default (pos 8))
          none
          (agent_context greeting)
          start)
run-build_graph_example =
    run-build_graph bench [] clients no_skills (pos 8) once (agent_context greeting) start
