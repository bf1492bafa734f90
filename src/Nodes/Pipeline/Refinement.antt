-- ===== src/Nodes/Pipeline/Refinement.antt =====
-- The graph of a turn, drained by the runner, does exactly what `Turn.turn` says.
use souz_go.Prelude.{
  ℕ, zero, suc, ◌+◌, ◌≤◌, ◌≡◌, Option, none, some, List, [], ◌∷◌, ℤ, arith, refl, Dict, Bool-cases,
  inl, inr, ◌∙◌, if◌then◌else◌,
}
use souz_go.Graph.Defs.{Definition, next_nodes}
use souz_go.Graph.Runner.{RetryPolicy, Frame, Outcome, drain, run, step_limit_or_default}
use souz_go.Tools.{Tool}
use souz_go.Agent.Executor.{Value}
use souz_go.Agent.Platform.{Platform}
use souz_go.Nodes.Common.{NodeFn}
use souz_go.Nodes.Pipeline.{
  classify_node, mcp_node, skills_node, enrich_node, llm_node, tool_loop_node, summarize_node,
  build_graph, has_pending_tool_calls, TurnNode,
}
use souz_go.Nodes.Pipeline.Turn.{Phase, phase, finish, after_llm, converse, turn}
use souz_go.Nodes.Pipeline.Drain.{drain-phase, drain-next, drain-finish}

module _ (P : Platform) (registry : Dict (Tool P.World)) (clients : Dict P.Client)
    (skills : NodeFn P) where
  abbrev graph : Definition P.World (Value P.Sink)
  graph = build_graph P registry clients skills

  abbrev n_mcp : TurnNode P registry clients skills
  n_mcp = mcp_node P registry clients skills

  abbrev n_skills : TurnNode P registry clients skills
  n_skills = skills_node P registry clients skills

  abbrev n_enrich : TurnNode P registry clients skills
  n_enrich = enrich_node P registry clients skills

  abbrev n_llm : TurnNode P registry clients skills
  n_llm = llm_node P registry clients skills

  abbrev n_tools : TurnNode P registry clients skills
  n_tools = tool_loop_node P registry clients skills

  abbrev n_summarize : TurnNode P registry clients skills
  n_summarize = summarize_node P registry clients skills

  -- The edges of the graph.
  edges_lem :
      (out : Value P.Sink)
      → (next_nodes graph (classify_node P registry clients skills) out ≡ n_mcp ∷ [])
        × (next_nodes graph n_mcp out ≡ n_skills ∷ [])
        × (next_nodes graph n_skills out ≡ n_enrich ∷ [])
        × (next_nodes graph n_enrich out ≡ n_llm ∷ [])
        × (next_nodes graph n_tools out ≡ n_llm ∷ [])
        × (next_nodes graph n_summarize out ≡ [])
  unfolding next_nodes build_graph
  edges_lem out = (refl, refl, refl, refl, refl, refl)

  edges-llm :
      (out : Value P.Sink)
      → next_nodes graph n_llm out
        ≡ (if has_pending_tool_calls out then n_tools ∷ [] else n_summarize ∷ [])
  unfolding next_nodes build_graph
  edges-llm out = ground arith

  module _ (limit : ℕ) (policy : RetryPolicy P.World (Value P.Sink)) where
    abbrev conversation : ℕ → Phase P.ctx_err limit policy
    conversation = converse P.ctx_err limit policy has_pending_tool_calls n_llm n_tools n_summarize

    abbrev turn_loop :
        ℕ
        → ℕ
        → Option (Value P.Sink)
        → List (Frame P.World (Value P.Sink))
        → P.World
        → Option (P.World × Outcome (Value P.Sink))
    turn_loop = drain P.ctx_err graph limit policy none

    drain-converse :
        (rounds b step depth : ℕ) (last : Option (Value P.Sink)) (v : Value P.Sink) (w : P.World)
        → step + b ≡ limit
        → b ≤ rounds
        → turn_loop (suc b) step last (record { node = n_llm; input = v; depth = depth } ∷ []) w
          ≡ some (conversation rounds b last v w)
    unfolding converse after_llm
    drain-converse zero b step depth last v w e h =
        drain-phase P.ctx_err graph limit policy n_llm (finish P.ctx_err limit policy) b step depth
          last v w e λ b' out w' eb. absurd (omega arith)
    drain-converse (suc rounds) b step depth last v w e h =
        drain-next P.ctx_err graph limit policy n_llm
          (after_llm P.ctx_err limit policy has_pending_tool_calls n_llm n_tools n_summarize
            (conversation rounds))
          b step depth last v w e
          λ b' out w' eb. elim (Bool-cases (has_pending_tool_calls out)) [
            | inl asks ↦ (
              n_tools,
              edges-llm out ∙ rw asks,
              rw (asks, after_llm)
                  (drain-next P.ctx_err graph limit policy n_tools (conversation rounds) b'
                    (suc step) (suc depth) (some out) out w' (omega arith)
                    λ b'' out' w'' eb'. (
                      n_llm,
                      (edges_lem out').4,
                      drain-converse rounds b'' (suc (suc step)) (suc (suc depth)) (some out') out'
                          w'' (omega arith) (omega arith),
                    )),
            )
            | inr done ↦ (
              n_summarize,
              edges-llm out ∙ rw done,
              rw (done, after_llm)
                  (drain-finish P.ctx_err graph limit policy n_summarize b' (suc step) (suc depth)
                    (some out) out w' (omega arith) λ out'. (edges_lem out').5),
            )
          ]

  -- The work queue adds nothing to the pipeline: for every model, registry, MCP client, policy and
  -- limit, Run on the graph of BuildGraph returns what the straight-line turn returns, in which
  -- classify, mcp, skills, enrich and llm run in this order, toolloop and llm alternate as long as
  -- the model's last message asks for tools, and summarize runs once at the end; each of them is one
  -- step of the limit.
  pub run-build_graph :
      (step_limit : ℤ) (policy : RetryPolicy P.World (Value P.Sink)) (seed : Value P.Sink)
      (w : P.World)
      → run P.ctx_err (classify_node P registry clients skills) seed graph step_limit policy none w
        ≡ some (
            turn P.ctx_err
              (step_limit_or_default step_limit)
              policy
              has_pending_tool_calls
              n_llm
              n_tools
              n_summarize
              (classify_node P registry clients skills)
              n_mcp
              n_skills
              n_enrich
              (step_limit_or_default step_limit)
              none
              seed
              w)
  unfolding run turn
  run-build_graph step_limit policy seed w =
      let limit = step_limit_or_default step_limit in
      drain-next P.ctx_err graph limit policy (classify_node P registry clients skills)
        (phase P.ctx_err limit policy n_mcp (
          phase P.ctx_err limit policy n_skills
            (phase P.ctx_err limit policy n_enrich (conversation limit policy limit))))
        limit 0 0 none seed w (omega arith)
        λ b1 o1 w1 e1. (
          n_mcp,
          (edges_lem o1).0,
          drain-next P.ctx_err graph limit policy n_mcp
              (phase P.ctx_err limit policy n_skills
                (phase P.ctx_err limit policy n_enrich (conversation limit policy limit)))
              b1 1 1 (some o1) o1 w1 (omega arith)
              λ b2 o2 w2 e2. (
                n_skills,
                (edges_lem o2).1,
                drain-next P.ctx_err graph limit policy n_skills
                    (phase P.ctx_err limit policy n_enrich (conversation limit policy limit)) b2 2 2
                    (some o2) o2 w2 (omega arith)
                    λ b3 o3 w3 e3. (
                      n_enrich,
                      (edges_lem o3).2,
                      drain-next P.ctx_err graph limit policy n_enrich
                          (conversation limit policy limit) b3 3 3 (some o3) o3 w3 (omega arith)
                          λ b4 o4 w4 e4. (
                            n_llm,
                            (edges_lem o4).3,
                            drain-converse limit policy limit b4 4 4 (some o4) o4 w4 (omega arith)
                                (omega arith),
                          ),
                    ),
              ),
        )
