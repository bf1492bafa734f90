-- ===== src/Agent/Executor.antt =====
-- pkg/agent/executor.go
use souz_go.Prelude.{
  List, [], ◌∷◌, Option, none, some, Bool, false, not, ◌&&◌, Text, text_eq, Error, Label, Result, ℤ,
  codes, if◌then◌else◌,
}
use souz_go.Providers.{Message, is_assistant}
use souz_go.Graph.Defs.{Node, Definition}
use souz_go.Graph.Runner.{RetryPolicy, Outcome, run}
use souz_go.Hooks.{Hooks, start_turn, end_turn}
use souz_go.Agent.Context.{AgentContext}
use souz_go.Agent.Platform.{Platform}

-- The values of type `any` that the nodes pass on: AgentContext, or a value of another type.
pub data Value (Sink : Type 0) : Type 0 where
  agent_context : AgentContext Sink → Value Sink
  foreign : Value Sink

-- The type assertion `out.(AgentContext)`.
abbrev pub as_context : {Sink : Type 0} → Value Sink → Option (AgentContext Sink)
as_context (agent_context c) = some c
as_context foreign = none

-- The loop from the end of the history: the last message that passes the test.
unfoldable pub last_match : (Message → Bool) → List Message → Option Message
last_match p [] = none
last_match p (m ∷ ms) = elim (last_match p ms) [
  | some x ↦ some x
  | none ↦ if p m then some m else none
]

unfoldable pub last_assistant_text : List Message → Text
unfolding last_match
last_assistant_text history =
    elim (last_match (λ m. is_assistant m.role && not (text_eq m.content [])) history) [
      | some m ↦ m.content
      | none ↦ elim (last_match (λ m. is_assistant m.role) history) [
        | some m ↦ m.content
        | none ↦ []
      ]
    ]

module _ (P : Platform) where
  open P use {World, Sink, ctx_err, run_script}

  -- TurnResult; its Usage field is never set.
  pub record TurnResult : Type 0 where
    pub output : Text
    pub context : AgentContext Sink

  pub record Executor : Type 0 where
    pub def : Definition World (Value Sink)
    pub start : Node World (Value Sink)
    pub policy : RetryPolicy World (Value Sink)
    pub step_limit : ℤ
    pub turn_hooks : Option Hooks

  -- What Execute makes of the pair that Run returns.
  unfoldable pub turn_result : AgentContext Sink → Outcome (Value Sink) → Result Error TurnResult
  unfolding last_assistant_text
  turn_result seed o = elim o.error [
    | some e ↦ Result.err (Error.wrap (Label.stage (codes "agent turn")) e)
    | none ↦
        let ac : AgentContext Sink = elim o.out [
          | some (agent_context c) ↦ c
          | some foreign ↦ seed
          | none ↦ seed
        ] in
        Result.ok (record { output = last_assistant_text ac.history; context = ac })
  ]

  unfoldable pub begin_hooks : Option Hooks → World → World
  unfolding start_turn
  begin_hooks none w = w
  begin_hooks (some h) w = start_turn run_script h w

  -- The deferred call of `end`, which has not run before.
  unfoldable pub end_hooks : Option Hooks → World → World
  unfolding end_turn
  end_hooks none w = w
  end_hooks (some h) w = (end_turn run_script h false w).1

  -- `none` only if the runner's fuel ran out, which it never does.
  unfoldable pub execute :
      Executor → AgentContext Sink → World → Option (World × Result Error TurnResult)
  unfolding begin_hooks end_hooks turn_result
  execute e seed w =
      elim (run ctx_err e.start (agent_context seed) e.def e.step_limit e.policy none
        (begin_hooks e.turn_hooks w)) [
          | none ↦ none
          | some (w', o) ↦ some (end_hooks e.turn_hooks w', turn_result seed o)
        ]
