-- ===== src/Nodes/Llm/Window.antt =====
-- The window of the history that a request carries.
use souz_go.Prelude.{
  ◌-◌, ◌≡◌, inl, inr, ◌&&◌, List, [], ◌++◌, is_positive, to_ℕ, ltb, length, take, take-append-drop,
  length-drop, arith, Bool-cases, if◌then◌else◌,
}
use Prim.Native.Nat.{min}
use souz_go.Providers.{Message}
use souz_go.Agent.Context.{AgentSettings}
use souz_go.Nodes.Llm.{limited_messages}

-- The messages of a request are the newest ones: the history is some older messages followed by them.
-- With a positive ContextSize they number the smaller of it and the history's length, and with any
-- other all of the history is sent.
pub limited_messages_lem :
    (settings : AgentSettings) (history : List Message)
    → (older : List Message) × (older ++ limited_messages settings history ≡ history)
      × (length (limited_messages settings history) ≡ (
          if is_positive settings.context_size
          then min (to_ℕ settings.context_size) (length history)
          else length history))
unfolding limited_messages
limited_messages_lem settings history =
    let size = to_ℕ settings.context_size in
    elim (Bool-cases (is_positive settings.context_size && ltb size (length history))) [
      | inl longer ↦ (
        take (length history - size) history,
        rw longer (take-append-drop (length history - size) history),
        rw longer (ground (arith, length-drop (length history - size) history)),
      )
      | inr fits ↦ ([], rw fits, rw fits (ground arith))
    ]
