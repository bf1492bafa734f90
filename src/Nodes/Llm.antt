-- ===== src/Nodes/Llm.antt =====
-- pkg/agent/nodes/llm.go
pub mod Window
use souz_go.Prelude.{
  ◌-◌, ◌&&◌, List, Error, Label, Result, is_positive, to_ℕ, ltb, length, drop, codes, if◌then◌else◌,
}
use souz_go.Prelude.{[], ◌∷◌}
use souz_go.Providers.{Message, ChatRequest, ChatResponse, Role, text_message}
use souz_go.Agent.Context.{AgentContext, AgentSettings, Event, with_history}
use souz_go.Agent.Platform.{Platform, emit_to}
use souz_go.Nodes.Common.{NodeFn}

-- size > 0 && len(messages) > size
unfoldable pub limited_messages : AgentSettings → List Message → List Message
limited_messages settings messages =
    if is_positive settings.context_size && ltb (to_ℕ settings.context_size) (length messages)
    then drop (length messages - to_ℕ settings.context_size) messages
    else messages

unfoldable pub build_chat_request : {Sink : Type 0} → AgentContext Sink → ChatRequest
unfolding limited_messages
build_chat_request c = record {
  model = c.settings.model;
  messages = limited_messages c.settings c.history;
  tools = c.active_tools;
  system_prompt = c.system_prompt;
  temperature = c.settings.temperature;
  max_tokens = c.settings.max_tokens;
}

unfoldable pub assistant_message : ChatResponse → Message
assistant_message resp = record (text_message Role.assistant resp.content) {
  tool_calls = resp.tool_calls;
}

unfoldable pub llm : (P : Platform) → NodeFn P
unfolding build_chat_request assistant_message
llm P w c =
    let (w', r) =
      P.chat_stream (build_chat_request c) (λ d u. emit_to P c.event_sink (Event.delta d) u) w in
    elim r [
      | Result.err e ↦ (w', Result.err (Error.wrap (Label.stage (codes "llm node")) e))
      | Result.ok resp ↦ (w', Result.ok (with_history c (assistant_message resp ∷ [])))
    ]
