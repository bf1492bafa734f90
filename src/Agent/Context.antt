-- ===== src/Agent/Context.antt =====
-- pkg/agent/context.go
use souz_go.Prelude.{List, [], ◌++◌, Option, none, Text, ℤ, pos, Bool}
use souz_go.Providers.{Float64, Message, ToolDefinition}

pub record AgentSettings : Type 0 where
  pub model : Text
  pub temperature : Float64
  pub max_tokens : ℤ
  pub context_size : ℤ

-- A nil slice is `none`: the skills node compares ActiveSkillIDs with nil.
pub record InvocationMeta : Type 0 where
  pub user_id : Text
  pub conversation_id : Text
  pub request_id : Text
  pub locale : Text
  pub time_zone : Text
  pub active_skill_ids : Option (List Text)

-- What an EventSink is told.
pub data Event : Type 0 where
  delta : Text → Event
  tool_call : Text → Text → Event
  tool_result : Text → Text → Bool → Event
  error : Text → Text → Event
  done : Event

-- `Sink` stands for the implementations of EventSink; nil is `none`, and acts as NoopEventSink.
pub record AgentContext (Sink : Type 0) : Type 0 where
  pub input : Text
  pub history : List Message
  pub active_tools : List ToolDefinition
  pub system_prompt : Text
  pub settings : AgentSettings
  pub invocation_meta : InvocationMeta
  pub event_sink : Option Sink

module _ {Sink : Type 0} where
  abbrev pub with_history : AgentContext Sink → List Message → AgentContext Sink
  with_history c msgs = record c { history = c.history ++ msgs }

  abbrev pub with_tools : AgentContext Sink → List ToolDefinition → AgentContext Sink
  with_tools c tools = record c { active_tools = tools }

  abbrev pub with_system_prompt : AgentContext Sink → Text → AgentContext Sink
  with_system_prompt c prompt = record c { system_prompt = prompt }

-- The zero value of AgentContext.
abbrev pub zero_context : (Sink : Type 0) → AgentContext Sink
zero_context Sink = record {
  input = [];
  history = [];
  active_tools = [];
  system_prompt = [];
  settings = record { model = []; temperature = 0; max_tokens = pos 0; context_size = pos 0 };
  invocation_meta = record {
    user_id = [];
    conversation_id = [];
    request_id = [];
    locale = [];
    time_zone = [];
    active_skill_ids = none;
  };
  event_sink = none;
}
