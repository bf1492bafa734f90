-- ===== src/Nodes/Summarize.antt =====
-- pkg/agent/nodes/summarize.go. The threshold of 0.8 is a float64; for every int below 2^50 the test
-- on floats agrees with the one on integers that stands here.
pub mod Memory
use Prim.Native.Nat.{◌/◌}
use souz_go.Prelude.{
  ℕ, ◌+◌, ◌*◌, Bool, false, List, [], ◌∷◌, ◌++◌, none, some, Text, Error, Label, Result, codes, leb,
  length, is_positive, to_ℕ, get_last?, if◌then◌else◌,
}
use souz_go.Providers.{Message, ChatRequest, Role, text_message}
use souz_go.Agent.Context.{AgentContext}
use souz_go.Agent.Platform.{Platform}
use souz_go.Nodes.Common.{NodeFn}

abbrev pub summarization_prompt : Text
summarization_prompt =
    codes
      "You are the memory-management module for an autonomous AI agent.\nThe current session is full; produce a compact \"save point\" memory dump so work can continue in a fresh context.\nDiscard small talk and keep only the facts needed to continue: the overall goal, files/paths touched, tools used,\nsteps completed, any hard constraints the user gave, and the immediate next step."

abbrev pub summarization_prefix : Text
summarization_prefix = codes "Previous session was compacted. Resume from this memory dump:"

-- ceil(len(s) / 4)
unfoldable pub estimate_tokens : Text → ℕ
estimate_tokens s = (length s + 3) / 4

unfoldable pub estimate_history : List Message → ℕ
unfolding estimate_tokens
estimate_history [] = 0
estimate_history (m ∷ ms) = estimate_tokens m.content + estimate_history ms

unfoldable pub history_is_too_big : {Sink : Type 0} → AgentContext Sink → Bool
unfolding estimate_history
history_is_too_big c =
    let estimated = estimate_tokens c.system_prompt + estimate_history c.history in
    if is_positive c.settings.context_size
    then leb (4 * to_ℕ c.settings.context_size) (5 * estimated)
    else false

unfoldable pub summarize_request : {Sink : Type 0} → AgentContext Sink → ChatRequest
summarize_request c = record {
  model = c.settings.model;
  messages = c.history ++ text_message Role.user summarization_prompt ∷ [];
  tools = [];
  system_prompt = c.system_prompt;
  temperature = c.settings.temperature;
  max_tokens = c.settings.max_tokens;
}

unfoldable pub compacted : Text → List Message → List Message
compacted summary history =
    let summary_msg =
      text_message Role.assistant (summarization_prefix ++ (codes "\n\n" ++ summary)) in
    elim (get_last? history) [ some m ↦ summary_msg ∷ m ∷ [] | none ↦ summary_msg ∷ [] ]

unfoldable pub summarize : (P : Platform) → NodeFn P
unfolding history_is_too_big summarize_request compacted
summarize P w c =
    if history_is_too_big c
    then (let (w', r) = P.chat (summarize_request c) w in
        elim r [
          | Result.err e ↦ (w', Result.err (Error.wrap (Label.stage (codes "summarize node")) e))
          | Result.ok resp ↦
              (w', Result.ok (record c { history = compacted resp.content c.history }))
        ])
    else (w, Result.ok c)
