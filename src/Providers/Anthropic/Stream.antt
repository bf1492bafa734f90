-- ===== src/Providers/Anthropic/Stream.antt =====
-- readStream of pkg/providers/anthropic/anthropic.go. `decode` is json.Unmarshal into sseEnvelope,
-- and the lines and the error at their end are those of the bufio.Scanner. `W` is the state that
-- onChunk changes.
use souz_go.Prelude.{
  join_lines, ℤ, pos, ◌||◌, List, [], ◌∷◌, ◌++◌, Text, Error, Label, Result, Option, none, some,
  codes, text_eq, has_prefix, drop, if◌then◌else◌,
}
use souz_go.Providers.{ToolCall, ChatResponse, FinishReason, Usage}
use souz_go.Providers.IntMap.{IntMap, int_lookup, int_insert, int_erase}
use souz_go.Providers.Anthropic.{ContentBlock}
use souz_go.Providers.Anthropic.Response.{to_finish_reason}

pub record EventDelta : Type 0 where
  pub type : Text
  pub text : Text
  pub partial_json : Text
  pub stop_reason : Text

-- `message` and `usage` hold one number each: the input tokens and the output tokens.
pub record SseEnvelope : Type 0 where
  pub type : Text
  pub index : ℤ
  pub message : Option ℤ
  pub content_block : Option ContentBlock
  pub event_delta : Option EventDelta
  pub usage : Option ℤ

pub record ToolBlockState : Type 0 where
  pub id : Text
  pub name : Text
  pub args : Text

-- The variables of readStream, and the state of onChunk.
pub record StreamState (W : Type 0) : Type 0 where
  pub text : Text
  pub tool_blocks : IntMap ToolBlockState
  pub tool_calls : List ToolCall
  pub finish : FinishReason
  pub usage : Usage
  pub world : W

-- if args == "" { args = "{}" }
unfoldable pub args_or_empty : Text → Text
args_or_empty args = if text_eq args [] then codes "{}" else args

-- strings.TrimPrefix(strings.TrimPrefix(line, "data:"), " ")
unfoldable pub data_of : Text → Text
data_of line = let rest = drop 5 line in if has_prefix rest (codes " ") then drop 1 rest else rest

module _ {W : Type 0} where
  unfoldable pub on_start : StreamState W → ℤ → ContentBlock → StreamState W
  unfolding int_insert
  on_start s index b =
      if text_eq b.type (codes "tool_use")
      then record s {
        tool_blocks =
            int_insert index (record { id = b.id; name = b.name; args = [] }) s.tool_blocks;
      }
      else s

  unfoldable pub on_stop : StreamState W → ℤ → StreamState W
  unfolding int_lookup int_erase args_or_empty
  on_stop s index = elim (int_lookup index s.tool_blocks) [
    | none ↦ s
    | some tb ↦ record s {
      tool_blocks = int_erase index s.tool_blocks;
      tool_calls =
          s.tool_calls ++ record { id = tb.id; name = tb.name; args = args_or_empty tb.args } ∷ [];
    }
  ]

  unfoldable pub on_message_delta : StreamState W → Option EventDelta → Option ℤ → StreamState W
  unfolding to_finish_reason
  on_message_delta s event_delta usage = record s {
    finish = elim event_delta [
      | none ↦ s.finish
      | some d ↦ if text_eq d.stop_reason [] then s.finish else to_finish_reason d.stop_reason
    ];
    usage = elim usage [ none ↦ s.usage | some n ↦ record (s.usage) { output_tokens = n } ];
  }

  unfoldable pub initial_state : W → StreamState W
  initial_state w = record {
    text = [];
    tool_blocks = [];
    tool_calls = [];
    finish = FinishReason.stop;
    usage = record { input_tokens = pos 0; output_tokens = pos 0 };
    world = w;
  }

  -- What is returned at the end of a stream that was read without an error.
  unfoldable pub streamed_response : StreamState W → ChatResponse
  streamed_response s = record {
    content = s.text;
    tool_calls = s.tool_calls;
    usage = s.usage;
    finish_reason = elim s.tool_calls [ [] ↦ s.finish | c ∷ cs ↦ FinishReason.tool_use ];
  }

module _ {W : Type 0} (on_chunk : Text → W → W) where
  unfoldable pub on_delta : StreamState W → ℤ → EventDelta → StreamState W
  unfolding int_lookup int_insert
  on_delta s index d =
      if text_eq d.type (codes "text_delta")
      then (if text_eq d.text []
          then s
          else record s { text = s.text ++ d.text; world = on_chunk d.text s.world })
      else if text_eq d.type (codes "input_json_delta")
      then elim (int_lookup index s.tool_blocks) [
        | none ↦ s
        | some tb ↦ record s {
          tool_blocks =
              int_insert index (record tb { args = tb.args ++ d.partial_json }) s.tool_blocks;
        }
      ]
      else s

  -- The switch on evt.Type.
  unfoldable pub on_event : StreamState W → SseEnvelope → StreamState W
  unfolding on_delta on_start on_stop on_message_delta
  on_event s evt =
      if text_eq evt.type (codes "message_start")
      then elim evt.message [
        | none ↦ s
        | some n ↦ record s { usage = record (s.usage) { input_tokens = n } }
      ]
      else if text_eq evt.type (codes "content_block_start")
      then elim evt.content_block [ none ↦ s | some b ↦ on_start s evt.index b ]
      else if text_eq evt.type (codes "content_block_delta")
      then elim evt.event_delta [ none ↦ s | some d ↦ on_delta s evt.index d ]
      else if text_eq evt.type (codes "content_block_stop")
      then on_stop s evt.index
      else if text_eq evt.type (codes "message_delta")
      then on_message_delta s evt.event_delta evt.usage
      else s

  -- The closure `flush`, on the lines that it takes.
  unfoldable pub flush :
      (Text → Result Error SseEnvelope) → StreamState W → List Text → StreamState W
  unfolding join_lines on_event
  flush decode s [] = s
  flush decode s (l ∷ ls) =
      let content = join_lines (l ∷ ls) in
      if text_eq content [] || text_eq content (codes "[DONE]")
      then s
      else elim (decode content) [ Result.err e ↦ s | Result.ok evt ↦ on_event s evt ]

  -- The loop over the lines, with the lines of data since the last flush.
  unfoldable pub scan :
      (Text → Result Error SseEnvelope) → StreamState W → List Text → List Text → StreamState W
  unfolding flush data_of
  scan decode s lines [] = flush decode s lines
  scan decode s lines (line ∷ rest) =
      let blank = scan decode (flush decode s lines) [] rest in
      let more = scan decode s (lines ++ data_of line ∷ []) rest in
      let other = scan decode s lines rest in
      if text_eq line [] then blank else if has_prefix line (codes "data:") then more else other

  unfoldable pub read_stream :
      (Text → Result Error SseEnvelope)
      → List Text
      → Option Error
      → W
      → W × Result Error ChatResponse
  unfolding scan initial_state streamed_response
  read_stream decode lines scan_err w =
      let s = scan decode (initial_state w) [] lines in
      elim scan_err [
        | some e ↦
            (s.world, Result.err (Error.wrap (Label.stage (codes "anthropic: read stream")) e))
        | none ↦ (s.world, Result.ok (streamed_response s))
      ]
