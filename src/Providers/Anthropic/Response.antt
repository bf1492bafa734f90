-- ===== src/Providers/Anthropic/Response.antt =====
-- The response of pkg/providers/anthropic/anthropic.go that comes in one piece.
use souz_go.Prelude.{List, [], ◌∷◌, ◌++◌, Text, codes, text_eq, if◌then◌else◌}
use souz_go.Providers.{ToolCall, ChatResponse, FinishReason, Usage}
use souz_go.Providers.Anthropic.{ContentBlock}

pub record MessagesResponse : Type 0 where
  pub stop_reason : Text
  pub content : List ContentBlock
  pub usage : Usage

unfoldable pub to_finish_reason : Text → FinishReason
to_finish_reason stop_reason =
    if text_eq stop_reason (codes "tool_use")
    then FinishReason.tool_use
    else if text_eq stop_reason (codes "max_tokens")
    then FinishReason.length
    else FinishReason.stop

-- The loop over the blocks: the text, and the tool calls.
unfoldable pub text_of_blocks : List ContentBlock → Text
text_of_blocks [] = []
text_of_blocks (b ∷ bs) =
    let rest = text_of_blocks bs in if text_eq b.type (codes "text") then b.text ++ rest else rest

unfoldable pub calls_of_blocks : List ContentBlock → List ToolCall
calls_of_blocks [] = []
calls_of_blocks (b ∷ bs) =
    let rest = calls_of_blocks bs in
    if text_eq b.type (codes "tool_use")
    then record { id = b.id; name = b.name; args = b.input } ∷ rest
    else rest

unfoldable pub to_chat_response : MessagesResponse → ChatResponse
unfolding text_of_blocks calls_of_blocks to_finish_reason
to_chat_response r = record {
  content = text_of_blocks r.content;
  tool_calls = calls_of_blocks r.content;
  usage = r.usage;
  finish_reason = to_finish_reason r.stop_reason;
}
