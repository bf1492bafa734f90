-- ===== src/Providers/Anthropic/Events.antt =====
-- A message as the events that a server streams, and as the blocks of one piece.
use souz_go.Prelude.{
  ℕ, suc, ℤ, pos, ◌≡◌, false, List, [], ◌∷◌, ◌++◌, Text, Error, Result, none, some, codes, text_eq,
}
use souz_go.Providers.{Usage}
use souz_go.Providers.Anthropic.{ContentBlock, text_block, tool_use_block}
use souz_go.Providers.Anthropic.Stream.{EventDelta, SseEnvelope, args_or_empty}

-- A block as a server streams it: the pieces of its text, or of the arguments of a tool call.
pub data StreamedBlock : Type 0 where
  text : List Text → StreamedBlock
  tool : Text → Text → List Text → StreamedBlock

unfoldable pub concat : List Text → Text
concat [] = []
concat (p ∷ ps) = p ++ concat ps

-- The block in one piece.
unfoldable pub whole_block : StreamedBlock → ContentBlock
unfolding concat args_or_empty
whole_block (text ps) = text_block (concat ps)
whole_block (tool id name ps) = tool_use_block id name (args_or_empty (concat ps))

unfoldable pub whole_blocks : List StreamedBlock → List ContentBlock
unfolding whole_block
whole_blocks [] = []
whole_blocks (b ∷ bs) = whole_block b ∷ whole_blocks bs

abbrev pub plain_event : Text → ℤ → SseEnvelope
plain_event type index = record {
  type = type;
  index = index;
  message = none;
  content_block = none;
  event_delta = none;
  usage = none;
}

abbrev pub delta_event : ℤ → EventDelta → SseEnvelope
delta_event index d = record (plain_event (codes "content_block_delta") index) {
  event_delta = some d;
}

abbrev pub text_delta : Text → EventDelta
text_delta s = record { type = codes "text_delta"; text = s; partial_json = []; stop_reason = [] }

abbrev pub json_delta : Text → EventDelta
json_delta s = record {
  type = codes "input_json_delta";
  text = [];
  partial_json = s;
  stop_reason = [];
}

unfoldable pub text_events : ℤ → List Text → List SseEnvelope
text_events i [] = plain_event (codes "content_block_stop") i ∷ []
text_events i (p ∷ ps) = delta_event i (text_delta p) ∷ text_events i ps

unfoldable pub json_events : ℤ → List Text → List SseEnvelope
json_events i [] = plain_event (codes "content_block_stop") i ∷ []
json_events i (p ∷ ps) = delta_event i (json_delta p) ∷ json_events i ps

abbrev pub start_event : ℤ → ContentBlock → SseEnvelope
start_event i b = record (plain_event (codes "content_block_start") i) { content_block = some b }

-- The events of a block, its start and its end included.
unfoldable pub block_events : ℤ → StreamedBlock → List SseEnvelope
unfolding text_events json_events
block_events i (text ps) = start_event i (text_block []) ∷ text_events i ps
block_events i (tool id name ps) = start_event i (tool_use_block id name []) ∷ json_events i ps

unfoldable pub blocks_events : ℕ → List StreamedBlock → List SseEnvelope
unfolding block_events
blocks_events i [] = []
blocks_events i (b ∷ bs) = block_events (pos i) b ++ blocks_events (suc i) bs

-- The events of a message.
unfoldable pub message_events : List StreamedBlock → Text → Usage → List SseEnvelope
unfolding blocks_events
message_events blocks stop_reason usage =
    record (plain_event (codes "message_start") (pos 0)) { message = some (usage.input_tokens) }
    ∷ (blocks_events 0 blocks
        ++ record (plain_event (codes "message_delta") (pos 0)) {
          event_delta =
              some (record { type = []; text = []; partial_json = []; stop_reason = stop_reason });
          usage = some (usage.output_tokens);
        }
          ∷ plain_event (codes "message_stop") (pos 0)
          ∷ [])

-- The payloads decode to the events, and are neither empty nor the end mark.
pub data Decodes (decode : Text → Result Error SseEnvelope)
    : List Text → List SseEnvelope → Type 0 where
  nil : Decodes decode [] []
  cons :
      {p : Text} {ps : List Text} {e : SseEnvelope} {es : List SseEnvelope}
      → decode p ≡ Result.ok e
      → text_eq p [] ≡ false
      → text_eq p (codes "[DONE]") ≡ false
      → Decodes decode ps es
      → Decodes decode (p ∷ ps) (e ∷ es)

-- A line of data for each payload, and a blank line.
unfoldable pub payload_lines : List Text → List Text
payload_lines [] = []
payload_lines (p ∷ ps) = (codes "data: " ++ p) ∷ [] ∷ payload_lines ps
