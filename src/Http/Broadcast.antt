-- ===== src/Http/Broadcast.antt =====
-- chatBroadcaster of pkg/http/sse.go, and the events that its sink publishes. A subscriber is known
-- by a number, in place of its channel.
pub mod Delivery
use souz_go.Prelude.{
  ℕ, suc, ◌==◌, Bool, true, false, List, [], ◌∷◌, ◌++◌, Text, codes, length, ltb, if◌then◌else◌,
}
use souz_go.Agent.Context.{Event}

pub record SseEvent : Type 0 where
  pub event_type : Text
  pub payload : List (Text × Text)

abbrev pub bool_text : Bool → Text
bool_text true = codes "true"
bool_text false = codes "false"

-- The methods of sseEventSink.
unfoldable pub sse_event : Event → SseEvent
sse_event (Event.delta d) = record {
  event_type = codes "message.delta";
  payload = (codes "delta", d) ∷ [];
}
sse_event (Event.tool_call name args) = record {
  event_type = codes "tool.call.started";
  payload = (codes "name", name) ∷ (codes "argumentsPreview", args) ∷ [];
}
sse_event (Event.tool_result name result is_error) = record {
  event_type = if is_error then codes "tool.call.failed" else codes "tool.call.finished";
  payload =
      (codes "name", name)
      ∷ (codes "resultPreview", result)
      ∷ (codes "isError", bool_text is_error)
      ∷ [];
}
sse_event (Event.error code message) = record {
  event_type = codes "execution.failed";
  payload = (codes "errorCode", code) ∷ (codes "errorMessage", message) ∷ [];
}
sse_event Event.done = record { event_type = codes "execution.finished"; payload = [] }

abbrev pub subscriber_buffer_size : ℕ
subscriber_buffer_size = 64

pub record Subscriber : Type 0 where
  pub number : ℕ
  pub buffer : List SseEvent

-- `subs`, and the number of the next subscriber.
pub record ChatBroadcaster : Type 0 where
  pub subs : List Subscriber
  pub next : ℕ

abbrev pub new_chat_broadcaster : ChatBroadcaster
new_chat_broadcaster = record { subs = []; next = 0 }

unfoldable pub subscribe : ChatBroadcaster → ChatBroadcaster
subscribe b = record { subs = record { number = b.next; buffer = [] } ∷ b.subs; next = suc b.next }

unfoldable pub without : ℕ → List Subscriber → List Subscriber
without n [] = []
without n (s ∷ ss) = if s.number == n then without n ss else s ∷ without n ss

-- The function that subscribe returns.
unfoldable pub unsubscribe : ℕ → ChatBroadcaster → ChatBroadcaster
unfolding without
unsubscribe n b = record b { subs = without n b.subs }

-- The select of publish: an event for a buffer that is full is dropped.
unfoldable pub offer : SseEvent → Subscriber → Subscriber
offer evt s =
    if ltb (length s.buffer) subscriber_buffer_size
    then record s { buffer = s.buffer ++ evt ∷ [] }
    else s

unfoldable pub offer_all : SseEvent → List Subscriber → List Subscriber
unfolding offer
offer_all evt [] = []
offer_all evt (s ∷ ss) = offer evt s ∷ offer_all evt ss

unfoldable pub publish : SseEvent → ChatBroadcaster → ChatBroadcaster
unfolding offer_all
publish evt b = record b { subs = offer_all evt b.subs }
