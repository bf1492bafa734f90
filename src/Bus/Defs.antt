-- ===== src/Bus/Defs.antt =====
-- pkg/bus/types.go, and the fields of MessageBus in pkg/bus/bus.go.
use souz_go.Prelude.{ℕ, Bool, false, List, [], ◌∷◌, ◌++◌, Text, Dict, ltb, length}

pub record InboundMessage : Type 0 where
  pub channel : Text
  pub chat_id : Text
  pub sender_id : Text
  pub text : Text
  pub message_id : Text
  pub metadata : Dict Text

pub record OutboundMessage : Type 0 where
  pub channel : Text
  pub chat_id : Text
  pub text : Text
  pub reply_to_message_id : Text

abbrev pub default_buffer_size : ℕ
default_buffer_size = 64

-- A Go channel with a buffer: what it holds, oldest first, and whether it is closed.
pub record Chan (A : Type 0) : Type 0 where
  pub buffer : List A
  pub is_closed : Bool

abbrev pub open_chan : {A : Type 0} → Chan A
open_chan = record { buffer = []; is_closed = false }

-- There is room for one more.
abbrev pub has_room : {A : Type 0} → Chan A → Bool
has_room c = ltb (length c.buffer) default_buffer_size

abbrev pub send_to : {A : Type 0} → Chan A → A → Chan A
send_to c a = record c { buffer = c.buffer ++ a ∷ [] }

-- MessageBus: `done` is whether the channel of that name is closed, `wg` the counter of the
-- WaitGroup.
pub record MessageBus : Type 0 where
  pub inbound : Chan InboundMessage
  pub outbound : Chan OutboundMessage
  pub done : Bool
  pub closed : Bool
  pub wg : ℕ

abbrev pub new_bus : MessageBus
new_bus = record { inbound = open_chan; outbound = open_chan; done = false; closed = false; wg = 0 }

-- What PublishInbound and PublishOutbound are called with; their bodies differ in the channel only.
pub data Publication : Type 0 where
  to_inbound : InboundMessage → Publication
  to_outbound : OutboundMessage → Publication

abbrev pub target_closed : Publication → MessageBus → Bool
target_closed (to_inbound m) b = b.inbound.is_closed
target_closed (to_outbound m) b = b.outbound.is_closed

abbrev pub target_has_room : Publication → MessageBus → Bool
target_has_room (to_inbound m) b = has_room b.inbound
target_has_room (to_outbound m) b = has_room b.outbound

abbrev pub deliver : Publication → MessageBus → MessageBus
deliver (to_inbound m) b = record b { inbound = send_to b.inbound m }
deliver (to_outbound m) b = record b { outbound = send_to b.outbound m }
