-- ===== src/Bus/Steps.antt =====
-- The atomic steps of PublishInbound, PublishOutbound and Close of pkg/bus/bus.go, and of the readers
-- of the two channels. A select whose cases are ready at once may take any of them.
use souz_go.Prelude.{suc, ◌-◌, ◌≡◌, true, false, List, [], ◌∷◌, ◌++◌, Option, none, some, Error}
use souz_go.Bus.Defs.{
  MessageBus, Publication, Chan, target_closed, target_has_room, deliver, new_bus, InboundMessage,
  OutboundMessage,
}

-- Where a call of PublishInbound or PublishOutbound stands: before the load of `closed`, before the
-- first select, before wg.Add, before the second select, or done with the error that it returned.
pub data Publisher : Type 0 where
  called : Publication → Publisher
  loaded : Publication → Publisher
  passed : Publication → Publisher
  added : Publication → Publisher
  returned : Option Error → Publisher
  -- A send on a closed channel.
  panicked : Publisher

-- The context may be done at any time, with an error of its own.
pub data Publish : Publisher → MessageBus → Publisher → MessageBus → Type 0 where
  refuse :
      (m : Publication) {b : MessageBus}
      → b.closed ≡ true
      → Publish (called m) b (returned (some Error.bus_closed)) b
  load : (m : Publication) {b : MessageBus} → b.closed ≡ false → Publish (called m) b (loaded m) b
  cancel_early :
      (m : Publication) (e : Error) {b : MessageBus} → Publish (loaded m) b (returned (some e)) b
  refuse_done :
      (m : Publication) {b : MessageBus}
      → b.done ≡ true
      → Publish (loaded m) b (returned (some Error.bus_closed)) b
  pass : (m : Publication) {b : MessageBus} → b.done ≡ false → Publish (loaded m) b (passed m) b
  add :
      (m : Publication) {b : MessageBus}
      → Publish (passed m) b (added m) (record b { wg = suc b.wg })
  send :
      (m : Publication) {b : MessageBus}
      → target_closed m b ≡ false
      → target_has_room m b ≡ true
      → Publish (added m) b (returned none) (record (deliver m b) { wg = b.wg - 1 })
  crash :
      (m : Publication) {b : MessageBus}
      → target_closed m b ≡ true
      → Publish (added m) b panicked (record b { wg = b.wg - 1 })
  cancel_late :
      (m : Publication) (e : Error) {b : MessageBus}
      → Publish (added m) b (returned (some e)) (record b { wg = b.wg - 1 })
  stop :
      (m : Publication) {b : MessageBus}
      → b.done ≡ true
      → Publish (added m) b (returned (some Error.bus_closed)) (record b { wg = b.wg - 1 })

-- How far the one call of Close that sync.Once lets through has come: its statements in order.
pub data Closer : Type 0 where
  not_called : Closer
  done_closed : Closer
  closed_stored : Closer
  waited : Closer
  inbound_closed : Closer
  outbound_closed : Closer
  drained : Closer

abbrev pub close_chan : {A : Type 0} → Chan A → Chan A
close_chan c = record c { is_closed = true }

abbrev pub drain_chan : {A : Type 0} → Chan A → Chan A
drain_chan c = record c { buffer = [] }

pub data Close : Closer → MessageBus → Closer → MessageBus → Type 0 where
  close_done : {b : MessageBus} → Close not_called b done_closed (record b { done = true })
  store_closed : {b : MessageBus} → Close done_closed b closed_stored (record b { closed = true })
  wait : {b : MessageBus} → b.wg ≡ 0 → Close closed_stored b waited b
  close_inbound :
      {b : MessageBus} → Close waited b inbound_closed (record b { inbound = close_chan b.inbound })
  close_outbound :
      {b : MessageBus}
      → Close inbound_closed b outbound_closed (record b { outbound = close_chan b.outbound })
  drain_both :
      {b : MessageBus}
      → Close outbound_closed b drained
          (record b { inbound = drain_chan b.inbound; outbound = drain_chan b.outbound })

pub record System : Type 0 where
  pub bus : MessageBus
  pub publishers : List Publisher
  pub closer : Closer

pub data Step : System → System → Type 0 where
  publish :
      {s : System} (before after : List Publisher) {p p' : Publisher} {b' : MessageBus}
      → s.publishers ≡ before ++ (p ∷ after)
      → Publish p s.bus p' b'
      → Step s (record s { bus = b'; publishers = before ++ (p' ∷ after) })
  -- A new call of PublishInbound or PublishOutbound.
  call : {s : System} (m : Publication) → Step s (record s { publishers = called m ∷ s.publishers })
  close :
      {s : System} {c' : Closer} {b' : MessageBus}
      → Close s.closer s.bus c' b'
      → Step s (record s { bus = b'; closer = c' })
  receive_inbound :
      {s : System} (m : InboundMessage) (rest : List InboundMessage)
      → s.bus.inbound.buffer ≡ m ∷ rest
      → Step s
          (record s { bus = record (s.bus) { inbound = record (s.bus.inbound) { buffer = rest } } })
  receive_outbound :
      {s : System} (m : OutboundMessage) (rest : List OutboundMessage)
      → s.bus.outbound.buffer ≡ m ∷ rest
      → Step s (record s {
        bus = record (s.bus) { outbound = record (s.bus.outbound) { buffer = rest } };
      })

pub data Reach (s : System) : System → Type 0 where
  here : Reach s s
  next : {t u : System} → Reach s t → Step t u → Reach s u

abbrev pub idle : System
idle = record { bus = new_bus; publishers = []; closer = not_called }
