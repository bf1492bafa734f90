-- ===== src/Mcp.antt =====
-- pkg/mcp/client.go: the calls of a client, its pump and its Close, as steps that come in any
-- order. A statement under the lock is one step. Requests are numbered from 1; a channel has its
-- number.
pub mod Sound
pub mod Routing
use souz_go.Prelude.{
  ℕ, suc, ◌==◌, ◌&&◌, ◌||◌, not, ◌≡◌, Bool, true, false, List, [], ◌∷◌, Option, none, some, Text,
  Error, text_eq, length, ltb, if◌then◌else◌,
}

-- rpcMessage, with the number that json.Unmarshal reads in its id.
pub record RpcMessage : Type 0 where
  pub id : Option ℕ
  pub method : Text
  pub id_text : Text
  pub result : Option Text
  pub error : Option Text

unfoldable pub is_some : Option Text → Bool
is_some none = false
is_some (some t) = true

unfoldable pub is_response : RpcMessage → Bool
unfolding is_some
is_response m =
    text_eq m.method [] && ltb 0 (length m.id_text) && (is_some m.result || is_some m.error)

-- A channel of capacity 1.
pub record CallChan : Type 0 where
  pub message : Option RpcMessage
  pub is_closed : Bool

-- What call gives, before a result is decoded.
pub data CallOutcome : Type 0 where
  -- the client was closed before
  refused : CallOutcome
  -- Send failed
  not_sent : CallOutcome
  -- the channel was closed without a message
  no_response : CallOutcome
  -- ctx.Err()
  cancelled : CallOutcome
  response : RpcMessage → CallOutcome

-- Where the call of a number is.
pub data CallPhase : Type 0 where
  unknown : CallPhase
  numbered registered waiting : CallPhase
  returned : CallOutcome → CallPhase

-- Where the pump is: before a message, between the lock and the send, or after its loop.
pub data Pump : Type 0 where
  reading : Pump
  holding : ℕ → RpcMessage → Pump
  ended : Pump

pub record Client : Type 0 where
  pub next_id : ℕ
  pub pending : ℕ → Bool
  pub closed : Bool
  pub chan : ℕ → CallChan
  pub pump : Pump
  pub phase : ℕ → CallPhase
  -- A send on a closed channel, or a close of one.
  pub panicked : Bool

abbrev pub open_chan : CallChan
open_chan = record { message = none; is_closed = false }

-- m[i] = x
abbrev pub set : {A : Type 0} → ℕ → A → (ℕ → A) → ℕ → A
set i x f j = if j == i then x else f j

-- The loop over the pending channels of Close and at the end of pump.
unfoldable pub close_pending : Client → Client
close_pending c = record c {
  chan = λ i. if c.pending i then record (c.chan i) { is_closed = true } else c.chan i;
  pending = λ i. false;
}

pub data Step : Client → Client → Type 0 where
  -- call
  number :
      {c : Client}
      → Step c (record c { next_id = suc c.next_id; phase = set (suc c.next_id) numbered c.phase })
  refuse :
      {c : Client} (i : ℕ)
      → c.phase i ≡ numbered
      → c.closed ≡ true
      → Step c (record c { phase = set i (returned refused) c.phase })
  register :
      {c : Client} (i : ℕ)
      → c.phase i ≡ numbered
      → c.closed ≡ false
      → Step c (record c {
        pending = set i true c.pending;
        chan = set i open_chan c.chan;
        phase = set i registered c.phase;
      })
  fail_to_send :
      {c : Client} (i : ℕ)
      → c.phase i ≡ registered
      → Step c
          (record c { pending = set i false c.pending; phase = set i (returned not_sent) c.phase })
  send :
      {c : Client} (i : ℕ)
      → c.phase i ≡ registered
      → Step c (record c { phase = set i waiting c.phase })
  receive :
      {c : Client} (i : ℕ) (m : RpcMessage)
      → c.phase i ≡ waiting
      → (c.chan i).message ≡ some m
      → Step c (record c {
        chan = set i (record (c.chan i) { message = none }) c.chan;
        phase = set i (returned (response m)) c.phase;
      })
  find_closed :
      {c : Client} (i : ℕ)
      → c.phase i ≡ waiting
      → (c.chan i).message ≡ none
      → (c.chan i).is_closed ≡ true
      → Step c (record c { phase = set i (returned no_response) c.phase })
  cancel :
      {c : Client} (i : ℕ)
      → c.phase i ≡ waiting
      → Step c (record c { phase = set i (returned cancelled) c.phase })
  -- pump
  drop : {c : Client} (m : RpcMessage) → c.pump ≡ reading → Step c c
  take :
      {c : Client} (i : ℕ) (m : RpcMessage)
      → c.pump ≡ reading
      → is_response m ≡ true
      → m.id ≡ some i
      → c.pending i ≡ true
      → Step c (record c { pending = set i false c.pending; pump = holding i m })
  deliver :
      {c : Client} (i : ℕ) (m : RpcMessage)
      → c.pump ≡ holding i m
      → (c.chan i).is_closed ≡ false
      → Step c (record c {
        chan = set i (record { message = some m; is_closed = true }) c.chan;
        pump = reading;
      })
  crash :
      {c : Client} (i : ℕ) (m : RpcMessage)
      → c.pump ≡ holding i m
      → (c.chan i).is_closed ≡ true
      → Step c (record c { panicked = true })
  end_pump : {c : Client} → c.pump ≡ reading → Step c (record (close_pending c) { pump = ended })
  -- Close
  close : {c : Client} → Step c (record (close_pending c) { closed = true })
  -- A close of a channel that is closed already.
  crash_closing :
      {c : Client} (i : ℕ)
      → c.pending i ≡ true
      → (c.chan i).is_closed ≡ true
      → Step c (record c { panicked = true })

abbrev pub new_client : Client
new_client = record {
  next_id = 0;
  pending = λ i. false;
  closed = false;
  chan = λ i. open_chan;
  pump = reading;
  phase = λ i. unknown;
  panicked = false;
}

pub data Reach : Client → Type 0 where
  here : Reach new_client
  next : {c d : Client} → Reach c → Step c d → Reach d
