-- ===== src/Mcp/Sound.antt =====
-- What the parts of the steps keep true of the channels and the calls of a client.
use souz_go.Prelude.{ℕ, suc, ◌≡◌, ◌≢◌, ◌≤◌, Bool, true, false, none, some, arith}
use souz_go.Mcp.{
  RpcMessage, response, CallPhase, numbered, registered, returned, Pump, reading, holding, Client,
  close_pending, set, open_chan,
}

-- A pending channel, and the one that the pump holds, is open and empty, and belongs to a call that
-- was numbered and registered.
pub record IsSound (c : Client) : Type 0 where
  pub calm : c.panicked ≡ false
  pub numbered_known : (i : ℕ) → c.phase i ≡ numbered → i ≤ c.next_id
  pub pending_open : (i : ℕ) → c.pending i ≡ true → (c.chan i).is_closed ≡ false
  pub pending_known : (i : ℕ) → c.pending i ≡ true → i ≤ c.next_id
  pub pending_registered : (i : ℕ) → c.pending i ≡ true → c.phase i ≢ numbered
  pub held_open : (i : ℕ) (m : RpcMessage) → c.pump ≡ holding i m → (c.chan i).is_closed ≡ false
  pub held_known : (i : ℕ) (m : RpcMessage) → c.pump ≡ holding i m → i ≤ c.next_id
  pub held_registered : (i : ℕ) (m : RpcMessage) → c.pump ≡ holding i m → c.phase i ≢ numbered
  pub held_alone : (i : ℕ) (m : RpcMessage) → c.pump ≡ holding i m → c.pending i ≡ false
  pub held_answers : (i : ℕ) (m : RpcMessage) → c.pump ≡ holding i m → m.id ≡ some i
  pub sent_answers : (i : ℕ) (m : RpcMessage) → (c.chan i).message ≡ some m → m.id ≡ some i
  pub got_answers : (i : ℕ) (m : RpcMessage) → c.phase i ≡ returned (response m) → m.id ≡ some i

-- A call is numbered.
pub number-IsSound :
    (c : Client)
    → IsSound c
    → IsSound (record c { next_id = suc c.next_id; phase = set (suc c.next_id) numbered c.phase })
number-IsSound c h = record {
  calm = h.calm;
  numbered_known = λ j p. ground (arith, p, h.numbered_known j);
  pending_open = h.pending_open;
  pending_known = λ j p. ground (arith, p, h.pending_known j);
  pending_registered = λ j p. ground (arith, p, h.pending_registered j, h.pending_known j);
  held_open = h.held_open;
  held_known = λ j n p. ground (arith, p, h.held_known j n);
  held_registered = λ j n p. ground (arith, p, h.held_registered j n, h.held_known j n);
  held_alone = h.held_alone;
  held_answers = h.held_answers;
  sent_answers = h.sent_answers;
  got_answers = λ j n p. ground (arith, p, h.got_answers j n);
}

-- A call comes to a phase after its numbering, or to a response of its number.
pub set_phase-IsSound :
    (c : Client) (i : ℕ) (q : CallPhase)
    → q ≢ numbered
    → ((m : RpcMessage) → q ≡ returned (response m) → m.id ≡ some i)
    → IsSound c
    → IsSound (record c { phase = set i q c.phase })
set_phase-IsSound c i q a b h = record {
  calm = h.calm;
  numbered_known = λ j p. ground (arith, p, a, h.numbered_known j);
  pending_open = h.pending_open;
  pending_known = h.pending_known;
  pending_registered = λ j p. ground (arith, p, a, h.pending_registered j);
  held_open = h.held_open;
  held_known = h.held_known;
  held_registered = λ j n p. ground (arith, p, a, h.held_registered j n);
  held_alone = h.held_alone;
  held_answers = h.held_answers;
  sent_answers = h.sent_answers;
  got_answers = λ j n p. ground (arith, p, a, h.got_answers j n, b n);
}

-- A number is taken out of the map.
pub forget-IsSound :
    (c : Client) (i : ℕ) → IsSound c → IsSound (record c { pending = set i false c.pending })
forget-IsSound c i h = record {
  calm = h.calm;
  numbered_known = h.numbered_known;
  pending_open = λ j p. ground (arith, p, h.pending_open j);
  pending_known = λ j p. ground (arith, p, h.pending_known j);
  pending_registered = λ j p. ground (arith, p, h.pending_registered j);
  held_open = h.held_open;
  held_known = h.held_known;
  held_registered = h.held_registered;
  held_alone = λ j n p. ground (arith, p, h.held_alone j n);
  held_answers = h.held_answers;
  sent_answers = h.sent_answers;
  got_answers = h.got_answers;
}

-- The message of a channel is received.
pub read-IsSound :
    (c : Client) (i : ℕ)
    → IsSound c
    → IsSound (record c { chan = set i (record (c.chan i) { message = none }) c.chan })
read-IsSound c i h = record {
  calm = h.calm;
  numbered_known = h.numbered_known;
  pending_open = λ j p. ground (arith, p, h.pending_open j);
  pending_known = h.pending_known;
  pending_registered = h.pending_registered;
  held_open = λ j n p. ground (arith, p, h.held_open j n);
  held_known = h.held_known;
  held_registered = h.held_registered;
  held_alone = h.held_alone;
  held_answers = h.held_answers;
  sent_answers = λ j n p. ground (arith, p, h.sent_answers j n);
  got_answers = h.got_answers;
}

pub register-IsSound :
    (c : Client) (i : ℕ)
    → c.phase i ≡ numbered
    → IsSound c
    → IsSound (record c {
      pending = set i true c.pending;
      chan = set i open_chan c.chan;
      phase = set i registered c.phase;
    })
register-IsSound c i a h = record {
  calm = h.calm;
  numbered_known = λ j p. ground (arith, p, a, h.numbered_known j);
  pending_open = λ j p. ground (arith, p, a, h.pending_open j);
  pending_known = λ j p. ground (arith, p, a, h.pending_known j, h.numbered_known i);
  pending_registered = λ j p. ground (arith, p, a, h.pending_registered j);
  held_open = λ j n p. ground (arith, p, a, h.held_open j n, h.held_registered j n);
  held_known = h.held_known;
  held_registered = λ j n p. ground (arith, p, a, h.held_registered j n);
  held_alone = λ j n p. ground (arith, p, a, h.held_alone j n, h.held_registered j n);
  held_answers = h.held_answers;
  sent_answers = λ j n p. ground (arith, p, a, h.sent_answers j n);
  got_answers = λ j n p. ground (arith, p, a, h.got_answers j n);
}

pub take-IsSound :
    (c : Client) (i : ℕ) (m : RpcMessage)
    → m.id ≡ some i
    → c.pending i ≡ true
    → IsSound c
    → IsSound (record c { pending = set i false c.pending; pump = holding i m })
take-IsSound c i m a b h = record {
  calm = h.calm;
  numbered_known = h.numbered_known;
  pending_open = λ j p. ground (arith, p, a, b, h.pending_open j);
  pending_known = λ j p. ground (arith, p, a, b, h.pending_known j);
  pending_registered = λ j p. ground (arith, p, a, b, h.pending_registered j);
  held_open = λ j n p. ground (arith, p, a, b, h.held_open j n, h.pending_open i);
  held_known = λ j n p. ground (arith, p, a, b, h.held_known j n, h.pending_known i);
  held_registered = λ j n p. ground (arith, p, a, b, h.held_registered j n, h.pending_registered i);
  held_alone = λ j n p. ground (arith, p, a, b, h.held_alone j n);
  held_answers = λ j n p. ground (arith, p, a, b, h.held_answers j n);
  sent_answers = h.sent_answers;
  got_answers = h.got_answers;
}

pub deliver-IsSound :
    (c : Client) (i : ℕ) (m : RpcMessage)
    → c.pump ≡ holding i m
    → IsSound c
    → IsSound (record c {
      chan = set i (record { message = some m; is_closed = true }) c.chan;
      pump = reading;
    })
deliver-IsSound c i m a h = record {
  calm = h.calm;
  numbered_known = h.numbered_known;
  pending_open = λ j p. ground (arith, p, a, h.pending_open j, h.held_alone i m);
  pending_known = h.pending_known;
  pending_registered = h.pending_registered;
  held_open = λ j n p. ground (arith, p, a, h.held_open j n);
  held_known = λ j n p. ground (arith, p, a, h.held_known j n);
  held_registered = λ j n p. ground (arith, p, a, h.held_registered j n);
  held_alone = λ j n p. ground (arith, p, a, h.held_alone j n);
  held_answers = λ j n p. ground (arith, p, a, h.held_answers j n);
  sent_answers = λ j n p. ground (arith, p, a, h.sent_answers j n, h.held_answers i m);
  got_answers = h.got_answers;
}

pub close_pending-IsSound : (c : Client) → IsSound c → IsSound (close_pending c)
unfolding close_pending
close_pending-IsSound c h = record {
  calm = h.calm;
  numbered_known = h.numbered_known;
  pending_open = λ j p. ground (arith, p, h.pending_open j);
  pending_known = λ j p. ground (arith, p, h.pending_known j);
  pending_registered = λ j p. ground (arith, p, h.pending_registered j);
  held_open = λ j n p. ground (arith, p, h.held_open j n, h.held_alone j n);
  held_known = h.held_known;
  held_registered = h.held_registered;
  held_alone = λ j n p. ground (arith, p, h.held_alone j n);
  held_answers = h.held_answers;
  sent_answers = λ j n p. ground (arith, p, h.sent_answers j n);
  got_answers = h.got_answers;
}

-- The pump ends, or Close takes effect.
pub settled-IsSound :
    (c : Client) (b : Bool) (q : Pump)
    → ((i : ℕ) (m : RpcMessage) → q ≡ holding i m → c.pump ≡ holding i m)
    → IsSound c
    → IsSound (record c { closed = b; pump = q })
settled-IsSound c b q a h = record {
  calm = h.calm;
  numbered_known = h.numbered_known;
  pending_open = h.pending_open;
  pending_known = h.pending_known;
  pending_registered = h.pending_registered;
  sent_answers = h.sent_answers;
  got_answers = h.got_answers;
  held_open = λ j n p. h.held_open j n (a j n p);
  held_known = λ j n p. h.held_known j n (a j n p);
  held_registered = λ j n p. h.held_registered j n (a j n p);
  held_alone = λ j n p. h.held_alone j n (a j n p);
  held_answers = λ j n p. h.held_answers j n (a j n p);
}
