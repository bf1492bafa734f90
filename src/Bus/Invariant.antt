-- ===== src/Bus/Invariant.antt =====
-- What holds in every state that the bus can reach.
use souz_go.Prelude.{
  ℕ, ◌+◌, ◌≤◌, ◌≡◌, refl, List, [], ◌∷◌, ◌++◌, length, length-append, arith, ap, ◌∙◌,
}
use souz_go.Bus.Defs.{MessageBus, to_inbound, to_outbound, default_buffer_size}
use souz_go.Bus.Steps.{
  Publisher, added, Publish, send, Closer, Close, close_done, System, Step, publish, call, close,
  receive_inbound, receive_outbound, Reach, here, next, idle,
}

-- A call between its wg.Add and its wg.Done.
abbrev pub in_flight : Publisher → ℕ
in_flight (added m) = 1
in_flight _ = 0

abbrev pub flying : List Publisher → ℕ
flying [] = 0
flying (p ∷ ps) = in_flight p + flying ps

-- The WaitGroup counts the calls in flight, and no buffer holds more than it has room for.
pub record IsValid (s : System) : Type 0 where
  pub counted : s.bus.wg ≡ flying s.publishers
  pub inbound_fits : length s.bus.inbound.buffer ≤ default_buffer_size
  pub outbound_fits : length s.bus.outbound.buffer ≤ default_buffer_size

flying-append : (ps qs : List Publisher) → flying (ps ++ qs) ≡ flying ps + flying qs
flying-append [] qs = omega arith
flying-append (p ∷ ps) qs = omega (arith, flying-append ps qs)

-- One call's step moves the counter and the buffers.
record Moves (p : Publisher) (b : MessageBus) (p' : Publisher) (b' : MessageBus) : Type 0 where
  counts : b'.wg + in_flight p ≡ b.wg + in_flight p'
  inbound_grows :
      length b.inbound.buffer ≤ default_buffer_size → length b'.inbound.buffer ≤ default_buffer_size
  outbound_grows :
      length b.outbound.buffer ≤ default_buffer_size
      → length b'.outbound.buffer ≤ default_buffer_size

Publish-Moves :
    {p p' : Publisher} {b b' : MessageBus}
    → in_flight p ≤ b.wg
    → Publish p b p' b'
    → Moves p b p' b'
Publish-Moves h (send (to_inbound m) {b = b} c r) = record {
  counts = omega arith;
  inbound_grows = λ k. ground (arith, length-append b.inbound.buffer (m ∷ []));
  outbound_grows = λ k. k;
}
Publish-Moves h (send (to_outbound m) {b = b} c r) = record {
  counts = omega arith;
  inbound_grows = λ k. k;
  outbound_grows = λ k. ground (arith, length-append b.outbound.buffer (m ∷ []));
}
Publish-Moves h _ = record { counts = omega arith; inbound_grows = λ k. k; outbound_grows = λ k. k }

-- A statement of Close leaves the counter alone, and no buffer longer.
pub record Closes (b b' : MessageBus) : Type 0 where
  pub kept : b'.wg ≡ b.wg
  pub inbound_shrinks : length b'.inbound.buffer ≤ length b.inbound.buffer
  pub outbound_shrinks : length b'.outbound.buffer ≤ length b.outbound.buffer

pub Close-Closes : {c c' : Closer} {b b' : MessageBus} → Close c b c' b' → Closes b b'
Close-Closes close_done = record {
  kept = refl;
  inbound_shrinks = omega arith;
  outbound_shrinks = omega arith;
}
Close-Closes _ = record {
  kept = refl;
  inbound_shrinks = omega arith;
  outbound_shrinks = omega arith;
}

Step-IsValid : {s t : System} → Step s t → IsValid s → IsValid t
Step-IsValid (publish {s = s} before after {p = p} {p' = p'} e mv) v =
    let total : s.bus.wg ≡ flying before + (in_flight p + flying after) =
      v.counted ∙ (ap flying e ∙ flying-append before (p ∷ after)) in
    let moved = Publish-Moves (omega arith) mv in
    record {
      counted = omega (arith, moved.counts, flying-append before (p' ∷ after));
      inbound_fits = moved.inbound_grows v.inbound_fits;
      outbound_fits = moved.outbound_grows v.outbound_fits;
    }
Step-IsValid (call m) v = record {
  counted = omega arith;
  inbound_fits = v.inbound_fits;
  outbound_fits = v.outbound_fits;
}
Step-IsValid (close c) v =
    let moved = Close-Closes c in
    record {
      counted = moved.kept ∙ v.counted;
      inbound_fits = omega (arith, moved.inbound_shrinks, v.inbound_fits);
      outbound_fits = omega (arith, moved.outbound_shrinks, v.outbound_fits);
    }
Step-IsValid (receive_inbound {s = s} m rest e) v = record {
  counted = v.counted;
  inbound_fits = omega (arith, v.inbound_fits, ap length e);
  outbound_fits = v.outbound_fits;
}
Step-IsValid (receive_outbound {s = s} m rest e) v = record {
  counted = v.counted;
  inbound_fits = v.inbound_fits;
  outbound_fits = omega (arith, v.outbound_fits, ap length e);
}

-- In every state that the bus can reach, the counter of the WaitGroup is the number of the calls
-- between their wg.Add and their wg.Done, and neither buffer holds more than 64 messages.
pub Reach-IsValid : {s : System} → Reach idle s → IsValid s
Reach-IsValid here = record {
  counted = refl;
  inbound_fits = omega arith;
  outbound_fits = omega arith;
}
Reach-IsValid (next r st) = Step-IsValid st (Reach-IsValid r)
