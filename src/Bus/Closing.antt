-- ===== src/Bus/Closing.antt =====
-- What Close means for the calls around it.
use souz_go.Prelude.{
  ◌≤◌, ◌≡◌, refl, true, List, [], ◌∷◌, ◌++◌, some, Error, Option, length, All, arith, ap,
}
use mathlib.Core.Path.{subst}
use souz_go.Bus.Defs.{MessageBus, Publication, to_inbound, to_outbound, open_chan, target_closed}
use souz_go.Bus.Steps.{
  Publisher, called, returned, panicked, Publish, refuse, load, pass, add, crash, cancel_early,
  refuse_done, send, cancel_late, stop, Closer, Close, close_done, store_closed, wait,
  close_inbound, close_outbound, System, Step, publish, call, close, receive_inbound,
  receive_outbound, Reach, here, next, idle, close_chan, outbound_closed,
}
use souz_go.Bus.Invariant.{Close-Closes}

-- A call that has not begun, or is over without a panic.
abbrev pub IsQuiet : Publisher → Type 0
IsQuiet (called m) = Unit
IsQuiet (returned e) = Unit
IsQuiet _ = ⊥

-- A call that has not begun, or has been refused.
abbrev pub IsRefused : Publisher → Type 0
IsRefused (called m) = Unit
IsRefused (returned e) = e ≡ some Error.bus_closed
IsRefused _ = ⊥

-- What may have become of a call that was quiet: one that was over has kept its result, and one
-- that had not begun has not begun or has been refused.
abbrev pub IsKept : Publisher → Publisher → Type 0
IsKept (returned e) q = q ≡ returned e
IsKept (called m) q = IsRefused q
IsKept _ q = ⊥

-- The calls of a later state against those of an earlier one: each of the earlier ones is kept, and
-- each that has come since has not begun or has been refused.
pub data IsSince : List Publisher → List Publisher → Type 0 where
  nothing : IsSince [] []
  kept :
      {p q : Publisher} {ps qs : List Publisher}
      → IsKept p q
      → IsSince ps qs
      → IsSince (p ∷ ps) (q ∷ qs)
  new : {q : Publisher} {ps qs : List Publisher} → IsRefused q → IsSince ps qs → IsSince ps (q ∷ qs)

-- What has become of the bus since `s`: it is marked closed, the calls are as said above, and no
-- buffer holds more than it did.
pub record IsShut (s t : System) : Type 0 where
  pub is_closed : t.bus.closed ≡ true
  pub is_since : IsSince s.publishers t.publishers
  pub inbound_left : length t.bus.inbound.buffer ≤ length s.bus.inbound.buffer
  pub outbound_left : length t.bus.outbound.buffer ≤ length s.bus.outbound.buffer

-- A call that has not begun can only be refused, and one that is over does not move.
Publish-IsRefused :
    {p p' : Publisher} {b b' : MessageBus}
    → b.closed ≡ true
    → IsRefused p
    → Publish p b p' b'
    → IsRefused p' × (b' ≡ b)
Publish-IsRefused h q (refuse m c) = (refl, refl)
Publish-IsRefused h q (load m c) = cc
Publish-IsRefused h q _ = absurd q

returned-still :
    {e : Option Error} {p p' : Publisher} {b b' : MessageBus}
    → p ≡ returned e
    → Publish p b p' b'
    → ⊥
returned-still h (refuse m c) = cc
returned-still h (load m c) = cc
returned-still h (cancel_early m x) = cc
returned-still h (refuse_done m d) = cc
returned-still h (pass m d) = cc
returned-still h (add m) = cc
returned-still h (send m c r) = cc
returned-still h (crash m c) = cc
returned-still h (cancel_late m x) = cc
returned-still h (stop m d) = cc

Publish-IsKept :
    (o : Publisher) {p p' : Publisher} {b b' : MessageBus}
    → b.closed ≡ true
    → IsKept o p
    → Publish p b p' b'
    → IsKept o p' × (b' ≡ b)
Publish-IsKept (called m) h k mv = Publish-IsRefused h k mv
Publish-IsKept (returned e) h k mv = absurd (returned-still k mv)
Publish-IsKept _ h k mv = absurd k

Publish-IsSince :
    {ps : List Publisher} {p p' : Publisher} {b b' : MessageBus} (before after : List Publisher)
    → b.closed ≡ true
    → Publish p b p' b'
    → IsSince ps (before ++ (p ∷ after))
    → IsSince ps (before ++ (p' ∷ after)) × (b' ≡ b)
Publish-IsSince [] after h mv (kept {p = o} k r) =
    let (k', same) = Publish-IsKept o h k mv in (kept k' r, same)
Publish-IsSince [] after h mv (new k r) =
    let (k', same) = Publish-IsRefused h k mv in (new k' r, same)
Publish-IsSince (x ∷ before) after h mv (kept k r) =
    let (r', same) = Publish-IsSince before after h mv r in (kept k r', same)
Publish-IsSince (x ∷ before) after h mv (new k r) =
    let (r', same) = Publish-IsSince before after h mv r in (new k r', same)

IsSince_refl : (ps : List Publisher) → All IsQuiet ps → IsSince ps ps
IsSince_refl [] h = nothing
IsSince_refl (called m ∷ ps) (q, h) = kept tt (IsSince_refl ps h)
IsSince_refl (returned e ∷ ps) (q, h) = kept refl (IsSince_refl ps h)
IsSince_refl (_ ∷ ps) (q, h) = absurd q

Close-closed :
    {c c' : Closer} {b b' : MessageBus} → b.closed ≡ true → Close c b c' b' → b'.closed ≡ true
Close-closed h store_closed = refl
Close-closed h _ = h

Step-IsShut : {s t u : System} → Step t u → IsShut s t → IsShut s u
Step-IsShut {s = s} (publish {s = t} before after {p = p} {p' = p'} {b' = b'} e mv) v =
    let (since, same) =
      Publish-IsSince before after v.is_closed mv (subst (IsSince s.publishers) e v.is_since) in
    rw same (record {
      is_closed = v.is_closed;
      is_since = since;
      inbound_left = v.inbound_left;
      outbound_left = v.outbound_left;
    })
Step-IsShut (call m) v = record {
  is_closed = v.is_closed;
  is_since = new tt v.is_since;
  inbound_left = v.inbound_left;
  outbound_left = v.outbound_left;
}
Step-IsShut (close c) v =
    let moved = Close-Closes c in
    record {
      is_closed = Close-closed v.is_closed c;
      is_since = v.is_since;
      inbound_left = omega (arith, moved.inbound_shrinks, v.inbound_left);
      outbound_left = omega (arith, moved.outbound_shrinks, v.outbound_left);
    }
Step-IsShut (receive_inbound m rest e) v = record {
  is_closed = v.is_closed;
  is_since = v.is_since;
  inbound_left = omega (arith, v.inbound_left, ap length e);
  outbound_left = v.outbound_left;
}
Step-IsShut (receive_outbound m rest e) v = record {
  is_closed = v.is_closed;
  is_since = v.is_since;
  inbound_left = v.inbound_left;
  outbound_left = omega (arith, v.outbound_left, ap length e);
}

-- From a state in which the bus is marked closed and no call is under way, whatever happens: the
-- bus stays marked closed, a call that was over keeps its result, every other call, also one that
-- comes later, has not begun or has returned ErrBusClosed, none panics, and no buffer grows.
pub Reach-IsShut :
    {s t : System} → s.bus.closed ≡ true → All IsQuiet s.publishers → Reach s t → IsShut s t
Reach-IsShut {s = s} h q here = record {
  is_closed = h;
  is_since = IsSince_refl s.publishers q;
  inbound_left = omega arith;
  outbound_left = omega arith;
}
Reach-IsShut h q (next r st) = Step-IsShut st (Reach-IsShut h q r)

-- The bus behind Close.
abbrev shut : MessageBus
shut = record {
  inbound = close_chan open_chan;
  outbound = close_chan open_chan;
  done = true;
  closed = true;
  wg = 0;
}

target_closed-shut : (m : Publication) → target_closed m (record shut { wg = 1 }) ≡ true
target_closed-shut (to_inbound m) = refl
target_closed-shut (to_outbound m) = refl

-- A call that has passed its checks and has not yet called wg.Add is not waited for: Close goes
-- through, and the call then sends on a closed channel. So for every message there is a run from a
-- new bus, with this one call and Close, that ends in a panic.
pub publish_may_panic :
    (m : Publication) → (s : System) × Reach idle s × (s.publishers ≡ panicked ∷ [])
publish_may_panic m = (
  record { bus = shut; publishers = panicked ∷ []; closer = outbound_closed },
  next
      (next
        (next
          (next
            (next
              (next
                (next
                  (next (next (next here (call m)) (publish [] [] refl (load m refl)))
                    (publish [] [] refl (pass m refl)))
                  (close close_done))
                (close store_closed))
              (close (wait refl)))
            (close close_inbound))
          (close close_outbound))
        (publish [] [] refl (add m)))
      (publish [] [] refl (crash m (target_closed-shut m))),
  refl,
)
