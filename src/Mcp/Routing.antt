-- ===== src/Mcp/Routing.antt =====
-- Each response reaches the call that it answers, and no channel is used after it was closed.
use souz_go.Prelude.{ℕ, ◌≡◌, refl, true, false, some, arith}
use souz_go.Mcp.{
  RpcMessage, response, returned, ended, Client, close_pending, Step, Reach, here, next, number,
  refuse, register, fail_to_send, send, receive, find_closed, cancel, drop, take, deliver, crash,
  end_pump, close, crash_closing,
}
use souz_go.Mcp.Sound.{
  IsSound, number-IsSound, set_phase-IsSound, forget-IsSound, read-IsSound, register-IsSound,
  take-IsSound, deliver-IsSound, close_pending-IsSound, settled-IsSound,
}

Step-IsSound : {c d : Client} → Step c d → IsSound c → IsSound d
unfolding close_pending
Step-IsSound (number {c = c}) h = number-IsSound c h
Step-IsSound (refuse {c = c} i a b) h = set_phase-IsSound c i _ (λ e. cc) (λ m e. cc) h
Step-IsSound (register {c = c} i a b) h = register-IsSound c i a h
Step-IsSound (fail_to_send {c = c} i a) h =
    set_phase-IsSound _ i _ (λ e. cc) (λ m e. cc) (forget-IsSound c i h)
Step-IsSound (send {c = c} i a) h = set_phase-IsSound c i _ (λ e. cc) (λ m e. cc) h
Step-IsSound (receive {c = c} i m a b) h =
    set_phase-IsSound _ i _ (λ e. cc) (λ n e. ground (arith, e, b, h.sent_answers i m))
      (read-IsSound c i h)
Step-IsSound (find_closed {c = c} i a b d) h = set_phase-IsSound c i _ (λ e. cc) (λ m e. cc) h
Step-IsSound (cancel {c = c} i a) h = set_phase-IsSound c i _ (λ e. cc) (λ m e. cc) h
Step-IsSound (drop m a) h = h
Step-IsSound (take {c = c} i m a r b d) h = take-IsSound c i m b d h
Step-IsSound (deliver {c = c} i m a b) h = deliver-IsSound c i m a h
Step-IsSound (crash i m a b) h = absurd (ground (arith, a, b, h.held_open i m))
Step-IsSound (end_pump {c = c} a) h =
    settled-IsSound (close_pending c) c.closed ended (λ i m e. cc) (close_pending-IsSound c h)
Step-IsSound (close {c = c}) h =
    settled-IsSound (close_pending c) true c.pump (λ i m e. e) (close_pending-IsSound c h)
Step-IsSound (crash_closing i a b) h = absurd (ground (arith, a, b, h.pending_open i))

Reach-IsSound : {c : Client} → Reach c → IsSound c
Reach-IsSound here = record {
  calm = refl;
  numbered_known = λ i p. cc;
  pending_open = λ i p. refl;
  pending_known = λ i p. cc;
  pending_registered = λ i p e. cc;
  held_open = λ i m p. refl;
  held_known = λ i m p. cc;
  held_registered = λ i m p e. cc;
  held_alone = λ i m p. refl;
  held_answers = λ i m p. cc;
  sent_answers = λ i m p. cc;
  got_answers = λ i m p. cc;
}
Reach-IsSound (next r s) = Step-IsSound s (Reach-IsSound r)

-- However the calls of a client, its pump and its Close come in between each other, no channel is
-- sent on or closed after it was closed, and a call that returns with a response returns with one
-- that has the number of its own request.
pub Reach-answers :
    {c : Client}
    → Reach c
    → (c.panicked ≡ false)
      × ((i : ℕ) (m : RpcMessage) → c.phase i ≡ returned (response m) → m.id ≡ some i)
Reach-answers r = let sound = Reach-IsSound r in (sound.calm, sound.got_answers)
