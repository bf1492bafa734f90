-- ===== src/Tests/Mcp.antt =====
-- A call of an MCP client that is answered.
use souz_go.Prelude.{ℕ, ◌≡◌, refl, true, false, [], none, some, codes}
use souz_go.Mcp.{
  RpcMessage, response, returned, Client, Reach, here, next, number, set, open_chan, reading,
  waiting, registered, numbered, unknown, register, send, take, deliver, receive, is_response,
}
use souz_go.Mcp.Routing.{Reach-answers}

abbrev pong : RpcMessage
pong = record {
  id = some 1;
  method = [];
  id_text = codes "1";
  result = some (codes "{}");
  error = none;
}

-- The client after the steps of `pong-Reach`.
abbrev answered : Client
answered = record {
  next_id = 1;
  pending = set 1 false (set 1 true (λ i. false));
  closed = false;
  chan =
      set 1 (record { message = none; is_closed = true })
        (set 1 (record { message = some pong; is_closed = true })
          (set 1 open_chan (λ i. open_chan)));
  pump = reading;
  phase =
      set 1 (returned (response pong))
        (set 1 waiting (set 1 registered (set 1 numbered (λ i. unknown))));
  panicked = false;
}

answered-Reach : Reach answered
unfolding is_response
answered-Reach =
    next
      (next
        (next (next (next (next here number) (register 1 refl refl)) (send 1 refl))
          (take 1 pong refl refl refl refl))
        (deliver 1 pong refl refl))
      (receive 1 pong refl refl)

Reach-answers_example :
    (answered.panicked ≡ false)
    × ((i : ℕ) (m : RpcMessage) → answered.phase i ≡ returned (response m) → m.id ≡ some i)
Reach-answers_example = Reach-answers answered-Reach
