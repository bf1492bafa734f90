-- ===== src/Tests/Bus.antt =====
-- The message bus at concrete runs.
use souz_go.Prelude.{◌≡◌, refl, true, [], ◌∷◌, codes, none, some, Bool, Error}
use souz_go.Bus.Defs.{Publication, to_inbound, to_outbound}
use souz_go.Bus.Steps.{
  called, returned, panicked, System, Reach, here, next, publish, call, refuse, load, pass, add,
  send, idle,
}
use souz_go.Bus.Invariant.{IsValid, Reach-IsValid}
use souz_go.Bus.Closing.{IsShut, Reach-IsShut, publish_may_panic}

abbrev hello : Publication
hello = to_inbound (record {
  channel = codes "telegram";
  chat_id = codes "1";
  sender_id = codes "2";
  text = codes "hello";
  message_id = codes "3";
  metadata = [];
})

abbrev reply : Publication
reply = to_outbound (record {
  channel = codes "telegram";
  chat_id = codes "1";
  text = codes "hi";
  reply_to_message_id = [];
})

-- One message has been published.
abbrev sent : System
sent = record idle {
  bus = record (idle.bus) {
    inbound = record {
      buffer =
          record {
            channel = codes "telegram";
            chat_id = codes "1";
            sender_id = codes "2";
            text = codes "hello";
            message_id = codes "3";
            metadata = [];
          }
          ∷ [];
      is_closed = Bool.false;
    };
  };
  publishers = returned none ∷ [];
}

one_sent : Reach idle sent
one_sent =
    next
      (next
        (next (next (next here (call hello)) (publish [] [] refl (load hello refl)))
          (publish [] [] refl (pass hello refl)))
        (publish [] [] refl (add hello)))
      (publish [] [] refl (send hello refl refl))

Reach-IsValid_example : IsValid sent
Reach-IsValid_example = Reach-IsValid one_sent

-- The bus is closed, a call is over and one has not begun; another comes too late.
abbrev late : System
late = record idle {
  bus = record (idle.bus) { done = true; closed = true };
  publishers = called reply ∷ returned none ∷ [];
}

abbrev late_refused : System
late_refused = record late {
  publishers = returned (some Error.bus_closed) ∷ called reply ∷ returned none ∷ [];
}

Reach-IsShut_example : IsShut late late_refused
Reach-IsShut_example =
    Reach-IsShut refl (tt, (tt, tt))
      (next (next here (call hello)) (publish [] _ refl (refuse hello refl)))

publish_may_panic_example : (s : System) × Reach idle s × (s.publishers ≡ panicked ∷ [])
publish_may_panic_example = publish_may_panic hello
