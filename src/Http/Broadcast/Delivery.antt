-- ===== src/Http/Broadcast/Delivery.antt =====
-- What reaches a subscriber of a chat's events.
use souz_go.Prelude.{
  ℕ, ◌≤◌, ◌≡◌, refl, sym, ap, ◌∙◌, Bool, true, false, List, [], ◌∷◌, ◌++◌, append_assoc, append-nil,
  length, length-append, arith, ltb, if◌then◌else◌,
}
use souz_go.Http.Broadcast.{SseEvent, Subscriber, offer, subscriber_buffer_size}

-- What happens at the broadcaster while a subscriber is there: an event is published, or the
-- subscriber of a number takes one from its buffer.
pub data Happening : Type 0 where
  published : SseEvent → Happening
  taken : Happening

-- A subscriber, and what it took so far.
pub record Listener : Type 0 where
  pub subscriber : Subscriber
  pub received : List SseEvent

unfoldable pub take_one : Listener → Listener
take_one l = elim l.subscriber.buffer [
  | [] ↦ l
  | e ∷ es ↦ record {
    subscriber = record (l.subscriber) { buffer = es };
    received = l.received ++ e ∷ [];
  }
]

unfoldable pub follow : List Happening → Listener → Listener
unfolding offer take_one
follow [] l = l
follow (published e ∷ hs) l = follow hs (record l { subscriber = offer e l.subscriber })
follow (taken ∷ hs) l = follow hs (take_one l)

unfoldable pub events_of : List Happening → List SseEvent
events_of [] = []
events_of (published e ∷ hs) = e ∷ events_of hs
events_of (taken ∷ hs) = events_of hs

-- The first list is what is left of the second where some of its events are left out.
pub data IsPart : List SseEvent → List SseEvent → Type 0 where
  nothing : IsPart [] []
  kept : (e : SseEvent) {xs ys : List SseEvent} → IsPart xs ys → IsPart (e ∷ xs) (e ∷ ys)
  dropped : (e : SseEvent) {xs ys : List SseEvent} → IsPart xs ys → IsPart xs (e ∷ ys)

unfoldable pub seen : Listener → List SseEvent
seen l = l.received ++ l.subscriber.buffer

take_one-seen : (l : Listener) → seen (take_one l) ≡ seen l
unfolding seen take_one
take_one-seen l = go l.subscriber.number l.received l.subscriber.buffer
  where
    at : ℕ → List SseEvent → List SseEvent → Listener
    at n r b = record { subscriber = record { number = n; buffer = b }; received = r }

    go : (n : ℕ) (r b : List SseEvent) → seen (take_one (at n r b)) ≡ seen (at n r b)
    go n r [] = refl
    go n r (e ∷ es) = append_assoc r (e ∷ []) es

IsPart-refl : (xs : List SseEvent) → IsPart xs xs
IsPart-refl [] = nothing
IsPart-refl (e ∷ xs) = kept e (IsPart-refl xs)

IsPart-insert :
    (xs cs bs : List SseEvent) (e : SseEvent) → IsPart xs (cs ++ bs) → IsPart xs (cs ++ e ∷ bs)
IsPart-insert xs [] bs e h = dropped e h
IsPart-insert _ (a ∷ cs) bs e (kept _ {xs = xs} h) = kept a (IsPart-insert xs cs bs e h)
IsPart-insert xs (a ∷ cs) bs e (dropped _ h) = dropped a (IsPart-insert xs cs bs e h)

-- An event that is offered is seen last, or not at all.
offered : SseEvent → Listener → Listener
offered e l = record l { subscriber = offer e l.subscriber }

offered-IsPart :
    (e : SseEvent) (l : Listener) (xs rest : List SseEvent)
    → IsPart xs (seen (offered e l) ++ rest)
    → IsPart xs (seen l ++ e ∷ rest)
unfolding seen offered offer
offered-IsPart e l xs rest h = go (ltb (length l.subscriber.buffer) subscriber_buffer_size) h
  where
    go :
        (b : Bool)
        → IsPart xs (
            (l.received
              ++ (if b
                  then record (l.subscriber) { buffer = l.subscriber.buffer ++ e ∷ [] }
                  else l.subscriber).buffer)
            ++ rest)
        → IsPart xs ((l.received ++ l.subscriber.buffer) ++ e ∷ rest)
    go true t =
        let r = l.received in
        let b = l.subscriber.buffer in
        let same : (r ++ (b ++ e ∷ [])) ++ rest ≡ (r ++ b) ++ e ∷ rest =
          ap (λ z. z ++ rest) (sym (append_assoc r b (e ∷ [])))
          ∙ append_assoc (r ++ b) (e ∷ []) rest in
        rw (sym same) t
    go false t = IsPart-insert xs (l.received ++ l.subscriber.buffer) rest e t

follow-IsPart_from :
    (hs : List Happening) (l : Listener) → IsPart (seen (follow hs l)) (seen l ++ events_of hs)
unfolding follow events_of offered
follow-IsPart_from [] l = rw (append-nil (seen l)) (IsPart-refl (seen l))
follow-IsPart_from (published e ∷ hs) l =
    offered-IsPart e l _ (events_of hs) (follow-IsPart_from hs (offered e l))
follow-IsPart_from (taken ∷ hs) l = rw (sym (take_one-seen l)) (follow-IsPart_from hs (take_one l))

follow-fits :
    (hs : List Happening) (l : Listener)
    → length l.subscriber.buffer ≤ subscriber_buffer_size
    → length (follow hs l).subscriber.buffer ≤ subscriber_buffer_size
unfolding follow offer take_one offered
follow-fits [] l h = h
follow-fits (published e ∷ hs) l h =
    follow-fits hs (offered e l) (ground (arith, h, length-append l.subscriber.buffer (e ∷ [])))
follow-fits (taken ∷ hs) l h = follow-fits hs (take_one l) (ground (arith, h))

abbrev pub new_listener : ℕ → Listener
new_listener n = record { subscriber = record { number = n; buffer = [] }; received = [] }

-- Whatever is published and however late a subscriber takes its events, what it took and what waits
-- in its buffer are, in this order, events that were published since it subscribed, in their order,
-- with some left out; and no more wait than the buffer has room for.
pub follow-IsPart :
    (hs : List Happening) (n : ℕ)
    → IsPart (seen (follow hs (new_listener n))) (events_of hs)
      × (length (follow hs (new_listener n)).subscriber.buffer ≤ subscriber_buffer_size)
unfolding seen
follow-IsPart hs n =
    (follow-IsPart_from hs (new_listener n), follow-fits hs (new_listener n) (omega arith))
