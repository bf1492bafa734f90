-- ===== src/Channels.antt =====
-- BaseChannel of pkg/channels/channel.go: the allow-list in front of the bus. The calls of the
-- platforms are not modelled.
use souz_go.Prelude.{
  ◌≡◌, refl, Bool, true, false, ◌||◌, List, [], ◌∷◌, Text, Error, Option, none, codes, text_eq,
  text_eq→eq, text_eq_refl, if◌then◌else◌, Bool-cases, ap, arith, ◌⊎◌, ◌↔◌, inl, inr,
}
use souz_go.Bus.Defs.{InboundMessage}

-- The loop of IsAllowed.
unfoldable pub matches : List Text → Text → Bool
matches [] sender_id = false
matches (a ∷ allow_list) sender_id =
    (text_eq a (codes "*") || text_eq a sender_id) || matches allow_list sender_id

unfoldable pub is_allowed : List Text → Text → Bool
unfolding matches
is_allowed [] sender_id = true
is_allowed (a ∷ allow_list) sender_id = matches (a ∷ allow_list) sender_id

-- `publish` is PublishInbound of the bus, on the state `W`.
unfoldable pub handle_inbound :
    {W : Type 0}
    → (InboundMessage → W → W × Option Error)
    → List Text
    → InboundMessage
    → W
    → W × Option Error
unfolding is_allowed
handle_inbound publish allow_list msg w =
    if is_allowed allow_list msg.sender_id then publish msg w else (w, none)

-- The list holds the id, or "*".
pub data IsListed (id : Text) : List Text → Type 0 where
  itself : {a : Text} {ids : List Text} → a ≡ id → IsListed id (a ∷ ids)
  wildcard : {a : Text} {ids : List Text} → a ≡ codes "*" → IsListed id (a ∷ ids)
  later : {a : Text} {ids : List Text} → IsListed id ids → IsListed id (a ∷ ids)

matches-IsListed : (ids : List Text) (id : Text) → matches ids id ≡ true → IsListed id ids
unfolding matches
matches-IsListed [] id h = cc
matches-IsListed (a ∷ ids) id h =
    by_star (Bool-cases (text_eq a (codes "*"))) (Bool-cases (text_eq a id))
      (matches-IsListed ids id)
  where
    by_star :
        (text_eq a (codes "*") ≡ true) ⊎ (text_eq a (codes "*") ≡ false)
        → (text_eq a id ≡ true) ⊎ (text_eq a id ≡ false)
        → (matches ids id ≡ true → IsListed id ids)
        → IsListed id (a ∷ ids)
    by_star (inl s) e rest = wildcard (text_eq→eq a (codes "*") s)
    by_star (inr s) (inl e) rest = itself (text_eq→eq a id e)
    by_star (inr s) (inr e) rest = later (rest (ground (arith, h, s, e)))

IsListed-matches : (id : Text) {ids : List Text} → IsListed id ids → matches ids id ≡ true
unfolding matches
IsListed-matches id (itself {a = a} e) = ground (arith, e, text_eq_refl id)
IsListed-matches id (wildcard {a = a} e) = ground (arith, ap (λ s. text_eq s (codes "*")) e)
IsListed-matches id (later {ids = ids} l) = ground (arith, IsListed-matches id l)

-- A sender is allowed exactly where the allow-list is empty, or holds the sender or "*".
pub is_allowed-IsListed :
    (ids : List Text) (id : Text) → (is_allowed ids id ≡ true) ↔ ((ids ≡ []) ⊎ IsListed id ids)
unfolding is_allowed
is_allowed-IsListed [] id = (λ h. inl refl, λ l. refl)
is_allowed-IsListed (a ∷ ids) id = (λ h. inr (matches-IsListed (a ∷ ids) id h), from_listed)
  where
    from_listed : ((a ∷ ids) ≡ []) ⊎ IsListed id (a ∷ ids) → matches (a ∷ ids) id ≡ true
    from_listed (inl e) = cc
    from_listed (inr l) = IsListed-matches id l
