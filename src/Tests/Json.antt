-- ===== src/Tests/Json.antt =====
-- A codec for states without a history, by the lengths of texts. It keeps strings and raw JSON as
-- they are.
use mathlib.Core.List.{map}
use souz_go.Prelude.{
  ℕ, zero, suc, ◌≡◌, refl, ap, sym, Bool, true, false, List, [], ◌∷◌, ◌++◌, Text, Error, Result,
  length, take, drop, codes, ◌==◌, arith,
}
use souz_go.Providers.{Message}
use souz_go.Storage.{ChatMessage, ChatState, Codec}
use souz_go.Storage.Json.{Layout, through_json, IsJson, chat_message_through}

abbrev pub plain_layout : Layout
plain_layout = record { to_utf8 = λ s. s; indent_raw = λ s. s }

abbrev pub first : Text → ℕ
first [] = 0
first (c ∷ s) = c

abbrev pub put_text : Text → Text → Text
put_text s rest = length s ∷ (s ++ rest)

abbrev pub text_at : Text → Text
text_at s = take (first s) (drop 1 s)

abbrev pub after_text : Text → Text
after_text s = drop (first s) (drop 1 s)

take_front : (s t : Text) → take (length s) (s ++ t) ≡ s
take_front [] t = refl
take_front (c ∷ s) t = ap (◌∷◌ c) (take_front s t)

drop_front : (s t : Text) → drop (length s) (s ++ t) ≡ t
drop_front [] t = refl
drop_front (c ∷ s) t = drop_front s t

abbrev pub put_message : ChatMessage → Text → Text
put_message m rest = put_text m.id (put_text m.role (put_text m.content (m.created_at ∷ rest)))

abbrev pub message_at : Text → ChatMessage
message_at s =
    let r = after_text (after_text (after_text s)) in
    record {
      id = text_at s;
      role = text_at (after_text s);
      content = text_at (after_text (after_text s));
      created_at = first r;
    }

abbrev pub after_message : Text → Text
after_message s = drop 1 (after_text (after_text (after_text s)))

message_at-put_message : (m : ChatMessage) (rest : Text) → message_at (put_message m rest) ≡ m
message_at-put_message m rest = simp (take_front, drop_front)

after_message-put_message :
    (m : ChatMessage) (rest : Text) → after_message (put_message m rest) ≡ rest
after_message-put_message m rest = simp drop_front

unfoldable pub put_messages : List ChatMessage → Text
put_messages [] = []
put_messages (m ∷ ms) = put_message m (put_messages ms)

unfoldable pub messages_at : ℕ → Text → List ChatMessage
messages_at zero s = []
messages_at (suc n) s = message_at s ∷ messages_at n (after_message s)

messages_at-put_messages : (ms : List ChatMessage) → messages_at (length ms) (put_messages ms) ≡ ms
unfolding messages_at put_messages
messages_at-put_messages [] = refl
messages_at-put_messages (m ∷ ms) =
    rw (message_at-put_message m (put_messages ms), after_message-put_message m (put_messages ms))
      (ap (◌∷◌ m) (messages_at-put_messages ms))

map_through : (ms : List ChatMessage) → map (chat_message_through plain_layout) ms ≡ ms
map_through [] = refl
map_through (m ∷ ms) = ap (◌∷◌ m) (map_through ms)

abbrev pub flag : Bool → ℕ
flag true = 1
flag false = 0

flag_back : (b : Bool) → (flag b == 1) ≡ b
flag_back true = refl
flag_back false = refl

abbrev pub put_state : ChatState → Text
put_state cs = put_text cs.chat_id (
    put_text cs.title (
      flag cs.archived
      ∷ cs.created_at
      ∷ cs.updated_at
      ∷ length cs.messages
      ∷ put_messages cs.messages))

abbrev pub state_at : Text → ChatState
state_at s =
    let r = after_text (after_text s) in
    record {
      chat_id = text_at s;
      title = text_at (after_text s);
      archived = first r == 1;
      created_at = first (drop 1 r);
      updated_at = first (drop 2 r);
      history = [];
      messages = messages_at (first (drop 3 r)) (drop 4 r);
    }

abbrev pub plain_codec : Codec
plain_codec = record {
  marshal = λ cs. elim cs.history [
    | [] ↦ Result.ok (put_state cs)
    | m ∷ ms ↦ Result.err (Error.other (codes "history"))
  ];
  unmarshal = λ raw. Result.ok (state_at raw);
}

state_at-put_state :
    (cs : ChatState) → cs.history ≡ [] → state_at (put_state cs) ≡ through_json plain_layout cs
unfolding through_json
state_at-put_state cs h =
    rw h (simp (take_front, drop_front, flag_back, messages_at-put_messages, map_through))

pub plain_codec-IsJson : IsJson plain_layout plain_codec
plain_codec-IsJson cs raw h = by_history cs.history refl h
  where
    by_history :
        (ms : List Message)
        → cs.history ≡ ms
        → (elim ms [
          | [] ↦ Result.ok (put_state cs)
          | m ∷ rest ↦ Result.err (Error.other (codes "history"))
        ])
          ≡ Result.ok raw
        → plain_codec.unmarshal raw ≡ Result.ok (through_json plain_layout cs)
    by_history [] p t =
        let same : put_state cs ≡ raw = ground (arith, t) in
        rw (sym same) (ap Result.ok (state_at-put_state cs p))
    by_history (m ∷ rest) p t = absurd (ground (arith, t))
