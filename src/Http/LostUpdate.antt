-- ===== src/Http/LostUpdate.antt =====
-- Two messages to one chat, of which the second is loaded before the first is saved.
use souz_go.Prelude.{
  ℕ, ◌≡◌, refl, true, List, [], ◌∷◌, Text, Result, none, some, lookup, insert, lookup-insert_self,
  text_eq_refl, arith,
}
use souz_go.Providers.{Message}
use souz_go.Storage.Json.{Layout, through_json, IsJson}
use souz_go.Storage.{
  Codec, ChatMessage, ChatState, Sessions, SessionFile, is_valid_chat_id, get_chat, save_chat,
  stamped, state_of,
}
use souz_go.Http.Requests.{
  Active, Phase, loaded, answered, Request, Reply, Server, check, load, begin, turn, finish, arrive,
  serve, Reach, here, next, checked_content, empty_chat, state_or_empty, after_turn, reply_of,
  try_begin_execution, end_execution,
}
use souz_go.Http.Flight.{fresh}

begin_first : (k : Text) → try_begin_execution k [] ≡ some ((k, tt) ∷ [])
unfolding try_begin_execution lookup insert
begin_first k = refl

begin_again :
    (k : Text) → try_begin_execution k (end_execution k ((k, tt) ∷ [])) ≡ some ((k, tt) ∷ [])
unfolding try_begin_execution end_execution lookup insert
begin_again k = ground (arith, text_eq_refl k)

-- The sessions after a Save that succeeds.
abbrev written : Text → Text → Sessions → Sessions
unfolding insert
written chat_id raw s = insert chat_id (SessionFile.bytes raw) s

module _ (L : Layout) (J : Codec) (json : IsJson L J) (k : Text) (valid : is_valid_chat_id k ≡ true)
    (now : ℕ) where
  get_chat-empty : get_chat J k [] ≡ Result.ok none
  unfolding get_chat lookup state_of
  get_chat-empty = ground (arith, valid)

  save_chat-written :
      (cs : ChatState) (raw : Text) (s : Sessions)
      → is_valid_chat_id cs.chat_id ≡ true
      → J.marshal (stamped now cs) ≡ Result.ok raw
      → save_chat J now none cs s ≡ (written cs.chat_id raw s, none)
  unfolding save_chat
  save_chat-written cs raw s h encoded = rw (h, encoded, save_chat) refl

  abbrev at : Phase → Request
  at p = record { chat_id = k; phase = p }

  -- The server with two requests of the chat.
  abbrev server : Active → Sessions → Phase → Phase → Server
  server active sessions p q = record {
    active = active;
    sessions = sessions;
    requests = at p ∷ at q ∷ [];
  }

  get_chat-written :
      (cs : ChatState) (raw : Text) (s : Sessions)
      → J.marshal cs ≡ Result.ok raw
      → get_chat J k (written k raw s) ≡ Result.ok (some (through_json L cs))
  unfolding get_chat state_of written insert
  get_chat-written cs raw s encoded =
      ground (arith, valid, lookup-insert_self k (SessionFile.bytes raw) s, json cs raw encoded)

  -- For a valid chat id and two contents that pass the check of the body as they are, two messages
  -- to a new chat that are both answered with success can leave it with the second alone: its
  -- request loads the state before the first saves it, and begins after the first has ended. The
  -- states after the two turns are encoded without an error, by a codec that keeps what encoding/json
  -- documents.
  pub lost_update :
      (first second : ChatMessage) (reply : Text → ChatMessage) (output output' : Text)
      (history history' : List Message) (raw raw' : Text)
      → checked_content (Result.ok first.content) ≡ some first.content
      → checked_content (Result.ok second.content) ≡ some second.content
      → J.marshal
          (stamped now (after_turn (empty_chat k) first reply (Result.ok (output, history))))
        ≡ Result.ok raw
      → J.marshal
          (stamped now (after_turn (empty_chat k) second reply (Result.ok (output', history'))))
        ≡ Result.ok raw'
      → (v : Server) × Reach J (fresh []) v
        × (v.requests ≡ at (answered Reply.ok) ∷ at (answered Reply.ok) ∷ [])
        × (get_chat J k v.sessions
            ≡ Result.ok (
                some (
                  through_json L (
                    stamped now
                      (after_turn (empty_chat k) second reply (Result.ok (output', history')))))))
  unfolding after_turn empty_chat state_or_empty reply_of stamped written insert
  lost_update first second reply output output' history history' raw raw' c c' e e' =
      let cs1 = after_turn (empty_chat k) first reply (Result.ok (output, history)) in
      let cs2 = after_turn (empty_chat k) second reply (Result.ok (output', history')) in
      let w1 = written k raw [] in
      let w2 = written k raw' w1 in
      let empty = get_chat-empty in
      let r1 : Reach J (fresh []) (
          server [] [] (loaded second.content (empty_chat k))
            (loaded first.content (empty_chat k))) =
        next
          (next
            (next
              (next
                (next (next here (arrive k (Result.ok first.content)))
                  (serve [] [] refl (check first.content c)))
                (serve [] [] refl (load none empty)))
              (arrive k (Result.ok second.content)))
            (serve [] (at (loaded first.content (empty_chat k)) ∷ []) refl
              (check second.content c')))
          (serve [] (at (loaded first.content (empty_chat k)) ∷ []) refl (load none empty)) in
      let s1 = save_chat-written cs1 raw [] valid e in
      let s2 = save_chat-written cs2 raw' w1 valid e' in
      let front = at (loaded second.content (empty_chat k)) ∷ [] in
      let back = at (answered Reply.ok) ∷ [] in
      let r2 : Reach J (fresh []) (
          server (end_execution k ((k, tt) ∷ [])) w1 (loaded second.content (empty_chat k))
            (answered Reply.ok)) =
        next
          (next (next r1 (serve front [] refl (begin (begin_first k)))) (
            serve front [] refl
              (turn now none first reply (Result.ok (output, history)) none refl s1)))
          (serve front [] refl finish) in
      let r3 : Reach J (fresh [])
          (server (end_execution k ((k, tt) ∷ [])) w2 (answered Reply.ok) (answered Reply.ok)) =
        next
          (next (next r2 (serve [] back refl (begin (begin_again k)))) (
            serve [] back refl
              (turn now none second reply (Result.ok (output', history')) none refl s2)))
          (serve [] back refl finish) in
      (
        server (end_execution k ((k, tt) ∷ [])) w2 (answered Reply.ok) (answered Reply.ok),
        r3,
        refl,
        get_chat-written (stamped now cs2) raw' w1 e',
      )
