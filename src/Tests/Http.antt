-- ===== src/Tests/Http.antt =====
-- The sessions and the HTTP API at concrete runs.
use mathlib.Core.List.{Permᴰ, flatten}
use souz_go.Channels.{is_allowed, IsListed, is_allowed-IsListed}
use souz_go.Prelude.{ℕ, ◌≡◌, ◌↔◌, ◌⊎◌, ◌≤◌, refl, Bool, [], ◌∷◌, Text, Result, none, some, codes}
use souz_go.Storage.{
  ChatState, ChatMessage, SessionFile, Sessions, get_chat, save_chat, stamped, list_chats,
  is_valid_chat_id,
}
use souz_go.Storage.Json.{through_json}
use souz_go.Tests.Json.{
  plain_layout, plain_codec, plain_codec-IsJson, put_state, put_messages, messages_at,
}
use souz_go.Storage.Sessions.{
  decoded_of, get_chat-save_chat, is_recent_first, list_chats-is_recent_first,
}
use souz_go.Http.Requests.{
  received, Reply, Server, answered, Reach, here, next, arrive, empty_chat, after_turn,
  checked_content,
}
use souz_go.Http.Flight.{fresh, turns_of, entries_of, Reach-turns_of}
use souz_go.Http.LostUpdate.{lost_update}
use souz_go.Http.Broadcast.{SseEvent}
use souz_go.Http.Broadcast.Delivery.{
  published, taken, IsPart, seen, follow, events_of, follow-IsPart,
}

get_chat-save_chat_example :
    get_chat plain_codec (codes "a") (save_chat plain_codec 5 none (empty_chat (codes "a")) []).0
    ≡ Result.ok (some (through_json plain_layout (stamped 5 (empty_chat (codes "a")))))
unfolding save_chat is_valid_chat_id empty_chat
get_chat-save_chat_example =
    get_chat-save_chat plain_layout plain_codec plain_codec-IsJson 5 none (empty_chat (codes "a"))
      [] (codes "a")

abbrev chat_of : Text → ℕ → ChatState
chat_of chat_id time = record {
  chat_id = chat_id;
  title = [];
  archived = Bool.false;
  created_at = 1;
  updated_at = time;
  history = [];
  messages = [];
}

-- Two chats, with a file between them that cannot be read.
abbrev three_files : Sessions
three_files =
    (codes "a", SessionFile.bytes (put_state (chat_of (codes "a") 1)))
    ∷ (codes "b", SessionFile.unreadable)
    ∷ (codes "c", SessionFile.bytes (put_state (chat_of (codes "c") 2)))
    ∷ []

list_chats-is_recent_first_example :
    (is_recent_first (list_chats plain_codec three_files) ≡ Bool.true)
    × Permᴰ
        (list_chats plain_codec three_files)
        (chat_of (codes "a") 1 ∷ chat_of (codes "c") 2 ∷ [])
unfolding decoded_of flatten messages_at put_messages
list_chats-is_recent_first_example = list_chats-is_recent_first plain_codec three_files

abbrev one_request : Server
one_request = record {
  active = [];
  sessions = [];
  requests = record { chat_id = codes "a"; phase = received (Result.ok (codes "hi")) } ∷ [];
}

one_arrives : Reach plain_codec (fresh []) one_request
one_arrives = next here (arrive (codes "a") (Result.ok (codes "hi")))

Reach-turns_of_example :
    (turns_of (codes "a") one_request.requests ≤ 1)
    × (entries_of (codes "a") one_request.active ≡ turns_of (codes "a") one_request.requests)
Reach-turns_of_example = Reach-turns_of plain_codec [] (codes "a") one_arrives

abbrev said : Text → ChatMessage
said s = record { id = codes "m"; role = codes "user"; content = s; created_at = 3 }

-- What the plain codec writes after a turn.
abbrev saved : Text → Text → Text
unfolding stamped after_turn empty_chat
saved content output =
    put_state
      (stamped 7 (after_turn (empty_chat (codes "a")) (said content) said (Result.ok (output, []))))

lost_update_example :
    (v : Server) × Reach plain_codec (fresh []) v
    × (v.requests
        ≡ record { chat_id = codes "a"; phase = answered Reply.ok }
          ∷ record { chat_id = codes "a"; phase = answered Reply.ok }
          ∷ [])
    × (get_chat plain_codec (codes "a") v.sessions
        ≡ Result.ok (
            some (
              through_json plain_layout (
                stamped 7 (
                  after_turn
                    (empty_chat (codes "a"))
                    (said (codes "two"))
                    said
                    (Result.ok (codes "yes", [])))))))
unfolding checked_content is_valid_chat_id stamped after_turn saved
lost_update_example =
    lost_update plain_layout plain_codec plain_codec-IsJson (codes "a") refl 7 (said (codes "one"))
      (said (codes "two")) said (codes "no") (codes "yes") [] [] (saved (codes "one") (codes "no"))
      (saved (codes "two") (codes "yes")) refl refl refl refl

is_allowed-IsListed_example :
    (is_allowed (codes "1" ∷ codes "2" ∷ []) (codes "2") ≡ Bool.true)
    ↔ (((codes "1" ∷ codes "2" ∷ []) ≡ []) ⊎ IsListed (codes "2") (codes "1" ∷ codes "2" ∷ []))
is_allowed-IsListed_example = is_allowed-IsListed (codes "1" ∷ codes "2" ∷ []) (codes "2")

abbrev first_event : SseEvent
first_event = record { event_type = codes "a"; payload = [] }

abbrev second_event : SseEvent
second_event = record { event_type = codes "b"; payload = [] }

follow-IsPart_example :
    IsPart (first_event ∷ second_event ∷ []) (first_event ∷ second_event ∷ []) × (1 ≤ 64)
unfolding seen events_of follow
follow-IsPart_example =
    follow-IsPart (published first_event ∷ published second_event ∷ taken ∷ []) 0
