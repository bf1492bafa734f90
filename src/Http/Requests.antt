-- ===== src/Http/Requests.antt =====
-- handleSendMessage of pkg/http/http.go, cut where other requests can come in between: after the
-- check of the body, after Store.Get, after tryBeginExecution, after the turn and its Save, at
-- endExecution.
use souz_go.Prelude.{
  ℕ, ◌≡◌, Bool, true, false, List, [], ◌∷◌, ◌++◌, Text, Error, Result, Option, none, some, Dict,
  lookup, insert, erase, text_eq, trim_space, is_canceled, if◌then◌else◌,
}
use souz_go.Providers.{Message}
use souz_go.Storage.{Codec, ChatMessage, ChatState, Sessions, get_chat, save_chat}

-- The map `active` of the server, without the functions that cancel.
abbrev pub Active : Type 0
Active = Dict (Unit {0})

-- tryBeginExecution: the map afterwards where it succeeds.
unfoldable pub try_begin_execution : Text → Active → Option Active
unfolding lookup insert
try_begin_execution chat_id active = elim (lookup chat_id active) [
  | some running ↦ none
  | none ↦ some (insert chat_id tt active)
]

-- endExecution
unfoldable pub end_execution : Text → Active → Active
unfolding erase
end_execution chat_id active = erase chat_id active

-- cancelActive: whether there is something to cancel.
unfoldable pub cancel_active : Text → Active → Bool
unfolding lookup
cancel_active chat_id active = elim (lookup chat_id active) [ none ↦ false | some running ↦ true ]

-- The status codes that the handler writes.
pub data Reply : Type 0 where
  ok bad_request conflict internal_error : Reply

-- The content of a body that was decoded, or the refusal.
unfoldable pub checked_content : Result Error Text → Option Text
unfolding trim_space
checked_content (Result.err e) = none
checked_content (Result.ok body) =
    let content = trim_space body in if text_eq content [] then none else some content

unfoldable pub empty_chat : Text → ChatState
empty_chat chat_id = record {
  chat_id = chat_id;
  title = [];
  archived = false;
  created_at = 0;
  updated_at = 0;
  history = [];
  messages = [];
}

-- The state that the turn starts from.
unfoldable pub state_or_empty : Text → Option ChatState → ChatState
unfolding empty_chat
state_or_empty chat_id none = empty_chat chat_id
state_or_empty chat_id (some cs) = cs

-- What a turn leaves: its error, or its output and the history of its context.
abbrev pub TurnOutcome : Type 0
TurnOutcome = Result Error (Text × List Message)

-- The state that is saved after the turn.
unfoldable pub after_turn :
    ChatState → (user : ChatMessage) → (assistant : Text → ChatMessage) → TurnOutcome → ChatState
after_turn cs user assistant (Result.err e) = record cs { messages = cs.messages ++ user ∷ [] }
after_turn cs user assistant (Result.ok (output, history)) = record cs {
  messages = cs.messages ++ user ∷ assistant output ∷ [];
  history = history;
}

-- The reply after the turn, by the outcome of Save.
unfoldable pub reply_of : TurnOutcome → Option Error → Reply
unfolding is_canceled
reply_of (Result.err e) saved = if is_canceled e then Reply.conflict else Reply.internal_error
reply_of (Result.ok r) none = Reply.ok
reply_of (Result.ok r) (some e) = Reply.internal_error

-- Where a request is.
pub data Phase : Type 0 where
  received : Result Error Text → Phase
  checked : Text → Phase
  loaded : Text → ChatState → Phase
  executing : Text → ChatState → Phase
  saved : Reply → Phase
  answered : Reply → Phase

pub record Request : Type 0 where
  pub chat_id : Text
  pub phase : Phase

pub record Server : Type 0 where
  pub active : Active
  pub sessions : Sessions
  pub requests : List Request

module _ (J : Codec) where
  -- One step of one request: the parts of the server before and after it.
  pub data Move : Text → Active × Sessions × Phase → Active × Sessions × Phase → Type 0 where
    refuse :
        {k : Text} {a : Active} {s : Sessions} {body : Result Error Text}
        → checked_content body ≡ none
        → Move k (a, s, received body) (a, s, answered Reply.bad_request)
    check :
        {k : Text} {a : Active} {s : Sessions} {body : Result Error Text} (content : Text)
        → checked_content body ≡ some content
        → Move k (a, s, received body) (a, s, checked content)
    unreadable :
        {k : Text} {a : Active} {s : Sessions} {content : Text} (e : Error)
        → get_chat J k s ≡ Result.err e
        → Move k (a, s, checked content) (a, s, answered Reply.bad_request)
    load :
        {k : Text} {a : Active} {s : Sessions} {content : Text} (cs : Option ChatState)
        → get_chat J k s ≡ Result.ok cs
        → Move k (a, s, checked content) (a, s, loaded content (state_or_empty k cs))
    clash :
        {k : Text} {a : Active} {s : Sessions} {content : Text} {cs : ChatState}
        → try_begin_execution k a ≡ none
        → Move k (a, s, loaded content cs) (a, s, answered Reply.conflict)
    begin :
        {k : Text} {a b : Active} {s : Sessions} {content : Text} {cs : ChatState}
        → try_begin_execution k a ≡ some b
        → Move k (a, s, loaded content cs) (b, s, executing content cs)
    -- The turn and the Save after it, with the outcomes that they have.
    turn :
        {k : Text} {a : Active} {s t : Sessions} {content : Text} {cs : ChatState} (now : ℕ)
        (written : Option Error) (user : ChatMessage) (assistant : Text → ChatMessage)
        (outcome : TurnOutcome) (failure : Option Error)
        → user.content ≡ content
        → save_chat J now written (after_turn cs user assistant outcome) s ≡ (t, failure)
        → Move k (a, s, executing content cs) (a, t, saved (reply_of outcome failure))
    finish :
        {k : Text} {a : Active} {s : Sessions} {reply : Reply}
        → Move k (a, s, saved reply) (end_execution k a, s, answered reply)

  pub data Step : Server → Server → Type 0 where
    arrive :
        {v : Server} (k : Text) (body : Result Error Text)
        → Step v
            (record v { requests = record { chat_id = k; phase = received body } ∷ v.requests })
    serve :
        {v : Server} (before after : List Request) {k : Text} {p q : Phase} {a : Active}
        {s : Sessions}
        → v.requests ≡ before ++ record { chat_id = k; phase = p } ∷ after
        → Move k (v.active, v.sessions, p) (a, s, q)
        → Step v (record {
          active = a;
          sessions = s;
          requests = before ++ record { chat_id = k; phase = q } ∷ after;
        })

  pub data Reach (v : Server) : Server → Type 0 where
    here : Reach v v
    next : {u t : Server} → Reach v u → Step u t → Reach v t
