-- ===== src/Storage.antt =====
-- pkg/storage/storage.go: the sessions on the disk, one file for each chat. The time is an
-- argument, and so is the outcome of the calls that write or remove a file.
pub mod Sessions
pub mod Json
use souz_go.Prelude.{
  ℕ, ◌==◌, ◌&&◌, ◌||◌, leb, ltb, Bool, true, false, List, [], ◌∷◌, Text, Error, Label, Result,
  Option, none, some, Dict, lookup, insert, erase, codes, all, if◌then◌else◌,
}
-- providers.Message is the other one.
use souz_go.Providers.{Message}

pub record ChatMessage : Type 0 where
  pub id : Text
  pub role : Text
  pub content : Text
  pub created_at : ℕ

-- 0 is the zero time.
pub record ChatState : Type 0 where
  pub chat_id : Text
  pub title : Text
  pub archived : Bool
  pub created_at : ℕ
  pub updated_at : ℕ
  pub history : List Message
  pub messages : List ChatMessage

-- A file that cannot be read, or its bytes.
pub data SessionFile : Type 0 where
  unreadable : SessionFile
  bytes : Text → SessionFile

-- json.MarshalIndent and json.Unmarshal of a ChatState.
pub record Codec : Type 0 where
  pub marshal : ChatState → Result Error Text
  pub unmarshal : Text → Result Error ChatState

-- The directory of the store: the files {chatID}.json.
abbrev pub Sessions : Type 0
Sessions = Dict SessionFile

-- [A-Za-z0-9._:-]
unfoldable pub is_chat_id_byte : ℕ → Bool
is_chat_id_byte c =
    (leb b'A' c && leb c b'Z')
    || (leb b'a' c && leb c b'z')
    || (leb b'0' c && leb c b'9')
    || c == b'.'
    || c == b'_'
    || c == b':'
    || c == b'-'

-- validChatID.MatchString
unfoldable pub is_valid_chat_id : Text → Bool
unfolding is_chat_id_byte
is_valid_chat_id [] = false
is_valid_chat_id (c ∷ s) = all is_chat_id_byte (c ∷ s)

abbrev pub invalid_chat_id : Error
invalid_chat_id = Error.other (codes "storage: invalid chat id")

-- The two times that Save sets.
unfoldable pub stamped : ℕ → ChatState → ChatState
stamped now cs = record cs {
  created_at = if cs.created_at == 0 then now else cs.created_at;
  updated_at = now;
}

-- sort.Slice by UpdatedAt.After; the order of states with the same time is not specified.
unfoldable pub insert_recent : ChatState → List ChatState → List ChatState
insert_recent cs [] = cs ∷ []
insert_recent cs (d ∷ ds) =
    let rest = insert_recent cs ds in
    if ltb cs.updated_at d.updated_at then d ∷ rest else cs ∷ d ∷ ds

unfoldable pub sort_recent : List ChatState → List ChatState
unfolding insert_recent
sort_recent [] = []
sort_recent (cs ∷ ds) = insert_recent cs (sort_recent ds)

-- Delete; `outcome` is an error of os.Remove other than ErrNotExist.
unfoldable pub delete_chat : Option Error → Text → Sessions → Sessions × Option Error
unfolding is_valid_chat_id erase
delete_chat outcome chat_id sessions =
    if is_valid_chat_id chat_id
    then elim outcome [
      | some e ↦ (sessions, some (Error.wrap (Label.stage (codes "storage")) e))
      | none ↦ (erase chat_id sessions, none)
    ]
    else (sessions, some invalid_chat_id)

module _ (J : Codec) where
  -- What Get makes of the file, or of its absence.
  unfoldable pub state_of : Option SessionFile → Result Error (Option ChatState)
  state_of none = Result.ok none
  state_of (some SessionFile.unreadable) = Result.err (Error.other (codes "storage: read"))
  state_of (some (SessionFile.bytes raw)) = elim (J.unmarshal raw) [
    | Result.err e ↦ Result.err (Error.wrap (Label.stage (codes "storage: decode")) e)
    | Result.ok cs ↦ Result.ok (some cs)
  ]

  unfoldable pub get_chat : Text → Sessions → Result Error (Option ChatState)
  unfolding is_valid_chat_id lookup state_of
  get_chat chat_id sessions =
      if is_valid_chat_id chat_id
      then state_of (lookup chat_id sessions)
      else Result.err invalid_chat_id

  -- `outcome` is that of MkdirAll and writeFileAtomic.
  unfoldable pub save_chat : ℕ → Option Error → ChatState → Sessions → Sessions × Option Error
  unfolding is_valid_chat_id stamped insert
  save_chat now outcome cs sessions =
      if is_valid_chat_id cs.chat_id
      then elim (J.marshal (stamped now cs)) [
        | Result.err e ↦ (sessions, some (Error.wrap (Label.stage (codes "storage: encode")) e))
        | Result.ok raw ↦ elim outcome [
          | some e ↦ (sessions, some (Error.wrap (Label.stage (codes "storage")) e))
          | none ↦ (insert cs.chat_id (SessionFile.bytes raw) sessions, none)
        ]
      ]
      else (sessions, some invalid_chat_id)

  -- The loop of List over the files.
  unfoldable pub decodable : Sessions → List ChatState
  decodable [] = []
  decodable ((k, SessionFile.unreadable) ∷ files) = decodable files
  decodable ((k, SessionFile.bytes raw) ∷ files) =
      let rest = decodable files in
      elim (J.unmarshal raw) [ Result.err e ↦ rest | Result.ok cs ↦ cs ∷ rest ]

  -- List, where the directory can be read.
  unfoldable pub list_chats : Sessions → List ChatState
  unfolding decodable sort_recent
  list_chats sessions = sort_recent (decodable sessions)
