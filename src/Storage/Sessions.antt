-- ===== src/Storage/Sessions.antt =====
-- What the store of sessions keeps, and the order in which it lists the chats.
use mathlib.Core.List.{Permᴰ, flatten, map}
use souz_go.Prelude.{
  ℕ, ◌≡◌, refl, sym, Bool, true, false, List, [], ◌∷◌, Text, Error, Result, Option, none, some,
  codes, Label, insert, lookup-insert_self, lookup-insert_ne, text_eq, text_eq→eq, arith, leb, ltb,
  ◌&&◌, if◌then◌else◌,
}
use souz_go.Storage.{
  Codec, ChatState, SessionFile, Sessions, is_valid_chat_id, invalid_chat_id, state_of, get_chat,
  save_chat, stamped, insert_recent, sort_recent, decodable, list_chats,
}
use souz_go.Storage.Json.{Layout, through_json, IsJson}

module _ (L : Layout) (J : Codec) (json : IsJson L J) where
  -- What Get returns for a chat after Save, for a codec that keeps what encoding/json documents.
  -- Where Save reports no error and the chat is the saved one: the saved state with its times set,
  -- its strings as valid UTF-8 and the arguments of its tool calls in the layout of the file. In
  -- every other case, so after an error of encoding or writing too: what it returned before.
  pub get_chat-save_chat :
      (now : ℕ) (outcome : Option Error) (cs : ChatState) (sessions : Sessions) (chat_id : Text)
      → get_chat J chat_id (save_chat J now outcome cs sessions).0
        ≡ elim (save_chat J now outcome cs sessions).1 [
          | none ↦
              if text_eq cs.chat_id chat_id
              then Result.ok (some (through_json L (stamped now cs)))
              else get_chat J chat_id sessions
          | some e ↦ get_chat J chat_id sessions
        ]
  unfolding get_chat save_chat state_of
  get_chat-save_chat now outcome cs sessions chat_id =
      by_encoding (J.marshal (stamped now cs)) refl outcome
    where
      saved : Result Error Text → Option Error → Sessions × Option Error
      saved r o =
          if is_valid_chat_id cs.chat_id
          then elim r [
            | Result.err e ↦ (sessions, some (Error.wrap (Label.stage (codes "storage: encode")) e))
            | Result.ok raw ↦ elim o [
              | some e ↦ (sessions, some (Error.wrap (Label.stage (codes "storage")) e))
              | none ↦ (insert cs.chat_id (SessionFile.bytes raw) sessions, none)
            ]
          ]
          else (sessions, some invalid_chat_id)

      by_encoding :
          (r : Result Error Text)
          → J.marshal (stamped now cs) ≡ r
          → (o : Option Error)
          → get_chat J chat_id (saved r o).0 ≡ elim (saved r o).1 [
            | none ↦
                if text_eq cs.chat_id chat_id
                then Result.ok (some (through_json L (stamped now cs)))
                else get_chat J chat_id sessions
            | some e ↦ get_chat J chat_id sessions
          ]
      by_encoding (Result.err e) p o = ground arith
      by_encoding (Result.ok raw) p (some e) = ground arith
      by_encoding (Result.ok raw) p none = ground (
        arith,
        lookup-insert_self cs.chat_id (SessionFile.bytes raw) sessions,
        lookup-insert_ne cs.chat_id chat_id (SessionFile.bytes raw) sessions,
        text_eq→eq cs.chat_id chat_id,
        json (stamped now cs) raw p,
      )

-- Every state of the list is followed by states that are not more recent.
unfoldable pub is_recent_first : List ChatState → Bool
is_recent_first [] = true
is_recent_first (c ∷ []) = true
is_recent_first (c ∷ d ∷ ds) = leb d.updated_at c.updated_at && is_recent_first (d ∷ ds)

insert_recent-is_recent_first :
    (c : ChatState) (ds : List ChatState)
    → is_recent_first ds ≡ true
    → is_recent_first (insert_recent c ds) ≡ true
unfolding is_recent_first insert_recent
insert_recent-is_recent_first c [] h = refl
insert_recent-is_recent_first c (d ∷ []) h = ground arith
insert_recent-is_recent_first c (d ∷ e ∷ ds) h =
    ground (arith, h, insert_recent-is_recent_first c (e ∷ ds))

sort_recent-is_recent_first : (cs : List ChatState) → is_recent_first (sort_recent cs) ≡ true
unfolding sort_recent is_recent_first
sort_recent-is_recent_first [] = refl
sort_recent-is_recent_first (c ∷ cs) =
    insert_recent-is_recent_first c (sort_recent cs) (sort_recent-is_recent_first cs)

perm_refl : (cs : List ChatState) → Permᴰ cs cs
perm_refl [] = Permᴰ.nil
perm_refl (c ∷ cs) = Permᴰ.cons refl (perm_refl cs)

insert_recent-perm : (c : ChatState) (ds : List ChatState) → Permᴰ (insert_recent c ds) (c ∷ ds)
unfolding insert_recent
insert_recent-perm c [] = perm_refl (c ∷ [])
insert_recent-perm c (d ∷ ds) = by_time (insert_recent-perm c ds) (ltb c.updated_at d.updated_at)
  where
    by_time :
        Permᴰ (insert_recent c ds) (c ∷ ds)
        → (b : Bool) → Permᴰ (if b then d ∷ insert_recent c ds else c ∷ d ∷ ds) (c ∷ d ∷ ds)
    by_time p true = Permᴰ.trans (Permᴰ.cons refl p) (Permᴰ.swap refl refl)
    by_time p false = perm_refl (c ∷ d ∷ ds)

sort_recent-perm : (cs : List ChatState) → Permᴰ (sort_recent cs) cs
unfolding sort_recent
sort_recent-perm [] = Permᴰ.nil
sort_recent-perm (c ∷ cs) =
    Permᴰ.trans (insert_recent-perm c (sort_recent cs)) (Permᴰ.cons refl (sort_recent-perm cs))

-- The state that a file decodes to, or none.
unfoldable pub decoded_of : Codec → SessionFile → List ChatState
decoded_of J SessionFile.unreadable = []
decoded_of J (SessionFile.bytes raw) = elim (J.unmarshal raw) [
  | Result.err e ↦ []
  | Result.ok cs ↦ cs ∷ []
]

decodable-flatten :
    (J : Codec) (sessions : Sessions)
    → decodable J sessions ≡ flatten (map (λ (k, f). decoded_of J f) sessions)
unfolding decodable decoded_of flatten
decodable-flatten J [] = refl
decodable-flatten J ((k, SessionFile.unreadable) ∷ files) = decodable-flatten J files
decodable-flatten J ((k, SessionFile.bytes raw) ∷ files) = ground (arith, decodable-flatten J files)

-- List returns the states that the files decode to, one for each file that can be read and decodes,
-- wherever the other files stand, with the most recently updated first.
pub list_chats-is_recent_first :
    (J : Codec) (sessions : Sessions)
    → (is_recent_first (list_chats J sessions) ≡ true)
      × Permᴰ (list_chats J sessions) (flatten (map (λ (k, f). decoded_of J f) sessions))
unfolding list_chats
list_chats-is_recent_first J sessions = (
  sort_recent-is_recent_first (decodable J sessions),
  rw (sym (decodable-flatten J sessions)) (sort_recent-perm (decodable J sessions)),
)
