-- ===== src/Nodes/Enrich/Context.antt =====
-- The context block of a turn, over several turns.
use mathlib.Core.Bool.{Bool-discrete}
use mathlib.Core.List.{filter}
use souz_go.Prelude.{
  false, sym, ◌≡◌, ◌≢◌, refl, Bool, true, ◌&&◌, List, [], ◌∷◌, ◌++◌, Text, text_eq-ne, contains,
  arith, append_assoc, if◌then◌else◌,
}
use souz_go.Providers.{Message, Role, is_user, text_message}
use souz_go.Agent.Context.{InvocationMeta}
use souz_go.Nodes.Enrich.{
  context_marker, strip_context_messages, build_context_message, enriched_history,
}

-- The message is a context block: a user message that holds the marker.
abbrev pub is_context : Message → Bool
is_context m = is_user m.role && contains m.content context_marker

strip-append :
    (xs ys : List Message)
    → strip_context_messages (xs ++ ys) ≡ strip_context_messages xs ++ strip_context_messages ys
unfolding strip_context_messages
strip-append [] ys = refl
strip-append (x ∷ xs) ys = ground (arith, strip-append xs ys)

strip-strip :
    (xs : List Message)
    → strip_context_messages (strip_context_messages xs) ≡ strip_context_messages xs
unfolding strip_context_messages
strip-strip [] = refl
strip-strip (x ∷ xs) = ground (arith, strip-strip xs)

build-is_context :
    (date_time : Text) (meta : InvocationMeta)
    → is_context (build_context_message date_time meta) ≡ true
unfolding build_context_message
build-is_context date_time meta = refl

-- The messages that are not context blocks.
abbrev pub kept : List Message → List Message
kept = filter (λ m. Bool-discrete (is_context m) false)

strip-kept : (xs : List Message) → strip_context_messages xs ≡ kept xs
unfolding strip_context_messages
strip-kept [] = refl
strip-kept (x ∷ xs) = ground (arith, strip-kept xs)

-- What a turn keeps of the block and the input of an earlier one.
kept_turn :
    (input date_time : Text) (meta : InvocationMeta) (since : List Message)
    → strip_context_messages
        ((build_context_message date_time meta ∷ text_message Role.user input ∷ []) ++ since)
      ≡ (if contains input context_marker then [] else text_message Role.user input ∷ [])
        ++ strip_context_messages since
unfolding strip_context_messages
kept_turn input date_time meta since = ground (arith, build-is_context date_time meta)

enriched_lem :
    (input date_time : Text) (meta : InvocationMeta) (history : List Message)
    → input ≢ []
    → enriched_history input date_time meta history
      ≡ strip_context_messages history
        ++ (build_context_message date_time meta ∷ text_message Role.user input ∷ [])
unfolding enriched_history
enriched_lem input date_time meta history h = rw (text_eq-ne input [] h)

-- A later turn replaces the context block of an earlier one, whatever history stood before it and
-- whatever messages have followed it: what is left is the messages of that history that are no
-- context blocks, the input of the earlier turn, and those that followed and are no blocks, in
-- this order, and then the later turn's block and input. But an input of the earlier turn that
-- holds the marker `<context>` is taken for a block, and is lost. The inputs are not empty.
pub enriched-enriched :
    (input input' date_time date_time' : Text) (meta meta' : InvocationMeta)
    (history since : List Message)
    → input ≢ []
    → input' ≢ []
    → enriched_history input' date_time' meta'
        (enriched_history input date_time meta history ++ since)
      ≡ kept history
        ++ ((if contains input context_marker then [] else text_message Role.user input ∷ [])
            ++ (kept since
                ++ (build_context_message date_time' meta' ∷ text_message Role.user input' ∷ [])))
enriched-enriched input input' date_time date_time' meta meta' history since h h' =
    rw
      (
        enriched_lem input' date_time' meta'
            (enriched_history input date_time meta history ++ since) h',
        enriched_lem input date_time meta history h,
        sym (strip-kept history),
        sym (strip-kept since),
        append_assoc (strip_context_messages history) _ since,
        strip-append (strip_context_messages history) _,
        strip-strip history,
        kept_turn input date_time meta since,
        append_assoc,
        append_assoc,
      )
      refl
