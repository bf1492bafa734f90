-- ===== src/Tests/Providers.antt =====
-- Streams of the providers at concrete inputs.
use souz_go.Prelude.{
  ℕ, ◌≡◌, refl, List, [], ◌∷◌, ◌++◌, Text, Error, Result, none, some, codes, pos, suc, lookup,
}
use souz_go.Providers.{FinishReason, Usage}
use souz_go.Providers.Anthropic.Response.{calls_of_blocks, to_chat_response}
use souz_go.Providers.Anthropic.Stream.{SseEnvelope, read_stream}
use souz_go.Providers.Anthropic.Events.{
  StreamedBlock, text, tool, whole_blocks, message_events, Decodes, nil, cons, payload_lines,
}
use souz_go.Providers.Anthropic.Agreement.{feed_blocks, read_stream-message_events}
use souz_go.Providers.IntMap.{int_eq}
use souz_go.Providers.OpenaiCompat.Stream.{Fragment, no_calls, add_fragments, assembled}
use souz_go.Providers.OpenaiCompat.Fragments.{calls_at, first_indices, assembled-add_fragments}

abbrev streamed_blocks : List StreamedBlock
streamed_blocks =
    text (codes "a" ∷ codes "b" ∷ []) ∷ tool (codes "c1") (codes "f") (codes "{}" ∷ []) ∷ []

abbrev tokens : Usage
tokens = record { input_tokens = pos 3; output_tokens = pos 2 }

abbrev sample_events : List SseEnvelope
sample_events = message_events streamed_blocks (codes "end_turn") tokens

-- A codec that numbers the events.
unfoldable decode_from : ℕ → List SseEnvelope → Text → Result Error SseEnvelope
unfolding lookup
decode_from n [] s = Result.err (Error.other [])
decode_from n (e ∷ es) s = elim (lookup s ((n ∷ [], e) ∷ [])) [
  | some found ↦ Result.ok found
  | none ↦ decode_from (suc n) es s
]

abbrev numbered : List Text
numbered =
    (48 ∷ [])
    ∷ (49 ∷ [])
    ∷ (50 ∷ [])
    ∷ (51 ∷ [])
    ∷ (52 ∷ [])
    ∷ (53 ∷ [])
    ∷ (54 ∷ [])
    ∷ (55 ∷ [])
    ∷ (56 ∷ [])
    ∷ (57 ∷ [])
    ∷ []

numbered-Decodes : Decodes (decode_from 48 sample_events) numbered sample_events
unfolding decode_from message_events
numbered-Decodes = cons refl refl refl (
    cons refl refl refl (
      cons refl refl refl (
        cons refl refl refl (
          cons refl refl refl (
            cons refl refl refl (
              cons refl refl refl
                (cons refl refl refl (cons refl refl refl (cons refl refl refl nil)))))))))

read_stream-message_events_example :
    read_stream
      (λ (t : Text) w. w ++ t)
      (decode_from 48 sample_events)
      (payload_lines numbered)
      none
      []
    ≡ (
      codes "ab",
      Result.ok
          (record (to_chat_response (record {
            stop_reason = codes "end_turn";
            content = whole_blocks streamed_blocks;
            usage = tokens;
          })) { finish_reason = FinishReason.tool_use }),
    )
unfolding feed_blocks whole_blocks calls_of_blocks
read_stream-message_events_example =
    read_stream-message_events (λ (t : Text) w. w ++ t) (decode_from 48 sample_events) numbered
      streamed_blocks (codes "end_turn") tokens [] refl numbered-Decodes

abbrev fragment : ℕ → Text → Text → Text → Fragment
fragment i id name arguments = record { index = pos i; id = id; name = name; arguments = arguments }

-- Two calls, whose parts alternate.
abbrev fragments : List Fragment
fragments =
    fragment 0 (codes "a") (codes "f") []
    ∷ fragment 1 (codes "b") (codes "g") (codes "{")
    ∷ fragment 0 [] [] (codes "{}")
    ∷ fragment 1 [] [] (codes "}")
    ∷ []

assembled-add_fragments_example :
    assembled (add_fragments no_calls fragments).calls (add_fragments no_calls fragments).order
    ≡ record { id = codes "a"; name = codes "f"; args = codes "{}" }
      ∷ record { id = codes "b"; name = codes "g"; args = codes "{}" }
      ∷ []
unfolding calls_at first_indices int_eq
assembled-add_fragments_example = assembled-add_fragments fragments
