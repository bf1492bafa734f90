-- ===== src/Providers/Anthropic/Agreement.antt =====
-- A response that is streamed and the same response in one piece.
use souz_go.Prelude.{
  join_lines, ℕ, suc, ℤ, pos, ◌≡◌, refl, ap, ◌∙◌, false, List, [], ◌∷◌, ◌++◌, append_assoc,
  append-nil, Text, Error, Result, none, some, codes, text_eq, text_eq→eq, arith, if◌then◌else◌,
}
use souz_go.Providers.{ToolCall, ChatResponse, FinishReason, Usage}
use souz_go.Providers.IntMap.{IntMap, int_lookup, int_insert, int_erase, int_eq_refl}
use souz_go.Providers.Anthropic.Response.{
  to_finish_reason, text_of_blocks, calls_of_blocks, to_chat_response,
}
use souz_go.Providers.Anthropic.Stream.{
  SseEnvelope, ToolBlockState, StreamState, args_or_empty, on_start, on_stop, on_message_delta,
  on_event, flush, data_of, scan, initial_state, streamed_response, read_stream,
}
use souz_go.Providers.Anthropic.Events.{
  StreamedBlock, text, tool, concat, whole_block, whole_blocks, plain_event, text_events,
  json_events, block_events, blocks_events, message_events, Decodes, nil, cons, payload_lines,
}

module _ {W : Type 0} (on_chunk : Text → W → W) where
  -- The pieces of text that are handed on: those that are not empty.
  unfoldable pub feed : List Text → W → W
  feed [] w = w
  feed (p ∷ ps) w = feed ps (if text_eq p [] then w else on_chunk p w)

  unfoldable pub feed_blocks : List StreamedBlock → W → W
  unfolding feed
  feed_blocks [] w = w
  feed_blocks (text ps ∷ bs) w = feed_blocks bs (feed ps w)
  feed_blocks (tool id name ps ∷ bs) w = feed_blocks bs w

  unfoldable fold_events : StreamState W → List SseEnvelope → StreamState W
  unfolding on_event
  fold_events s [] = s
  fold_events s (e ∷ es) = fold_events (on_event on_chunk s e) es

  fold_events-append :
      (s : StreamState W) (xs ys : List SseEnvelope)
      → fold_events s (xs ++ ys) ≡ fold_events (fold_events s xs) ys
  unfolding fold_events
  fold_events-append s [] ys = refl
  fold_events-append s (x ∷ xs) ys = fold_events-append (on_event on_chunk s x) xs ys

  abbrev state :
      Text → IntMap ToolBlockState → List ToolCall → FinishReason → Usage → W → StreamState W
  state t blocks calls f u w = record {
    text = t;
    tool_blocks = blocks;
    tool_calls = calls;
    finish = f;
    usage = u;
    world = w;
  }

  text_events_lem :
      (i : ℤ) (ps : List Text) (t : Text) (calls : List ToolCall) (f : FinishReason) (u : Usage)
      (w : W)
      → fold_events (state t [] calls f u w) (text_events i ps)
        ≡ state (t ++ concat ps) [] calls f u (feed ps w)
  unfolding fold_events text_events concat feed on_event
  text_events_lem i [] t calls f u w = rw (append-nil t) refl
  text_events_lem i (p ∷ ps) t calls f u w = ground (
    arith,
    text_events_lem i ps (t ++ p) calls f u (on_chunk p w),
    text_events_lem i ps t calls f u w,
    append_assoc t p (concat ps),
    text_eq→eq p [],
  )

  json_events_lem :
      (i : ℤ) (ps : List Text) (t id name args : Text) (calls : List ToolCall) (f : FinishReason)
      (u : Usage) (w : W)
      → fold_events
          (state t ((i, record { id = id; name = name; args = args }) ∷ []) calls f u w)
          (json_events i ps)
        ≡ state t []
            (calls
              ++ record { id = id; name = name; args = args_or_empty (args ++ concat ps) } ∷ [])
            f
            u
            w
  unfolding fold_events json_events concat on_event on_stop int_lookup int_insert int_erase
  json_events_lem i [] t id name args calls f u w = ground (arith, int_eq_refl i, append-nil args)
  json_events_lem i (p ∷ ps) t id name args calls f u w = ground (
    arith,
    int_eq_refl i,
    json_events_lem i ps t id name (args ++ p) calls f u w,
    append_assoc args p (concat ps),
  )

  text_block_lem :
      (i : ℤ) (ps : List Text) (t : Text) (calls : List ToolCall) (f : FinishReason) (u : Usage)
      (w : W)
      → fold_events (state t [] calls f u w) (block_events i (text ps))
        ≡ state (t ++ concat ps) [] calls f u (feed ps w)
  unfolding fold_events block_events on_event on_start
  text_block_lem i ps t calls f u w = text_events_lem i ps t calls f u w

  tool_block_lem :
      (i : ℤ) (id name : Text) (ps : List Text) (t : Text) (calls : List ToolCall)
      (f : FinishReason) (u : Usage) (w : W)
      → fold_events (state t [] calls f u w) (block_events i (tool id name ps))
        ≡ state t []
            (calls ++ record { id = id; name = name; args = args_or_empty (concat ps) } ∷ [])
            f
            u
            w
  unfolding fold_events block_events on_event on_start int_insert
  tool_block_lem i id name ps t calls f u w = json_events_lem i ps t id name [] calls f u w

  blocks_events_lem :
      (n : ℕ) (bs : List StreamedBlock) (t : Text) (calls : List ToolCall) (f : FinishReason)
      (u : Usage) (w : W)
      → fold_events (state t [] calls f u w) (blocks_events n bs)
        ≡ state
            (t ++ text_of_blocks (whole_blocks bs))
            []
            (calls ++ calls_of_blocks (whole_blocks bs))
            f
            u
            (feed_blocks bs w)
  unfolding blocks_events feed_blocks text_of_blocks calls_of_blocks whole_blocks whole_block
      fold_events
  blocks_events_lem n [] t calls f u w = rw (append-nil t) (rw (append-nil calls) refl)
  blocks_events_lem n (text ps ∷ bs) t calls f u w = ground (
    arith,
    fold_events-append (state t [] calls f u w) (block_events (pos n) (text ps))
        (blocks_events (suc n) bs),
    text_block_lem (pos n) ps t calls f u w,
    blocks_events_lem (suc n) bs (t ++ concat ps) calls f u (feed ps w),
    append_assoc t (concat ps) (text_of_blocks (whole_blocks bs)),
  )
  blocks_events_lem n (tool id name ps ∷ bs) t calls f u w =
      let call : ToolCall = record { id = id; name = name; args = args_or_empty (concat ps) } in
      ground (
        arith,
        fold_events-append (state t [] calls f u w) (block_events (pos n) (tool id name ps))
            (blocks_events (suc n) bs),
        tool_block_lem (pos n) id name ps t calls f u w,
        blocks_events_lem (suc n) bs t (calls ++ call ∷ []) f u w,
        append_assoc calls (call ∷ []) (calls_of_blocks (whole_blocks bs)),
      )

  message_events_lem :
      (bs : List StreamedBlock) (stop_reason : Text) (u : Usage) (w : W)
      → text_eq stop_reason [] ≡ false
      → fold_events (initial_state w) (message_events bs stop_reason u)
        ≡ state
            (text_of_blocks (whole_blocks bs))
            []
            (calls_of_blocks (whole_blocks bs))
            (to_finish_reason stop_reason)
            u
            (feed_blocks bs w)
  unfolding fold_events message_events on_event on_message_delta initial_state
  message_events_lem bs stop_reason u w h =
      let started : Usage = record { input_tokens = u.input_tokens; output_tokens = pos 0 } in
      ground (
        arith,
        h,
        fold_events-append (state [] [] [] FinishReason.stop started w) (blocks_events 0 bs) (
            record (plain_event (codes "message_delta") (pos 0)) {
              event_delta =
                  some
                    (record { type = []; text = []; partial_json = []; stop_reason = stop_reason });
              usage = some (u.output_tokens);
            }
            ∷ plain_event (codes "message_stop") (pos 0)
            ∷ []),
        blocks_events_lem 0 bs [] [] FinishReason.stop started w,
      )

  scan-payload_lines :
      (decode : Text → Result Error SseEnvelope) (ps : List Text) (es : List SseEnvelope)
      (s : StreamState W)
      → Decodes decode ps es
      → scan on_chunk decode s [] (payload_lines ps) ≡ fold_events s es
  unfolding scan payload_lines fold_events flush join_lines data_of
  scan-payload_lines decode _ _ s nil = refl
  scan-payload_lines decode _ _ s (cons {p = p} {ps = ps} {e = e} {es = es} d n m r) =
      ground (arith, d, n, m, scan-payload_lines decode ps es (on_event on_chunk s e) r)

  -- A message that is streamed in whatever pieces gives the response that the message in one piece
  -- gives: its text, its tool calls in order and its usage, and the text is handed on piece by piece.
  -- The finish reason differs in one case: where there are tool calls, it is always tool_use.
  -- The message has a stop reason, and the payloads of the stream decode to its events.
  pub read_stream-message_events :
      (decode : Text → Result Error SseEnvelope) (payloads : List Text) (bs : List StreamedBlock)
      (stop_reason : Text) (u : Usage) (w : W)
      → text_eq stop_reason [] ≡ false
      → Decodes decode payloads (message_events bs stop_reason u)
      → read_stream on_chunk decode (payload_lines payloads) none w ≡ (
        feed_blocks bs w,
        Result.ok
            (record (to_chat_response
              (record { stop_reason = stop_reason; content = whole_blocks bs; usage = u })) {
                finish_reason = elim (calls_of_blocks (whole_blocks bs)) [
                  | [] ↦ to_finish_reason stop_reason
                  | c ∷ cs ↦ FinishReason.tool_use
                ];
              }),
      )
  unfolding read_stream streamed_response to_chat_response
  read_stream-message_events decode payloads bs stop_reason u w h d =
      ap {A = StreamState W} {B = W × Result Error ChatResponse}
        (λ s. (s.world, Result.ok (streamed_response s)))
        (scan-payload_lines decode payloads (message_events bs stop_reason u) (initial_state w) d
          ∙ message_events_lem bs stop_reason u w h)
