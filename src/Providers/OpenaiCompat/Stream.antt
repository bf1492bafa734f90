-- ===== src/Providers/OpenaiCompat/Stream.antt =====
-- readStream of pkg/providers/openai_compat/openai_compat.go. `decode` is json.Unmarshal into
-- chatStreamChunk, and the lines and the error at their end are those of the bufio.Scanner.
use souz_go.Prelude.{
  ℤ, pos, ◌||◌, List, [], ◌∷◌, ◌++◌, Text, Error, Label, Result, Option, none, some, codes, text_eq,
  has_prefix, drop, trim_space, if◌then◌else◌,
}
use souz_go.Providers.{ToolCall, ChatResponse, FinishReason, Usage}
use souz_go.Providers.IntMap.{IntMap, int_lookup, int_insert}
use souz_go.Providers.OpenaiCompat.{to_finish_reason, to_raw_args}

-- A part of a tool call.
pub record Fragment : Type 0 where
  pub index : ℤ
  pub id : Text
  pub name : Text
  pub arguments : Text

pub record ChunkChoice : Type 0 where
  pub content : Option Text
  pub tool_calls : List Fragment
  pub finish_reason : Option Text

pub record StreamChunk : Type 0 where
  pub choices : List ChunkChoice
  pub usage : Option Usage

pub record Accumulator : Type 0 where
  pub id : Text
  pub name : Text
  pub args : Text

-- toolCalls and toolOrder.
pub record Assembly : Type 0 where
  pub calls : IntMap Accumulator
  pub order : List ℤ

abbrev pub no_calls : Assembly
no_calls = record { calls = []; order = [] }

-- What a fragment makes of the accumulator of its index.
unfoldable pub extended : Accumulator → Fragment → Accumulator
extended acc tc = record {
  id = if text_eq tc.id [] then acc.id else tc.id;
  name = if text_eq tc.name [] then acc.name else tc.name;
  args = acc.args ++ tc.arguments;
}

abbrev pub empty_accumulator : Accumulator
empty_accumulator = record { id = []; name = []; args = [] }

unfoldable pub add_fragment : Assembly → Fragment → Assembly
unfolding extended int_lookup int_insert
add_fragment a tc = elim (int_lookup tc.index a.calls) [
  | some acc ↦ record a { calls = int_insert tc.index (extended acc tc) a.calls }
  | none ↦ record {
    calls = int_insert tc.index (extended empty_accumulator tc) a.calls;
    order = a.order ++ tc.index ∷ [];
  }
]

-- The loop over the fragments of a choice.
unfoldable pub add_fragments : Assembly → List Fragment → Assembly
unfolding add_fragment
add_fragments a [] = a
add_fragments a (tc ∷ tcs) = add_fragments (add_fragment a tc) tcs

-- The loop over toolOrder; every index of it is a key of the map.
unfoldable pub assembled : IntMap Accumulator → List ℤ → List ToolCall
unfolding int_lookup to_raw_args
assembled calls [] = []
assembled calls (i ∷ is) =
    let rest = assembled calls is in
    elim (int_lookup i calls) [
      | none ↦ rest
      | some acc ↦ record { id = acc.id; name = acc.name; args = to_raw_args acc.args } ∷ rest
    ]

pub record StreamState (W : Type 0) : Type 0 where
  pub text : Text
  pub assembly : Assembly
  pub finish : FinishReason
  pub usage : Usage
  pub world : W

module _ {W : Type 0} (on_chunk : Text → W → W) where
  unfoldable pub on_content : StreamState W → Option Text → StreamState W
  on_content s none = s
  on_content s (some t) =
      if text_eq t [] then s else record s { text = s.text ++ t; world = on_chunk t s.world }

  unfoldable pub on_choice : StreamState W → ChunkChoice → StreamState W
  unfolding on_content add_fragments to_finish_reason
  on_choice s choice =
      let heard = on_content s choice.content in
      record heard {
        assembly = add_fragments heard.assembly choice.tool_calls;
        finish = elim choice.finish_reason [
          | none ↦ heard.finish
          | some reason ↦ to_finish_reason reason
        ];
      }

  unfoldable pub on_choices : StreamState W → List ChunkChoice → StreamState W
  unfolding on_choice
  on_choices s [] = s
  on_choices s (c ∷ cs) = on_choices (on_choice s c) cs

  unfoldable pub on_chunk_data : StreamState W → StreamChunk → StreamState W
  unfolding on_choices
  on_chunk_data s chunk =
      on_choices (record s { usage = elim chunk.usage [ none ↦ s.usage | some u ↦ u ] })
        chunk.choices

  -- One line of the stream.
  unfoldable pub on_line : (Text → Result Error StreamChunk) → StreamState W → Text → StreamState W
  unfolding on_chunk_data
  on_line decode s line =
      if has_prefix line (codes "data:")
      then (let payload = trim_space (drop 5 line) in
          if text_eq payload [] || text_eq payload (codes "[DONE]")
          then s
          else elim (decode payload) [ Result.err e ↦ s | Result.ok chunk ↦ on_chunk_data s chunk ])
      else s

  unfoldable pub on_lines :
      (Text → Result Error StreamChunk) → StreamState W → List Text → StreamState W
  unfolding on_line
  on_lines decode s [] = s
  on_lines decode s (l ∷ ls) = on_lines decode (on_line decode s l) ls

  unfoldable pub read_stream :
      (Text → Result Error StreamChunk)
      → List Text
      → Option Error
      → W
      → W × Result Error ChatResponse
  unfolding on_lines assembled
  read_stream decode lines scan_err w =
      let s =
        on_lines decode
          (record {
            text = [];
            assembly = no_calls;
            finish = FinishReason.stop;
            usage = record { input_tokens = pos 0; output_tokens = pos 0 };
            world = w;
          })
          lines in
      elim scan_err [
        | some e ↦
            (s.world, Result.err (Error.wrap (Label.stage (codes "openai_compat: read stream")) e))
        | none ↦ (
          s.world,
          Result.ok (record {
            content = s.text;
            tool_calls = assembled s.assembly.calls s.assembly.order;
            usage = s.usage;
            finish_reason = s.finish;
          }),
        )
      ]
