-- ===== src/Providers/OllamaStream.antt =====
-- libs/provider-ollama/src/ollama.stream-parser.ts: what becomes of one line, with the state of a
-- stream, and the whole parser. `parse` is `JSON.parse`, with nothing for a text that it refuses;
-- `fresh n` is the id that draw number `n` gives.
pub mod Calls
pub mod Ids
use mathlib.Core.Option.{get_or}
use sirius_gateway.Base.{
  ℕ, suc, ◌+◌, String, Bool, true, false, List, [], ◌∷◌, ◌++◌, Option, some, none, if◌then◌else◌,
  ◌||◌, not, is_blank, is_empty, is_some, trim, truthy,
}
use sirius_gateway.Base.NatMap
use sirius_gateway.Base.NatMap.{NatMap}
use sirius_gateway.Core.Json.{Json}
use sirius_gateway.Core.Messages.{UnifiedStreamEvent}
use sirius_gateway.OpenAi.Replies.{finish_reason_name}
use sirius_gateway.Providers.Lines.{parse_stream}
use sirius_gateway.Providers.Lines.Events.{on_line}
use sirius_gateway.Providers.OllamaMapper.{OllamaToolCall, map_ollama_finish_reason}

-- A chunk without a message has neither content nor calls.
pub record OllamaChatChunk (J : Type 0) : Type 0 where
  pub content : Option String
  pub tool_calls : Option (List (OllamaToolCall J))
  pub done : Bool
  pub done_reason : Option String
  pub prompt_eval_count : Option ℕ
  pub eval_count : Option ℕ

-- `seenToolCalls`, `toolCallIds`, and the number of ids that have been drawn.
pub record StreamState : Type 0 where
  pub seen_tool_calls : Bool
  pub tool_call_ids : NatMap String
  pub drawn : ℕ

abbrev pub init : StreamState
init = record { seen_tool_calls = false; tool_call_ids = []; drawn = 0 }

content_events : Option String → List UnifiedStreamEvent
content_events none = []
content_events (some t) = UnifiedStreamEvent.content_delta t ∷ []

usage_events : (prompt eval : Option ℕ) → List UnifiedStreamEvent
usage_events prompt eval =
    if is_some prompt || is_some eval
    then UnifiedStreamEvent.usage (record {
      input_tokens = get_or prompt 0;
      output_tokens = get_or eval 0;
      total_tokens = get_or prompt 0 + get_or eval 0;
    })
      ∷ []
    else []

module _ (json : Json) (fresh : ℕ → String) where
  open json use {Value, stringify}

  -- The id of the call at an index, drawn and kept if it has none.
  id_for : ℕ → Option String → StreamState → String × StreamState
  id_for i (some id) st = (id, st)
  id_for i none st =
      let id = fresh st.drawn in
      (id, record st { tool_call_ids = NatMap.set i id st.tool_call_ids; drawn = suc st.drawn })

  -- The loop over the calls of a chunk, from index `i` on.
  pub tool_call_events :
      ℕ → List (OllamaToolCall Value) → StreamState → List UnifiedStreamEvent × StreamState
  unfolding id_for
  tool_call_events i [] st = ([], st)
  tool_call_events i (tc ∷ calls) st =
      let x = id_for i (truthy (NatMap.get i st.tool_call_ids)) st in
      let rest = tool_call_events (suc i) calls x.1 in
      (
        UnifiedStreamEvent.tool_call_delta i (some x.0) (some tc.name)
              (some (stringify tc.arguments))
            ∷ rest.0,
        rest.1,
      )

  done_events : (seen : Bool) → OllamaChatChunk Value → List UnifiedStreamEvent
  unfolding usage_events
  done_events seen chunk =
      if chunk.done
      then usage_events chunk.prompt_eval_count chunk.eval_count
        ++ UnifiedStreamEvent.done
            (finish_reason_name (map_ollama_finish_reason seen chunk.done_reason))
          ∷ []
      else []

  -- A chunk: the events of `processLine`, and what its caller notes of them.
  pub process_chunk : StreamState → OllamaChatChunk Value → List UnifiedStreamEvent × StreamState
  unfolding content_events tool_call_events done_events
  process_chunk st chunk =
      let calls = get_or chunk.tool_calls [] in
      let seen = st.seen_tool_calls || not (is_empty calls) in
      let x = tool_call_events 0 calls st in
      (
        content_events (truthy chunk.content) ++ (x.0 ++ done_events seen chunk),
        record x.1 { seen_tool_calls = seen },
      )

  module _ (parse_chunk : String → Option (OllamaChatChunk Value)) where
    pub chunk_of : String → Option (OllamaChatChunk Value)
    chunk_of line =
        let trimmed = trim line in if is_blank trimmed then none else parse_chunk trimmed

    pub process_line : StreamState → String → List UnifiedStreamEvent × StreamState
    process_line st line = on_line process_chunk chunk_of st line

    -- `body` is nothing when the response has none, and else its decoded chunks.
    pub parse_ollama_stream : (body : Option (List String)) → List UnifiedStreamEvent
    unfolding process_line
    parse_ollama_stream none = UnifiedStreamEvent.error "Response body is null" none ∷ []
    parse_ollama_stream (some chunks) = parse_stream process_line init chunks
