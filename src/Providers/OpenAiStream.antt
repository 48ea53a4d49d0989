-- ===== src/Providers/OpenAiStream.antt =====
-- libs/provider-openai/src/openai.stream-parser.ts: what becomes of one line, and the whole parser.
-- `parse` is `JSON.parse`, with nothing for a text that it refuses.
use sirius_gateway.Base.{
  ℕ, String, List, [], ◌∷◌, ◌++◌, Option, some, none, if◌then◌else◌, ◌==◌, map, trim, after_prefix,
  truthy,
}
use mathlib.Core.Option.{get_or}
use sirius_gateway.Core.Messages.{UnifiedStreamEvent}
use sirius_gateway.OpenAi.Types.{OpenAiUsage}
use sirius_gateway.OpenAi.Replies.{finish_reason_name}
use sirius_gateway.Providers.Lines.{parse_stream}
use sirius_gateway.Providers.OpenAiMapper.{unified_finish_reason}

pub record ChunkToolCallDelta : Type 0 where
  pub index : Option ℕ
  pub id : Option String
  pub name : Option String
  pub arguments : Option String

pub record ChunkChoice : Type 0 where
  pub content : Option String
  pub tool_calls : Option (List ChunkToolCallDelta)
  pub finish_reason : Option String

-- An error payload has no `choices`.
pub record OpenAiChatChunk : Type 0 where
  pub choices : Option (List ChunkChoice)
  pub usage : Option OpenAiUsage

usage_events : Option OpenAiUsage → List UnifiedStreamEvent
usage_events none = []
usage_events (some u) =
    UnifiedStreamEvent.usage (record {
      input_tokens = u.prompt_tokens;
      output_tokens = u.completion_tokens;
      total_tokens = u.total_tokens;
    })
    ∷ []

content_events : Option String → List UnifiedStreamEvent
content_events none = []
content_events (some t) = UnifiedStreamEvent.content_delta t ∷ []

tool_call_events : Option (List ChunkToolCallDelta) → List UnifiedStreamEvent
tool_call_events none = []
tool_call_events (some calls) =
    map
      (λ (c : ChunkToolCallDelta).
        UnifiedStreamEvent.tool_call_delta (get_or c.index 0) c.id c.name c.arguments)
      calls

done_events : Option String → List UnifiedStreamEvent
done_events none = []
done_events (some reason) =
    UnifiedStreamEvent.done (finish_reason_name (unified_finish_reason (some reason))) ∷ []

abbrev first_choice : Option (List ChunkChoice) → Option ChunkChoice
first_choice none = none
first_choice (some []) = none
first_choice (some (c ∷ cs)) = some c

choice_events : Option ChunkChoice → Option OpenAiUsage → List UnifiedStreamEvent
unfolding usage_events content_events tool_call_events done_events
choice_events none usage = usage_events usage
choice_events (some c) usage =
    content_events (truthy c.content)
    ++ tool_call_events c.tool_calls
    ++ usage_events usage
    ++ done_events (truthy c.finish_reason)

pub chunk_events : Option OpenAiChatChunk → List UnifiedStreamEvent
unfolding choice_events
chunk_events none = []
chunk_events (some chunk) = choice_events (first_choice chunk.choices) chunk.usage

module _ (parse : String → Option OpenAiChatChunk) where
  data_events : Option String → List UnifiedStreamEvent
  unfolding chunk_events
  data_events none = []
  data_events (some data_text) =
      if data_text == "[DONE]" then [] else chunk_events (parse data_text)

  -- Lines that are empty or comments do not start with "data: " either.
  pub process_line : String → List UnifiedStreamEvent
  unfolding data_events
  process_line line = data_events (after_prefix "data: " (trim line))

  -- The line as the shared loop takes it: there is nothing to remember.
  abbrev pub stateless_line : Unit {0} → String → List UnifiedStreamEvent × Unit {0}
  stateless_line st line = (process_line line, st)

  -- `body` is nothing when the response has none, and else its decoded chunks.
  pub parse_open_ai_stream : (body : Option (List String)) → List UnifiedStreamEvent
  parse_open_ai_stream none = UnifiedStreamEvent.error "Response body is null" none ∷ []
  parse_open_ai_stream (some chunks) = parse_stream stateless_line tt chunks
