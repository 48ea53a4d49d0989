-- ===== src/Providers/Tests.antt =====
-- libs/provider-*/src on sample bodies, requests and responses, and the uses of the results there.
use mathlib.Core.Option.{get_or}
use sirius_gateway.Base.{
  ℕ, String, true, false, List, [], ◌∷◌, ◌++◌, Option, some, none, ◌≡◌, refl, map, filter, is_some,
  if◌then◌else◌, ◌==◌, split_on, trim,
}
use sirius_gateway.Core.Numbers.{Whole}
use sirius_gateway.Core.Messages.{
  UnifiedRole, UnifiedAiRequest, UnifiedMessage, UnifiedToolCall, Content,
}
use sirius_gateway.Samples.{letter_json}
use sirius_gateway.OpenAi.Types.{OpenAiChoice, OpenAiUsage}
use sirius_gateway.OpenAi.Replies.Fidelity.{text_or_empty, calls_or_empty}
use sirius_gateway.Providers.Lines.{parse_stream}
use sirius_gateway.Providers.Lines.Chunking.{parse_stream-concat}
use sirius_gateway.Providers.Lines.Events.{run}
use sirius_gateway.Providers.OpenAiStream.{OpenAiChatChunk, stateless_line}
use sirius_gateway.Providers.OpenAiMapper.{WireMessage, whole, response_text}
use sirius_gateway.Providers.OpenAiMapper.Transparency.{
  client_call, client_reply, response_with, format-from_open_ai_response,
}
use sirius_gateway.Providers.AnthropicMapper.{to_anthropic_request, to_anthropic_content}
use sirius_gateway.Providers.AnthropicMapper.Calls.{
  is_some-to_anthropic_request, call_item, items_of, text_item, to_anthropic_content-items,
}
use sirius_gateway.Providers.AnthropicStream.{
  AnthropicStreamEvent, content_block_start, content_block_delta, tool_use, text_delta,
  input_json_delta, parse_anthropic_stream, event_of,
}
use sirius_gateway.Providers.AnthropicStream.Ordinals.{
  is_call, calls_from, events_of, parse_anthropic_stream-calls_from,
}
use sirius_gateway.Providers.OllamaMapper.{OllamaToolCall}
use sirius_gateway.Providers.OllamaStream.{
  OllamaChatChunk, init, process_chunk, parse_ollama_stream,
}
use sirius_gateway.Providers.OllamaStream.Calls.{ReasonsAgree, parse_ollama_stream-ReasonsAgree}
use sirius_gateway.Providers.OllamaStream.Ids.{call_chunk, call_event, run-call_chunk}

abbrev parsed_text : String → Option OpenAiChatChunk
parsed_text text = some (record {
  choices = some (record { content = some text; tool_calls = none; finish_reason = none } ∷ []);
  usage = none;
})

parse_stream-concat_example :
    parse_stream (stateless_line parsed_text) tt ("da" ∷ "ta: {}\n" ∷ "data: [DONE]\n" ∷ [])
    ≡ parse_stream (stateless_line parsed_text) tt ("data: {}\ndata: [DONE]\n" ∷ [])
parse_stream-concat_example =
    parse_stream-concat (stateless_line parsed_text) tt ("da" ∷ "ta: {}\n" ∷ "data: [DONE]\n" ∷ [])

-- A block of text, and two tool blocks.
abbrev anthropic_event : String → Option AnthropicStreamEvent
anthropic_event text =
    if text == "t"
    then some (content_block_delta 0 (text_delta "Hello"))
    else if text == "a"
    then some (content_block_start 1 (tool_use "x" "search"))
    else if text == "f"
    then some (content_block_delta 2 (input_json_delta "{}"))
    else if text == "b"
    then some (content_block_start 2 (tool_use "y" "read"))
    else none

abbrev anthropic_body : List String
anthropic_body = "data: t\nda" ∷ "ta: a\ndata: b\nda" ∷ "ta: f\n" ∷ []

parse_anthropic_stream-calls_from_example :
    filter is_call (parse_anthropic_stream anthropic_event (some anthropic_body))
    ≡ calls_from [] (events_of anthropic_event anthropic_body)
unfolding event_of split_on trim
parse_anthropic_stream-calls_from_example =
    parse_anthropic_stream-calls_from anthropic_event anthropic_body (refl, (refl, tt))

abbrev tool_call : String → String → UnifiedToolCall
tool_call id arguments = record { id = id; name = "search"; arguments = arguments }

abbrev turn : UnifiedToolCall → UnifiedMessage
turn tc = record {
  role = UnifiedRole.assistant;
  content = Content.plain "Let me see.";
  name = none;
  tool_call_id = none;
  tool_calls = some (tc ∷ []);
}

abbrev request : UnifiedAiRequest Whole String
request = record {
  request_id = "r1";
  model = "claude";
  messages = turn (tool_call "x" "j{}") ∷ turn (tool_call "y" "{") ∷ [];
  stream = false;
  temperature = none;
  top_p = none;
  max_tokens = none;
  stop = none;
  tools = none;
  tool_choice = none;
  response_format = none;
  stream_options = none;
  user = none;
  metadata = none;
}

is_some-to_anthropic_request_example : is_some (to_anthropic_request letter_json request) ≡ false
is_some-to_anthropic_request_example = is_some-to_anthropic_request letter_json request

abbrev made_call : String × String × String
made_call = ("x", "search", "{}")

to_anthropic_content-items_example :
    items_of letter_json (to_anthropic_content letter_json (turn (tool_call "x" "j{}")))
    ≡ text_item letter_json "Let me see." ++ map (call_item letter_json) (made_call ∷ [])
to_anthropic_content-items_example =
    to_anthropic_content-items letter_json "Let me see." none made_call []

abbrev reply : WireMessage
reply = record {
  role = UnifiedRole.assistant;
  content = whole "Hello";
  name = none;
  tool_call_id = none;
  tool_calls = some (tool_call "x" "{}" ∷ []);
}

abbrev usage : OpenAiUsage
usage = record { prompt_tokens = 3; completion_tokens = 2; total_tokens = 5 }

abbrev latency : Whole
latency = some 40

format-from_open_ai_response_example :
    (c : OpenAiChoice) × ((client_reply "u" 7 "openai" latency
        (response_with "a" "gpt-4o" reply usage (some "function_call"))).choices
      ≡ c ∷ [])
    × (text_or_empty c.content ≡ response_text reply.content)
    × (calls_or_empty c.tool_calls ≡ map client_call (get_or reply.tool_calls []))
    × (c.finish_reason ≡ "stop")
    × ((client_reply "u" 7 "openai" latency
          (response_with "a" "gpt-4o" reply usage (some "function_call"))).model
        ≡ "gpt-4o")
    × ((client_reply "u" 7 "openai" latency
          (response_with "a" "gpt-4o" reply usage (some "function_call"))).usage
        ≡ some usage)
format-from_open_ai_response_example =
    format-from_open_ai_response "u" 7 "openai" latency "a" "gpt-4o" reply usage
      (some "function_call")

abbrev ids : ℕ → String
ids n = "tc"

abbrev ollama_call : String → OllamaToolCall String
ollama_call name = record { name = name; arguments = "{}" }

abbrev ollama_chunk : String → Option (OllamaChatChunk String)
ollama_chunk text =
    if text == "end"
    then some (record (call_chunk letter_json ids refl (ollama_call "read")) { done = true })
    else some (call_chunk letter_json ids refl (ollama_call "search"))

parse_ollama_stream-ReasonsAgree_example :
    ReasonsAgree false
      (parse_ollama_stream letter_json ids ollama_chunk (some ("a\ne" ∷ "nd" ∷ [])))
parse_ollama_stream-ReasonsAgree_example =
    parse_ollama_stream-ReasonsAgree letter_json ids ollama_chunk ("a\ne" ∷ "nd" ∷ [])

run-call_chunk_example :
    (run
      (process_chunk letter_json ids)
      init
      (map (call_chunk letter_json ids refl) (ollama_call "search" ∷ ollama_call "read" ∷ []))).0
    ≡ call_event letter_json ids refl (ollama_call "search")
      ∷ call_event letter_json ids refl (ollama_call "read")
      ∷ []
run-call_chunk_example =
    run-call_chunk letter_json ids refl (ollama_call "search" ∷ ollama_call "read" ∷ [])
