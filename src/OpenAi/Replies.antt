-- ===== src/OpenAi/Replies.antt =====
-- libs/sirius-compat-openai/src/openai-compat.service.ts: the response converters. The ids that the
-- service draws (`randomUUID`) and the time in seconds are arguments.
pub mod Fidelity
use mathlib.Core.Option.{get_or}
use sirius_gateway.Base.{
  if_any, ℕ, ◌+◌, String, Bool, true, false, List, [], ◌∷◌, ◌++◌, Option, some, none, if◌then◌else◌,
  ◌||◌, ◌==◌, is_blank, is_empty, is_some, or_else, map, ◌&◌, truthy,
}
use sirius_gateway.Core.Models.{ModelInfo}
use sirius_gateway.Core.Messages.{
  UnifiedAiResponse, UnifiedContent, UnifiedToolCall, UnifiedFinishReason, UnifiedStreamEvent,
  UnifiedEmbeddingResponse, UsageMetrics,
}
use sirius_gateway.OpenAi.Types.{
  OpenAiToolCallMsg, OpenAiUsage, OpenAiChoice, OpenAiChatCompletion, ToolCallDelta,
  OpenAiChunkDelta, OpenAiChunkChoice, OpenAiChatCompletionChunk, OpenAiEmbedding,
  OpenAiEmbeddingResponse, OpenAiModel, OpenAiResponsesOutputItem, OpenAiResponsesResponse,
}

unfoldable pub finish_reason_name : UnifiedFinishReason → String
finish_reason_name UnifiedFinishReason.stop = "stop"
finish_reason_name UnifiedFinishReason.length = "length"
finish_reason_name UnifiedFinishReason.tool_calls = "tool_calls"
finish_reason_name UnifiedFinishReason.content_filter = "content_filter"
finish_reason_name UnifiedFinishReason.error = "error"

-- `FINISH_REASON_MAP[reason] ?? 'stop'`
pub to_open_ai_finish_reason : String → String
to_open_ai_finish_reason reason =
    if reason == "stop"
    then "stop"
    else if reason == "length"
    then "length"
    else if reason == "tool_calls"
    then "tool_calls"
    else if reason == "content_filter"
    then "content_filter"
    else if reason == "error"
    then "error"
    else "stop"

unfoldable pub usage_of : UsageMetrics → OpenAiUsage
usage_of u = record {
  prompt_tokens = u.input_tokens;
  completion_tokens = u.output_tokens;
  total_tokens = u.total_tokens;
}

-- `textContent ? textContent + text : text`
pub add_text : Option String → String → Option String
add_text none t = some t
add_text (some s) t = if is_blank s then some t else some (s & t)

-- One round of the loop over the content.
pub add_item :
    Option String × List OpenAiToolCallMsg → UnifiedContent → Option String × List OpenAiToolCallMsg
unfolding add_text
add_item (texts, calls) (UnifiedContent.text none) = (texts, calls)
add_item (texts, calls) (UnifiedContent.text (some t)) =
    if is_blank t then (texts, calls) else (add_text texts t, calls)
add_item (texts, calls) (UnifiedContent.tool_call none) = (texts, calls)
add_item (texts, calls) (UnifiedContent.tool_call (some c)) =
    (texts, calls ++ record { id = c.id; name = c.name; arguments = c.arguments } ∷ [])

pub add_items :
    Option String × List OpenAiToolCallMsg
    → List UnifiedContent
    → Option String × List OpenAiToolCallMsg
unfolding add_item
add_items acc [] = acc
add_items acc (item ∷ items) = add_items (add_item acc item) items

unfoldable pub format_chat_completion_response :
    {N : Type 0} → (uuid : String) → (now : ℕ) → UnifiedAiResponse N → OpenAiChatCompletion
unfolding add_items to_open_ai_finish_reason finish_reason_name usage_of
format_chat_completion_response uuid now response =
    let collected = add_items (none, []) response.content in
    record {
      id = "chatcmpl-" & uuid;
      created = now;
      model = response.model;
      choices =
          record {
            index = 0;
            content = collected.0;
            tool_calls = if_any collected.1;
            finish_reason = to_open_ai_finish_reason (finish_reason_name response.finish_reason);
          }
          ∷ [];
      usage = some (usage_of response.usage);
    }

abbrev no_delta : OpenAiChunkDelta
no_delta = record { role = none; content = none; tool_calls = none }

abbrev pub chunk :
    String → ℕ → String → List OpenAiChunkChoice → Option OpenAiUsage → OpenAiChatCompletionChunk
chunk response_id now model choices usage = record {
  id = response_id;
  created = now;
  model = model;
  choices = choices;
  usage = usage;
}

abbrev choice : OpenAiChunkDelta → Option String → List OpenAiChunkChoice
choice delta finish_reason = record { index = 0; delta = delta; finish_reason = finish_reason } ∷ []

unfoldable pub format_first_stream_chunk : String → (now : ℕ) → String → OpenAiChatCompletionChunk
format_first_stream_chunk response_id now model =
    chunk response_id now model (choice (record no_delta { role = some "assistant" }) none) none

tool_call_delta_of : ℕ → Option String → Option String → Option String → ToolCallDelta
tool_call_delta_of index id name arguments = record {
  index = index;
  id = truthy id;
  type = if is_some (truthy name) || is_some (truthy id) then some "function" else none;
  name = truthy name;
  arguments = truthy arguments;
}

unfoldable pub format_stream_chunk :
    UnifiedStreamEvent → String → (now : ℕ) → String → Option OpenAiChatCompletionChunk
unfolding tool_call_delta_of to_open_ai_finish_reason usage_of
format_stream_chunk (UnifiedStreamEvent.content_delta delta) response_id now model =
    some (chunk response_id now model (choice (record no_delta { content = some delta }) none) none)
format_stream_chunk (UnifiedStreamEvent.tool_call_delta index id name arguments) response_id now
      model =
    some (
      chunk response_id now model
        (choice
          (record no_delta { tool_calls = some (tool_call_delta_of index id name arguments ∷ []) })
          none)
        none)
format_stream_chunk (UnifiedStreamEvent.done finish_reason) response_id now model = some (
    chunk response_id now model (choice no_delta (some (to_open_ai_finish_reason finish_reason)))
      none)
format_stream_chunk (UnifiedStreamEvent.usage u) response_id now model =
    some (chunk response_id now model [] (some (usage_of u)))
format_stream_chunk (UnifiedStreamEvent.error message code) response_id now model = none

-- `map` with the index.
unfoldable pub index_embeddings : {N : Type 0} → ℕ → List (List N) → List (OpenAiEmbedding N)
index_embeddings index [] = []
index_embeddings index (e ∷ es) =
    record { index = index; embedding = e } ∷ index_embeddings (index + 1) es

unfoldable pub format_embedding_response :
    {N : Type 0} → UnifiedEmbeddingResponse N → OpenAiEmbeddingResponse N
unfolding index_embeddings
format_embedding_response response = record {
  data_rows = index_embeddings 0 response.embeddings;
  model = response.model;
  prompt_tokens = response.usage.input_tokens;
  total_tokens = response.usage.total_tokens;
}

pub format_model_list : (now : ℕ) → List ModelInfo → List OpenAiModel
format_model_list now models =
    map
      (λ (m : ModelInfo). record {
        id = m.id;
        created = get_or m.created now;
        owned_by = get_or m.owned_by m.provider;
      })
      models
