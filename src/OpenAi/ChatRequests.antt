-- ===== src/OpenAi/ChatRequests.antt =====
-- libs/sirius-compat-openai/src/openai-compat.service.ts: `parseChatCompletionRequest`. `printed`
-- prints a number.
pub mod Acceptance
pub mod Sample
use mathlib.Core.Option
use mathlib.Core.Option.{get_or}
use sirius_gateway.Base.{
  ℕ, ◌+◌, String, Bool, true, false, List, [], ◌∷◌, Option, some, none, if◌then◌else◌, ◌||◌,
  or_else, is_empty, is_some, map, ◌&◌, truthy,
}
use sirius_gateway.Core.Numbers.{Numbers}
use sirius_gateway.Core.Messages.{
  UnifiedAiRequest, UnifiedMessage, UnifiedRole, UnifiedContentPart, Content, UnifiedToolCall,
  UnifiedTool, UnifiedResponseFormat, FormatType, PartType, JsonSchema,
}
use sirius_gateway.OpenAi.Types.{
  OpenAiChatCompletionRequest, OpenAiMessage, OpenAiContentPart, OpenAiToolCallMsg, OpenAiTool,
  OpenAiResponseFormat, UserContent, Texts,
}
use sirius_gateway.OpenAi.ChatMessages.{
  Fault, no_fault, no_object, no_role, no_content, bad_content, map_open_ai_message, fault_of,
}
use sirius_gateway.OpenAi.Errors.{Parsed, parsed, refused, invalid_request, and_then}

pub map_tools : {J : Type 0} → Option (List (OpenAiTool J)) → Option (List (UnifiedTool J))
map_tools none = none
map_tools (some []) = none
map_tools (some (t ∷ ts)) = some (
    map
      (λ (t : OpenAiTool _). record {
        name = t.name;
        description = t.description;
        parameters = t.parameters;
        strict = t.strict;
      })
      (t ∷ ts))

pub map_response_format : {J : Type 0} → OpenAiResponseFormat J → UnifiedResponseFormat J
map_response_format OpenAiResponseFormat.text = record { type = FormatType.text; schema = none }
map_response_format OpenAiResponseFormat.json_object = record {
  type = FormatType.json_object;
  schema = none;
}
map_response_format (OpenAiResponseFormat.json_schema s) = record {
  type = FormatType.json_schema;
  schema = s;
}

pub stop_list : Texts → List String
stop_list (Texts.one s) = s ∷ []
stop_list (Texts.many ss) = ss

module _ (F : Numbers) (printed : ℕ → String) where
  open F use {Num, lt, decimal}

  -- The test and the mapping of message number `index`.
  parse_fault : ℕ → OpenAiMessage → Fault → Parsed UnifiedMessage
  parse_fault index m no_fault = parsed (map_open_ai_message m)
  parse_fault index m no_object =
      invalid_request ("Message at index " & printed index & " must be an object.") none
  parse_fault index m no_role =
      invalid_request ("Message at index " & printed index & " is missing 'role'.") none
  parse_fault index m no_content =
      invalid_request ("Message at index " & printed index & " is missing 'content'.") none
  parse_fault index m bad_content =
      invalid_request ("Message at index " & printed index & " has invalid 'content'.") none

  pub parse_messages : ℕ → List OpenAiMessage → Parsed (List UnifiedMessage)
  unfolding parse_fault fault_of
  parse_messages index [] = parsed []
  parse_messages index (m ∷ ms) =
      and_then (parse_fault index m (fault_of m))
        (λ u. and_then (parse_messages (index + 1) ms) (λ us. parsed (u ∷ us)))

  abbrev pub outside : Num → Num → Option Num → Bool
  outside low high none = false
  outside low high (some x) = lt x low || lt high x

  abbrev pub above_one : Option Num → Bool
  above_one none = false
  above_one (some x) = lt (decimal 1 0) x

  -- The request, once its model and messages are known.
  build_request :
      {J : Type 0}
      → String
      → OpenAiChatCompletionRequest Num J
      → String
      → List UnifiedMessage
      → UnifiedAiRequest Num J
  unfolding map_tools map_response_format stop_list
  build_request request_id body model messages = record {
    request_id = request_id;
    model = model;
    messages = messages;
    stream = get_or body.stream false;
    temperature = body.temperature;
    top_p = body.top_p;
    max_tokens = or_else body.max_completion_tokens body.max_tokens;
    stop = Option.map stop_list body.stop;
    tools = map_tools body.tools;
    tool_choice = body.tool_choice;
    response_format = Option.map map_response_format body.response_format;
    stream_options = body.stream_options;
    user = truthy body.user;
    metadata = none;
  }

  -- The tests of the numbers, in their order.
  check_numbers : {A J : Type 0} → OpenAiChatCompletionRequest Num J → Parsed A → Parsed A
  check_numbers body rest =
      if outside (decimal 0 0) (decimal 2 0) body.temperature
      then invalid_request "The 'temperature' must be between 0 and 2." (some "invalid_temperature")
      else if outside (decimal 0 0) (decimal 1 0) body.top_p
      then invalid_request "The 'top_p' must be between 0 and 1." (some "invalid_top_p")
      else if above_one body.n
      then invalid_request "Multiple completions (n > 1) are not supported by this gateway."
          (some "unsupported_parameter")
      else rest

  model_required : {A : Type 0} → Parsed A
  model_required = invalid_request "The 'model' field is required." (some "model_required")

  parse_with :
      {J : Type 0}
      → OpenAiChatCompletionRequest Num J
      → String
      → Option String
      → Option (List OpenAiMessage)
      → Parsed (UnifiedAiRequest Num J)
  unfolding parse_messages build_request check_numbers model_required
  parse_with body request_id none messages = model_required
  parse_with body request_id (some model) (some (m ∷ ms)) =
      check_numbers body (
        and_then (parse_messages 0 (m ∷ ms))
          (λ us. parsed (build_request request_id body model us)))
  parse_with body request_id (some model) _ =
      invalid_request "The 'messages' field is required and must be a non-empty array."
        (some "messages_required")

  pub parse_chat_completion_request :
      {J : Type 0} → OpenAiChatCompletionRequest Num J → String → Parsed (UnifiedAiRequest Num J)
  unfolding parse_with
  parse_chat_completion_request body request_id =
      parse_with body request_id (truthy body.model) body.messages
