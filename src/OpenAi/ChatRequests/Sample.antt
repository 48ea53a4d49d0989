-- ===== src/OpenAi/ChatRequests/Sample.antt =====
-- libs/sirius-compat-openai/src/openai-compat.service.ts: what `parseChatCompletionRequest` makes of a
-- sample request for a stream.
use sirius_gateway.Base.{String, true, [], ◌∷◌, some, none, ◌≡◌, refl}
use sirius_gateway.Core.Numbers.{Whole, whole_numbers}
use sirius_gateway.Core.Messages.{UnifiedAiRequest}
use sirius_gateway.Samples.{digits}
use sirius_gateway.OpenAi.Types.{OpenAiChatCompletionRequest, OpenAiMessage, UserContent}
use sirius_gateway.OpenAi.Errors.{parsed}
use sirius_gateway.OpenAi.ChatMessages.{map_open_ai_message, fault_of}
use sirius_gateway.OpenAi.ChatRequests.{
  parse_chat_completion_request, parse_with, parse_messages, parse_fault, build_request,
  check_numbers,
}

abbrev pub question : OpenAiMessage
question = OpenAiMessage.user (UserContent.plain "hi") none

abbrev pub streamed_body : OpenAiChatCompletionRequest Whole String
streamed_body = record {
  model = some "gpt-4o";
  messages = some (question ∷ []);
  stream = some true;
  stream_options = none;
  temperature = none;
  top_p = none;
  max_tokens = none;
  max_completion_tokens = none;
  stop = none;
  tools = none;
  tool_choice = none;
  response_format = none;
  n = none;
  user = none;
}

abbrev pub streamed_request : UnifiedAiRequest Whole String
streamed_request = record {
  request_id = "r1";
  model = "gpt-4o";
  messages = map_open_ai_message question ∷ [];
  stream = true;
  temperature = none;
  top_p = none;
  max_tokens = none;
  stop = none;
  tools = none;
  tool_choice = none;
  response_format = none;
  stream_options = none;
  user = none;
  metadata = none;
}

pub parse_chat_completion_request-streamed_body :
    parse_chat_completion_request whole_numbers digits streamed_body "r1" ≡ parsed streamed_request
unfolding parse_chat_completion_request parse_with parse_messages parse_fault fault_of build_request
    check_numbers
parse_chat_completion_request-streamed_body = refl
