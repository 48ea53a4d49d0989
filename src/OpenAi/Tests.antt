-- ===== src/OpenAi/Tests.antt =====
-- libs/sirius-compat-openai/src on sample requests and responses, and the uses of its theorems there.
use sirius_gateway.Base.{ℕ, String, false, [], ◌∷◌, some, none, ◌≡◌}
use sirius_gateway.Core.Numbers.{Whole, whole_numbers}
use sirius_gateway.Core.Messages.{UnifiedAiResponse, UnifiedContent, UnifiedFinishReason}
use sirius_gateway.OpenAi.Types.{
  OpenAiChatCompletionRequest, OpenAiMessage, UserContent, OpenAiResponsesRequest,
  OpenAiResponsesInputItem, ResponsesInput, InputContent, InputRole, OpenAiChoice,
}
use sirius_gateway.OpenAi.Errors.Refusals.{is_parsed}
use sirius_gateway.OpenAi.ChatRequests.{parse_chat_completion_request}
use sirius_gateway.OpenAi.ChatRequests.Acceptance.{
  parse_chat_completion_request-accepts, well_formed,
}
use sirius_gateway.OpenAi.ResponsesRequests.{parse_responses_request}
use sirius_gateway.OpenAi.ResponsesRequests.Turns.{KeepsCalls, parse_responses_request-KeepsCalls}
use sirius_gateway.OpenAi.Replies.{format_chat_completion_response, finish_reason_name}
use sirius_gateway.OpenAi.Replies.Fidelity.{
  text_or_empty, calls_or_empty, format_chat_completion_response_lem,
}
use sirius_gateway.OpenAi.ResponsesReplies.{format_responses_response}
use sirius_gateway.OpenAi.ResponsesReplies.Output.{
  output_text, output_calls, format_responses_response_lem,
}

abbrev digit : ℕ → String
digit n = "0"

abbrev body : OpenAiChatCompletionRequest Whole String
body = record {
  model = some "gpt-4o";
  messages =
      some (OpenAiMessage.user (UserContent.plain "hi") none ∷ OpenAiMessage.missing_role ∷ []);
  stream = none;
  stream_options = none;
  temperature = some (some 1);
  top_p = none;
  max_tokens = none;
  max_completion_tokens = none;
  stop = none;
  tools = none;
  tool_choice = none;
  response_format = none;
  n = none;
  user = none;
}

parse_chat_completion_request-accepts_example :
    is_parsed (parse_chat_completion_request whole_numbers digit body "r1") ≡ false
unfolding well_formed
parse_chat_completion_request-accepts_example =
    parse_chat_completion_request-accepts whole_numbers digit body "r1"

abbrev responses_body : OpenAiResponsesRequest Whole String
responses_body = record {
  model = some "gpt-4o";
  input = ResponsesInput.items (
      OpenAiResponsesInputItem.message InputRole.assistant (InputContent.plain "looking")
      ∷ OpenAiResponsesInputItem.function_call "c1" "find" "{}"
      ∷ OpenAiResponsesInputItem.function_call_output "c1" "none"
      ∷ []);
  instructions = some "be brief";
  stream = none;
  stream_options = none;
  temperature = none;
  top_p = none;
  max_output_tokens = none;
  tools = none;
  tool_choice = none;
  user = none;
  metadata = none;
}

parse_responses_request-KeepsCalls_example :
    KeepsCalls digit
      (record { id = "c1"; name = "find"; arguments = "{}" } ∷ [])
      (parse_responses_request digit responses_body "r1")
parse_responses_request-KeepsCalls_example =
    parse_responses_request-KeepsCalls digit responses_body "r1"

abbrev answer : UnifiedAiResponse Whole
answer = record {
  id = "a1";
  model = "gpt-4o";
  provider = "openai";
  content =
      UnifiedContent.text (some "a")
      ∷ UnifiedContent.tool_call (some (record { id = "c1"; name = "find"; arguments = "{}" }))
      ∷ UnifiedContent.text (some "b")
      ∷ [];
  finish_reason = UnifiedFinishReason.tool_calls;
  usage = record { input_tokens = 3; output_tokens = 2; total_tokens = 5 };
  latency_ms = some 40;
}

format_chat_completion_response_lem_example :
    (c : OpenAiChoice) × ((format_chat_completion_response "u" 7 answer).choices ≡ c ∷ [])
    × (text_or_empty c.content ≡ "ab")
    × (calls_or_empty c.tool_calls ≡ record { id = "c1"; name = "find"; arguments = "{}" } ∷ [])
    × (c.finish_reason ≡ finish_reason_name UnifiedFinishReason.tool_calls)
format_chat_completion_response_lem_example = format_chat_completion_response_lem "u" 7 answer

format_responses_response_lem_example :
    (output_text (format_responses_response digit 7 answer).output ≡ "ab")
    × (output_calls (format_responses_response digit 7 answer).output
        ≡ record { id = "c1"; name = "find"; arguments = "{}" } ∷ [])
format_responses_response_lem_example = format_responses_response_lem digit 7 answer
